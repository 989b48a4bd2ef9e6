-- ===== src/Postgres.antt =====
-- The PostgreSQL stores of internal/http/postgres.go: the tables and statements, the session with its
-- transactions, and the operations of the two stores.
pub mod Tables
pub mod Session
pub mod Store
pub mod Rows
pub mod Represents
pub mod Agree
pub mod AgreeTokens
pub mod AgreeAccess
pub mod Refinement
pub mod Idempotency
pub mod Atomic
pub mod Rollback
pub mod Collision
pub mod Minted
pub mod Minting
