-- ===== src/Tests.antt =====
-- The definitions on concrete inputs: constants, and one module for each component.
pub mod Texts
pub mod Requests
pub mod Stores
pub mod Listings
pub mod Databases
pub mod Objects
pub mod Settings
