-- ===== src/Lfs.antt =====
-- Git LFS: internal/http/git_lfs.go and internal/http/git_lfs_storage.go.
pub mod Store
pub mod Stored
pub mod Protocol
pub mod Handler
pub mod Upload
pub mod Refusal
