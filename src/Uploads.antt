-- ===== src/Uploads.antt =====
-- Uploaded archives of cmd/autoscan-server: their extraction (setup.go, sandbox_handler.go) and the
-- sources of the submissions in them (sandbox_handler.go).
pub mod Paths
pub mod Disk
pub mod Extract
pub mod Sources
pub mod Submissions
