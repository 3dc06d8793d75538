-- ===== src/Server.antt =====
-- The server's own state, of cmd/autoscan-server: progress of runs (progress.go), activity (idle.go),
-- run ids (runs.go), background jobs (grade_async.go), and the bounded buffer of
-- internal/engine/executor.go.
pub mod Progress
pub mod Activity
pub mod Jobs
