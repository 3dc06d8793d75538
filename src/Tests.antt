-- ===== src/Tests.antt =====
-- Concrete inputs for the theorems, and small runs of the definitions.
mod Matching
mod Verdicts
mod State
mod Scans
mod Uploads
mod Jobs
mod Runs
