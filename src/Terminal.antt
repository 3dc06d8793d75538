-- ===== src/Terminal.antt =====
-- The terminals of internal/terminal: grants (token.go) and sessions (session.go).
pub mod Token
pub mod Sessions
