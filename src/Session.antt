-- ===== src/Session.antt =====
-- internal/milter/session_protocol.go and session_identity.go, with internal/mailauth/exact_message.go.
pub mod Exact
pub mod Address
pub mod State
pub mod Handlers
pub mod Commands
