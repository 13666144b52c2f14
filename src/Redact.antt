-- ===== src/Redact.antt =====
-- Redaction of secrets before an envelope is signed: internal/redact.
mod Rules
mod Hook
pub mod Replaced
pub mod Closed
unfoldable pub use Rules.*
unfoldable pub use Hook.*
