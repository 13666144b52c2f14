-- ===== src/Mcp.antt =====
-- The tools that the relay offers to an agent over MCP: internal/relay/mcp. A tool is bound to
-- the person whom the bearer token names.
mod Reply
mod Send
mod Verdicts
pub mod Tools
pub mod Acts
pub mod Held
pub mod Request
pub mod Wait
pub mod Reading
pub mod Unseen
pub mod Spotlight
pub use Reply.*
unfoldable pub use Send.*
unfoldable pub use Verdicts.*
