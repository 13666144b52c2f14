-- ===== src/Hub.antt =====
-- The registry of live daemon sockets and what the relay does with one: internal/relay/ws.go.
mod Registry
mod Socket
pub mod Refine
pub mod Severed
pub mod Drained
pub mod Wakes
unfoldable pub use Registry.*
unfoldable pub use Socket.*
