-- ===== src/Server.antt =====
-- The parts of the server that touch the store: the enrolment endpoint of
-- internal/relay/enroll.go, and the sweeper of internal/relay/server.go.
mod Endpoint
pub mod Config
pub mod Connects
unfoldable pub use Endpoint.*
