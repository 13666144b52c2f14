-- ===== src/Tests.antt =====
-- Runs of the relay on small databases.
mod Data
mod Gate
mod Store
mod History
mod Envelope
mod Mcp
mod Oauth
mod Signed
mod Hub
mod Redact
mod Migrate
