-- ===== src/Store.antt =====
-- The relay's store: internal/relay/store. Every method of `Store` that writes is one transaction,
-- from the database to the result and the database after it.
mod Schema
mod Insert
pub mod Identity
pub mod Message
pub mod Drafts
pub mod Approval
pub mod Read
pub mod Retention
pub mod Oauth
pub mod Migrate
unfoldable pub use Schema.*
unfoldable pub use Identity.*
unfoldable pub use Message.*
unfoldable pub use Drafts.*
unfoldable pub use Approval.*
unfoldable pub use Read.*
unfoldable pub use Retention.*
unfoldable pub use Oauth.*
