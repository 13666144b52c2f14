-- ===== src/Oauth.antt =====
-- The relay's authorization server: internal/relay/oauth, and its endpoints in
-- internal/relay/oauth_authorize.go, oauth_token.go and oauth_dcr.go.
mod Signed
mod Token
mod Authorize
mod Submit
mod Register
pub mod Spent
pub mod Issued
pub mod Uses
pub mod Registered
pub mod Vetted
pub mod Trusted
unfoldable pub use Signed.*
unfoldable pub use Token.*
unfoldable pub use Authorize.*
unfoldable pub use Submit.*
unfoldable pub use Register.*
