-- ===== src/Oauth/Token.antt =====
-- The token endpoint: internal/relay/oauth_token.go.
use askrelay.Base.{
  ℕ, ◌+◌, ◌*◌, ◌/◌, Ref, no_id, Time, Duration, seconds, Bool, not, ◌&&◌, ◌||◌, Option, none, some,
  ◌==◌, Result, ok, err, if◌then◌else◌,
}
use askrelay.Envelope.{External}
use askrelay.Store.{
  Db, Device, AuthCode, RefreshGrant, Outcome, StoreError, auth_code_by_code, consume_auth_code,
  consume_refresh_token, active_device_by_id, create_refresh_token,
}
use askrelay.Oauth.Signed.{Jwt, Issuer, mint, verify_pkce}

-- `refreshTTL`
abbrev pub refresh_ttl : Duration
refresh_ttl = seconds (30 * 24 * 3600)

-- "authorization_code", "refresh_token", or any other `grant_type`.
pub data GrantType : Type 0 where
  authorization_code refresh_token : GrantType
  other_grant : Ref → GrantType

-- The form of a token request, an empty string for a missing value.
pub record TokenForm : Type 0 where
  pub grant_type : GrantType
  pub code : Ref
  pub code_verifier : Ref
  pub client_id : Ref
  pub redirect_uri : Ref
  pub refresh : Ref

-- The errors of RFC 6749 that the endpoint answers.
pub data TokenError : Type 0 where
  invalid_request unsupported_grant_type invalid_grant server_error : TokenError

pub record TokenResponse : Type 0 where
  pub access_token : Ref
  pub expires_in : ℕ
  pub refresh_token : Ref

abbrev pub TokenReply : Type 0 → Type 0
TokenReply B = Result TokenError TokenResponse × Db B

-- The binding of a code, as that of a refresh token.
abbrev pub grant_of : AuthCode → RefreshGrant
grant_of b = record {
  client_id = b.client_id;
  person_id = b.person_id;
  device_id = b.device_id;
  client_type = b.client_type;
  resource = b.resource;
}

module _ {B : Type 0} (ext : External B) (jwt : Jwt) (i : Issuer) where
  -- What follows `CreateRefreshToken`.
  unfoldable pub answer_stored : Ref → Ref → Outcome B (Unit {0}) → TokenReply B
  answer_stored bearer refresh (err e, db) = (err server_error, db)
  answer_stored bearer refresh (ok _, db) = (
    ok (record { access_token = bearer; expires_in = i.ttl / 1000000000; refresh_token = refresh }),
    db,
  )

  -- `issueTokens` behind the check of the device: the access token, and the random token, which is
  -- an argument here and `none` where the random source fails.
  unfoldable pub store_tokens : RefreshGrant → Option Ref → Option Ref → Time → Db B → TokenReply B
  unfolding answer_stored
  store_tokens g none opaque now db = (err server_error, db)
  store_tokens g (some bearer) none now db = (err server_error, db)
  store_tokens g (some bearer) (some refresh) now db =
      answer_stored bearer refresh (create_refresh_token ext refresh g (now + refresh_ttl) now db)

  unfoldable pub tokens_for :
      RefreshGrant → Option Ref → Time → Db B → Result StoreError Device → TokenReply B
  unfolding store_tokens
  tokens_for g opaque now db (err e) = (err invalid_grant, db)
  tokens_for g opaque now db (ok d) =
      store_tokens g (mint jwt i g.person_id g.client_type now) opaque now db

  -- `issueTokens`
  unfoldable pub issue_tokens : RefreshGrant → Option Ref → Time → Db B → TokenReply B
  unfolding tokens_for
  issue_tokens g opaque now db = tokens_for g opaque now db (active_device_by_id g.device_id db)

  -- What follows `ConsumeAuthCode`.
  unfoldable pub answer_claimed : AuthCode → Option Ref → Time → Outcome B (Unit {0}) → TokenReply B
  unfolding issue_tokens
  answer_claimed b opaque now (err e, db) = (err invalid_grant, db)
  answer_claimed b opaque now (ok _, db) = issue_tokens (grant_of b) opaque now db

  -- `b.ClientID != clientID || b.RedirectURI != redirectURI || !oauth.VerifyPKCE(…)`
  abbrev pub is_mismatch : (Ref → Ref) → TokenForm → AuthCode → Bool
  is_mismatch s256 form b =
      not (b.client_id == form.client_id)
      || not (b.redirect_uri == form.redirect_uri)
      || not (verify_pkce s256 b.code_challenge form.code_verifier)

  -- What follows `AuthCodeByCode`.
  unfoldable pub answer_bound :
      (Ref → Ref) → TokenForm → Option Ref → Time → Db B → Result StoreError AuthCode → TokenReply B
  unfolding answer_claimed
  answer_bound s256 form opaque now db (err e) = (err invalid_grant, db)
  answer_bound s256 form opaque now db (ok b) =
      if is_mismatch s256 form b
      then (err invalid_grant, db)
      else answer_claimed b opaque now (consume_auth_code ext form.code now db)

  -- `tokenFromCode`
  unfoldable pub token_from_code : (Ref → Ref) → TokenForm → Option Ref → Time → Db B → TokenReply B
  unfolding answer_bound
  token_from_code s256 form opaque now db =
      if form.code == no_id
        || form.code_verifier == no_id
        || form.client_id == no_id
        || form.redirect_uri == no_id
      then (err invalid_request, db)
      else answer_bound s256 form opaque now db (auth_code_by_code ext form.code now db)

  -- What follows `ConsumeRefreshToken`.
  unfoldable pub answer_refreshed :
      TokenForm → Option Ref → Time → Outcome B RefreshGrant → TokenReply B
  unfolding issue_tokens
  answer_refreshed form opaque now (err e, db) = (err invalid_grant, db)
  answer_refreshed form opaque now (ok g, db) =
      if not (form.client_id == no_id) && not (form.client_id == g.client_id)
      then (err invalid_grant, db)
      else issue_tokens g opaque now db

  -- `tokenFromRefresh`
  unfoldable pub token_from_refresh : TokenForm → Option Ref → Time → Db B → TokenReply B
  unfolding answer_refreshed
  token_from_refresh form opaque now db =
      if form.refresh == no_id
      then (err invalid_request, db)
      else answer_refreshed form opaque now (consume_refresh_token ext form.refresh now db)

  unfoldable pub token_by :
      GrantType → (Ref → Ref) → TokenForm → Option Ref → Time → Db B → TokenReply B
  unfolding token_from_code token_from_refresh
  token_by authorization_code s256 form opaque now db = token_from_code s256 form opaque now db
  token_by refresh_token s256 form opaque now db = token_from_refresh form opaque now db
  token_by (other_grant n) s256 form opaque now db = (err unsupported_grant_type, db)

  -- `handleToken`, where `none` is a body that is no form or too long.
  unfoldable pub handle_token :
      (Ref → Ref) → Option TokenForm → Option Ref → Time → Db B → TokenReply B
  unfolding token_by
  handle_token s256 none opaque now db = (err invalid_request, db)
  handle_token s256 (some form) opaque now db = token_by form.grant_type s256 form opaque now db
