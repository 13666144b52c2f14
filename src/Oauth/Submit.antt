-- ===== src/Oauth/Submit.antt =====
-- handleAuthorize and handleAuthorizeSubmit of internal/relay/oauth_authorize.go.
use askrelay.Base.{◌+◌, Ref, Time, true, false, Option, none, some, Result, ok, err}
use askrelay.Envelope.{External}
use askrelay.Store.{
  Db, Device, AuthCode, Outcome, StoreError, active_device_by_id, create_auth_code,
}
use askrelay.Oauth.Signed.{Jwt, Issuer, TokenFault, verify_device_credential}
use askrelay.Oauth.Authorize.{
  Web, AuthzParams, AuthzReject, AuthzReply, bad_form, authorization_failed, login, grants_code,
  code_ttl, parse_authz, reject_authz,
}

-- What the code is bound to.
abbrev pub code_binding : AuthzParams → Ref → Ref → AuthCode
code_binding p person dev = record {
  client_id = p.client_id;
  redirect_uri = p.redirect_uri;
  code_challenge = p.code_challenge;
  resource = p.resource;
  person_id = person;
  device_id = dev;
  client_type = p.client_type;
}

module _ {B : Type 0} (ext : External B) (web : Web) (jwt : Jwt) (i : Issuer) where
  -- `handleAuthorize`
  unfoldable pub handle_authorize : Ref → AuthzParams → Db B → AuthzReply
  unfolding parse_authz reject_authz
  handle_authorize base v db = elim (parse_authz web base v db) [
    | err rej ↦ reject_authz web rej v.state
    | ok p ↦ login p false
  ]

  -- What follows `CreateAuthCode`.
  unfoldable pub answer_coded : AuthzParams → Ref → Outcome B (Unit {0}) → AuthzReply × Db B
  answer_coded p code (err e, db) = (authorization_failed, db)
  answer_coded p code (ok _, db) = (grants_code p.redirect_uri code p.state, db)

  -- The random code is an argument, `none` where the random source fails.
  unfoldable pub grant_code : AuthzParams → Ref → Ref → Option Ref → Time → Db B → AuthzReply × Db B
  unfolding answer_coded
  grant_code p person dev none now db = (authorization_failed, db)
  grant_code p person dev (some code) now db =
      answer_coded p code
        (create_auth_code ext code (code_binding p person dev) (now + code_ttl) now db)

  -- What follows `ActiveDeviceByID`.
  unfoldable pub answer_device :
      AuthzParams
      → Ref
      → Ref
      → Option Ref
      → Time
      → Db B
      → Result StoreError Device
      → AuthzReply × Db B
  unfolding grant_code
  answer_device p person dev opaque now db (err e) = (login p true, db)
  answer_device p person dev opaque now db (ok d) = grant_code p person dev opaque now db

  -- What follows `VerifyDeviceCredential`.
  unfoldable pub answer_credential :
      AuthzParams → Option Ref → Time → Db B → Result TokenFault (Ref × Ref) → AuthzReply × Db B
  unfolding answer_device
  answer_credential p opaque now db (err e) = (login p true, db)
  answer_credential p opaque now db (ok (person, dev)) =
      answer_device p person dev opaque now db (active_device_by_id dev db)

  -- What follows `parseAuthz`.
  unfoldable pub answer_parsed :
      Ref → Ref → Option Ref → Time → Db B → Result AuthzReject AuthzParams → AuthzReply × Db B
  unfolding answer_credential reject_authz
  answer_parsed state credential opaque now db (err rej) = (reject_authz web rej state, db)
  answer_parsed state credential opaque now db (ok p) =
      answer_credential p opaque now db (verify_device_credential jwt i credential now)

  -- `handleAuthorizeSubmit`, with the credential of the form; `none` is a body that is no form or
  -- too long.
  unfoldable pub handle_authorize_submit :
      Ref → Option (AuthzParams × Ref) → Option Ref → Time → Db B → AuthzReply × Db B
  unfolding answer_parsed
  handle_authorize_submit base none opaque now db = (bad_form, db)
  handle_authorize_submit base (some (v, credential)) opaque now db =
      answer_parsed v.state credential opaque now db (parse_authz web base v db)
