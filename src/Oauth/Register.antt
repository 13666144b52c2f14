-- ===== src/Oauth/Register.antt =====
-- Registration of clients: internal/relay/oauth_dcr.go.
use askrelay.Base.{
  Ref, Time, codes, same_text, Bool, true, false, not, ◌&&◌, ◌||◌, Option, none, some, List, [],
  ◌∷◌, Result, ok, err, if◌then◌else◌,
}
use askrelay.Base.Table.{exists}
use askrelay.Store.{Db, Outcome, register_client}
use askrelay.Oauth.Authorize.{Url, Web, is_blank}

-- The two errors of RFC 7591 that the endpoint answers.
pub data RegisterError : Type 0 where
  invalid_client_metadata invalid_redirect_uri : RegisterError

pub record ClientMetadata : Type 0 where
  pub redirect_uris : List Ref
  pub client_name : Ref

abbrev pub is_loopback : Url → Bool
is_loopback u =
    same_text u.hostname (codes "localhost")
    || same_text u.hostname (codes "127.0.0.1")
    || same_text u.hostname (codes "::1")

-- `validRedirectURI` behind `url.Parse`.
unfoldable pub valid_url : Option Url → Bool
valid_url none = false
valid_url (some u) =
    if not u.is_abs || not (is_blank u.fragment)
    then false
    else if same_text u.scheme (codes "https")
    then not (is_blank u.host)
    else same_text u.scheme (codes "http") && is_loopback u

-- `validRedirectURI`
unfoldable pub valid_redirect_uri : Web → Ref → Bool
unfolding valid_url
valid_redirect_uri web raw = valid_url (web.parse_url raw)

abbrev has_none : List Ref → Bool
has_none [] = true
has_none (u ∷ us) = false

module _ {B : Type 0} (web : Web) where
  -- What follows `RegisterClient`.
  unfoldable pub answer_registered : Outcome B Ref → Result RegisterError Ref × Db B
  answer_registered (err e, db) = (err invalid_client_metadata, db)
  answer_registered (ok id, db) = (ok id, db)

  -- `handleRegister`, with the fresh id of the client; `none` is a body that does not decode.
  unfoldable pub handle_register :
      Option ClientMetadata → Ref → Time → Db B → Result RegisterError Ref × Db B
  unfolding answer_registered valid_redirect_uri
  handle_register none fresh now db = (err invalid_client_metadata, db)
  handle_register (some meta) fresh now db =
      if has_none meta.redirect_uris
      then (err invalid_redirect_uri, db)
      else if exists (λ u. not (valid_redirect_uri web u)) meta.redirect_uris
      then (err invalid_redirect_uri, db)
      else answer_registered (register_client meta.redirect_uris meta.client_name now fresh db)
