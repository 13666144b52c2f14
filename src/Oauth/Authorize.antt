-- ===== src/Oauth/Authorize.antt =====
-- The authorization endpoint: internal/relay/oauth_authorize.go.
use askrelay.Base.{
  Ref, no_id, Duration, seconds, Text, codes, same_text, Bool, true, false, not, ◌&&◌, ◌||◌, Option,
  none, some, List, [], ◌∷◌, ◌==◌, Result, ok, err, if◌then◌else◌,
}
use askrelay.Base.Table.{exists}
use askrelay.Store.{Db, OauthClient, StoreError, client_unknown, client_by_id}

-- A parsed URL: its scheme, `IsAbs()`, its host with and without the port, and its fragment.
pub record Url : Type 0 where
  pub scheme : Text
  pub is_abs : Bool
  pub host : Text
  pub hostname : Text
  pub fragment : Text

-- What the endpoints take from outside: `url.Parse`, `strings.ToLower`, and the numbers of the
-- client types "claude.ai" and "chatgpt".
pub record Web : Type 0 where
  pub parse_url : Ref → Option Url
  pub lower : Text → Text

abbrev pub claude_client : Ref
claude_client = 1

abbrev pub chatgpt_client : Ref
chatgpt_client = 4

-- `codeTTL`
abbrev pub code_ttl : Duration
code_ttl = seconds 60

-- `strings.HasPrefix` and `strings.Contains`, with the pattern first.
abbrev pub has_prefix : Text → Text → Bool
has_prefix [] s = true
has_prefix (c ∷ p) [] = false
has_prefix (c ∷ p) (d ∷ s) = if c == d then has_prefix p s else false

abbrev pub contains : Text → Text → Bool
contains p [] = has_prefix p []
contains p (d ∷ s) = has_prefix p (d ∷ s) || contains p s

-- `strings.HasSuffix`, with the pattern first.
abbrev pub has_suffix : Text → Text → Bool
has_suffix p [] = same_text [] p
has_suffix p (d ∷ s) = same_text (d ∷ s) p || has_suffix p s

-- `s == ""`
abbrev pub is_blank : Text → Bool
is_blank s = same_text s []

-- The values of a request, an empty string for a missing one. `is_code` is `ResponseType ==
-- "code"`, and `is_s256` is `CodeChallengeMethod == "S256"`.
pub record AuthzParams : Type 0 where
  pub is_code : Bool
  pub client_id : Ref
  pub redirect_uri : Ref
  pub code_challenge : Ref
  pub is_s256 : Bool
  pub state : Ref
  pub resource : Ref
  pub scope : Ref
  pub client_type : Ref

-- The errors that go back to a redirect URI.
pub data AuthzError : Type 0 where
  unsupported_response_type invalid_request invalid_target : AuthzError

-- `authzReject`: a page for a URI that is not trusted, or an error for one that is.
pub data AuthzReject : Type 0 where
  missing_uri invalid_client failed : AuthzReject
  sent_back : Ref → AuthzError → AuthzReject

-- What the browser gets: the page of an error, a redirect with an error and the state, the login
-- page (on a retry with a message), or a redirect with a code and the state.
pub data AuthzReply : Type 0 where
  bad_form bad_uri authorization_failed : AuthzReply
  inline : AuthzReject → AuthzReply
  redirects : Ref → AuthzError → Ref → AuthzReply
  login : AuthzParams → Bool → AuthzReply
  grants_code : Ref → Ref → Ref → AuthzReply

-- The checks behind the trust in the redirect URI.
abbrev pub check_protocol : Ref → AuthzParams → Result AuthzReject AuthzParams
check_protocol base p =
    if not p.is_code
    then err (sent_back p.redirect_uri unsupported_response_type)
    else if p.code_challenge == no_id || not p.is_s256
    then err (sent_back p.redirect_uri invalid_request)
    else if not (p.resource == no_id) && not (p.resource == base)
    then err (sent_back p.redirect_uri invalid_target)
    else ok p

abbrev pub check_resolved :
    Ref → AuthzParams → Result StoreError (Option Ref) → Result AuthzReject AuthzParams
check_resolved base p (err e) = err failed
check_resolved base p (ok none) = err invalid_client
check_resolved base p (ok (some t)) = check_protocol base (record p { client_type = t })

module _ (web : Web) where
  -- `clientTypeFor` behind `strings.ToLower`.
  abbrev pub client_type_of : Text → Ref
  client_type_of h =
      if same_text h (codes "claude.ai") || has_suffix (codes ".claude.ai") h
      then claude_client
      else if contains (codes "chatgpt.com") h || contains (codes "openai.com") h
      then chatgpt_client
      else no_id

  -- `clientTypeFor`
  unfoldable pub client_type_for : Text → Ref
  client_type_for host = client_type_of (web.lower host)

  -- `cu.Scheme == "https" && cu.Host != ""`, of a client id that parses.
  abbrev pub is_cimd : Option Url → Bool
  is_cimd none = false
  is_cimd (some u) = same_text u.scheme (codes "https") && not (is_blank u.host)

  -- `ru.Scheme == cu.Scheme && ru.Host == cu.Host`
  abbrev pub same_origin : Url → Option Url → Bool
  same_origin u none = false
  same_origin u (some v) = same_text u.scheme v.scheme && same_text u.host v.host

  -- `slices.Contains`
  abbrev pub lists_uri : Ref → List Ref → Bool
  lists_uri uri uris = exists (λ u. u == uri) uris

  -- The end of `resolveClient`, for a registered client: `ok none` is `ok=false`.
  unfoldable pub resolve_registered :
      Ref → Url → Result StoreError OauthClient → Result StoreError (Option Ref)
  unfolding client_type_for
  resolve_registered uri u (err client_unknown) = ok none
  resolve_registered uri u (err e) = err e
  resolve_registered uri u (ok c) =
      ok (if lists_uri uri c.redirect_uris then some (client_type_for u.host) else none)

  module _ {B : Type 0} where
    unfoldable pub resolve_parsed : Ref → Ref → Option Url → Db B → Result StoreError (Option Ref)
    unfolding resolve_registered client_type_for
    resolve_parsed client uri none db = ok none
    resolve_parsed client uri (some u) db =
        if not u.is_abs
        then ok none
        else if is_cimd (web.parse_url client)
        then ok
            (if same_origin u (web.parse_url client) then some (client_type_for u.host) else none)
        else resolve_registered uri u (client_by_id client db)

    -- `resolveClient`
    unfoldable pub resolve_client : Ref → Ref → Db B → Result StoreError (Option Ref)
    unfolding resolve_parsed
    resolve_client client uri db = resolve_parsed client uri (web.parse_url uri) db

    -- `parseAuthz`, for the relay's base URL.
    unfoldable pub parse_authz : Ref → AuthzParams → Db B → Result AuthzReject AuthzParams
    unfolding resolve_client
    parse_authz base v db =
        let p = record v { client_type = no_id } in
        if p.client_id == no_id || p.redirect_uri == no_id
        then err missing_uri
        else check_resolved base p (resolve_client p.client_id p.redirect_uri db)

  abbrev pub back_to : Option Url → Ref → AuthzError → Ref → AuthzReply
  back_to none uri e state = bad_uri
  back_to (some u) uri e state = redirects uri e state

  -- `rejectAuthz`
  unfoldable pub reject_authz : AuthzReject → Ref → AuthzReply
  reject_authz (sent_back uri e) state =
      if uri == no_id then inline (sent_back uri e) else back_to (web.parse_url uri) uri e state
  reject_authz rej state = inline rej
