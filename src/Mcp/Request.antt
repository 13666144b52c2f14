-- ===== src/Mcp/Request.antt =====
-- A request of an agent: the bearer middleware of internal/relay/oauth/prm.go in front of
-- `HTTPHandler` of internal/relay/mcp/handler.go.
use askrelay.Base.{
  ℕ, Ref, no_id, Time, false, Option, none, some, Result, Result-cases, ok, err, Option-cases, ◌⊎◌,
  inl, inr, ◌==◌, ◌≡◌, ap, if◌then◌else◌, arith,
}
use askrelay.Envelope.{External}
use askrelay.Store.{Db}
use askrelay.History.{Settings}
use askrelay.Oauth.{Jwt, Issuer, AccessClaims, TokenFault, is_access, parse, verify, claimed_access}
use askrelay.Mcp.Tools.{ToolCall, serve}
use askrelay.Mcp.Acts.{Acts, serve-Acts}

-- `auth.TokenInfo`: the user, the expiry and the client type.
pub record TokenInfo : Type 0 where
  pub user_id : Ref
  pub expiration : ℕ
  pub client_type : Ref

module _ (jwt : Jwt) (i : Issuer) where
  -- The end of the verifier of `NewBearerMiddleware`.
  abbrev pub info_of : Result TokenFault AccessClaims → Option TokenInfo
  info_of (err e) = none
  info_of (ok c) =
      if is_access c.use_claim
      then some
          (record { user_id = c.subject; expiration = c.expires_at; client_type = c.client_type })
      else none

  -- The verifier of `NewBearerMiddleware`: `none` is answered with 401. The library that calls it
  -- looks at the expiry once more.
  unfoldable pub bearer_info : Ref → Time → Option TokenInfo
  bearer_info token now = info_of (parse jwt i token now)

-- `PersonFromContext`: the person and the client type.
unfoldable pub person_from_context : Option TokenInfo → Option (Ref × Ref)
person_from_context none = none
person_from_context (some info) =
    if info.user_id == no_id then none else some (info.user_id, info.client_type)

module _ {B : Type 0} (ext : External B) where
  -- `getServer`: without a person there is a server with no tool.
  unfoldable pub serve_for : Option (Ref × Ref) → Time → ToolCall → Db B → Db B
  unfolding serve
  serve_for none now tool db = db
  serve_for (some (person, client)) now tool db = serve ext person now tool db

  -- A tool call with a bearer token: the database after it.
  unfoldable pub handle_mcp : Jwt → Issuer → Ref → Time → ToolCall → Db B → Db B
  unfolding bearer_info person_from_context serve_for
  handle_mcp jwt i token now tool db =
      serve_for (person_from_context (bearer_info jwt i token now)) now tool db

module _ {B : Type 0} (ext : External B) (c : Settings) (jwt : Jwt) (i : Issuer) where
  bearer-verified :
      (token : Ref) (now : Time) (person client : Ref)
      → person_from_context (bearer_info jwt i token now) ≡ some (person, client)
      → (verify jwt i token now ≡ ok (person, client)) × ((person == no_id) ≡ false)
  unfolding person_from_context bearer_info verify claimed_access
  bearer-verified token now person client h = elim (Result-cases (parse jwt i token now)) [
    | inl (claims, e) ↦ (ground arith, ground arith)
    | inr (v, e) ↦ absurd (ground arith)
  ]

  -- A tool call with a bearer token leaves the database as it was, or the token is an access token
  -- that is verified as some person's, and the database is as some calls of the store's methods
  -- leave it, one after the other, each made at this time and in that person's name.
  pub request-Acts :
      (token : Ref) (now : Time) (tool : ToolCall) (db : Db B)
      → (handle_mcp ext jwt i token now tool db ≡ db)
        ⊎ ((person : Ref) × (client : Ref) × (verify jwt i token now ≡ ok (person, client))
            × ((person == no_id) ≡ false)
            × Acts ext c person now db (handle_mcp ext jwt i token now tool db))
  unfolding handle_mcp serve_for
  request-Acts token now tool db =
      elim (Option-cases (person_from_context (bearer_info jwt i token now))) [
        | inl e ↦ inl (ap (λ o. serve_for ext o now tool db) e)
        | inr ((person, client), e) ↦
            let (verified, named) = bearer-verified token now person client e in
            inr (
              person,
              client,
              verified,
              named,
              rw (ap (λ o. serve_for ext o now tool db) e) (serve-Acts ext c person now tool db),
            )
      ]
