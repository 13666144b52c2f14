-- ===== src/Oauth/Vetted.antt =====
-- Which requests `parseAuthz` of internal/relay/oauth_authorize.go lets through, and to whom it sends
-- the others back.
use askrelay.Base.{
  Ref, no_id, Bool-cases, true, false, not, ◌&&◌, ◌||◌, Option-cases, none, some, Result,
  Result-cases, ok, err, ◌⊎◌, inl, inr, ◌≡◌, refl, ◌==◌, arith, ap, ==→eq, same_text, Text, codes,
  ℕ, [], ◌∷◌,
}
use askrelay.Base.Table.{find, exists}
use askrelay.Store.{Db, OauthClient, client_by_id}
use askrelay.Oauth.Authorize.{
  Url, Web, AuthzParams, AuthzReject, sent_back, is_cimd, same_origin, client_type_for,
  resolve_registered, resolve_parsed, resolve_client, check_protocol, parse_authz,
}

same_text→eq : (s t : Text) → same_text s t ≡ true → s ≡ t
same_text→eq [] [] h = refl
same_text→eq [] (d ∷ t) h = absurd (ground arith)
same_text→eq (c ∷ s) [] h = absurd (ground arith)
same_text→eq (c ∷ s) (d ∷ t) h = elim (Bool-cases (c == d)) [
  | inl same ↦ rw (==→eq c d same) (ap (λ r. d ∷ r) (same_text→eq s t (ground arith)))
  | inr other ↦ absurd (ground arith)
]

-- The origin of an https URL with a host, as the redirect URI's.
abbrev pub SameOrigin : Url → Url → Type 0
SameOrigin u own =
    (own.scheme ≡ codes "https")
    × ((n : ℕ) × (rest : Text) × (own.host ≡ n ∷ rest))
    × (u.scheme ≡ own.scheme)
    × (u.host ≡ own.host)

filled_host : (s : Text) → same_text s [] ≡ false → (n : ℕ) × (rest : Text) × (s ≡ n ∷ rest)
filled_host [] h = absurd (ground arith)
filled_host (n ∷ rest) h = (n, rest, refl)

own-SameOrigin :
    (web : Web) (u own : Url)
    → is_cimd web (some own) ≡ true
    → same_origin web u (some own) ≡ true
    → SameOrigin u own
own-SameOrigin web u own https same = (
  same_text→eq own.scheme (codes "https") (ground arith),
  filled_host own.host (ground arith),
  same_text→eq u.scheme own.scheme (ground arith),
  same_text→eq u.host own.host (ground arith),
)

module _ {B : Type 0} (web : Web) where
  -- The parsed redirect URI is absolute, and has the origin of the client's https URL, or the
  -- client is registered with it.
  abbrev pub TrustedAs : Ref → Ref → Url → Db B → Type 0
  TrustedAs client uri u db =
      (web.parse_url uri ≡ some u)
      × (u.is_abs ≡ true)
      × (((own : Url) × (web.parse_url client ≡ some own) × SameOrigin u own)
          ⊎ ((c : OauthClient) × (find (λ c. c.client_id == client) db.clients ≡ some c)
              × (exists (λ r. r == uri) c.redirect_uris ≡ true)))

  abbrev pub Trusted : Ref → Ref → Db B → Type 0
  Trusted client uri db = (u : Url) × TrustedAs client uri u db

  registered-Trusted :
      (client uri t : Ref) (u : Url) (db : Db B)
      → resolve_registered web uri u (client_by_id client db) ≡ ok (some t)
      → ((c : OauthClient) × (find (λ c. c.client_id == client) db.clients ≡ some c)
          × (exists (λ r. r == uri) c.redirect_uris ≡ true))
        × (t ≡ client_type_for web u.host)
  unfolding resolve_registered client_by_id
  registered-Trusted client uri t u db h =
      elim (Option-cases (find (λ c. c.client_id == client) db.clients)) [
        | inl absent ↦ absurd (ground arith)
        | inr (c, e) ↦ ((c, e, ground arith), ground arith)
      ]

  resolve-Trusted :
      (client uri t : Ref) (db : Db B)
      → resolve_client web client uri db ≡ ok (some t)
      → (u : Url) × TrustedAs client uri u db × (t ≡ client_type_for web u.host)
  unfolding resolve_client resolve_parsed
  resolve-Trusted client uri t db h = elim (Option-cases (web.parse_url uri)) [
    | inl e ↦ absurd (ground arith)
    | inr (u, e) ↦ elim (Option-cases (web.parse_url client)) [
      | inl no_url ↦
          let (listed, kind) = registered-Trusted client uri t u db (ground arith) in
          (u, (e, ground arith, inr listed), kind)
      | inr (own, f) ↦ elim (Bool-cases (is_cimd web (some own))) [
        | inl cimd ↦
            let same : same_origin web u (some own) ≡ true = (ground arith) in
            (u, (e, ground arith, inl (own, f, own-SameOrigin web u own cimd same)), ground arith)
        | inr dcr ↦
            let (listed, kind) = registered-Trusted client uri t u db (ground arith) in
            (u, (e, ground arith, inr listed), kind)
      ]
    ]
  ]

  -- What `parse_authz` lets through or sends back is for a trusted redirect URI.
  abbrev pub Vetted : AuthzParams → Db B → Result AuthzReject AuthzParams → Type 0
  Vetted v db (ok p) =
      Trusted v.client_id v.redirect_uri db
      × (p.client_id ≡ v.client_id)
      × (p.redirect_uri ≡ v.redirect_uri)
      × (p.code_challenge ≡ v.code_challenge)
      × ((v.code_challenge == no_id) ≡ false)
      × (v.is_s256 ≡ true)
      × (p.state ≡ v.state)
      × (p.resource ≡ v.resource)
      × ((u : Url) × (web.parse_url v.redirect_uri ≡ some u)
          × (p.client_type ≡ client_type_for web u.host))
  Vetted v db (err (sent_back uri e)) =
      Trusted v.client_id v.redirect_uri db × (uri ≡ v.redirect_uri)
  Vetted v db (err _) = Unit

  check-Vetted :
      (base t : Ref) (v : AuthzParams) (db : Db B)
      → (u : Url) × TrustedAs v.client_id v.redirect_uri u db × (t ≡ client_type_for web u.host)
      → Vetted v db (check_protocol base (record v { client_type = t }))
  check-Vetted base t v db (u, h, kind) = elim (Bool-cases v.is_code) [
    | inr bad ↦ rw bad ((u, h), refl)
    | inl code ↦ elim (Bool-cases (v.code_challenge == no_id || not v.is_s256)) [
      | inl bad ↦ rw (code, bad) ((u, h), refl)
      | inr pkce ↦ elim (Bool-cases (not (v.resource == no_id) && not (v.resource == base))) [
        | inl bad ↦ rw (code, pkce, bad) ((u, h), refl)
        | inr fits ↦
            rw (code, pkce, fits)
              ((u, h), refl, refl, refl, ground arith, ground arith, refl, refl, (u, h.0, kind))
      ]
    ]
  ]

  pub parse-Vetted :
      (base : Ref) (v : AuthzParams) (db : Db B) → Vetted v db (parse_authz web base v db)
  unfolding parse_authz
  parse-Vetted base v db = elim (Bool-cases (v.client_id == no_id || v.redirect_uri == no_id)) [
    | inl bad ↦ rw bad tt
    | inr named ↦ elim (Result-cases (resolve_client web v.client_id v.redirect_uri db)) [
      | inr (e, q) ↦ rw (named, q) tt
      | inl (none, q) ↦ rw (named, q) tt
      | inl (some t, q) ↦
          rw (named, q)
            (check-Vetted base t v db (resolve-Trusted v.client_id v.redirect_uri t db q))
    ]
  ]
