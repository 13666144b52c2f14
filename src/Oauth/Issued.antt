-- ===== src/Oauth/Issued.antt =====
-- When the token endpoint of internal/relay/oauth_token.go gives tokens out, and for whom.
use askrelay.Base.{
  Ref, no_id, Time, unix, ◌+◌, Bool-cases, false, Option, none, some, Result-cases, ok, ◌⊎◌, inl,
  inr, List, ◌∷◌, ◌≡◌, refl, sym, ◌∙◌, ap, ◌==◌, ==→eq, arith,
}
use askrelay.Envelope.{External}
use askrelay.Store.{
  Db, Device, AuthCode, RefreshGrant, RefreshRow, Outcome, StoreError, auth_code_by_code,
  consume_auth_code, consume_refresh_token, consume_refresh_tx, active_device_by_id,
  create_refresh_token, revoke_device, not_found, CodeRow, is_null, is_spent_token,
}
use askrelay.History.{Call, Settings, step, run, consumes_code, consumes_token}
use askrelay.History.Frame.{step-devices}
use askrelay.History.Devices.{revoked_for_good}
use askrelay.Oauth.Signed.{Jwt, Issuer, mint, access}
use askrelay.Oauth.Spent.{
  Fits, SpendsCode, SpendsToken, code-SpendsCode, token-SpendsToken, IsActive,
  active_device_by_id-IsActive,
}
use askrelay.Oauth.Token.{
  TokenForm, GrantType, authorization_code, refresh_token, other_grant, TokenResponse, refresh_ttl,
  grant_of, answer_stored, store_tokens, tokens_for, issue_tokens, answer_claimed, answer_bound,
  token_from_code, answer_refreshed, token_from_refresh, token_by, handle_token,
}

-- The row of a new refresh token.
abbrev pub new_token : {B : Type 0} → External B → Ref → RefreshGrant → Time → RefreshRow
new_token ext token g now = record {
  token_hash = ext.sha256 token;
  binding = g;
  created_at = unix now;
  expires_at = unix (now + refresh_ttl);
  consumed_at = none;
}

module _ {B : Type 0} (ext : External B) (jwt : Jwt) (i : Issuer) where
  -- Tokens for a binding: its device is active, the access token names its person and client type,
  -- and the refresh token is stored under the binding.
  pub record Minted (g : RefreshGrant) (opaque : Option Ref) (now : Time) (db db' : Db B)
      (resp : TokenResponse) : Type 0 where
    pub dev : Device
    pub is_active : active_device_by_id g.device_id db ≡ ok dev
    pub unrevoked : IsActive g.device_id dev db
    pub bearer :
        jwt.sign i.priv (record {
          subject = g.person_id;
          issuer = i.audience;
          audience = i.audience;
          issued_at = unix now;
          expires_at = unix (now + i.ttl);
          use_claim = access;
          device_claim = no_id;
          client_type = g.client_type;
        })
        ≡ some resp.access_token
    pub fresh : opaque ≡ some resp.refresh_token
    pub stored :
        db'
        ≡ record db { refresh_tokens = new_token ext resp.refresh_token g now ∷ db.refresh_tokens }

  -- The binding comes of a live code that the form fits and that is spent by now, or of a live
  -- refresh token, spent by now, whose client the form names if it names one.
  abbrev pub Claimed : (Ref → Ref) → TokenForm → Time → Db B → RefreshGrant → Db B → Type 0
  Claimed s256 form now db g mid =
      ((b : AuthCode) × (form.grant_type ≡ authorization_code)
        × (auth_code_by_code ext form.code now db ≡ ok b)
        × (consume_auth_code ext form.code now db ≡ (ok tt, mid))
        × Fits s256 form b
        × SpendsCode ext form.code now db b mid
        × (g ≡ record {
          client_id = b.client_id;
          person_id = b.person_id;
          device_id = b.device_id;
          client_type = b.client_type;
          resource = b.resource;
        }))
      ⊎ ((form.grant_type ≡ refresh_token)
          × (consume_refresh_token ext form.refresh now db ≡ (ok g, mid))
          × SpendsToken ext form.refresh now db g mid
          × ((form.client_id ≡ no_id) ⊎ (form.client_id ≡ g.client_id)))

  stored-Minted :
      (g : RefreshGrant) (dev : Device) (access opaque : Option Ref) (now : Time) (db db' : Db B)
      (resp : TokenResponse)
      → active_device_by_id g.device_id db ≡ ok dev
      → mint jwt i g.person_id g.client_type now ≡ access
      → store_tokens ext jwt i g access opaque now db ≡ (ok resp, db')
      → Minted g opaque now db db' resp
  unfolding store_tokens answer_stored create_refresh_token mint
  stored-Minted g dev none opaque now db db' resp act m h = absurd (ground arith)
  stored-Minted g dev (some bearer) none now db db' resp act m h = absurd (ground arith)
  stored-Minted g dev (some bearer) (some refresh) now db db' resp act m h = record {
    dev = dev;
    is_active = act;
    unrevoked = active_device_by_id-IsActive g.device_id dev db act;
    bearer = ground arith;
    fresh = ground arith;
    stored = ground arith;
  }

  issue-Minted :
      (g : RefreshGrant) (opaque : Option Ref) (now : Time) (db db' : Db B) (resp : TokenResponse)
      → issue_tokens ext jwt i g opaque now db ≡ (ok resp, db')
      → Minted g opaque now db db' resp
  unfolding issue_tokens tokens_for
  issue-Minted g opaque now db db' resp h =
      elim (Result-cases (active_device_by_id g.device_id db)) [
        | inl (dev, e) ↦
            stored-Minted g dev (mint jwt i g.person_id g.client_type now) opaque now db db' resp e
              refl (ground arith)
        | inr (v, e) ↦ absurd (ground arith)
      ]

  code-Minted :
      (s256 : Ref → Ref) (form : TokenForm) (opaque : Option Ref) (now : Time) (db db' : Db B)
      (resp : TokenResponse)
      → token_from_code ext jwt i s256 form opaque now db ≡ (ok resp, db')
      → (b : AuthCode) × (mid : Db B) × (auth_code_by_code ext form.code now db ≡ ok b)
        × Fits s256 form b
        × (consume_auth_code ext form.code now db ≡ (ok tt, mid))
        × Minted (grant_of b) opaque now mid db' resp
  unfolding token_from_code answer_bound answer_claimed
  code-Minted s256 form opaque now db db' resp h =
      elim (Result-cases (auth_code_by_code ext form.code now db)) [
        | inr (v, e) ↦ absurd (ground arith)
        | inl (b, e) ↦ elim (Result-cases (consume_auth_code ext form.code now db).0) [
          | inr (v, q) ↦ absurd (ground arith)
          | inl (tt, q) ↦ (
            b,
            (consume_auth_code ext form.code now db).1,
            e,
            (ground arith, ground arith, ground arith),
            ground arith,
            issue-Minted (grant_of b) opaque now _ db' resp (ground arith),
          )
        ]
      ]

  refresh-Minted :
      (form : TokenForm) (opaque : Option Ref) (now : Time) (db db' : Db B) (resp : TokenResponse)
      → token_from_refresh ext jwt i form opaque now db ≡ (ok resp, db')
      → (g : RefreshGrant) × (mid : Db B) × (consume_refresh_token ext form.refresh now db
          ≡ (ok g, mid))
        × ((form.client_id ≡ no_id) ⊎ (form.client_id ≡ g.client_id))
        × Minted g opaque now mid db' resp
  unfolding token_from_refresh answer_refreshed
  refresh-Minted form opaque now db db' resp h =
      elim (Result-cases (consume_refresh_token ext form.refresh now db).0) [
        | inr (v, q) ↦ absurd (ground arith)
        | inl (g, q) ↦ (
          g,
          (consume_refresh_token ext form.refresh now db).1,
          ground arith,
          elim (Bool-cases (form.client_id == no_id)) [
            | inl unnamed ↦ inl (==→eq form.client_id no_id unnamed)
            | inr named ↦ inr (ground arith)
          ],
          issue-Minted g opaque now _ db' resp (ground arith),
        )
      ]

  by-Minted :
      (kind : GrantType) (s256 : Ref → Ref) (form : TokenForm) (opaque : Option Ref) (now : Time)
      (db db' : Db B) (resp : TokenResponse)
      → form.grant_type ≡ kind
      → token_by ext jwt i kind s256 form opaque now db ≡ (ok resp, db')
      → (g : RefreshGrant) × (mid : Db B) × Claimed s256 form now db g mid
        × Minted g opaque now mid db' resp
  unfolding token_by
  by-Minted authorization_code s256 form opaque now db db' resp k h =
      let (b, mid, found, fits, spent, minted) = code-Minted s256 form opaque now db db' resp h in
      (
        grant_of b,
        mid,
        inl (
          b,
          k,
          found,
          spent,
          fits,
          code-SpendsCode ext form.code now db mid b found spent,
          refl,
        ),
        minted,
      )
  by-Minted refresh_token s256 form opaque now db db' resp k h =
      let (g, mid, spent, fits, minted) = refresh-Minted form opaque now db db' resp h in
      (g, mid, inr (k, spent, token-SpendsToken ext form.refresh now db mid g spent, fits), minted)
  by-Minted (other_grant n) s256 form opaque now db db' resp k h = absurd (ground arith)

  -- Where the token endpoint gives tokens out, it has just spent a live code whose client,
  -- redirect URI and PKCE challenge the form fits, or a live refresh token, whose client is the
  -- form's if that names one; the device of its binding is active; the access token is for the
  -- binding's person and client type; and the one new row is a refresh token of that binding.
  pub handle_token-Minted :
      (s256 : Ref → Ref) (form : TokenForm) (opaque : Option Ref) (now : Time) (db db' : Db B)
      (resp : TokenResponse)
      → handle_token ext jwt i s256 (some form) opaque now db ≡ (ok resp, db')
      → (g : RefreshGrant) × (mid : Db B) × Claimed s256 form now db g mid
        × Minted g opaque now mid db' resp
  unfolding handle_token
  handle_token-Minted s256 form opaque now db db' resp h =
      by-Minted form.grant_type s256 form opaque now db db' resp refl h

  Claimed-devices :
      (c : Settings) (s256 : Ref → Ref) (form : TokenForm) (now : Time) (db mid : Db B)
      (g : RefreshGrant)
      → Claimed s256 form now db g mid
      → mid.devices ≡ db.devices
  unfolding step
  Claimed-devices c s256 form now db mid g (inl (b, k, found, spent, fits, uses, q)) =
      sym (ap (λ r. r.1.devices) spent) ∙ step-devices ext c now (consumes_code form.code) db tt
  Claimed-devices c s256 form now db mid g (inr (k, spent, uses, fits)) =
      sym (ap (λ r. r.1.devices) spent) ∙ step-devices ext c now (consumes_token form.refresh) db tt

  active-devices :
      (d : Ref) (db mid : Db B)
      → mid.devices ≡ db.devices
      → active_device_by_id d mid ≡ active_device_by_id d db
  unfolding askrelay.Store.active_device_by_id
  active-devices d db mid q = rw q refl

  -- Behind a revocation of a device that returned no error, and whatever calls of the store are
  -- made after it, the token endpoint gives out no tokens under a binding of that device: where
  -- it gives some out, the device of the binding is another one.
  pub revoked_device_mints_nothing :
      (c : Settings) (d : Ref) (first now : Time) (calls : List (Time × Call)) (s256 : Ref → Ref)
      (form : TokenForm) (opaque : Option Ref) (db db' : Db B) (resp : TokenResponse)
      → (revoke_device d first db).0 ≡ ok tt
      → handle_token ext jwt i s256
          (some form)
          opaque
          now
          (run ext c calls (revoke_device d first db).1)
        ≡ (ok resp, db')
      → (g : RefreshGrant) × (mid : Db B) × Claimed s256 form now
          (run ext c calls (revoke_device d first db).1)
          g
          mid
        × Minted g opaque now mid db' resp
        × ((g.device_id == d) ≡ false)
  revoked_device_mints_nothing c d first now calls s256 form opaque db db' resp gone h =
      let before = run ext c calls (revoke_device d first db).1 in
      let (g, mid, claimed, minted) = handle_token-Minted s256 form opaque now before db' resp h in
      elim (Bool-cases (g.device_id == d)) [
        | inr other ↦ (g, mid, claimed, minted, other)
        | inl same ↦
            let kept =
              active-devices g.device_id before mid
                (Claimed-devices c s256 form now before mid g claimed) in
            let absent = revoked_for_good ext c d first calls db gone in
            absurd (ground (arith, ==→eq g.device_id d same, minted.is_active))
      ]
