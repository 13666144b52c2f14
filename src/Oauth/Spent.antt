-- ===== src/Oauth/Spent.antt =====
-- What the token endpoint has checked and spent, a code or a refresh token, and the device that a
-- binding names, read off the tables: internal/relay/store/oauth.go and identity.go.
use askrelay.Base.{
  Ref, Time, unix, Bool-cases, ◌&&◌, some, ok, Bool, ltb, Option-cases, inl, inr, ◌≡◌, ◌==◌, arith,
}
use askrelay.Base.Table.{find, update, affected}
use askrelay.Envelope.{External}
use askrelay.Store.{
  Db, Device, AuthCode, RefreshGrant, RefreshRow, auth_code_by_code, consume_auth_code,
  consume_refresh_token, active_device_by_id, CodeRow, is_null, is_spent_token,
}
use askrelay.Oauth.Token.{TokenForm}

-- The row has this hash, is unspent and has not expired.
abbrev pub usable_code : Ref → Time → CodeRow → Bool
usable_code hash now c = c.code_hash == hash && is_null c.consumed_at && ltb (unix now) c.expires_at

abbrev pub usable_token : Ref → Time → RefreshRow → Bool
usable_token hash now t =
    t.token_hash == hash && is_null t.consumed_at && ltb (unix now) t.expires_at

-- The form is the code's: its client, its redirect URI, and a verifier of its PKCE challenge.
abbrev pub Fits : (Ref → Ref) → TokenForm → AuthCode → Type 0
Fits s256 form b =
    (form.client_id ≡ b.client_id)
    × (form.redirect_uri ≡ b.redirect_uri)
    × (s256 form.code_verifier ≡ b.code_challenge)

-- The device of this id is there and is not revoked.
abbrev pub IsActive : {B : Type 0} → Ref → Device → Db B → Type 0
IsActive id dev db = (find (λ d. d.id == id && is_null d.revoked_at) db.devices ≡ some dev)

pub active_device_by_id-IsActive :
    {B : Type 0} (id : Ref) (dev : Device) (db : Db B)
    → active_device_by_id id db ≡ ok dev
    → IsActive id dev db
unfolding active_device_by_id
active_device_by_id-IsActive id dev db h =
    elim (Option-cases (find (λ d. d.id == id && is_null d.revoked_at) db.devices)) [
      | inl absent ↦ absurd (ground arith)
      | inr (d, found) ↦ ground arith
    ]

module _ {B : Type 0} (ext : External B) where
  -- An unspent and unexpired row of the code holds this binding, and is spent by now.
  abbrev pub SpendsCode : Ref → Time → Db B → AuthCode → Db B → Type 0
  SpendsCode code now db b mid =
      let live = usable_code (ext.sha256 code) now in
      ((row : CodeRow) × (find live db.codes ≡ some row) × (row.binding ≡ b))
      × (mid ≡ record db {
        codes = update live (λ c. record c { consumed_at = some (unix now) }) db.codes;
      })

  -- The one unspent and unexpired row of the token is spent by now, and the row holds this binding.
  abbrev pub SpendsToken : Ref → Time → Db B → RefreshGrant → Db B → Type 0
  SpendsToken token now db g mid =
      let live = usable_token (ext.sha256 token) now in
      (affected live db.refresh_tokens ≡ 1)
      × (mid ≡ record db {
        refresh_tokens =
            update live (λ t. record t { consumed_at = some (unix now) }) db.refresh_tokens;
      })
      × ((row : RefreshRow) × (find (λ t. t.token_hash == ext.sha256 token) mid.refresh_tokens
            ≡ some row)
          × (row.binding ≡ g))

  pub code-SpendsCode :
      (code : Ref) (now : Time) (db mid : Db B) (b : AuthCode)
      → auth_code_by_code ext code now db ≡ ok b
      → consume_auth_code ext code now db ≡ (ok tt, mid)
      → SpendsCode code now db b mid
  unfolding auth_code_by_code consume_auth_code
  code-SpendsCode code now db mid b h spent =
      elim (Option-cases (find (usable_code (ext.sha256 code) now) db.codes)) [
        | inl absent ↦ absurd (ground arith)
        | inr (row, found) ↦ ((row, found, ground arith), ground arith)
      ]

  pub token-SpendsToken :
      (token : Ref) (now : Time) (db mid : Db B) (g : RefreshGrant)
      → consume_refresh_token ext token now db ≡ (ok g, mid)
      → SpendsToken token now db g mid
  unfolding consume_refresh_token
  token-SpendsToken token now db mid g h =
      elim (Bool-cases (affected (usable_token (ext.sha256 token) now) db.refresh_tokens == 1)) [
        | inl one ↦
            elim (Option-cases (
              find (λ t. t.token_hash == ext.sha256 token)
                (update (usable_token (ext.sha256 token) now)
                  (λ t. record t { consumed_at = some (unix now) }) db.refresh_tokens))) [
                    | inl absent ↦ absurd (ground arith)
                    | inr (row, found) ↦
                        let after : mid ≡ record db {
                          refresh_tokens =
                              update (usable_token (ext.sha256 token) now)
                                (λ t. record t { consumed_at = some (unix now) }) db.refresh_tokens;
                        } =
                          ground arith in
                        (ground arith, after, (row, rw after found, ground arith))
                  ]
        | inr other ↦
            elim (Option-cases (
              find (is_spent_token (ext.sha256 token)) (
                update (usable_token (ext.sha256 token) now)
                  (λ t. record t { consumed_at = some (unix now) }) db.refresh_tokens))) [
                    | inl f ↦ absurd (ground arith)
                    | inr (t, f) ↦ absurd (ground arith)
                  ]
      ]
