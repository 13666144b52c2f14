-- ===== src/Server/Connects.antt =====
-- From an invite to a socket: internal/relay/enroll.go, internal/relay/oauth/device.go and
-- internal/relay/ws.go together.
use askrelay.Base.{
  ◌+◌, ◌<◌, Ref, Time, seconds, unix, Bool-cases, Option-cases, some, Result-cases, ok, inl, inr,
  Bool, true, List, [], ◌∷◌, ==_refl, ==→eq, ◌≡◌, refl, ◌∙◌, sym, ap, arith,
}
use askrelay.Base.Table.{find}
use askrelay.Envelope.{External}
use askrelay.Store.{Db, Key, Person, Device, enroll, active_device_by_id, is_active_device}
use askrelay.Store.Identity.Enrolled.{enroll-active}
use askrelay.History.{
  Settings, run, sweeps_messages, sweeps_drafts, prunes_tombstones, sweeps_oauth,
}
use askrelay.Oauth.{Jwt, Issuer, device_cred_ttl, mint_device_credential}
use askrelay.Oauth.Uses.{SignedOnly, SignedReads, verify_device_credential-mint}
use askrelay.Hub.{handshake}
use askrelay.Server.Endpoint.{
  EnrollRequest, EnrollResponse, handle_enroll, answer_enrolled, answer_credited, sweep_once,
}

found_passes :
    {A : Type 0} (p : A → Bool) (rows : List A) (a : A) → find p rows ≡ some a → p a ≡ true
found_passes p [] a h = absurd (ground arith)
found_passes p (r ∷ rs) a h = elim (Bool-cases (p r)) [
  | inl e ↦ ground arith
  | inr e ↦ found_passes p rs a (ground arith)
]

module _ {B : Type 0} (ext : External B) (jwt : Jwt) (i : Issuer) (base_url : Ref) where
  enrolled :
      (token fp fd : Ref) (req : EnrollRequest) (now minted : Time) (db db' : Db B)
      (resp : EnrollResponse)
      → handle_enroll ext jwt i base_url token (some req) fp fd now minted db ≡ (ok resp, db')
      → (key : Key) × (p : Person) × (d : Device) × (enroll ext token key req.label now fp fd db
          ≡ (ok (p, d), db'))
        × (mint_device_credential jwt i p.id d.id minted ≡ some resp.device_credential)
        × (resp.person_id ≡ p.id)
        × (resp.device_id ≡ d.id)
  unfolding handle_enroll answer_enrolled answer_credited
  enrolled token fp fd req now minted db db' resp h = elim (Option-cases req.pubkey) [
    | inl e ↦ absurd (ground arith)
    | inr (key, e) ↦ elim (Result-cases (enroll ext token key req.label now fp fd db).0) [
      | inr (v, q) ↦ absurd (ground arith)
      | inl ((p, d), q) ↦ elim (Option-cases (mint_device_credential jwt i p.id d.id minted)) [
        | inl m ↦ absurd (ground arith)
        | inr (cred, m) ↦ (key, p, d, ground arith, ground arith, ground arith, ground arith)
      ]
    ]
  ]

  active-id :
      (x : Ref) (db : Db B) (d : Device)
      → active_device_by_id x db ≡ ok d
      → (active_device_by_id d.id db ≡ ok d) × (d.id ≡ x)
  unfolding active_device_by_id
  active-id x db d h = elim (Option-cases (find (is_active_device x) db.devices)) [
    | inl e ↦ absurd (ground arith)
    | inr (row, e) ↦
        let passes = found_passes (is_active_device x) db.devices row e in
        let same = ==→eq row.id x (ground arith) in
        let q : d.id ≡ x = ground arith in (ap (λ y. active_device_by_id y db) q ∙ h, q)
  ]

  -- Where the enrolment endpoint answers with a credential, that opens a socket at any time until
  -- it expires, for the person and device of the answer, on the database that the enrolment left.
  -- The JWT library reads a token that was signed with the issuer's key as what
  -- was signed, if at all, and does read it before its expiry.
  pub enrolled_device_connects :
      (token fp fd : Ref) (req : EnrollRequest) (now minted later : Time) (db db' : Db B)
      (resp : EnrollResponse)
      → SignedOnly jwt i
      → SignedReads jwt i
      → handle_enroll ext jwt i base_url token (some req) fp fd now minted db ≡ (ok resp, db')
      → later < seconds (unix (minted + device_cred_ttl))
      → handshake jwt i (some resp.device_credential) later db'
        ≡ some (resp.person_id, resp.device_id)
  unfolding handshake
  enrolled_device_connects token fp fd req now minted later db db' resp only reads h early =
      let (key, p, d, e, m, who, which) = enrolled token fp fd req now minted db db' resp h in
      let (known, by_key, own) =
        enroll-active ext token key req.label fp fd now db p d (ap (λ o. o.0) e) in
      let verified =
        verify_device_credential-mint jwt i p.id d.id resp.device_credential minted later only reads
          m early in
      let (live, same) =
        active-id fd db' d (ap (λ o. active_device_by_id fd o.1) (sym e) ∙ known) in
      ground (arith, ==_refl p.id)

-- One pass of the sweeper is its four calls of the store, one after the other, at one time.
pub sweep_once-run :
    {B : Type 0} (ext : External B) (c : Settings) (now : Time) (db : Db B)
    → sweep_once c.policy c.fresh now db
      ≡ run ext c
          ((now, sweeps_messages)
            ∷ (now, sweeps_drafts)
            ∷ (now, prunes_tombstones)
            ∷ (now, sweeps_oauth)
            ∷ [])
          db
unfolding sweep_once run askrelay.History.step
sweep_once-run ext c now db = refl
