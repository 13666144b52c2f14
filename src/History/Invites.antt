-- ===== src/History/Invites.antt =====
-- An invite: `Enroll` of internal/relay/store/identity.go against every later call.
use askrelay.Base.{
  ℕ, ◌≤◌, Ref, Time, unix, unix_mono, some, sym, ◌∙◌, ap, Bool-cases, inl, inr, ◌⊎◌, false, List,
  [], ◌∷◌, ◌≡◌, refl, ◌==◌, arith, ok, err,
}
use mathlib.Core.Path.{subst}
use askrelay.Base.Table.{exists, update}
use askrelay.Envelope.{External}
use askrelay.Store.{
  Db, write_tx, write_tx-ok, write_tx-cases, Person, Invite, Device, Key, find_or_create_person,
  is_live_invite, enroll, enroll_tx, invite_invalid, bad_key, create_invite, revoke_device,
  start_thread, mark_delivered, ack, create_draft, transition_inbound, inbound_message_verdict,
  set_thread_grant, revoke_thread_grant, approve_inbound_via_grant, register_client,
  create_auth_code, consume_auth_code, create_refresh_token, consume_refresh_token, sweep_messages,
  sweep_drafts, prune_tombstones, sweep_oauth,
}
use askrelay.History.{
  Call, Settings, step, run, Each, creates_invite, enrolls, ingests, releases_draft,
  releases_via_grant, discards_draft,
}
use askrelay.History.Rows.{exists-update-false, exists-update-clears, affected-zero}
use askrelay.History.Delivery.{
  Delivers, idle, lets_in, releases, ingest_message-Delivers, release_draft-Delivers,
  release_via_grant-Delivers, discard_draft-decides,
}

-- No invite of this hash is unused and unexpired at a time.
abbrev pub IsClosed : {B : Type 0} → Ref → ℕ → Db B → Type 0
IsClosed hash at db = exists (is_live_invite hash at) db.invites ≡ false

-- The call makes no invite of this hash.
abbrev pub InvitesOther : {B : Type 0} → External B → Ref → Time → Call → Type 0
InvitesOther ext hash now (creates_invite email token ttl) = (ext.sha256 token == hash) ≡ false
InvitesOther ext hash now call = Unit

-- The calls that write no row of `invites`.
abbrev NoInvite : Call → Type 0
NoInvite (creates_invite _ _ _) = ⊥
NoInvite (enrolls _ _ _ _ _) = ⊥
NoInvite _ = Unit

abbrev spend : Time → Invite → Invite
spend now i = record i { used_at = some (unix now) }

Delivers-invites : {B : Type 0} (db db' : Db B) → Delivers db db' → db'.invites ≡ db.invites
Delivers-invites db db' (idle q) = ap (λ d. d.invites) q
Delivers-invites db db' (lets_in _ _ _ _ q) = ap (λ d. d.invites) q
Delivers-invites db db' (releases _ _ _ _ _ _ _ q) = ap (λ d. d.invites) q

module _ {B : Type 0} (ext : External B) (c : Settings) where
  step-invites :
      (now : Time) (call : Call) (db : Db B)
      → NoInvite call
      → (step ext c now call db).invites ≡ db.invites
  unfolding step revoke_device start_thread mark_delivered ack create_draft transition_inbound
      inbound_message_verdict set_thread_grant revoke_thread_grant approve_inbound_via_grant
      register_client create_auth_code consume_auth_code create_refresh_token consume_refresh_token
      sweep_messages sweep_drafts prune_tombstones sweep_oauth
  step-invites now (creates_invite _ _ _) db h = elim h [ ]
  step-invites now (enrolls _ _ _ _ _) db h = elim h [ ]
  step-invites now (ingests e sender) db h =
      Delivers-invites db _ (ingest_message-Delivers ext e sender c.fresh now db)
  step-invites now (releases_draft p d edited) db h =
      Delivers-invites db _ (release_draft-Delivers ext p d edited now db)
  step-invites now (releases_via_grant d p) db h =
      Delivers-invites db _ (release_via_grant-Delivers ext d p now db)
  step-invites now (discards_draft p d) db h = ground (arith, discard_draft-decides ext p d now db)
  step-invites now _ db h = ground arith

  enroll_tx-invites :
      (hash : Ref) (key : Key) (label p n : Ref) (now : Time) (db db' : Db B) (pp : Person)
      (d : Device)
      → enroll_tx hash key label now p n db ≡ ok ((pp, d), db')
      → db'.invites ≡ update (is_live_invite hash (unix now)) (spend now) db.invites
  unfolding enroll_tx find_or_create_person
  enroll_tx-invites hash key label p n now db db' pp d h = ground arith

  enroll_tx-spends :
      (hash : Ref) (key : Key) (label p n : Ref) (now : Time) (db : Db B)
      → ((write_tx (enroll_tx hash key label now p n) db).1.invites ≡ db.invites)
        ⊎ ((write_tx (enroll_tx hash key label now p n) db).1.invites
            ≡ update (is_live_invite hash (unix now)) (spend now) db.invites)
  enroll_tx-spends hash key label p n now db =
      elim (write_tx-cases (enroll_tx hash key label now p n) db) [
        | inl same ↦ inl (ap (λ d. d.invites) same)
        | inr ((pp, d), db', e, after) ↦
            inr (ap (λ d. d.invites) after ∙ enroll_tx-invites hash key label p n now db db' pp d e)
      ]

  enroll-transaction :
      (token : Ref) (key : Key) (label p n : Ref) (now : Time) (db : Db B)
      → (enroll ext token key label now p n db ≡ (err bad_key, db))
        ⊎ (enroll ext token key label now p n db
            ≡ write_tx (enroll_tx (ext.sha256 token) key label now p n) db)
  unfolding enroll
  enroll-transaction token key label p n now db = elim (Bool-cases (key.size == 32)) [
    | inr bad ↦ inl (rw bad refl)
    | inl good ↦ inr (rw good refl)
  ]

  enroll-invites :
      (token : Ref) (key : Key) (label p n : Ref) (now : Time) (db : Db B)
      → ((enroll ext token key label now p n db).1.invites ≡ db.invites)
        ⊎ ((enroll ext token key label now p n db).1.invites
            ≡ update (is_live_invite (ext.sha256 token) (unix now)) (spend now) db.invites)
  enroll-invites token key label p n now db = elim (enroll-transaction token key label p n now db) [
    | inl q ↦ inl (ap (λ o. o.1.invites) q)
    | inr q ↦ rw q (enroll_tx-spends (ext.sha256 token) key label p n now db)
  ]

  -- An enrolment without a live invite is refused.
  closed-refused :
      (token : Ref) (key : Key) (label p n : Ref) (now : Time) (db : Db B)
      → IsClosed (ext.sha256 token) (unix now) db
      → key.size ≡ 32
      → enroll ext token key label now p n db ≡ (err invite_invalid, db)
  unfolding enroll enroll_tx
  closed-refused token key label p n now db h size =
      let empty = affected-zero (is_live_invite (ext.sha256 token) (unix now)) db.invites h in
      ground (arith, empty)

  step-IsClosed :
      (now : Time) (call : Call) (hash : Ref) (at : ℕ) (db : Db B)
      → InvitesOther ext hash now call
      → IsClosed hash at db
      → IsClosed hash at (step ext c now call db)
  unfolding step create_invite
  step-IsClosed now (creates_invite email token ttl) hash at db other h = ground arith
  step-IsClosed now (enrolls token key label p n) hash at db other h =
      elim (enroll-invites token key label p n now db) [
        | inl q ↦ rw q h
        | inr q ↦ rw q (
            exists-update-false (is_live_invite hash at)
              (is_live_invite (ext.sha256 token) (unix now)) (spend now) db.invites
              (λ a m. ground arith) h)
      ]
  step-IsClosed now call hash at db other h =
      subst (λ is. exists (is_live_invite hash at) is ≡ false) (sym (step-invites now call db tt)) h

  run-IsClosed :
      (calls : List (Time × Call)) (hash : Ref) (at : ℕ) (db : Db B)
      → Each (InvitesOther ext hash) calls
      → IsClosed hash at db
      → IsClosed hash at (run ext c calls db)
  unfolding run
  run-IsClosed [] hash at db other h = h
  run-IsClosed ((now, call) ∷ calls) hash at db other h =
      run-IsClosed calls hash at (step ext c now call db) other.1
        (step-IsClosed now call hash at db other.0 h)

  enrolled-IsClosed :
      (token : Ref) (key : Key) (label p n : Ref) (first last : Time) (db : Db B)
      (r : Person × Device)
      → (enroll ext token key label first p n db).0 ≡ ok r
      → first ≤ last
      → IsClosed (ext.sha256 token) (unix last) (enroll ext token key label first p n db).1
  enrolled-IsClosed token key label p n first last db (pp, d) h le =
      let order = unix_mono first last le in
      elim (enroll-transaction token key label p n first db) [
        | inl q ↦ absurd (ground (arith, q))
        | inr q ↦
            let (db', e, after) =
              write_tx-ok (enroll_tx (ext.sha256 token) key label first p n) db (pp, d)
                (sym (ap (λ o. o.0) q) ∙ h) in
            rw (q, after, enroll_tx-invites (ext.sha256 token) key label p n first db db' pp d e)
              (exists-update-clears (is_live_invite (ext.sha256 token) (unix last))
                (is_live_invite (ext.sha256 token) (unix first)) (spend first) db.invites
                (λ a m. ground arith) (λ a. ground arith))
      ]

  -- An invite enrols one device: behind an `enroll` that returned no error, another one with the
  -- same token and any key of 32 bytes ends in `invite_invalid` and changes nothing, whatever calls
  -- are made between the two, as long as the clock does not run back and no call makes an invite
  -- of the same hash.
  pub enrolled_once :
      (token : Ref) (key key' : Key) (label label' p n p' n' : Ref) (first last : Time)
      (calls : List (Time × Call)) (db : Db B) (r : Person × Device)
      → (enroll ext token key label first p n db).0 ≡ ok r
      → first ≤ last
      → Each (InvitesOther ext (ext.sha256 token)) calls
      → key'.size ≡ 32
      → let after = run ext c calls (enroll ext token key label first p n db).1 in
        enroll ext token key' label' last p' n' after ≡ (err invite_invalid, after)
  enrolled_once token key key' label label' p n p' n' first last calls db r h le other size =
      closed-refused token key' label' p' n' last _
        (run-IsClosed calls (ext.sha256 token) (unix last) _ other
          (enrolled-IsClosed token key label p n first last db r h le))
        size
