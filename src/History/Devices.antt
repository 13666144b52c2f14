-- ===== src/History/Devices.antt =====
-- A revoked device: `RevokeDevice` of internal/relay/store/identity.go against every later call.
use askrelay.Base.{
  Ref, Time, unix, some, sym, Bool-cases, inl, inr, ◌⊎◌, true, false, List, [], ◌∷◌, ◌≡◌, refl,
  ◌==◌, ◌||◌, arith, ok, err,
}
use mathlib.Core.Path.{subst}
use askrelay.Base.Table.{exists, update}
use askrelay.Envelope.{External}
use askrelay.Store.{
  Db, write_tx, Person, Device, Key, is_active_device, revoke_device, active_device_by_id, enroll,
  enroll_tx, enrolled_device, not_found, write_tx-cases, find_or_create_person,
}
use askrelay.History.{Call, Settings, step, run, enrolls, revokes_device}
use askrelay.History.Frame.{step-devices}
use askrelay.History.Rows.{
  exists-update-false, exists-update-true, exists-update-all, find-none, affected-zero, exists_mono,
}

-- The device is known and not active.
abbrev pub IsRevoked : {B : Type 0} → Ref → Db B → Type 0
IsRevoked d db =
    (exists (λ r. r.id == d) db.devices ≡ true) × (exists (is_active_device d) db.devices ≡ false)

-- What `RevokeDevice` does to the row.
abbrev revoke_row : Time → Device → Device
revoke_row now d = record d { revoked_at = some (unix now) }

-- A row that is not among those that pass a test which a known row passes is another row.
fresh_row :
    (d x k : Ref) (ds : List Device)
    → exists (λ r. r.id == x || r.pubkey.code == k) ds ≡ false
    → exists (λ r. r.id == d) ds ≡ true
    → (x == d) ≡ false
fresh_row d x k [] miss h = absurd (ground arith)
fresh_row d x k (r ∷ rs) miss h = ground (arith, fresh_row d x k rs)

module _ {B : Type 0} (ext : External B) (c : Settings) where
  enroll_tx-devices :
      (hash : Ref) (key : Key) (label p n : Ref) (now : Time) (db db' : Db B) (pp : Person)
      (d : Device)
      → enroll_tx hash key label now p n db ≡ ok ((pp, d), db')
      → (db'.devices ≡ enrolled_device pp.id key label now n ∷ db.devices)
        × (exists (λ r. r.id == n || r.pubkey.code == key.code) db.devices ≡ false)
  unfolding enroll_tx find_or_create_person
  enroll_tx-devices hash key label p n now db db' pp d h = (ground arith, ground arith)

  revoke_device-devices :
      (i : Ref) (now : Time) (db : Db B)
      → ((revoke_device i now db).1 ≡ db)
        ⊎ ((revoke_device i now db).1.devices
            ≡ update (is_active_device i) (revoke_row now) db.devices)
  unfolding revoke_device
  revoke_device-devices i now db = ground arith

  enroll_tx-IsRevoked :
      (hash : Ref) (key : Key) (label p n : Ref) (now : Time) (d : Ref) (db : Db B)
      → IsRevoked d db
      → IsRevoked d (write_tx (enroll_tx hash key label now p n) db).1
  enroll_tx-IsRevoked hash key label p n now d db h =
      elim (write_tx-cases (enroll_tx hash key label now p n) db) [
        | inl same ↦ rw same h
        | inr ((pp, dev), db', e, after) ↦
            let (q, unused) = enroll_tx-devices hash key label p n now db db' pp dev e in
            rw (after, q) (ground (arith, fresh_row d n key.code db.devices unused h.0))
      ]

  enroll-transaction :
      (token : Ref) (key : Key) (label p n : Ref) (now : Time) (db : Db B)
      → ((enroll ext token key label now p n db).1 ≡ db)
        ⊎ ((enroll ext token key label now p n db).1
            ≡ (write_tx (enroll_tx (ext.sha256 token) key label now p n) db).1)
  unfolding enroll
  enroll-transaction token key label p n now db = elim (Bool-cases (key.size == 32)) [
    | inr bad ↦ inl (rw bad)
    | inl good ↦ inr (rw good refl)
  ]

  step-IsRevoked :
      (now : Time) (call : Call) (d : Ref) (db : Db B)
      → IsRevoked d db
      → IsRevoked d (step ext c now call db)
  unfolding step
  step-IsRevoked now (enrolls token key label p n) d db h =
      elim (enroll-transaction token key label p n now db) [
        | inl same ↦ rw same h
        | inr q ↦ rw q (enroll_tx-IsRevoked (ext.sha256 token) key label p n now d db h)
      ]
  step-IsRevoked now (revokes_device i) d db h = elim (revoke_device-devices i now db) [
    | inl same ↦ rw same h
    | inr q ↦ rw q (
      exists-update-true (λ r. r.id == d) (is_active_device i) (revoke_row now) db.devices
          (λ a m. m) h.0,
      exists-update-false (is_active_device d) (is_active_device i) (revoke_row now) db.devices
          (λ a m. ground arith) h.1,
    )
  ]
  step-IsRevoked now call d db h =
      subst (λ ds. (exists (λ r. r.id == d) ds ≡ true) × (exists (is_active_device d) ds ≡ false))
        (sym (step-devices ext c now call db tt)) h

  run-IsRevoked :
      (calls : List (Time × Call)) (d : Ref) (db : Db B)
      → IsRevoked d db
      → IsRevoked d (run ext c calls db)
  unfolding run
  run-IsRevoked [] d db h = h
  run-IsRevoked ((now, call) ∷ calls) d db h =
      run-IsRevoked calls d (step ext c now call db) (step-IsRevoked now call d db h)

  revoked-known :
      (d : Ref) (now : Time) (db : Db B)
      → (revoke_device d now db).0 ≡ ok tt
      → exists (λ r. r.id == d) (update (is_active_device d) (revoke_row now) db.devices) ≡ true
  unfolding revoke_device
  revoked-known d now db h = elim (Bool-cases (exists (is_active_device d) db.devices)) [
    | inl e ↦
        exists-update-true (λ r. r.id == d) (is_active_device d) (revoke_row now) db.devices
          (λ a m. m)
          (exists_mono (is_active_device d) (λ r. r.id == d) db.devices (λ a m. ground arith) e)
    | inr e ↦ ground (arith, affected-zero (is_active_device d) db.devices e)
  ]

  revoke_device-IsRevoked :
      (d : Ref) (now : Time) (db : Db B)
      → (revoke_device d now db).0 ≡ ok tt
      → IsRevoked d (revoke_device d now db).1
  unfolding revoke_device
  revoke_device-IsRevoked d now db h =
      let q = revoked-known d now db h in
      let active =
        exists-update-all (is_active_device d) (revoke_row now) db.devices (λ r m. ground arith) in
      (ground (arith, q), ground (arith, active))

  IsRevoked-absent :
      (d : Ref) (db : Db B) → IsRevoked d db → active_device_by_id d db ≡ err not_found
  unfolding active_device_by_id
  IsRevoked-absent d db h = ground (arith, find-none (is_active_device d) db.devices h.1)

  -- Once `revoke_device` has returned no error for a device, `active_device_by_id` finds it
  -- nowhere, whatever calls are made after it and at whatever times; nor does an enrolment bring
  -- its id back.
  pub revoked_for_good :
      (d : Ref) (now : Time) (calls : List (Time × Call)) (db : Db B)
      → (revoke_device d now db).0 ≡ ok tt
      → active_device_by_id d (run ext c calls (revoke_device d now db).1) ≡ err not_found
  revoked_for_good d now calls db h =
      IsRevoked-absent d _ (run-IsRevoked calls d _ (revoke_device-IsRevoked d now db h))
