-- ===== src/Store/Identity/Enrolled.antt =====
-- What an enrolment makes: `Enroll` against `ActiveDeviceByID` and `ActiveDeviceByPubkey`,
-- internal/relay/store/identity.go.
use askrelay.Base.{
  Ref, Time, ◌≡◌, refl, ◌∙◌, sym, ap, Bool-cases, inl, inr, ◌⊎◌, ok, err, arith, ◌∷◌, ◌==◌,
}
use askrelay.Envelope.{External}
use askrelay.Store.Schema.{Db, Key, Person, Device, write_tx, write_tx-ok, bad_key}
use askrelay.Store.Identity.{
  enroll, enroll_tx, find_or_create_person, enrolled_device, active_device_by_id,
  active_device_by_pubkey,
}

module _ {B : Type 0} (ext : External B) where
  enroll_tx-first :
      (hash : Ref) (key : Key) (label p n : Ref) (now : Time) (db db' : Db B) (who : Person)
      (d : Device)
      → enroll_tx hash key label now p n db ≡ ok ((who, d), db')
      → (d ≡ enrolled_device who.id key label now n) × (db'.devices ≡ d ∷ db.devices)
  unfolding enroll_tx find_or_create_person
  enroll_tx-first hash key label p n now db db' who d h = (ground arith, ground arith)

  enroll_transaction :
      (token : Ref) (key : Key) (label p n : Ref) (now : Time) (db : Db B)
      → (enroll ext token key label now p n db ≡ (err bad_key, db))
        ⊎ (enroll ext token key label now p n db
            ≡ write_tx (enroll_tx (ext.sha256 token) key label now p n) db)
  unfolding enroll
  enroll_transaction token key label p n now db = elim (Bool-cases (key.size == 32)) [
    | inr bad ↦ inl (rw bad refl)
    | inl good ↦ inr (rw good refl)
  ]

  first_found :
      (key : Key) (label n : Ref) (now : Time) (db db' : Db B) (who : Person) (d : Device)
      → d ≡ enrolled_device who.id key label now n
      → db'.devices ≡ d ∷ db.devices
      → (active_device_by_id n db' ≡ ok d)
        × (active_device_by_pubkey key db' ≡ ok d)
        × (d.person_id ≡ who.id)
  unfolding active_device_by_id active_device_by_pubkey
  first_found key label n now db db' who d same q = (ground arith, ground arith, ground arith)

  -- An enrolment that returns no error makes a device that is active at once: it is the one that
  -- the look-ups of its id and of its key give, and it belongs to the person that was returned.
  pub enroll-active :
      (token : Ref) (key : Key) (label p n : Ref) (now : Time) (db : Db B) (who : Person)
      (d : Device)
      → (enroll ext token key label now p n db).0 ≡ ok (who, d)
      → let after = (enroll ext token key label now p n db).1 in
        (active_device_by_id n after ≡ ok d)
        × (active_device_by_pubkey key after ≡ ok d)
        × (d.person_id ≡ who.id)
  enroll-active token key label p n now db who d h =
      elim (enroll_transaction token key label p n now db) [
        | inl q ↦ absurd (ground (arith, sym (ap (λ o. o.0) q) ∙ h))
        | inr q ↦
            let (db', e, after) =
              write_tx-ok (enroll_tx (ext.sha256 token) key label now p n) db (who, d)
                (sym (ap (λ o. o.0) q) ∙ h) in
            let (same, r) = enroll_tx-first (ext.sha256 token) key label p n now db db' who d e in
            rw (q, after) (first_found key label n now db db' who d same r)
      ]
