-- ===== src/Store/Identity.antt =====
-- internal/relay/store/identity.go: the roster, devices and invites.
pub mod Enrolled
use askrelay.Base.{
  ℕ, ◌+◌, Ref, no_id, Time, Duration, unix, Bool, not, ◌&&◌, Option, none, some, ltb, ◌==◌, Result,
  ok, err, if◌then◌else◌,
}
use askrelay.Base.Table.{find, exists, update, affected}
use askrelay.Envelope.{External}
use askrelay.Store.Schema.{
  Key, Person, Device, Invite, Db, Tx, Outcome, ◌>>=◌, ◌>>◌, pure, query, or_error, refuse_if, exec,
  write_tx, not_found, invite_invalid, key_in_use, bad_key, database, StoreError, is_null,
}
use askrelay.Store.Insert.{insert_person, insert_device, insert_invite}

-- `WHERE token_hash = ? AND used_at IS NULL AND expires_at > ?`
abbrev pub is_live_invite : Ref → ℕ → Invite → Bool
is_live_invite hash now i = i.token_hash == hash && is_null i.used_at && ltb now i.expires_at

-- `WHERE id = ? AND revoked_at IS NULL`
abbrev pub is_active_device : Ref → Device → Bool
is_active_device id d = d.id == id && is_null d.revoked_at

-- The row of a new person, with its fresh id.
abbrev pub new_person : Ref → Time → Ref → Person
new_person email now fresh = record {
  id = fresh;
  email = email;
  label = no_id;
  created_at = unix now;
}

-- The row of a device that `Enroll` adds, with its fresh id.
abbrev pub enrolled_device : Ref → Key → Ref → Time → Ref → Device
enrolled_device person pubkey label now fresh = record {
  id = fresh;
  person_id = person;
  pubkey = pubkey;
  label = label;
  created_at = unix now;
  revoked_at = none;
}

module _ {B : Type 0} where
  -- `hashToken` is `ext.sha256`; the random token is an argument.
  unfoldable pub create_invite : External B → Ref → Ref → Duration → Time → Db B → Outcome B Ref
  create_invite ext token email ttl now = write_tx do
    insert_invite (record {
      token_hash = ext.sha256 token;
      email = email;
      created_at = unix now;
      expires_at = unix (now + ttl);
      used_at = none;
    })
    pure token

  create_person : Person → Tx B Person
  create_person p = do insert_person p; pure p

  -- The two branches of `findOrCreatePerson`.
  unfoldable pub found_or_created : Ref → Time → Ref → Option Person → Tx B Person
  unfolding create_person
  found_or_created email now fresh none = create_person (new_person email now fresh)
  found_or_created email now fresh (some p) = pure p

  unfoldable pub find_or_create_person : Ref → Time → Ref → Tx B Person
  unfolding found_or_created
  find_or_create_person email now fresh = do
    found ← query (λ db. find (λ r. r.email == email) db.persons)
    found_or_created email now fresh found

  -- The transaction of `Enroll`.
  unfoldable pub enroll_tx : Ref → Key → Ref → Time → Ref → Ref → Tx B (Person × Device)
  unfolding find_or_create_person
  enroll_tx hash pubkey label now fresh_person fresh_device = do
    n ← query (λ db. affected (is_live_invite hash (unix now)) db.invites)
    exec (λ db. record db {
      invites =
          update (is_live_invite hash (unix now)) (λ i. record i { used_at = some (unix now) })
            db.invites;
    })
    refuse_if (n == 0) invite_invalid
    invite ← query (λ db. find (λ i. i.token_hash == hash) db.invites)
    i ← or_error invite database
    p ← find_or_create_person i.email now fresh_person
    dupe ← query (λ db. exists (λ d. d.pubkey.code == pubkey.code) db.devices)
    refuse_if dupe key_in_use
    let d = enrolled_device p.id pubkey label now fresh_device
    insert_device d
    pure (p, d)

  unfoldable pub enroll :
      External B → Ref → Key → Ref → Time → Ref → Ref → Db B → Outcome B (Person × Device)
  unfolding enroll_tx
  enroll ext token pubkey label now fresh_person fresh_device db =
      if not (pubkey.size == 32)
      then (err bad_key, db)
      else write_tx (enroll_tx (ext.sha256 token) pubkey label now fresh_person fresh_device) db

  unfoldable pub revoke_device : Ref → Time → Db B → Outcome B (Unit {0})
  revoke_device id now = write_tx do
    n ← query (λ db. affected (is_active_device id) db.devices)
    exec (λ db. record db {
      devices =
          update (is_active_device id) (λ d. record d { revoked_at = some (unix now) }) db.devices;
    })
    known ← query (λ db. exists (λ d. d.id == id) db.devices)
    refuse_if (n == 0 && not known) not_found

  unfoldable pub active_device_by_pubkey : Key → Db B → Result StoreError Device
  active_device_by_pubkey pubkey db =
      elim (find (λ d. d.pubkey.code == pubkey.code && is_null d.revoked_at) db.devices) [
        | none ↦ err not_found
        | some d ↦ ok d
      ]

  unfoldable pub active_device_by_id : Ref → Db B → Result StoreError Device
  active_device_by_id id db = elim (find (is_active_device id) db.devices) [
    | none ↦ err not_found
    | some d ↦ ok d
  ]
