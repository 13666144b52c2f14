-- ===== src/Server/Endpoint.antt =====
-- handleEnroll of internal/relay/enroll.go, and sweepOnce of internal/relay/server.go.
use askrelay.Base.{Ref, Time, not, Option, none, some, ◌==◌, Result, ok, err, if◌then◌else◌}
use askrelay.Envelope.{External}
use askrelay.Store.{
  Db, Key, Person, Device, Outcome, StoreError, invite_invalid, key_in_use, enroll, Freshness,
  RetentionPolicy, sweep_messages, sweep_drafts, prune_tombstones, sweep_oauth,
}
use askrelay.Oauth.{Jwt, Issuer, mint_device_credential}

-- The body of the request: the base64 of the key decodes to these bytes, or not at all.
pub record EnrollRequest : Type 0 where
  pub pubkey : Option Key
  pub label : Ref

pub record EnrollResponse : Type 0 where
  pub person_id : Ref
  pub device_id : Ref
  pub base_url : Ref
  pub device_credential : Ref

-- The answers other than 200: 400 for the body or the key, 403, 409, and 500.
pub data EnrollError : Type 0 where
  invalid_body invalid_pubkey invalid_invite key_registered enrollment_failed : EnrollError

abbrev pub EnrollReply : Type 0 → Type 0
EnrollReply B = Result EnrollError EnrollResponse × Db B

-- The switch on the error of `Enroll`.
unfoldable pub enroll_error : StoreError → EnrollError
enroll_error invite_invalid = invalid_invite
enroll_error key_in_use = key_registered
enroll_error e = enrollment_failed

module _ {B : Type 0} (ext : External B) (jwt : Jwt) (i : Issuer) (base_url : Ref) where
  -- What follows `MintDeviceCredential`.
  unfoldable pub answer_credited : Ref → Ref → Option Ref → Db B → EnrollReply B
  answer_credited person dev none db = (err enrollment_failed, db)
  answer_credited person dev (some cred) db = (
    ok (record {
      person_id = person;
      device_id = dev;
      base_url = base_url;
      device_credential = cred;
    }),
    db,
  )

  -- What follows `Enroll`; the second time is that of the clock at the credential.
  unfoldable pub answer_enrolled : Time → Outcome B (Person × Device) → EnrollReply B
  unfolding answer_credited enroll_error
  answer_enrolled now (err e, db) = (err (enroll_error e), db)
  answer_enrolled now (ok (p, d), db) =
      answer_credited p.id d.id (mint_device_credential jwt i p.id d.id now) db

  abbrev pub enroll_key : Ref → Ref → Ref → Ref → Time → Time → Option Key → Db B → EnrollReply B
  enroll_key token label fresh_person fresh_device now minted none db = (err invalid_pubkey, db)
  enroll_key token label fresh_person fresh_device now minted (some key) db =
      if not (key.size == 32)
      then (err invalid_pubkey, db)
      else answer_enrolled minted (enroll ext token key label now fresh_person fresh_device db)

  -- `handleEnroll`, with the fresh ids; `none` is a body that does not decode.
  unfoldable pub handle_enroll :
      Ref → Option EnrollRequest → Ref → Ref → Time → Time → Db B → EnrollReply B
  unfolding answer_enrolled
  handle_enroll token none fresh_person fresh_device now minted db = (err invalid_body, db)
  handle_enroll token (some req) fresh_person fresh_device now minted db =
      enroll_key token req.label fresh_person fresh_device now minted req.pubkey db

module _ {B : Type 0} where
  -- `sweepOnce`: a sweep that fails does not keep the others from running.
  unfoldable pub sweep_once : RetentionPolicy → Freshness → Time → Db B → Db B
  sweep_once policy fresh now db =
      let swept = (sweep_messages policy now db).1 in
      let decided = (sweep_drafts policy now swept).1 in
      let pruned = (prune_tombstones fresh now decided).1 in (sweep_oauth now pruned).1
