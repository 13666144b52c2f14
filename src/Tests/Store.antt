-- ===== src/Tests/Store.antt =====
-- Calls of the store on the small relay.
use askrelay.Base.{◌≡◌, refl, ◌↔◌, ok, none, some, true, false, ◌&&◌, ◌==◌, leb, unix, ◌-◌, arith}
use askrelay.Base.Table.{exists}
use askrelay.Gate.{Release, input_required, working, approve, pending_review}
use askrelay.Envelope.{Envelope}
use askrelay.Store.{
  Db, MessageRow, write_tx, ingest_tx, release_draft_tx, release_via_grant_tx, is_active_outbound,
  is_awaiting, inbound_message_verdict, has_activity, inbound_awaiting, drafts_awaiting_review,
  sweep_messages, Outcome,
}
use askrelay.Store.Message.Ingest.{ingested, ingest_tx-ingested}
use askrelay.Store.Drafts.Effects.{
  HoldsOutbound, Released, release_draft_tx-Released, release_via_grant_tx-Released,
}
use askrelay.Store.Read.Awaiting.{ThreadsUnique, shown_to_approve}
use askrelay.Store.Read.Activity.{answered_stays_active}
use askrelay.Store.Retention.Kept.{IsYoung, sweep_keeps_pending}
use askrelay.Store.{Device, enroll, active_device_by_id, active_device_by_pubkey, ack, inbox}
use askrelay.Base.Table.{find}
use askrelay.Gate.{inbound}
use askrelay.Store.{set_thread_grant, approve_inbound_via_grant}
use askrelay.Store.Approval.Granted.{grant-approves}
use askrelay.Tests.Data.{thread}
use askrelay.Store.Identity.Enrolled.{enroll-active}
use askrelay.Tests.Data.{bob, key, ext, settings, at, relay, envelope}

abbrev asked : Db Envelope
asked = (write_tx (ingest_tx ext (envelope 70 1 2 1) 1 (at 2)) relay).1

ingest_tx-ingested_example :
    (blob : Envelope) × (ext.marshal (envelope 70 1 2 1) ≡ some blob)
    × (asked ≡ ingested (envelope 70 1 2 1) 1 (at 2) blob relay)
unfolding ingest_tx askrelay.Store.ensure_thread askrelay.Store.store_message
ingest_tx-ingested_example = ingest_tx-ingested ext (envelope 70 1 2 1) 1 (at 2) relay asked refl

abbrev reply : Release Envelope
reply = record { thread = 100; id = 60; payload = envelope 60 2 1 0; via_grant = false }

abbrev released : Db Envelope
released = (write_tx (release_draft_tx ext 2 60 none (at 3)) relay).1

release_draft_tx-Released_example :
    Released ext 60 2 none false (at 3) relay released 1 (some reply)
unfolding release_draft_tx askrelay.Store.load_draft askrelay.Envelope.decode
    askrelay.Store.release_loaded askrelay.Store.apply_edit askrelay.Store.release_approved
    askrelay.Gate.apply_outbound askrelay.Store.deliver_decided askrelay.Store.deliver_in_tx
    ingest_tx askrelay.Store.ensure_thread askrelay.Store.store_message
release_draft_tx-Released_example =
    release_draft_tx-Released ext 2 60 none (at 3) relay released 1 (some reply) refl

abbrev granted : Db Envelope
granted = (write_tx (release_via_grant_tx ext 60 2 (at 3)) relay).1

release_via_grant_tx-Released_example :
    Released ext 60 2 none true (at 3) relay granted 1 (some (record reply { via_grant = true }))
    × HoldsOutbound 100 2 relay.grants
unfolding release_via_grant_tx askrelay.Store.load_draft askrelay.Envelope.decode
    askrelay.Store.release_if_granted askrelay.Store.release_granted
    askrelay.Gate.apply_outbound_grant askrelay.Gate.apply_outbound askrelay.Store.deliver_decided
    askrelay.Store.deliver_in_tx ingest_tx askrelay.Store.ensure_thread askrelay.Store.store_message
release_via_grant_tx-Released_example =
    release_via_grant_tx-Released ext 60 2 (at 3) relay granted 1
      (record reply { via_grant = true }) refl

relay-ThreadsUnique : ThreadsUnique relay
relay-ThreadsUnique id = ground arith

abbrev first_ask : MessageRow Envelope
first_ask = record {
  id = 50;
  thread_id = 100;
  sender_id = 1;
  envelope = envelope 50 1 2 0;
  sent_at = 100000000;
  received_at = 100000000;
  via_grant = false;
}

shown_to_approve_example :
    ((inbound_message_verdict 2 50 approve (at 4) relay).0 ≡ ok working)
    ↔ (is_awaiting relay 2 first_ask ≡ true)
unfolding askrelay.Store.latest_at
shown_to_approve_example = shown_to_approve 2 50 (at 4) relay first_ask relay-ThreadsUnique refl

-- Bob has answered, and the thread waits for Alice.
answered_stays_active_example :
    (has_activity 2 released ≡ true)
    × (exists (λ m. m.thread_id == 100 && is_awaiting released 2 m) released.messages ≡ false)
unfolding release_draft_tx askrelay.Store.load_draft askrelay.Envelope.decode
    askrelay.Store.release_loaded askrelay.Store.apply_edit askrelay.Store.release_approved
    askrelay.Gate.apply_outbound askrelay.Store.deliver_decided askrelay.Store.deliver_in_tx
    ingest_tx askrelay.Store.ensure_thread askrelay.Store.store_message askrelay.Store.latest_at
    unix
answered_stays_active_example = answered_stays_active 2 released 100 refl refl refl

sweep_keeps_pending_example :
    IsYoung settings.policy
      (at 500)
      relay
      50
      (sweep_messages settings.policy (at 500) relay).1.messages
    × (exists
          (λ m. leb m.received_at (unix (at 500 - settings.policy.hard_ttl)))
          (sweep_messages settings.policy (at 500) relay).1.messages
        ≡ false)
unfolding unix
sweep_keeps_pending_example = sweep_keeps_pending settings.policy (at 500) relay 50 refl refl

abbrev bobs_phone : Device
bobs_phone = record {
  id = 14;
  person_id = 2;
  pubkey = key 13;
  label = 0;
  created_at = 100000001;
  revoked_at = none;
}

enroll-active_example :
    let after = (enroll ext 77 (key 13) 0 (at 1) 9 14 relay).1 in
    (active_device_by_id 14 after ≡ ok bobs_phone)
    × (active_device_by_pubkey (key 13) after ≡ ok bobs_phone)
    × (bobs_phone.person_id ≡ bob.id)
unfolding enroll unix
enroll-active_example = enroll-active ext 77 (key 13) 0 9 14 (at 1) relay bob bobs_phone refl

grant-approves_example :
    let r =
      approve_inbound_via_grant 100 2 50
        (at 9)
        (set_thread_grant 100 2 inbound (at 5) 92 relay).1 in
    (r.0 ≡ ok true)
    × (find (λ r. r.id == 100) r.1.threads
        ≡ some (record thread { state = working; updated_at = unix (at 9) }))
unfolding set_thread_grant
grant-approves_example = grant-approves 100 2 92 50 (at 5) (at 9) thread relay refl refl refl refl
