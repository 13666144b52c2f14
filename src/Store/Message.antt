-- ===== src/Store/Message.antt =====
-- internal/relay/store/message.go: ingest of a message, and the per-device inbox.
pub mod Ingest
pub mod Acks
use askrelay.Base.{
  ℕ, ◌+◌, ◌-◌, Ref, Time, Duration, unix, Bool, true, false, not, ◌&&◌, ◌||◌, Option, none, some,
  List, [], ◌∷◌, map, ltb, ◌==◌, Result, ok, err, if◌then◌else◌,
}
use askrelay.Base.Table.{find, exists, select, update}
use askrelay.Gate.{input_required}
use askrelay.Envelope.{External, Envelope}
use askrelay.Store.Schema.{
  Thread, MessageRow, Device, Delivery, Tombstone, Db, Tx, Outcome, ◌>>=◌, ◌>>◌, pure, query,
  or_error, refuse_if, exec, write_tx, not_found, replay, not_fresh, not_participant, database,
  is_null, coalesce,
}
use askrelay.Store.Insert.{insert_thread, insert_message, insert_tombstone, insert_delivery}

pub record Freshness : Type 0 where
  pub max_age : Duration
  pub max_skew : Duration

-- `e.SentAt.Before(now.Add(-fresh.MaxAge)) || e.SentAt.After(now.Add(fresh.MaxSkew))`
abbrev pub is_stale : Freshness → Time → Time → Bool
is_stale fresh sent_at now = ltb sent_at (now - fresh.max_age) || ltb (now + fresh.max_skew) sent_at

-- The row that `ensureThread` adds for a first message.
abbrev pub first_thread : Envelope → Ref → Time → Thread
first_thread e sender now = record {
  id = e.thread;
  initiator_id = sender;
  recipient_id = e.to;
  state = input_required;
  created_at = unix now;
  updated_at = unix now;
}

-- The row of a message, which records the relay's clock beside the sender's.
abbrev pub message_row : {B : Type 0} → Envelope → Ref → Time → B → MessageRow B
message_row e sender now blob = record {
  id = e.id;
  thread_id = e.thread;
  sender_id = sender;
  envelope = blob;
  sent_at = unix e.sent_at;
  received_at = unix now;
  via_grant = false;
}

-- The two ends of the message are the two parties of the thread.
abbrev pub are_parties : Ref → Ref → Thread → Bool
are_parties sender to t =
    (sender == t.initiator_id && to == t.recipient_id)
    || (sender == t.recipient_id && to == t.initiator_id)

abbrev pub is_delivery : Ref → Ref → Delivery → Bool
is_delivery message device d = d.message_id == message && d.device_id == device

module _ {B : Type 0} where
  -- `tombstoneSeen`
  abbrev pub tombstone_seen : Ref → Db B → Bool
  tombstone_seen id db = exists (λ t. t.id == id) db.tombstones

  check_parties : Envelope → Ref → Time → Option Thread → Tx B (Unit {0})
  check_parties e sender now none = insert_thread (first_thread e sender now)
  check_parties e sender now (some t) = refuse_if (not (are_parties sender e.to t)) not_participant

  -- `ensureThread`
  unfoldable pub ensure_thread : Envelope → Ref → Time → Tx B (Unit {0})
  unfolding check_parties
  ensure_thread e sender now = do
    found ← query (λ db. find (λ t. t.id == e.thread) db.threads)
    check_parties e sender now found

  -- The recipient's active devices, the query of `fanOutDeliveries`.
  abbrev pub recipient_devices : Ref → Db B → List Device
  recipient_devices person db =
      select (λ d. d.person_id == person && is_null d.revoked_at) db.devices

  -- The loop of `fanOutDeliveries`.
  unfoldable pub insert_deliveries : Ref → List Device → Tx B (Unit {0})
  insert_deliveries message [] = pure tt
  insert_deliveries message (d ∷ ds) =
      insert_delivery
        (record { message_id = message; device_id = d.id; delivered_at = none; acked_at = none })
      >> insert_deliveries message ds

  unfoldable pub fan_out_deliveries : Ref → Ref → Tx B (Unit {0})
  unfolding insert_deliveries
  fan_out_deliveries message recipient = do
    devices ← query (recipient_devices recipient)
    insert_deliveries message devices

  -- `UPDATE threads SET state = 'input-required', updated_at = ? WHERE id = ?`
  abbrev pub await_verdict : Ref → Time → Tx B (Unit {0})
  await_verdict thread now = exec (λ db. record db {
    threads =
        update (λ t. t.id == thread)
          (λ t. record t { state = input_required; updated_at = unix now }) db.threads;
  })

  -- The part of `ingestTx` behind the marshalling: the rows of the message.
  unfoldable pub store_message : Envelope → Ref → B → Time → Tx B (Unit {0})
  unfolding fan_out_deliveries
  store_message e sender blob now = do
    insert_message (message_row e sender now blob)
    insert_tombstone (record { id = e.id; sent_at = unix e.sent_at })
    await_verdict e.thread now
    fan_out_deliveries e.id e.to

  -- `ingestTx`
  unfoldable pub ingest_tx : External B → Envelope → Ref → Time → Tx B (Unit {0})
  ingest_tx ext e sender now = do
    seen ← query (tombstone_seen e.id)
    refuse_if seen replay
    ensure_thread e sender now
    blob ← or_error (ext.marshal e) database
    store_message e sender blob now

  unfoldable pub ingest_message :
      External B → Envelope → Ref → Freshness → Time → Db B → Outcome B (Unit {0})
  ingest_message ext e sender fresh now db =
      if not (ext.is_uuid e.id)
      then (err replay, db)
      else if is_stale fresh e.sent_at now
      then (err not_fresh, db)
      else write_tx (ingest_tx ext e sender now) db

  -- `requireDelivery`
  abbrev pub require_delivery : Ref → Ref → Tx B (Unit {0})
  require_delivery message device = do
    known ← query (λ db. exists (is_delivery message device) db.deliveries)
    refuse_if (not known) not_found

  unfoldable pub mark_delivered : Ref → Ref → Time → Db B → Outcome B (Unit {0})
  mark_delivered message device now = write_tx do
    require_delivery message device
    exec (λ db. record db {
      deliveries =
          update (is_delivery message device)
            (λ d. record d { delivered_at = coalesce d.delivered_at (unix now) }) db.deliveries;
    })

  unfoldable pub ack : Ref → Ref → Time → Db B → Outcome B (Unit {0})
  ack message device now = write_tx do
    require_delivery message device
    exec (λ db. record db {
      deliveries =
          update (is_delivery message device)
            (λ d. record d {
              acked_at = coalesce d.acked_at (unix now);
              delivered_at = coalesce d.delivered_at (unix now);
            })
            db.deliveries;
    })

  -- `ORDER BY m.received_at, m.id`
  abbrev pub is_before : MessageRow B → MessageRow B → Bool
  is_before m n =
      ltb m.received_at n.received_at || (m.received_at == n.received_at && ltb m.id n.id)

  unfoldable pub insert_oldest : MessageRow B → List (MessageRow B) → List (MessageRow B)
  insert_oldest m [] = m ∷ []
  insert_oldest m (n ∷ ns) = if is_before n m then n ∷ insert_oldest m ns else m ∷ n ∷ ns

  unfoldable pub oldest_first : List (MessageRow B) → List (MessageRow B)
  oldest_first [] = []
  oldest_first (m ∷ ms) = insert_oldest m (oldest_first ms)

  -- `Inbox`. A device has one delivery row of a message at most, so that the join gives a message
  -- once.
  unfoldable pub inbox : Ref → Db B → List (MessageRow B)
  unfolding oldest_first insert_oldest
  inbox device db = oldest_first (
      select (λ m. exists (λ d. is_delivery m.id device d && is_null d.acked_at) db.deliveries)
        db.messages)
