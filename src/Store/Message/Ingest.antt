-- ===== src/Store/Message/Ingest.antt =====
-- What `ingestTx` leaves in the tables, as one explicit database.
use askrelay.Base.{
  Ref, Time, unix, ◌≡◌, ◌⊎◌, inl, inr, none, some, List, [], ◌∷◌, ok, err, arith, Option-cases,
  Result-cases, ◌==◌, refl, Bool, Bool-cases, true, false, Option, is_some, if◌then◌else◌,
}
use askrelay.Base.Table.{find, update}
use askrelay.Gate.{input_required}
use askrelay.Envelope.{External, Envelope}
use askrelay.Store.Schema.{Db, Tx, StoreError, Device, Thread, Delivery}
use askrelay.Store.Message.{
  insert_deliveries, ingest_tx, check_parties, ensure_thread, first_thread, recipient_devices,
  message_row, store_message,
}

-- The delivery rows of a message: one for each device of the list.
pub delivery_rows : Ref → List Device → List Delivery → List Delivery
delivery_rows message [] rows = rows
delivery_rows message (d ∷ ds) rows = delivery_rows message ds (
    (record { message_id = message; device_id = d.id; delivered_at = none; acked_at = none })
    ∷ rows)

-- A delivery row for each device that is the recipient's and that is not revoked.
pub active_rows : Ref → Ref → List Device → List Delivery → List Delivery
active_rows message person [] rows = rows
active_rows message person (d ∷ ds) rows =
    active_rows message person ds (added (d.person_id == person) d.revoked_at)
  where
    -- The rows after this device: `mine` says that the recipient owns it.
    added : Bool → Option Time → List Delivery
    added true none =
        (record { message_id = message; device_id = d.id; delivered_at = none; acked_at = none })
        ∷ rows
    added _ _ = rows

-- The threads with that of the message, which is new where none has its id, awaiting a verdict.
abbrev pub awaiting_threads : Envelope → Ref → Time → List Thread → List Thread
awaiting_threads e sender now ts =
    update (λ t. t.id == e.thread) (λ t. record t { state = input_required; updated_at = unix now })
      (if is_some (find (λ t. t.id == e.thread) ts)
        then ts
        else (record {
          id = e.thread;
          initiator_id = sender;
          recipient_id = e.to;
          state = input_required;
          created_at = unix now;
          updated_at = unix now;
        })
          ∷ ts)

module _ {B : Type 0} where
  -- The database after a message is in: the message, its tombstone, its thread awaiting a verdict,
  -- and a delivery row for each active device of the recipient.
  abbrev pub ingested : Envelope → Ref → Time → B → Db B → Db B
  ingested e sender now blob db = record db {
    messages =
        (record {
          id = e.id;
          thread_id = e.thread;
          sender_id = sender;
          envelope = blob;
          sent_at = unix e.sent_at;
          received_at = unix now;
          via_grant = false;
        })
        ∷ db.messages;
    tombstones = (record { id = e.id; sent_at = unix e.sent_at }) ∷ db.tombstones;
    threads = awaiting_threads e sender now db.threads;
    deliveries = active_rows e.id e.to db.devices db.deliveries;
  }

  -- A statement ends in this database, or fails.
  abbrev pub Yields : Tx B (Unit {0}) → Db B → Db B → Type 0
  Yields m db db' = (m db ≡ ok (tt, db')) ⊎ ((e : StoreError) × (m db ≡ err e))

  insert_deliveries-delivery_rows :
      (message : Ref) (ds : List Device) (db db' : Db B)
      → insert_deliveries message ds db ≡ ok (tt, db')
      → db' ≡ record db { deliveries = delivery_rows message ds db.deliveries }
  unfolding insert_deliveries delivery_rows
  insert_deliveries-delivery_rows message [] db db' h = ground arith
  insert_deliveries-delivery_rows message (d ∷ ds) db db' h = ground (
    arith,
    insert_deliveries-delivery_rows message ds
        (record db {
          deliveries =
              (record {
                message_id = message;
                device_id = d.id;
                delivered_at = none;
                acked_at = none;
              })
              ∷ db.deliveries;
        })
        db',
  )

  insert_deliveries-Yields :
      (message : Ref) (ds : List Device) (db : Db B)
      → Yields
          (insert_deliveries message ds)
          db
          (record db { deliveries = delivery_rows message ds db.deliveries })
  insert_deliveries-Yields message ds db = elim (Result-cases (insert_deliveries message ds db)) [
    | inl ((_, db'), e) ↦
        inl (rw e (ground (arith, insert_deliveries-delivery_rows message ds db db' e)))
    | inr failed ↦ inr failed
  ]

  -- The devices that the query selects are those that are the recipient's and not revoked.
  delivery_rows-recipient_devices :
      (message person : Ref) (db : Db B) (ds : List Device) (rows : List Delivery)
      → delivery_rows message (recipient_devices person (record db { devices = ds })) rows
        ≡ active_rows message person ds rows
  unfolding delivery_rows active_rows
  delivery_rows-recipient_devices message person db [] rows = refl
  delivery_rows-recipient_devices message person db (d ∷ ds) rows =
      elim (Bool-cases (d.person_id == person)) [
        | inr other ↦ rw other (delivery_rows-recipient_devices message person db ds rows)
        | inl mine ↦ elim (Option-cases d.revoked_at) [
          | inl live ↦ rw (mine, live) (delivery_rows-recipient_devices message person db ds _)
          | inr (t, gone) ↦
              rw (mine, gone) (delivery_rows-recipient_devices message person db ds rows)
        ]
      ]

  -- The threads after `ensureThread`.
  abbrev ensured : Envelope → Ref → Time → Db B → Db B
  ensured e sender now db = record db {
    threads =
        if is_some (find (λ t. t.id == e.thread) db.threads)
        then db.threads
        else first_thread e sender now ∷ db.threads;
  }

  ensure_thread-ensured :
      (e : Envelope) (sender : Ref) (now : Time) (db : Db B)
      → Yields (ensure_thread e sender now) db (ensured e sender now db)
  unfolding ensure_thread check_parties
  ensure_thread-ensured e sender now db = ground arith

  -- The database behind the message, the tombstone and the thread's state, before the fan-out.
  abbrev stored : Envelope → Ref → Time → B → Db B → Db B
  stored e sender now blob db = record db {
    messages = message_row e sender now blob ∷ db.messages;
    tombstones = (record { id = e.id; sent_at = unix e.sent_at }) ∷ db.tombstones;
    threads =
        update (λ t. t.id == e.thread)
          (λ t. record t { state = input_required; updated_at = unix now }) db.threads;
  }

  store_message-stored :
      (e : Envelope) (sender : Ref) (blob : B) (now : Time) (db db' : Db B)
      → store_message e sender blob now db ≡ ok (tt, db')
      → db' ≡ record (stored e sender now blob db) {
        deliveries = delivery_rows e.id (recipient_devices e.to db) db.deliveries;
      }
  unfolding store_message
  store_message-stored e sender blob now db db' h = ground (
    arith,
    insert_deliveries-Yields e.id (recipient_devices e.to db) (stored e sender now blob db),
  )

  ingest_tx-steps :
      (ext : External B) (e : Envelope) (sender : Ref) (now : Time) (db db' : Db B)
      → ingest_tx ext e sender now db ≡ ok (tt, db')
      → (blob : B) × (ext.marshal e ≡ some blob)
        × (store_message e sender blob now (ensured e sender now db) ≡ ok (tt, db'))
  unfolding ingest_tx
  ingest_tx-steps ext e sender now db db' h = elim (Option-cases (ext.marshal e)) [
    | inl no_blob ↦ absurd (ground (arith, ensure_thread-ensured e sender now db))
    | inr (blob, m) ↦ (blob, m, ground (arith, ensure_thread-ensured e sender now db))
  ]

  -- Where `ingest_tx` returns no error, the database is the one before with exactly these rows
  -- changed: the message as the encoder writes it, its tombstone with the signed time, its thread
  -- awaiting a verdict (a new one from the sender to the recipient where no thread has its id),
  -- and an unacked delivery for each device of the recipient that is not revoked.
  pub ingest_tx-ingested :
      (ext : External B) (e : Envelope) (sender : Ref) (now : Time) (db db' : Db B)
      → ingest_tx ext e sender now db ≡ ok (tt, db')
      → (blob : B) × (ext.marshal e ≡ some blob) × (db' ≡ ingested e sender now blob db)
  ingest_tx-ingested ext e sender now db db' h =
      let (blob, m, s) = ingest_tx-steps ext e sender now db db' h in
      (
        blob,
        m,
        rw (← delivery_rows-recipient_devices e.id e.to db db.devices db.deliveries)
            (store_message-stored e sender blob now (ensured e sender now db) db' s),
      )
