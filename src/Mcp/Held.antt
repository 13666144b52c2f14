-- ===== src/Mcp/Held.antt =====
-- What send_message of internal/relay/mcp/outbound.go does without a standing grant: the draft
-- waits for its author.
use askrelay.Base.{
  Ref, no_id, Time, unix, Text, none, some, false, Bool-cases, Result, ok, err, Result-cases,
  Option-cases, ◌⊎◌, inl, inr, ◌≡◌, refl, ◌==◌, ltb, if◌then◌else◌, arith,
}
use askrelay.Base.Table.{find, exists}
use askrelay.Gate.{pending_review}
use askrelay.Envelope.{External, Envelope, max_body_bytes, byte_length, decode}
use askrelay.Store.{
  Db, Draft, Outcome, Person, StoreError, is_active_outbound, release_reply_via_grant,
  release_via_grant_tx, load_draft, release_if_granted, create_draft, create_draft_tx, start_thread,
}
use askrelay.Mcp.Reply.{ToolError, Reply}
use askrelay.Mcp.Send.{
  SendInput, SendOutput, send_message, draft_refusal, address_refusal, answer_released,
  answer_drafted, answer_threaded, answer_addressed, choose_thread,
}
use askrelay.Mcp.Tools.{after, notified}

module _ {B : Type 0} where
  -- No message was stored, nobody is notified, and the answer is an error or a draft that waits.
  abbrev pub Held : Db B → Reply B SendOutput → Type 0
  Held db r =
      ((after r).messages ≡ db.messages)
      × ((after r).deliveries ≡ db.deliveries)
      × (notified r ≡ none)
      × (((e : ToolError) × (r.0 ≡ err e))
          ⊎ ((out : SendOutput) × (r.0 ≡ ok out) × (out.state ≡ pending_review)))

  -- The row that `create_draft` adds.
  abbrev new_draft : Ref → Ref → Envelope → B → Time → Draft B
  new_draft t author e blob now = record {
    id = e.id;
    thread_id = t;
    author_id = author;
    envelope = blob;
    state = pending_review;
    via_grant = false;
    created_at = unix now;
    decided_at = none;
  }

  -- The tables that matter here are as they were.
  abbrev Kept : Db B → Db B → Type 0
  Kept db db' =
      (db'.messages ≡ db.messages) × (db'.deliveries ≡ db.deliveries) × (db'.grants ≡ db.grants)

module _ {B : Type 0} (ext : External B) (person : Ref) (now : Time) where
  ungranted-none :
      (t id : Ref) (db : Db B) (row : Draft B)
      → exists (is_active_outbound t person) db.grants ≡ false
      → find (λ d. d.id == id) db.drafts ≡ some row
      → row.thread_id ≡ t
      → ((e : StoreError) × (release_reply_via_grant ext id person now db ≡ (err e, db)))
        ⊎ (release_reply_via_grant ext id person now db ≡ (ok (no_id, none), db))
  unfolding release_reply_via_grant release_via_grant_tx load_draft release_if_granted
  ungranted-none t id db row h f same = elim (Result-cases (decode ext row.envelope)) [
    | inl (payload, e) ↦ inr (ground arith)
    | inr (e, q) ↦ inl (askrelay.Store.refused_envelope e, ground arith)
  ]

  created-row :
      (t : Ref) (e : Envelope) (db db' : Db B) (id : Ref)
      → create_draft ext t person e now db ≡ (ok id, db')
      → Kept db db'
        × ((row : Draft B) × (find (λ d. d.id == id) db'.drafts ≡ some row) × (row.thread_id ≡ t))
  unfolding create_draft askrelay.Store.create_valid_draft create_draft_tx
  created-row t e db db' id h = elim (Option-cases (ext.marshal e)) [
    | inl q ↦ absurd (ground arith)
    | inr (blob, q) ↦ (ground arith, (new_draft t person e blob now, ground arith, refl))
  ]

  refused-draft :
      (t : Ref) (e : Envelope) (db db' : Db B) (v : StoreError)
      → create_draft ext t person e now db ≡ (err v, db')
      → db' ≡ db
  unfolding create_draft
  refused-draft t e db db' v h = ground arith

  released-Held :
      (t id : Ref) (before db : Db B) (row : Draft B)
      → Kept before db
      → exists (is_active_outbound t person) before.grants ≡ false
      → find (λ d. d.id == id) db.drafts ≡ some row
      → row.thread_id ≡ t
      → Held before (answer_released id t (release_reply_via_grant ext id person now db))
  unfolding answer_released
  released-Held t id before db row kept h f same =
      elim (ungranted-none t id db row (ground arith) f same) [
        | inl (e, q) ↦ rw q (kept.0, kept.1, refl, inl (askrelay.Mcp.internal, refl))
        | inr q ↦ rw q (
          kept.0,
          kept.1,
          refl,
          inr (record { draft_id = id; thread_id = t; state = pending_review }, refl, refl),
        )
      ]

  drafted-Held :
      (t : Ref) (e : Envelope) (before db : Db B) (o : Outcome B Ref)
      → Kept before db
      → exists (is_active_outbound t person) before.grants ≡ false
      → create_draft ext t person e now db ≡ o
      → Held before (answer_drafted ext person t now o)
  unfolding answer_drafted
  drafted-Held t e before db (ok id, db') kept h q =
      let (same, (row, found, on)) = created-row t e db db' id q in
      released-Held t id before db' row (ground arith) h found on
  drafted-Held t e before db (err v, db') kept h q =
      let same = refused-draft t e db db' v q in
      (ground arith, ground arith, refl, inl (draft_refusal v, refl))

  threaded-Held :
      (recipient : Ref) (text : Text) (t fresh : Ref) (before : Db B) (o : Outcome B Ref)
      → Kept before o.1
      → ((v : StoreError) × (o.0 ≡ err v)) ⊎ (o.0 ≡ ok t)
      → exists (is_active_outbound t person) before.grants ≡ false
      → Held before (answer_threaded ext person recipient text fresh now o)
  unfolding answer_threaded
  threaded-Held recipient text t fresh before (err v, db) kept q h =
      (kept.0, kept.1, refl, inl (askrelay.Mcp.internal, refl))
  threaded-Held recipient text t fresh before (ok t', db) kept q h =
      drafted-Held t' _ before db _ kept (ground arith) refl

  chosen-Kept :
      (recipient thread fresh_thread : Ref) (db : Db B)
      → Kept db (choose_thread person recipient thread fresh_thread now db).1
        × (((v : StoreError) × ((choose_thread person recipient thread fresh_thread now db).0
                ≡ err v))
            ⊎ ((choose_thread person recipient thread fresh_thread now db).0
                ≡ ok (if thread == no_id then fresh_thread else thread)))
  unfolding choose_thread start_thread
  chosen-Kept recipient thread fresh_thread db =
      elim (Result-cases (choose_thread person recipient thread fresh_thread now db).0) [
        | inl (t, e) ↦ (ground arith, inr (ground arith))
        | inr (v, e) ↦ (ground arith, inl (v, e))
      ]

  addressed-Held :
      (input : SendInput) (fresh_thread fresh : Ref) (db : Db B) (found : Result StoreError Person)
      → exists
          (is_active_outbound (if input.thread == no_id then fresh_thread else input.thread) person)
          db.grants
        ≡ false
      → Held db (answer_addressed ext person input fresh_thread fresh now db found)
  unfolding answer_addressed
  addressed-Held input fresh_thread fresh db (err v) h =
      (refl, refl, refl, inl (address_refusal v, refl))
  addressed-Held input fresh_thread fresh db (ok r) h = elim (Bool-cases (r.id == person)) [
    | inl own ↦ rw own (refl, refl, refl, inl (askrelay.Mcp.to_oneself, refl))
    | inr other ↦
        let (kept, chosen) = chosen-Kept r.id input.thread fresh_thread db in
        rw other (threaded-Held r.id input.text _ fresh db _ kept chosen h)
  ]

  -- Where a person has no active outbound grant on the thread of a message (the given one, or the
  -- new one of an ask), send_message stores no message and no delivery and notifies nobody; it
  -- answers with an error, or with a draft that is pending review.
  pub send-Held :
      (input : SendInput) (fresh_thread fresh : Ref) (db : Db B)
      → exists
          (is_active_outbound (if input.thread == no_id then fresh_thread else input.thread) person)
          db.grants
        ≡ false
      → Held db (send_message ext person input fresh_thread fresh now db)
  unfolding send_message
  send-Held input fresh_thread fresh db h =
      elim (Bool-cases (ltb max_body_bytes (byte_length input.text))) [
        | inl long ↦ rw long (refl, refl, refl, inl (askrelay.Mcp.too_long, refl))
        | inr fits ↦ rw fits (addressed-Held input fresh_thread fresh db _ h)
      ]
