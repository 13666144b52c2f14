-- ===== src/History/Bypass.antt =====
-- Where a stored message comes from: the calls that add a row to the messages of
-- internal/relay/store/migrations/0001_init.sql.
use askrelay.Base.{
  Ref, Time, Text, Option, none, some, ◌∙◌, ap, Bool-cases, inl, inr, ◌⊎◌, Bool, true, false, ◌≡◌,
  refl, ◌==◌, ◌&&◌, ==→eq, arith, ok,
}
use mathlib.Core.Path.{subst}
use askrelay.Base.Table.{exists, find}
use askrelay.Gate.{pending_review, Release}
use askrelay.Envelope.{External, Envelope, decode}
use askrelay.Store.{
  Db, is_swept, Draft, write_tx, write_tx-cases, ingest_tx, ingest_message, is_stale,
  is_active_outbound, release_draft, release_draft_tx, release_reply_via_grant,
  release_via_grant_tx, create_invite, enroll, revoke_device, start_thread, mark_delivered, ack,
  create_draft, transition_inbound, inbound_message_verdict, set_thread_grant, revoke_thread_grant,
  approve_inbound_via_grant, register_client, create_auth_code, consume_auth_code,
  create_refresh_token, consume_refresh_token, sweep_messages, sweep_drafts, prune_tombstones,
  sweep_oauth,
}
use askrelay.Store.Message.Ingest.{ingest_tx-ingested}
use askrelay.Store.Drafts.Effects.{
  Released, edited_payload, release_draft_tx-Released, release_via_grant_tx-granted,
  release_via_grant_tx-none,
}
use askrelay.History.{
  Call, Settings, step, ingests, releases_draft, releases_via_grant, discards_draft,
  approves_via_grant, sweeps_messages,
}
use askrelay.History.Delivery.{discard_draft-decides}
use askrelay.History.Rows.{exists-update-false, exists-delete-false}

-- A message with this id is stored.
abbrev pub is_stored : {B : Type 0} → Ref → Db B → Bool
is_stored m db = exists (λ r. r.id == m) db.messages

-- The person's own draft, pending review, whose payload has this id.
abbrev pub OwnDraft : {B : Type 0} → External B → Ref → Ref → Ref → Draft B → Db B → Type 0
OwnDraft ext person i m row db =
    (find (λ d. d.id == i) db.drafts ≡ some row)
    × (row.author_id ≡ person)
    × (row.state ≡ pending_review)
    × (e : Envelope) × (decode ext row.envelope ≡ ok e)
    × (e.id ≡ m)

-- The calls by which a message comes in.
pub data Admits {B : Type 0} (ext : External B) (m : Ref) (db : Db B) (call : Call) : Type 0 where
  received :
      (e : Envelope) (sender : Ref) → call ≡ ingests e sender → e.id ≡ m → Admits ext m db call
  released :
      (person i : Ref) (edited : Option Text) (row : Draft B)
      → call ≡ releases_draft person i edited
      → OwnDraft ext person i m row db
      → Admits ext m db call
  granted :
      (i granter : Ref) (row : Draft B)
      → call ≡ releases_via_grant i granter
      → OwnDraft ext granter i m row db
      → exists (is_active_outbound row.thread_id granter) db.grants ≡ true
      → Admits ext m db call

edited_payload-id : (edited : Option Text) (e : Envelope) → (edited_payload edited e).id ≡ e.id
edited_payload-id none e = refl
edited_payload-id (some s) e = refl

abbrev thread_or : Ref → Option (Release Envelope) → Ref
thread_or t none = t
thread_or t (some rel) = rel.thread

on_thread :
    {B : Type 0} {ext : External B} {i person : Ref} {now : Time} {db db' : Db B} {r : Ref}
    {rel : Release Envelope}
    → (q : Released ext i person none true now db db' r (some rel))
    → exists (is_active_outbound rel.thread person) db.grants ≡ true
    → exists (is_active_outbound q.row.thread_id person) db.grants ≡ true
on_thread {person = person} {db = db} q active =
    subst (λ t. exists (is_active_outbound t person) db.grants ≡ true)
      (ap (λ o. thread_or 0 o) q.minted) active

module _ {B : Type 0} (ext : External B) (c : Settings) where
  ingest_message-transaction :
      (e : Envelope) (sender : Ref) (now : Time) (db : Db B)
      → ((ingest_message ext e sender c.fresh now db).1 ≡ db)
        ⊎ ((ingest_message ext e sender c.fresh now db).1
            ≡ (write_tx (ingest_tx ext e sender now) db).1)
  unfolding ingest_message
  ingest_message-transaction e sender now db = elim (Bool-cases (ext.is_uuid e.id)) [
    | inr bad ↦ inl (rw bad refl)
    | inl good ↦ elim (Bool-cases (is_stale c.fresh e.sent_at now)) [
      | inl old ↦ inl (rw (good, old) refl)
      | inr new ↦ inr (rw (good, new) refl)
    ]
  ]

  ingested-id :
      (e : Envelope) (sender : Ref) (now : Time) (m : Ref) (db : Db B)
      → is_stored m db ≡ false
      → is_stored m (write_tx (ingest_tx ext e sender now) db).1 ≡ true
      → e.id ≡ m
  ingested-id e sender now m db absent there =
      elim (write_tx-cases (ingest_tx ext e sender now) db) [
        | inl same ↦ absurd (ground (arith, same))
        | inr (_, db', h, after) ↦
            let (blob, _, q) = ingest_tx-ingested ext e sender now db db' h in
            let stored = subst (λ d. is_stored m d ≡ true) (after ∙ q) there in
            ==→eq e.id m (ground (arith, stored))
      ]

  ingests-Admits :
      (e : Envelope) (sender : Ref) (now : Time) (m : Ref) (db : Db B)
      → is_stored m db ≡ false
      → is_stored m (ingest_message ext e sender c.fresh now db).1 ≡ true
      → Admits ext m db (ingests e sender)
  ingests-Admits e sender now m db absent there =
      elim (ingest_message-transaction e sender now db) [
        | inl same ↦ absurd (ground (arith, subst (λ d. is_stored m d ≡ true) same there))
        | inr q ↦
            received e sender refl
              (ingested-id e sender now m db absent (subst (λ d. is_stored m d ≡ true) q there))
      ]

  Released-OwnDraft :
      (person i m : Ref) (edited : Option Text) (via : Bool) (now : Time) (db db' : Db B) (r : Ref)
      (rel : Option (Release Envelope))
      → (q : Released ext i person edited via now db db' r rel) → is_stored m db ≡ false
      → is_stored m db' ≡ true
      → OwnDraft ext person i m q.row db
  Released-OwnDraft person i m edited via now db db' r rel q absent there =
      let stored = subst (λ d. is_stored m d ≡ true) q.delivered there in
      (
        q.found,
        q.owned,
        q.pending,
        q.stored,
        q.decoded,
        ==→eq q.stored.id m (ground (arith, stored, edited_payload-id edited q.stored)),
      )

  releases-Admits :
      (person i : Ref) (edited : Option Text) (now : Time) (m : Ref) (db : Db B)
      → is_stored m db ≡ false
      → is_stored m (release_draft ext person i edited now db).1 ≡ true
      → Admits ext m db (releases_draft person i edited)
  unfolding release_draft
  releases-Admits person i edited now m db absent there =
      elim (write_tx-cases (release_draft_tx ext person i edited now) db) [
        | inl same ↦ absurd (ground (arith, subst (λ d. is_stored m d ≡ true) same there))
        | inr ((r, rel), db', h, after) ↦
            let q = release_draft_tx-Released ext person i edited now db db' r rel h in
            released person i edited q.row refl (
              Released-OwnDraft person i m edited false now db db' r rel q absent
                (subst (λ d. is_stored m d ≡ true) after there))
      ]

  grants-Admits :
      (i granter : Ref) (now : Time) (m : Ref) (db : Db B)
      → is_stored m db ≡ false
      → is_stored m (release_reply_via_grant ext i granter now db).1 ≡ true
      → Admits ext m db (releases_via_grant i granter)
  unfolding release_reply_via_grant
  grants-Admits i granter now m db absent there =
      elim (write_tx-cases (release_via_grant_tx ext i granter now) db) [
        | inl same ↦ absurd (ground (arith, subst (λ d. is_stored m d ≡ true) same there))
        | inr ((r, none), db', h, after) ↦
            let same = after ∙ release_via_grant_tx-none ext i granter now db db' r h in
            absurd (ground (arith, subst (λ d. is_stored m d ≡ true) same there))
        | inr ((r, some rel), db', h, after) ↦
            let (q, active) = release_via_grant_tx-granted ext i granter now db db' r rel h in
            granted i granter q.row refl
              (Released-OwnDraft granter i m none true now db db' r (some rel) q absent
                (subst (λ d. is_stored m d ≡ true) after there))
              (on_thread q active)
      ]

  -- A message is stored by no other call than these three: an ingest of an envelope with its id,
  -- a release of a draft of its id that is the caller's own and pending review, or a release of
  -- such a draft for a granter who has an active outbound grant on the draft's thread.
  pub step-Admits :
      (now : Time) (call : Call) (m : Ref) (db : Db B)
      → is_stored m db ≡ false
      → is_stored m (step ext c now call db) ≡ true
      → Admits ext m db call
  unfolding step create_invite enroll revoke_device start_thread mark_delivered ack create_draft
      transition_inbound inbound_message_verdict set_thread_grant revoke_thread_grant
      approve_inbound_via_grant register_client create_auth_code consume_auth_code
      create_refresh_token consume_refresh_token sweep_messages sweep_drafts prune_tombstones
      sweep_oauth
  step-Admits now (ingests e sender) m db absent there =
      ingests-Admits e sender now m db absent there
  step-Admits now (releases_draft p i edited) m db absent there =
      releases-Admits p i edited now m db absent there
  step-Admits now (releases_via_grant i g) m db absent there =
      grants-Admits i g now m db absent there
  step-Admits now (discards_draft p d) m db absent there =
      absurd (ground (arith, discard_draft-decides ext p d now db))
  step-Admits now (approves_via_grant t p i) m db absent there =
      let quiet =
        exists-update-false (λ r. r.id == m) (λ r. r.id == i && r.thread_id == t)
          (λ r. record r { via_grant = true }) db.messages (λ a k. k) absent in
      absurd (ground (arith, quiet))
  step-Admits now sweeps_messages m db absent there =
      let quiet =
        exists-delete-false (λ r. r.id == m) (is_swept c.policy now db.deliveries) db.messages
          absent in
      absurd (ground (arith, quiet))
  step-Admits now call m db absent there = absurd (ground arith)
