-- ===== src/Store/Drafts.antt =====
-- internal/relay/store/draft.go: drafts, their release and their delivery.
pub mod Effects
use askrelay.Base.{
  ℕ, Ref, no_id, Time, Text, codes, unix, Bool, true, false, not, ◌&&◌, ◌||◌, Option, none, some,
  List, [], ◌∷◌, ◌==◌, Result, ok, err, if◌then◌else◌,
}
use askrelay.Base.Table.{find, exists, update}
use askrelay.Gate.{
  Approvable, kind_message, outbound, is_outbound, approve, reject, DraftState, pending_review,
  Grant, Release, apply_outbound, apply_outbound_grant,
}
use askrelay.Envelope.{External, Envelope, Part, validate, decode}
use askrelay.Store.Schema.{
  Thread, Draft, GrantRow, Db, Tx, Outcome, ◌>>=◌, ◌>>◌, pure, query, or_error, refuse_if, exec,
  write_tx, lift_gate, lift_envelope, not_found, not_participant, bad_id, database,
  refused_envelope, is_null,
}
use askrelay.Store.Insert.{insert_draft}
use askrelay.Store.Message.{ingest_tx}

-- A person is one of the two parties of a thread.
abbrev pub is_party : Ref → Thread → Bool
is_party person t = not (not (person == t.initiator_id) && not (person == t.recipient_id))

-- The party that `CreateDraft` takes for the recipient of what the author writes.
abbrev pub other_party : Ref → Thread → Ref
other_party author t = if author == t.recipient_id then t.initiator_id else t.recipient_id

-- `WHERE thread_id=? AND person_id=? AND direction='outbound' AND revoked_at IS NULL`
abbrev pub is_active_outbound : Ref → Ref → GrantRow → Bool
is_active_outbound thread person g =
    g.thread_id == thread
    && g.person_id == person
    && is_outbound g.direction
    && is_null g.revoked_at

-- `gate.Approvable` for a draft.
abbrev pub draft_approvable : Ref → Ref → Envelope → Approvable Envelope
draft_approvable thread id payload = record {
  kind = kind_message;
  direction = outbound;
  thread = thread;
  id = id;
  payload = payload;
}

-- A text part.
abbrev pub text_part : Text → Part
text_part s = record { type = codes "text"; text = s }

-- The payload with an edited body.
abbrev pub with_text : Text → Envelope → Envelope
with_text s e = record e { body = record { role = e.body.role; parts = text_part s ∷ [] } }

module _ {B : Type 0} where
  -- The transaction of `CreateDraft`.
  unfoldable pub create_draft_tx : Ref → Ref → Envelope → B → Time → Tx B (Unit {0})
  create_draft_tx thread author e blob now = do
    found ← query (λ db. find (λ t. t.id == thread) db.threads)
    t ← or_error found not_found
    refuse_if (not (is_party author t)) not_participant
    refuse_if (not (e.to == other_party author t)) not_participant
    insert_draft (record {
      id = e.id;
      thread_id = thread;
      author_id = author;
      envelope = blob;
      state = pending_review;
      via_grant = false;
      created_at = unix now;
      decided_at = none;
    })

  unfoldable pub create_valid_draft :
      External B → Ref → Ref → Envelope → Time → Db B → Outcome B Ref
  unfolding create_draft_tx
  create_valid_draft ext thread author e now db = elim (ext.marshal e) [
    | none ↦ (err database, db)
    | some blob ↦ write_tx (do create_draft_tx thread author e blob now; pure e.id) db
  ]

  unfoldable pub create_draft : External B → Ref → Ref → Envelope → Time → Db B → Outcome B Ref
  unfolding create_valid_draft
  create_draft ext thread author e now db =
      if not (ext.is_uuid e.id) then (err bad_id, db) else elim (validate ext e) [
        | ok _ ↦ create_valid_draft ext thread author e now db
        | err v ↦ (err (refused_envelope v), db)
      ]

  -- `loadDraft`, with the decoded payload beside the row.
  unfoldable pub load_draft : External B → Ref → Tx B (Draft B × Envelope)
  load_draft ext id = do
    found ← query (λ db. find (λ d. d.id == id) db.drafts)
    d ← or_error found not_found
    payload ← lift_envelope (decode ext d.envelope)
    pure (d, payload)

  -- `setDraftDecided`
  abbrev pub set_draft_decided : Ref → DraftState → Bool → Time → Tx B (Unit {0})
  set_draft_decided id next via_grant now = exec (λ db. record db {
    drafts =
        update (λ d. d.id == id)
          (λ d. record d { state = next; via_grant = via_grant; decided_at = some (unix now) })
          db.drafts;
  })

  -- `deliverInTx`
  unfoldable pub deliver_in_tx : External B → Envelope → Ref → Time → Tx B Ref
  deliver_in_tx ext payload author now = do
    ingest_tx ext (record payload { sent_at = now }) author now
    pure payload.to

  -- The branch of `ReleaseDraft` for an edited text: the payload to release.
  unfoldable pub apply_edit : External B → Ref → Option Text → Envelope → Tx B Envelope
  apply_edit ext id none payload = pure payload
  apply_edit ext id (some s) payload = do
    lift_envelope (validate ext (with_text s payload))
    blob ← or_error (ext.marshal (with_text s payload)) database
    exec (λ db. record db {
      drafts = update (λ d. d.id == id) (λ d. record d { envelope = blob }) db.drafts;
    })
    pure (with_text s payload)

  -- The end of both releases: the decision is stored and the payload delivered.
  unfoldable pub deliver_decided :
      External B
      → Ref
      → Draft B
      → Envelope
      → Bool
      → Time
      → DraftState × Option (Release Envelope)
      → Tx B (Ref × Option (Release Envelope))
  deliver_decided ext id d payload via_grant now (next, rel) = do
    set_draft_decided id next via_grant now
    recipient ← deliver_in_tx ext payload d.author_id now
    pure (recipient, rel)

  -- The part of `ReleaseDraft` behind the edit: the gate's decision and what follows it.
  unfoldable pub release_approved :
      External B → Ref → Draft B → Envelope → Time → Tx B (Ref × Option (Release Envelope))
  release_approved ext id d payload now =
      lift_gate (apply_outbound (draft_approvable d.thread_id id payload) d.state approve)
      >>= deliver_decided ext id d payload false now

  -- The part of `ReleaseDraft` behind the look-up.
  unfoldable pub release_loaded :
      External B
      → Ref
      → Ref
      → Option Text
      → Time
      → Draft B × Envelope
      → Tx B (Ref × Option (Release Envelope))
  release_loaded ext person id edited now (d, stored) = do
    refuse_if (not (d.author_id == person)) not_found
    payload ← apply_edit ext id edited stored
    release_approved ext id d payload now

  unfoldable pub release_draft_tx :
      External B → Ref → Ref → Option Text → Time → Tx B (Ref × Option (Release Envelope))
  release_draft_tx ext person id edited now =
      load_draft ext id >>= release_loaded ext person id edited now

  unfoldable pub release_draft :
      External B
      → Ref
      → Ref
      → Option Text
      → Time
      → Db B
      → Outcome B (Ref × Option (Release Envelope))
  release_draft ext person id edited now = write_tx (release_draft_tx ext person id edited now)

  -- The part of `DiscardDraft` behind the look-up.
  unfoldable pub discard_loaded : Ref → Ref → Time → Draft B × Envelope → Tx B (Unit {0})
  discard_loaded person id now (d, payload) = do
    refuse_if (not (d.author_id == person)) not_found
    decision ← lift_gate (apply_outbound (draft_approvable d.thread_id id payload) d.state reject)
    set_draft_decided id decision.0 false now

  unfoldable pub discard_draft : External B → Ref → Ref → Time → Db B → Outcome B (Unit {0})
  discard_draft ext person id now = write_tx (load_draft ext id >>= discard_loaded person id now)

  -- `ReleaseReplyViaGrant` where the granter has a grant on the thread.
  unfoldable pub release_granted :
      External B → Ref → Draft B → Envelope → Time → Tx B (Ref × Option (Release Envelope))
  release_granted ext id d payload now =
      lift_gate (
        apply_outbound_grant
          (record { thread = d.thread_id; direction = outbound; revoked = false })
          (draft_approvable d.thread_id id payload) d.state)
      >>= deliver_decided ext id d payload true now

  -- The part of `ReleaseReplyViaGrant` behind the look-up of the draft. No release and no error: a
  -- person has to decide.
  unfoldable pub release_if_granted :
      External B → Ref → Ref → Time → Draft B × Envelope → Tx B (Ref × Option (Release Envelope))
  release_if_granted ext id granter now (d, payload) = do
    granted ← query (λ db. exists (is_active_outbound d.thread_id granter) db.grants)
    if not (d.author_id == granter) || not granted
        then pure (no_id, none)
        else release_granted ext id d payload now

  unfoldable pub release_via_grant_tx :
      External B → Ref → Ref → Time → Tx B (Ref × Option (Release Envelope))
  release_via_grant_tx ext id granter now =
      load_draft ext id >>= release_if_granted ext id granter now

  unfoldable pub release_reply_via_grant :
      External B → Ref → Ref → Time → Db B → Outcome B (Ref × Option (Release Envelope))
  release_reply_via_grant ext id granter now = write_tx (release_via_grant_tx ext id granter now)
