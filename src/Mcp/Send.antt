-- ===== src/Mcp/Send.antt =====
-- internal/relay/mcp/outbound.go: send_message, approve_reply and discard_reply.
use askrelay.Base.{
  Ref, no_id, Time, Text, Bool, true, false, Option, none, some, [], ◌∷◌, ◌==◌, ltb, Result, ok,
  err, if◌then◌else◌,
}
use askrelay.Gate.{
  Release, submitted, pending_review, sent, discarded, DraftState, illegal_transition,
}
use askrelay.Envelope.{External, Envelope, max_body_bytes, byte_length, new_envelope}
use askrelay.Store.{
  Db, Person, Outcome, StoreError, not_found, not_participant, refused_by_gate, person_by_email,
  start_thread, create_draft, release_reply_via_grant, release_draft, discard_draft, text_part,
}
use askrelay.Mcp.Reply.{
  ToolError, internal, unseen, not_reviewable, too_long, not_on_roster, to_oneself, Reply, quietly,
}

pub record SendInput : Type 0 where
  pub to : Ref
  pub text : Text
  pub thread : Ref

pub record SendOutput : Type 0 where
  pub draft_id : Ref
  pub thread_id : Ref
  pub state : DraftState

pub record ReplyOutput : Type 0 where
  pub id : Ref
  pub state : DraftState

-- The role "agent", by its number.
abbrev pub agent_role : Ref
agent_role = 1

-- The draft's envelope: unsigned, from the person alone, marked as written by an AI.
abbrev pub asked : Ref → Ref → Ref → Text → Ref → Time → Envelope
asked person recipient thread text fresh now =
    new_envelope (record { person = person; device = no_id; agent = no_id }) recipient thread
      submitted true (record { role = agent_role; parts = text_part text ∷ [] }) no_id fresh now

-- `in.EditedText != nil && len(*in.EditedText) > envelope.MaxBodyBytes`
abbrev pub is_long_edit : Option Text → Bool
is_long_edit none = false
is_long_edit (some s) = ltb max_body_bytes (byte_length s)

-- The error that follows `PersonByEmail`.
unfoldable pub address_refusal : StoreError → ToolError
address_refusal not_found = not_on_roster
address_refusal e = internal

-- The error that follows `CreateDraft`.
unfoldable pub draft_refusal : StoreError → ToolError
draft_refusal not_participant = unseen
draft_refusal not_found = unseen
draft_refusal e = internal

-- `mapReplyErr`
unfoldable pub map_reply_err : StoreError → ToolError
map_reply_err not_found = unseen
map_reply_err (refused_by_gate illegal_transition) = not_reviewable
map_reply_err e = internal

module _ {B : Type 0} where
  -- The end of `send_message`: what the release by a grant came to.
  unfoldable pub answer_released :
      Ref → Ref → Outcome B (Ref × Option (Release Envelope)) → Reply B SendOutput
  answer_released draft thread (err e, db) = quietly (err internal) db
  answer_released draft thread (ok (recipient, none), db) =
      quietly (ok (record { draft_id = draft; thread_id = thread; state = pending_review })) db
  answer_released draft thread (ok (recipient, some rel), db) =
      (ok (record { draft_id = draft; thread_id = thread; state = sent }), some recipient, db)

  -- What follows `CreateDraft`.
  unfoldable pub answer_drafted : External B → Ref → Ref → Time → Outcome B Ref → Reply B SendOutput
  unfolding answer_released draft_refusal
  answer_drafted ext person thread now (err e, db) = quietly (err (draft_refusal e)) db
  answer_drafted ext person thread now (ok draft, db) =
      answer_released draft thread (release_reply_via_grant ext draft person now db)

  -- What follows the choice of the thread: a given one, or what `StartThread` returned.
  unfoldable pub answer_threaded :
      External B → Ref → Ref → Text → Ref → Time → Outcome B Ref → Reply B SendOutput
  unfolding answer_drafted
  answer_threaded ext person recipient text fresh now (err e, db) = quietly (err internal) db
  answer_threaded ext person recipient text fresh now (ok thread, db) =
      answer_drafted ext person thread now
        (create_draft ext thread person (asked person recipient thread text fresh now) now db)

  -- `threadID`: the input's, or a new one for an ask.
  unfoldable pub choose_thread : Ref → Ref → Ref → Ref → Time → Db B → Outcome B Ref
  choose_thread person recipient thread fresh now db =
      if thread == no_id then start_thread person recipient now fresh db else (ok thread, db)

  -- What follows the look-up of the recipient.
  unfoldable pub answer_addressed :
      External B
      → Ref
      → SendInput
      → Ref
      → Ref
      → Time
      → Db B
      → Result StoreError Person
      → Reply B SendOutput
  unfolding answer_threaded choose_thread address_refusal
  answer_addressed ext person input fresh_thread fresh now db (err e) =
      quietly (err (address_refusal e)) db
  answer_addressed ext person input fresh_thread fresh now db (ok r) =
      if r.id == person
      then quietly (err to_oneself) db
      else answer_threaded ext person r.id input.text fresh now
          (choose_thread person r.id input.thread fresh_thread now db)

  -- send_message, with the fresh ids of a thread and of an envelope.
  unfoldable pub send_message :
      External B → Ref → SendInput → Ref → Ref → Time → Db B → Reply B SendOutput
  unfolding answer_addressed
  send_message ext person input fresh_thread fresh now db =
      if ltb max_body_bytes (byte_length input.text)
      then quietly (err too_long) db
      else answer_addressed ext person input fresh_thread fresh now db (person_by_email input.to db)

  -- The answer to a release of a person's own draft.
  unfoldable pub answer_approved :
      Ref → Outcome B (Ref × Option (Release Envelope)) → Reply B ReplyOutput
  unfolding map_reply_err
  answer_approved id (err e, db) = quietly (err (map_reply_err e)) db
  answer_approved id (ok (recipient, rel), db) =
      (ok (record { id = id; state = sent }), some recipient, db)

  -- approve_reply
  unfoldable pub approve_reply :
      External B → Ref → Ref → Option Text → Time → Db B → Reply B ReplyOutput
  unfolding answer_approved
  approve_reply ext person id edited now db =
      if is_long_edit edited
      then quietly (err too_long) db
      else answer_approved id (release_draft ext person id edited now db)

  unfoldable pub answer_discarded : Ref → Outcome B (Unit {0}) → Reply B ReplyOutput
  unfolding map_reply_err
  answer_discarded id (err e, db) = quietly (err (map_reply_err e)) db
  answer_discarded id (ok _, db) = quietly (ok (record { id = id; state = discarded })) db

  -- discard_reply
  unfoldable pub discard_reply : External B → Ref → Ref → Time → Db B → Reply B ReplyOutput
  unfolding answer_discarded
  discard_reply ext person id now db = answer_discarded id (discard_draft ext person id now db)
