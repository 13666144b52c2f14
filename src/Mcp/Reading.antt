-- ===== src/Mcp/Reading.antt =====
-- check_inbox and get_thread: internal/relay/mcp/check_inbox.go and get_thread.go.
use askrelay.Base.{
  Ref, Text, codes, Bool, true, false, ◌&&◌, List, [], ◌∷◌, ◌++◌, ◌==◌, Result, ok, err,
  if◌then◌else◌,
}
use askrelay.Gate.{ThreadState, input_required}
use askrelay.Envelope.{External, decode}
use askrelay.Store.{
  Db, Draft, InboundItem, ThreadMessage, ThreadView, inbound_awaiting, drafts_awaiting_review,
  thread_for, StoreError, not_found,
}
use askrelay.Mcp.Reply.{ToolError, unseen, internal}
use askrelay.Mcp.Spotlight.{Rendering, newline, spotlight}

-- The kinds "message" and "draft".
pub data EntryKind : Type 0 where
  message draft : EntryKind

pub record InboxEntry : Type 0 where
  pub id : Ref
  pub thread_id : Ref
  pub kind : EntryKind

-- The two lists, and the text of the result.
pub record CheckInboxOutput : Type 0 where
  pub to_approve : List InboxEntry
  pub to_review : List InboxEntry
  pub text : Text

pub record ThreadMsg : Type 0 where
  pub id : Ref
  pub from : Ref

pub record GetThreadOutput : Type 0 where
  pub thread_id : Ref
  pub state : ThreadState
  pub messages : List ThreadMsg
  pub drafts : List InboxEntry
  pub text : Text

abbrev is_blank : Text → Bool
is_blank [] = true
is_blank (c ∷ s) = false

-- `strings.TrimRight(s, "\n")`
unfoldable pub trim_right : Text → Text
trim_right [] = []
trim_right (c ∷ s) =
    let rest = trim_right s in if c == newline && is_blank rest then [] else c ∷ rest

module _ {B : Type 0} where
  unfoldable pub draft_entries : List (Draft B) → List InboxEntry
  draft_entries [] = []
  draft_entries (d ∷ ds) =
      (record { id = d.id; thread_id = d.thread_id; kind = draft }) ∷ draft_entries ds

-- `nonce` gives the random nonce that is drawn for a message.
module _ {B : Type 0} (ext : External B) (how : Rendering) (nonce : Ref → Text) where
  -- A block of the text.
  abbrev pub block : Ref → Ref → B → ThreadState → Text
  block id sender blob state = elim (decode ext blob) [
    | err e ↦ []
    | ok e ↦
        spotlight how (nonce id) e (how.text_of sender ++ codes " (device verified)")
          (how.state_text state)
        ++ newline ∷ newline ∷ []
  ]

  -- The items whose envelope decodes, as entries.
  unfoldable pub message_entries : List (InboundItem B) → List InboxEntry
  message_entries [] = []
  message_entries (i ∷ is) = elim (decode ext i.envelope) [
    | err e ↦ message_entries is
    | ok e ↦
        (record { id = i.message_id; thread_id = i.thread_id; kind = message }) ∷ message_entries is
  ]

  unfoldable pub inbox_text : List (InboundItem B) → Text
  inbox_text [] = []
  inbox_text (i ∷ is) = block i.message_id i.sender_email i.envelope input_required ++ inbox_text is

  -- check_inbox
  unfoldable pub check_inbox : Ref → Db B → CheckInboxOutput
  unfolding message_entries draft_entries inbox_text trim_right
  check_inbox person db =
      let inbound = inbound_awaiting person db in
      record {
        to_approve = message_entries inbound;
        to_review = draft_entries (drafts_awaiting_review person db);
        text = trim_right (inbox_text inbound);
      }

  unfoldable pub thread_msgs : List (ThreadMessage B) → List ThreadMsg
  thread_msgs [] = []
  thread_msgs (m ∷ ms) = elim (decode ext m.envelope) [
    | err e ↦ thread_msgs ms
    | ok e ↦ (record { id = m.message_id; from = m.sender_email }) ∷ thread_msgs ms
  ]

  unfoldable pub thread_text : ThreadState → List (ThreadMessage B) → Text
  thread_text state [] = []
  thread_text state (m ∷ ms) =
      block m.message_id m.sender_email m.envelope state ++ thread_text state ms

  -- get_thread behind the look-up.
  unfoldable pub thread_output : Result StoreError (ThreadView B) → Result ToolError GetThreadOutput
  unfolding thread_msgs draft_entries thread_text trim_right
  thread_output (err not_found) = err unseen
  thread_output (err e) = err internal
  thread_output (ok view) = ok (record {
    thread_id = view.thread_id;
    state = view.state;
    messages = thread_msgs view.messages;
    drafts = draft_entries view.drafts;
    text = trim_right (thread_text view.state view.messages);
  })

  -- get_thread
  unfoldable pub get_thread : Ref → Ref → Db B → Result ToolError GetThreadOutput
  unfolding thread_output
  get_thread person thread db = thread_output (thread_for person thread db)
