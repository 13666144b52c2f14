-- ===== src/Store/Read.antt =====
-- internal/relay/store/read.go: the roster, new threads, and what a person is shown.
pub mod Activity
pub mod Awaiting
use askrelay.Base.{
  ℕ, Ref, Time, unix, Bool, true, false, not, ◌&&◌, ◌||◌, Option, none, some, List, [], ◌∷◌, ◌==◌,
  ltb, Result, ok, err, if◌then◌else◌,
}
use askrelay.Base.Table.{find, exists, select}
use askrelay.Gate.{submitted, is_input_required, is_pending_review, ThreadState}
use askrelay.Store.Schema.{
  Person, Thread, MessageRow, Draft, Db, Tx, Outcome, StoreError, ◌>>=◌, ◌>>◌, pure, write_tx,
  not_found,
}
use askrelay.Store.Insert.{insert_thread}
use askrelay.Store.Drafts.{is_party}
use askrelay.Store.Approval.{is_latest, thread_of}

pub record InboundItem (B : Type 0) : Type 0 where
  pub message_id : Ref
  pub thread_id : Ref
  pub sender_email : Ref
  pub envelope : B

pub record ThreadMessage (B : Type 0) : Type 0 where
  pub message_id : Ref
  pub sender_email : Ref
  pub envelope : B
  pub received_at : ℕ

pub record ThreadView (B : Type 0) : Type 0 where
  pub thread_id : Ref
  pub state : ThreadState
  pub messages : List (ThreadMessage B)
  pub drafts : List (Draft B)

-- The rows in ascending order of a column.
module _ {A : Type 0} (key : A → ℕ) where
  insert_by : A → List A → List A
  insert_by a [] = a ∷ []
  insert_by a (b ∷ l) = if ltb (key b) (key a) then b ∷ insert_by a l else a ∷ b ∷ l

  -- `ORDER BY key`
  unfoldable pub order_by : List A → List A
  unfolding insert_by
  order_by [] = []
  order_by (a ∷ l) = insert_by a (order_by l)

-- The row of a new ask.
abbrev pub asked_thread : Ref → Ref → Ref → Time → Thread
asked_thread id initiator recipient now = record {
  id = id;
  initiator_id = initiator;
  recipient_id = recipient;
  state = submitted;
  created_at = unix now;
  updated_at = unix now;
}

abbrev pub or_not_found {ℓ} : {A : Type ℓ} → Option A → Result StoreError A
or_not_found none = err not_found
or_not_found (some a) = ok a

-- The thread awaits a verdict of one of its parties.
abbrev pub awaits : Ref → Thread → Bool
awaits person t = is_input_required t.state && is_party person t

module _ {B : Type 0} where
  unfoldable pub person_by_email : Ref → Db B → Result StoreError Person
  person_by_email email db = or_not_found (find (λ p. p.email == email) db.persons)

  unfoldable pub person_by_id : Ref → Db B → Result StoreError Person
  person_by_id id db = or_not_found (find (λ p. p.id == id) db.persons)

  -- `StartThread`, with the fresh id as an argument.
  unfoldable pub start_thread : Ref → Ref → Time → Ref → Db B → Outcome B Ref
  start_thread initiator recipient now fresh =
      write_tx do insert_thread (asked_thread fresh initiator recipient now); pure fresh

  -- A thread of this message awaits a verdict, of this person.
  abbrev pub joins_awaiting : Db B → Ref → MessageRow B → Bool
  joins_awaiting db person m = exists (λ t. t.id == m.thread_id && awaits person t) db.threads

  -- The sender's e-mail, which the queries join in.
  abbrev pub sender_of : Db B → MessageRow B → Option Person
  sender_of db m = find (λ p. p.id == m.sender_id) db.persons

  -- The WHERE clause of `InboundAwaiting`.
  abbrev pub is_awaiting : Db B → Ref → MessageRow B → Bool
  is_awaiting db person m =
      joins_awaiting db person m && not (m.sender_id == person) && is_latest db m

  -- The messages with a sender on the roster, as items.
  unfoldable pub inbound_items : Db B → List (MessageRow B) → List (InboundItem B)
  inbound_items db [] = []
  inbound_items db (m ∷ ms) = elim (sender_of db m) [
    | none ↦ inbound_items db ms
    | some p ↦
        (record {
          message_id = m.id;
          thread_id = m.thread_id;
          sender_email = p.email;
          envelope = m.envelope;
        })
        ∷ inbound_items db ms
  ]

  unfoldable pub inbound_awaiting : Ref → Db B → List (InboundItem B)
  inbound_awaiting person db =
      inbound_items db (order_by (λ m. m.received_at) (select (is_awaiting db person) db.messages))

  -- `WHERE author_id = ? AND state = 'pending_review'`
  abbrev pub is_reviewable : Ref → Draft B → Bool
  is_reviewable person d = d.author_id == person && is_pending_review d.state

  unfoldable pub has_activity : Ref → Db B → Bool
  has_activity person db =
      exists (λ m. joins_awaiting db person m && not (m.sender_id == person)) db.messages
      || exists (is_reviewable person) db.drafts

  unfoldable pub drafts_awaiting_review : Ref → Db B → List (Draft B)
  drafts_awaiting_review person db =
      order_by (λ d. d.created_at) (select (is_reviewable person) db.drafts)

  -- The messages of a thread with a sender on the roster, for `ThreadFor`.
  unfoldable pub thread_messages : Db B → List (MessageRow B) → List (ThreadMessage B)
  thread_messages db [] = []
  thread_messages db (m ∷ ms) = elim (sender_of db m) [
    | none ↦ thread_messages db ms
    | some p ↦
        (record {
          message_id = m.id;
          sender_email = p.email;
          envelope = m.envelope;
          received_at = m.received_at;
        })
        ∷ thread_messages db ms
  ]

  -- What a party of the thread sees of it.
  unfoldable pub view_of : Ref → Thread → Db B → ThreadView B
  unfolding thread_messages
  view_of person t db = record {
    thread_id = t.id;
    state = t.state;
    messages =
        thread_messages db
          (order_by (λ m. m.received_at) (select (λ m. m.thread_id == t.id) db.messages));
    drafts =
        order_by (λ d. d.created_at)
          (select (λ d. d.thread_id == t.id && d.author_id == person) db.drafts);
  }

  unfoldable pub thread_for : Ref → Ref → Db B → Result StoreError (ThreadView B)
  unfolding view_of
  thread_for person thread db = elim (find (λ t. t.id == thread) db.threads) [
    | none ↦ err not_found
    | some t ↦ if not (is_party person t) then err not_found else ok (view_of person t db)
  ]
