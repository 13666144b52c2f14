-- ===== src/Store/Approval.antt =====
-- internal/relay/store/approval.go: verdicts on inbound messages, and standing grants.
pub mod Granted
use askrelay.Base.{
  ℕ, Ref, Time, unix, Bool, true, false, not, ◌&&◌, ◌||◌, Option, none, some, List, [], ◌∷◌, ◌==◌,
  err, if◌then◌else◌,
}
use Prim.Native.Nat.{max}
use askrelay.Base.Table.{find, exists, update, affected}
use askrelay.Gate.{
  Approvable, kind_message, inbound, is_inbound, is_outbound, same_direction, Direction, Verdict,
  approve, reject, ThreadState, wrong_direction, apply_inbound, apply_inbound_grant,
}
use askrelay.Store.Schema.{
  Thread, MessageRow, GrantRow, Db, Tx, Outcome, ◌>>=◌, ◌>>◌, pure, query, or_error, refuse_if,
  exec, write_tx, lift_gate, not_found, not_participant, refused_by_gate, database, is_null,
}
use askrelay.Store.Insert.{insert_grant}
use askrelay.Store.Drafts.{is_party}

-- `WHERE thread_id=? AND person_id=? AND direction=? AND revoked_at IS NULL`
abbrev pub is_active_on : Ref → Ref → Direction → GrantRow → Bool
is_active_on thread person dir g =
    g.thread_id == thread
    && g.person_id == person
    && same_direction g.direction dir
    && is_null g.revoked_at

-- `gate.Approvable` for an inbound message; the store gives the gate no payload.
abbrev pub message_approvable : Ref → Ref → Approvable (Unit {0})
message_approvable thread id = record {
  kind = kind_message;
  direction = inbound;
  thread = thread;
  id = id;
  payload = tt;
}

-- The row that `SetThreadGrant` adds, with its fresh id.
abbrev pub new_grant : Ref → Ref → Direction → Time → Ref → GrantRow
new_grant thread person dir now fresh = record {
  id = fresh;
  thread_id = thread;
  person_id = person;
  direction = dir;
  granted_at = unix now;
  revoked_at = none;
}

module _ {B : Type 0} where
  -- `UPDATE threads SET state = ?, updated_at = ? WHERE id = ?`
  abbrev pub set_thread_state : Ref → ThreadState → Time → Tx B (Unit {0})
  set_thread_state thread next now = exec (λ db. record db {
    threads =
        update (λ t. t.id == thread) (λ t. record t { state = next; updated_at = unix now })
          db.threads;
  })

  -- `applyInboundTx`
  unfoldable pub apply_inbound_tx : Ref → ThreadState → Verdict → Time → Tx B ThreadState
  apply_inbound_tx thread cur v now = do
    next ← lift_gate (apply_inbound cur v)
    set_thread_state thread next now
    pure next

  -- `transitionInbound`, with which `ApproveInbound` and `DeclineInbound` call the gate.
  unfoldable pub transition_inbound : Ref → Verdict → Time → Db B → Outcome B ThreadState
  unfolding apply_inbound_tx
  transition_inbound thread v now = write_tx do
    found ← query (λ db. find (λ t. t.id == thread) db.threads)
    t ← or_error found not_found
    apply_inbound_tx thread t.state v now

  -- `SELECT MAX(received_at) FROM messages WHERE thread_id = ?`, and 0 with no message.
  unfoldable pub latest_at : Ref → List (MessageRow B) → ℕ
  latest_at thread [] = 0
  latest_at thread (m ∷ ms) =
      if m.thread_id == thread then max m.received_at (latest_at thread ms) else latest_at thread ms

  -- `m.received_at = (SELECT MAX(received_at) …)`
  abbrev pub is_latest : Db B → MessageRow B → Bool
  is_latest db m = m.received_at == latest_at m.thread_id db.messages

  -- The query of `inboundMessageVerdict`: the message, if it is the latest of its thread, and the
  -- thread.
  abbrev pub latest_message : Ref → Db B → Option (MessageRow B)
  latest_message id db = find (λ m. m.id == id && is_latest db m) db.messages

  abbrev pub thread_of : MessageRow B → Db B → Option Thread
  thread_of m db = find (λ t. t.id == m.thread_id) db.threads

  -- `inboundMessageVerdict`, for `ApproveInboundMessage` and `DeclineInboundMessage`.
  unfoldable pub inbound_message_verdict : Ref → Ref → Verdict → Time → Db B → Outcome B ThreadState
  unfolding apply_inbound_tx
  inbound_message_verdict person message v now = write_tx do
    found ← query (latest_message message)
    m ← or_error found not_found
    joined ← query (thread_of m)
    t ← or_error joined not_found
    refuse_if (not (is_party person t) || person == m.sender_id) not_found
    apply_inbound_tx m.thread_id t.state v now

  unfoldable pub approve_inbound_message : Ref → Ref → Time → Db B → Outcome B ThreadState
  unfolding inbound_message_verdict
  approve_inbound_message person message = inbound_message_verdict person message approve

  unfoldable pub decline_inbound_message : Ref → Ref → Time → Db B → Outcome B ThreadState
  unfolding inbound_message_verdict
  decline_inbound_message person message = inbound_message_verdict person message reject

  -- `requireParticipant`
  abbrev pub require_participant : Ref → Ref → Tx B (Unit {0})
  require_participant thread person = do
    found ← query (λ db. find (λ t. t.id == thread) db.threads)
    t ← or_error found not_participant
    refuse_if (not (is_party person t)) not_participant

  -- The transaction of `SetThreadGrant`.
  unfoldable pub set_grant_tx : Ref → Ref → Direction → Time → Ref → Tx B (Unit {0})
  set_grant_tx thread person dir now fresh = do
    require_participant thread person
    active ← query (λ db. exists (is_active_on thread person dir) db.grants)
    if active then pure tt else insert_grant (new_grant thread person dir now fresh)

  unfoldable pub set_thread_grant : Ref → Ref → Direction → Time → Ref → Db B → Outcome B (Unit {0})
  unfolding set_grant_tx
  set_thread_grant thread person dir now fresh db =
      if not (is_inbound dir) && not (is_outbound dir)
      then (err (refused_by_gate wrong_direction), db)
      else write_tx (set_grant_tx thread person dir now fresh) db

  -- The transaction of `RevokeThreadGrant`.
  unfoldable pub revoke_grant_tx : Ref → Ref → Direction → Time → Tx B (Unit {0})
  revoke_grant_tx thread person dir now = do
    require_participant thread person
    n ← query (λ db. affected (is_active_on thread person dir) db.grants)
    exec (λ db. record db {
      grants =
          update (is_active_on thread person dir) (λ g. record g { revoked_at = some (unix now) })
            db.grants;
    })
    refuse_if (n == 0) not_found

  unfoldable pub revoke_thread_grant : Ref → Ref → Direction → Time → Db B → Outcome B (Unit {0})
  unfolding revoke_grant_tx
  revoke_thread_grant thread person dir now db =
      if not (is_inbound dir) && not (is_outbound dir)
      then (err (refused_by_gate wrong_direction), db)
      else write_tx (revoke_grant_tx thread person dir now) db

  -- The part of `ApproveInboundViaGrant` behind the look-up of the grant.
  unfoldable pub approve_granted : Ref → Ref → Time → Tx B Bool
  approve_granted thread message now = do
    found ← query (λ db. find (λ t. t.id == thread) db.threads)
    t ← or_error found database
    next ← lift_gate (
        apply_inbound_grant (record { thread = thread; direction = inbound; revoked = false })
          (message_approvable thread message) t.state)
    set_thread_state thread next now
    exec (λ db. record db {
      messages =
          update (λ m. m.id == message && m.thread_id == thread)
            (λ m. record m { via_grant = true }) db.messages;
    })
    pure true

  -- `ApproveInboundViaGrant`: false where no grant is active.
  unfoldable pub approve_inbound_via_grant : Ref → Ref → Ref → Time → Db B → Outcome B Bool
  unfolding approve_granted
  approve_inbound_via_grant thread granter message now = write_tx do
    granted ← query (λ db. exists (is_active_on thread granter inbound) db.grants)
    if granted then approve_granted thread message now else pure false
