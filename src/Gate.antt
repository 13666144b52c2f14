-- ===== src/Gate.antt =====
-- The approval gate: internal/gate/gate.go and internal/gate/states.go, over the thread states of
-- internal/a2a/a2a.go. A Go string type with constants is a data type with one constructor for
-- each constant and `other` for every other string.
mod States
pub mod Verdicts
pub mod Grants
pub use States.*
use askrelay.Base.{
  Ref, no_id, ◌≡◌, Bool, true, false, not, ◌&&◌, ◌||◌, Option, none, some, Result, ok, err, ◌==◌,
  if◌then◌else◌,
}

-- `validState`
unfoldable pub valid_state : ThreadState → Bool
valid_state submitted = true
valid_state working = true
valid_state input_required = true
valid_state completed = true
valid_state failed = true
valid_state canceled = true
valid_state rejected = true
valid_state (other_state _) = false

-- The switch on the verdict at the end of `ApplyInbound`.
inbound_verdict : Verdict → Result GateError ThreadState
inbound_verdict approve = ok working
inbound_verdict reject = ok rejected
inbound_verdict (other_verdict _) = err illegal_transition

unfoldable pub apply_inbound : ThreadState → Verdict → Result GateError ThreadState
unfolding valid_state inbound_verdict
apply_inbound current v =
    if not (valid_state current)
    then err unknown_state
    else if not (is_input_required current)
    then err illegal_transition
    else inbound_verdict v

-- `Release`: proof that a reply cleared the gate. Only `apply_outbound` makes one.
pub record Release (P : Type 0) : Type 0 where
  pub thread : Ref
  pub id : Ref
  pub payload : P
  pub via_grant : Bool

-- `validDraftState`
unfoldable pub valid_draft_state : DraftState → Bool
valid_draft_state pending_review = true
valid_draft_state sent = true
valid_draft_state discarded = true
valid_draft_state (other_draft_state _) = false

module _ {P : Type 0} where
  -- The switch on the verdict at the end of `ApplyOutbound`.
  outbound_verdict : Approvable P → Verdict → Result GateError (DraftState × Option (Release P))
  outbound_verdict a approve =
      ok (
        sent,
        some (record { thread = a.thread; id = a.id; payload = a.payload; via_grant = false }),
      )
  outbound_verdict a reject = ok (discarded, none)
  outbound_verdict a (other_verdict _) = err illegal_transition

  unfoldable pub apply_outbound :
      Approvable P → DraftState → Verdict → Result GateError (DraftState × Option (Release P))
  unfolding valid_draft_state outbound_verdict
  apply_outbound a cur v =
      if not (is_outbound a.direction)
      then err wrong_direction
      else if not (valid_draft_state cur)
      then err unknown_state
      else if not (is_pending_review cur)
      then err illegal_transition
      else outbound_verdict a v

  -- `Grant.Covers`
  unfoldable pub covers : Grant → Approvable P → Bool
  covers g a =
      not g.revoked
      && not (g.thread == no_id)
      && (is_inbound g.direction || is_outbound g.direction)
      && g.thread == a.thread
      && same_direction g.direction a.direction

  unfoldable pub apply_inbound_grant :
      Grant → Approvable P → ThreadState → Result GateError ThreadState
  unfolding covers
  apply_inbound_grant g a cur =
      if not (is_inbound a.direction)
      then err wrong_direction
      else if not (covers g a)
      then err no_grant
      else apply_inbound cur approve

  -- `rel.viaGrant = true` where a release was made.
  mark_via_grant :
      Result GateError (DraftState × Option (Release P))
      → Result GateError (DraftState × Option (Release P))
  mark_via_grant (ok (st, some rel)) = ok (st, some (record rel { via_grant = true }))
  mark_via_grant (ok (st, none)) = ok (st, none)
  mark_via_grant (err e) = err e

  unfoldable pub apply_outbound_grant :
      Grant → Approvable P → DraftState → Result GateError (DraftState × Option (Release P))
  unfolding covers mark_via_grant
  apply_outbound_grant g a cur =
      if not (covers g a) then err no_grant else mark_via_grant (apply_outbound a cur approve)
