-- ===== src/Gate/States.antt =====
-- The gate's vocabulary: internal/gate/states.go, internal/a2a/a2a.go, and the errors, verdicts
-- and grants of internal/gate/gate.go.
use askrelay.Base.{Ref, ℕ, Bool, true, false, ◌==◌}

pub data ThreadState : Type 0 where
  submitted working input_required completed failed canceled rejected : ThreadState
  other_state : ℕ → ThreadState

-- `s == a2a.StateInputRequired`
abbrev pub is_input_required : ThreadState → Bool
is_input_required input_required = true
is_input_required _ = false

pub data Direction : Type 0 where
  inbound outbound : Direction
  other_direction : ℕ → Direction

-- `d == Inbound`
abbrev pub is_inbound : Direction → Bool
is_inbound inbound = true
is_inbound _ = false

-- `d == Outbound`
abbrev pub is_outbound : Direction → Bool
is_outbound outbound = true
is_outbound _ = false

-- `d == e`
abbrev pub same_direction : Direction → Direction → Bool
same_direction inbound inbound = true
same_direction outbound outbound = true
same_direction (other_direction a) (other_direction b) = a == b
same_direction _ _ = false

pub data Kind : Type 0 where
  kind_message : Kind
  other_kind : ℕ → Kind

-- The payload is any value: the gate never looks into it.
pub record Approvable (P : Type 0) : Type 0 where
  pub kind : Kind
  pub direction : Direction
  pub thread : Ref
  pub id : Ref
  pub payload : P

pub data DraftState : Type 0 where
  pending_review sent discarded : DraftState
  other_draft_state : ℕ → DraftState

-- `s == PendingReview`
abbrev pub is_pending_review : DraftState → Bool
is_pending_review pending_review = true
is_pending_review _ = false

pub data GateError : Type 0 where
  unknown_state illegal_transition no_grant wrong_direction : GateError

pub data Verdict : Type 0 where
  approve reject : Verdict
  other_verdict : ℕ → Verdict

pub record Grant : Type 0 where
  pub thread : Ref
  pub direction : Direction
  pub revoked : Bool
