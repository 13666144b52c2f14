-- ===== src/Mcp/Verdicts.antt =====
-- internal/relay/mcp/verdicts.go: approve_message, decline_message and set_thread_grant.
use askrelay.Base.{Ref, Time, Bool, ok, err, if◌then◌else◌}
use askrelay.Gate.{Direction, ThreadState, illegal_transition, wrong_direction}
use askrelay.Store.{
  Db, Outcome, not_found, not_participant, refused_by_gate, approve_inbound_message,
  decline_inbound_message, set_thread_grant, revoke_thread_grant,
}
use askrelay.Mcp.Reply.{internal, unseen, not_awaiting, bad_direction, Reply, quietly}

pub record VerdictOutput : Type 0 where
  pub id : Ref
  pub thread_state : ThreadState

pub record GrantInput : Type 0 where
  pub thread_id : Ref
  pub direction : Direction
  pub enabled : Bool

module _ {B : Type 0} where
  -- The closure `verdict`, behind the call of the store.
  unfoldable pub answer_verdict : Ref → Outcome B ThreadState → Reply B VerdictOutput
  answer_verdict id (err not_found, db) = quietly (err unseen) db
  answer_verdict id (err (refused_by_gate illegal_transition), db) = quietly (err not_awaiting) db
  answer_verdict id (err e, db) = quietly (err internal) db
  answer_verdict id (ok state, db) = quietly (ok (record { id = id; thread_state = state })) db

  -- approve_message
  unfoldable pub approve_message : Ref → Ref → Time → Db B → Reply B VerdictOutput
  unfolding answer_verdict
  approve_message person id now db = answer_verdict id (approve_inbound_message person id now db)

  -- decline_message
  unfoldable pub decline_message : Ref → Ref → Time → Db B → Reply B VerdictOutput
  unfolding answer_verdict
  decline_message person id now db = answer_verdict id (decline_inbound_message person id now db)

  -- The switch on the error at the end of set_thread_grant.
  unfoldable pub answer_grant : GrantInput → Outcome B (Unit {0}) → Reply B GrantInput
  answer_grant input (err (refused_by_gate wrong_direction), db) = quietly (err bad_direction) db
  answer_grant input (err not_participant, db) = quietly (err unseen) db
  answer_grant input (err not_found, db) =
      quietly (if input.enabled then err internal else ok input) db
  answer_grant input (err e, db) = quietly (err internal) db
  answer_grant input (ok _, db) = quietly (ok input) db

  -- set_thread_grant, with the fresh id of a grant.
  unfoldable pub change_thread_grant : Ref → GrantInput → Ref → Time → Db B → Reply B GrantInput
  unfolding answer_grant
  change_thread_grant person input fresh now db = answer_grant input (
      if input.enabled
      then set_thread_grant input.thread_id person input.direction now fresh db
      else revoke_thread_grant input.thread_id person input.direction now db)
