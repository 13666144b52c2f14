-- ===== src/Tests/Gate.antt =====
-- Verdicts and grants at concrete states.
use askrelay.Base.{◌≡◌, ◌↔◌, ok, some, false, ℕ}
use askrelay.Gate.{
  Approvable, kind_message, inbound, outbound, input_required, working, approve, pending_review,
  sent, Grant, apply_inbound, apply_outbound,
}
use askrelay.Gate.Verdicts.{
  InboundMove, OutboundMove, release_of, apply_inbound-InboundMove, apply_outbound-OutboundMove,
}

abbrev reply : Approvable ℕ
reply = record { kind = kind_message; direction = outbound; thread = 100; id = 60; payload = 7 }

abbrev ask : Approvable ℕ
ask = record reply { direction = inbound }

abbrev grant : Grant
grant = record { thread = 100; direction = outbound; revoked = false }

apply_inbound-InboundMove_example :
    (apply_inbound input_required approve ≡ ok working) ↔ InboundMove input_required approve working
apply_inbound-InboundMove_example = apply_inbound-InboundMove input_required approve working

apply_outbound-OutboundMove_example :
    (apply_outbound reply pending_review approve ≡ ok (sent, some (release_of reply)))
    ↔ OutboundMove reply pending_review approve sent (some (release_of reply))
apply_outbound-OutboundMove_example =
    apply_outbound-OutboundMove reply pending_review approve sent (some (release_of reply))
