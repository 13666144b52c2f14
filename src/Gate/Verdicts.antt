-- ===== src/Gate/Verdicts.antt =====
-- A person's verdict: `ApplyInbound` and `ApplyOutbound` against a description of their moves.
use askrelay.Base.{◌≡◌, refl, ◌↔◌, Option, none, some, false, ok, arith}
use askrelay.Gate.{
  ThreadState, input_required, working, rejected, Verdict, approve, reject, other_verdict,
  Approvable, outbound, DraftState, pending_review, sent, discarded, Release, apply_inbound,
  apply_outbound,
}

-- The moves of a thread on a verdict, as the architecture states them.
pub data InboundMove (s : ThreadState) (v : Verdict) (t : ThreadState) : Type 0 where
  approved : s ≡ input_required → v ≡ approve → t ≡ working → InboundMove s v t
  declined : s ≡ input_required → v ≡ reject → t ≡ rejected → InboundMove s v t

apply_inbound_sound :
    (s : ThreadState) (v : Verdict) (t : ThreadState) → apply_inbound s v ≡ ok t → InboundMove s v t
unfolding apply_inbound
apply_inbound_sound input_required approve t h = approved refl refl (ground arith)
apply_inbound_sound input_required reject t h = declined refl refl (ground arith)
apply_inbound_sound s v t h = cc

apply_inbound_complete :
    (s : ThreadState) (v : Verdict) (t : ThreadState) → InboundMove s v t → apply_inbound s v ≡ ok t
unfolding apply_inbound
apply_inbound_complete s v t (approved a b c) = rw (a, b, c)
apply_inbound_complete s v t (declined a b c) = rw (a, b, c)

-- A verdict on an inbound message moves the thread exactly when the thread is in input-required and
-- the verdict is approve or reject, and then to working or to rejected.
pub apply_inbound-InboundMove :
    (s : ThreadState) (v : Verdict) (t : ThreadState)
    → (apply_inbound s v ≡ ok t) ↔ InboundMove s v t
apply_inbound-InboundMove s v t = (apply_inbound_sound s v t, apply_inbound_complete s v t)

module _ {P : Type 0} where
  -- The capability that an approval of `a` by a person mints.
  abbrev pub release_of : Approvable P → Release P
  release_of a = record { thread = a.thread; id = a.id; payload = a.payload; via_grant = false }

  -- The moves of a draft on a verdict: only an approval mints a release.
  pub data OutboundMove (a : Approvable P) (s : DraftState) (v : Verdict) (t : DraftState)
      (r : Option (Release P)) : Type 0 where
    released :
        a.direction ≡ outbound
        → s ≡ pending_review
        → v ≡ approve
        → t ≡ sent
        → r ≡ some (release_of a)
        → OutboundMove a s v t r
    dropped :
        a.direction ≡ outbound
        → s ≡ pending_review
        → v ≡ reject
        → t ≡ discarded
        → r ≡ none
        → OutboundMove a s v t r

  apply_outbound_sound :
      (a : Approvable P) (s : DraftState) (v : Verdict) (t : DraftState) (r : Option (Release P))
      → apply_outbound a s v ≡ ok (t, r)
      → OutboundMove a s v t r
  unfolding apply_outbound
  apply_outbound_sound a s approve t r h =
      released (ground arith) (ground arith) refl (ground arith) (ground arith)
  apply_outbound_sound a s reject t r h =
      dropped (ground arith) (ground arith) refl (ground arith) (ground arith)
  apply_outbound_sound a s (other_verdict n) t r h = ground arith

  apply_outbound_complete :
      (a : Approvable P) (s : DraftState) (v : Verdict) (t : DraftState) (r : Option (Release P))
      → OutboundMove a s v t r
      → apply_outbound a s v ≡ ok (t, r)
  unfolding apply_outbound
  apply_outbound_complete a s v t r (released d p q e f) = ground arith
  apply_outbound_complete a s v t r (dropped d p q e f) = ground arith

  -- A verdict on a draft decides it exactly when the draft is outbound and pending review: an
  -- approval makes it sent and mints the release of that very draft, a rejection makes it discarded
  -- and mints nothing.
  pub apply_outbound-OutboundMove :
      (a : Approvable P) (s : DraftState) (v : Verdict) (t : DraftState) (r : Option (Release P))
      → (apply_outbound a s v ≡ ok (t, r)) ↔ OutboundMove a s v t r
  apply_outbound-OutboundMove a s v t r =
      (apply_outbound_sound a s v t r, apply_outbound_complete a s v t r)
