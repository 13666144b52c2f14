-- ===== src/Gate/Grants.antt =====
-- Standing grants: `Grant.Covers`, `ApplyInboundGrant` and `ApplyOutboundGrant`.
use askrelay.Base.{no_id, ◌≡◌, ◌≢◌, ◌↔◌, Option, some, true, false, ok, ◌⊎◌, arith}
use askrelay.Gate.{
  ThreadState, working, input_required, Approvable, Grant, inbound, outbound, DraftState,
  pending_review, sent, Release, covers, apply_inbound, apply_outbound, apply_inbound_grant,
  apply_outbound_grant,
}

module _ {P : Type 0} where
  -- The capability that a grant mints for `a`.
  abbrev pub granted_release : Approvable P → Release P
  granted_release a = record { thread = a.thread; id = a.id; payload = a.payload; via_grant = true }

  -- What a grant is for: one thread, one direction, until it is revoked.
  pub record Covered (g : Grant) (a : Approvable P) : Type 0 where
    pub active : g.revoked ≡ false
    pub named : g.thread ≢ no_id
    pub canonical : (g.direction ≡ inbound) ⊎ (g.direction ≡ outbound)
    pub same_thread : g.thread ≡ a.thread
    pub same_direction : g.direction ≡ a.direction

  covers_sound : (g : Grant) (a : Approvable P) → covers g a ≡ true → Covered g a
  unfolding covers
  covers_sound g a h = record {
    active = ground arith;
    named = ground arith;
    canonical = ground arith;
    same_thread = ground arith;
    same_direction = ground arith;
  }

  covers_complete : (g : Grant) (a : Approvable P) → Covered g a → covers g a ≡ true
  unfolding covers
  covers_complete g a c = ground arith

  covers_iff : (g : Grant) (a : Approvable P) → (covers g a ≡ true) ↔ Covered g a
  covers_iff g a = (covers_sound g a, covers_complete g a)

  inbound_sound :
      (g : Grant) (a : Approvable P) (s t : ThreadState)
      → apply_inbound_grant g a s ≡ ok t
      → (covers g a ≡ true) × (a.direction ≡ inbound) × (s ≡ input_required) × (t ≡ working)
  unfolding apply_inbound_grant apply_inbound
  inbound_sound g a s t h = ground arith

  inbound_complete :
      (g : Grant) (a : Approvable P) (s t : ThreadState)
      → covers g a ≡ true
      → a.direction ≡ inbound
      → s ≡ input_required
      → t ≡ working
      → apply_inbound_grant g a s ≡ ok t
  unfolding apply_inbound_grant apply_inbound
  inbound_complete g a s t c d p q = ground arith

  -- An approval by grant moves a thread exactly when the approvable is inbound, the grant covers it
  -- (active, for its thread, for its direction) and the thread is in input-required; it then
  -- moves to working, and nowhere else.
  pub apply_inbound_grant-Covered :
      (g : Grant) (a : Approvable P) (s t : ThreadState)
      → (apply_inbound_grant g a s ≡ ok t)
        ↔ (Covered g a × (a.direction ≡ inbound) × (s ≡ input_required) × (t ≡ working))
  apply_inbound_grant-Covered g a s t = (
    λ h. let (c, d, p, q) = inbound_sound g a s t h in (covers_sound g a c, d, p, q),
    λ (c, d, p, q). inbound_complete g a s t (covers_complete g a c) d p q,
  )

  outbound_sound :
      (g : Grant) (a : Approvable P) (s t : DraftState) (r : Option (Release P))
      → apply_outbound_grant g a s ≡ ok (t, r)
      → (covers g a ≡ true)
        × (a.direction ≡ outbound)
        × (s ≡ pending_review)
        × (t ≡ sent)
        × (r ≡ some (granted_release a))
  unfolding apply_outbound_grant apply_outbound
  outbound_sound g a s t r h = ground arith

  outbound_complete :
      (g : Grant) (a : Approvable P) (s t : DraftState) (r : Option (Release P))
      → covers g a ≡ true
      → a.direction ≡ outbound
      → s ≡ pending_review
      → t ≡ sent
      → r ≡ some (granted_release a)
      → apply_outbound_grant g a s ≡ ok (t, r)
  unfolding apply_outbound_grant apply_outbound
  outbound_complete g a s t r c d p q e = ground arith

  -- A release by grant is made exactly when the grant covers the approvable, which is outbound, and
  -- the draft is pending review; the draft is then sent, and the release is of that draft and is
  -- marked as made by a grant.
  pub apply_outbound_grant-Covered :
      (g : Grant) (a : Approvable P) (s t : DraftState) (r : Option (Release P))
      → (apply_outbound_grant g a s ≡ ok (t, r)) ↔ (
          Covered g a
          × (a.direction ≡ outbound)
          × (s ≡ pending_review)
          × (t ≡ sent)
          × (r ≡ some (granted_release a)))
  apply_outbound_grant-Covered g a s t r = (
    λ h. let (c, d, p, q, e) = outbound_sound g a s t r h in (covers_sound g a c, d, p, q, e),
    λ (c, d, p, q, e). outbound_complete g a s t r (covers_complete g a c) d p q e,
  )
