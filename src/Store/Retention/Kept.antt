-- ===== src/Store/Retention/Kept.antt =====
-- What `SweepMessages` of internal/relay/store/retention.go deletes and keeps.
use askrelay.Base.{
  ℕ, ==→eq, sym, Ref, Time, unix, Bool, true, false, List, [], ◌∷◌, ◌≡◌, refl, ◌==◌, ◌&&◌, arith,
  leb, ltb, ◌-◌,
}
use mathlib.Core.Path.{subst}
use askrelay.Base.Table.{exists, delete}
use askrelay.Store.Schema.{Db, MessageRow, Delivery, is_null}
use askrelay.Store.Retention.{RetentionPolicy, is_swept, is_acked, sweep_messages}

module _ {A : Type 0} where
  exists-delete :
      (q p : A → Bool) (rs : List A)
      → ((a : A) → q a ≡ true → p a ≡ false)
      → exists q rs ≡ true
      → exists q (delete p rs) ≡ true
  exists-delete q p [] spare h = h
  exists-delete q p (r ∷ rs) spare h = ground (arith, spare r, exists-delete q p rs spare)

  exists-deleted :
      (q p : A → Bool) (rs : List A)
      → ((a : A) → q a ≡ true → p a ≡ true)
      → exists q (delete p rs) ≡ false
  exists-deleted q p [] hit = refl
  exists-deleted q p (r ∷ rs) hit = ground (arith, hit r, exists-deleted q p rs hit)

module _ {B : Type 0} (policy : RetentionPolicy) (now : Time) (db : Db B) where
  -- The message is stored and younger than the hard time to live.
  abbrev pub IsYoung : Ref → List (MessageRow B) → Type 0
  IsYoung id ms =
      exists (λ m. m.id == id && ltb (unix (now - policy.hard_ttl)) m.received_at) ms ≡ true

  pending_not_acked :
      (id : Ref) (cutoff : ℕ) (ds : List Delivery)
      → exists (λ d. d.message_id == id && is_null d.acked_at) ds ≡ true
      → is_acked ds cutoff id ≡ false
  unfolding is_acked
  pending_not_acked id cutoff ds h = ground arith

  kept :
      (id : Ref)
      → is_acked db.deliveries (unix (now - policy.ack_grace)) id ≡ false
      → IsYoung id db.messages
      → IsYoung id (sweep_messages policy now db).1.messages
  unfolding sweep_messages
  kept id waiting young =
      exists-delete (λ m. m.id == id && ltb (unix (now - policy.hard_ttl)) m.received_at)
        (is_swept policy now db.deliveries) db.messages
        (λ m k.
          let same = ==→eq m.id id (ground arith) in
          let calm =
            subst (λ i. is_acked db.deliveries (unix (now - policy.ack_grace)) i ≡ false) (sym same)
              waiting in
          ground (arith, calm))
        young

  -- A sweep keeps a message that is younger than the hard time to live and that some device of its
  -- recipient has not acked, and it leaves no message that has reached the hard time to live.
  pub sweep_keeps_pending :
      (id : Ref)
      → exists (λ d. d.message_id == id && is_null d.acked_at) db.deliveries ≡ true
      → IsYoung id db.messages
      → IsYoung id (sweep_messages policy now db).1.messages
        × (exists
              (λ m. leb m.received_at (unix (now - policy.hard_ttl)))
              (sweep_messages policy now db).1.messages
            ≡ false)
  unfolding sweep_messages
  sweep_keeps_pending id pending young = (
    kept id (pending_not_acked id (unix (now - policy.ack_grace)) db.deliveries pending) young,
    exists-deleted (λ m. leb m.received_at (unix (now - policy.hard_ttl)))
        (is_swept policy now db.deliveries) db.messages (λ m k. ground arith),
  )
