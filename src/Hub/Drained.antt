-- ===== src/Hub/Drained.antt =====
-- A drain of the inbox to a socket: `drainInbox` of internal/relay/ws.go.
use askrelay.Base.{
  Ref, Time, unix, Bool, Bool-cases, true, false, ◌&&◌, is_ok, List, [], ◌∷◌, ◌++◌, map, ◌≡◌, refl,
  ap, ◌∙◌, ◌⊎◌, inl, inr, arith,
}
use mathlib.Core.Path.{fun_ext}
use askrelay.Base.Table.{exists, select, update}
use askrelay.Store.{
  Db, Delivery, MessageRow, active_device_by_id, inbox, oldest_first, mark_delivered, is_delivery,
  is_null, coalesce,
}
use askrelay.Hub.Socket.{Drain, drain_items, drain_inbox}

still_unacked :
    (m device : Ref) (q device' : Ref) (now : Time) (ds : List Delivery)
    → exists
        (λ d. is_delivery q device' d && is_null d.acked_at)
        (update
          (is_delivery m device)
          (λ d. record d { delivered_at = coalesce d.delivered_at (unix now) })
          ds)
      ≡ exists (λ d. is_delivery q device' d && is_null d.acked_at) ds
still_unacked m device q device' now [] = refl
still_unacked m device q device' now (d ∷ ds) =
    ground (arith, still_unacked m device q device' now ds)

module _ {B : Type 0} where
  mark_delivered-deliveries :
      (m device : Ref) (now : Time) (db : Db B)
      → ((mark_delivered m device now db).1 ≡ db)
        ⊎ ((mark_delivered m device now db).1 ≡ record db {
          deliveries =
              update
                (is_delivery m device)
                (λ d. record d { delivered_at = coalesce d.delivered_at (unix now) })
                db.deliveries;
        })
  unfolding mark_delivered
  mark_delivered-deliveries m device now db = ground arith

  -- A delivered message stays in the inbox.
  mark_delivered-inbox :
      (m device device' : Ref) (now : Time) (db : Db B)
      → inbox device' (mark_delivered m device now db).1 ≡ inbox device' db
  unfolding inbox
  mark_delivered-inbox m device device' now db = elim (mark_delivered-deliveries m device now db) [
    | inl same ↦ ap (inbox device') same
    | inr q ↦
        ap (inbox device') q
        ∙ ap (λ p. oldest_first (select p db.messages))
            (fun_ext (λ r. still_unacked m device r.id device' now db.deliveries))
  ]

  -- What a drain of these messages comes to.
  abbrev pub Drained : (Ref → Bool) → List (MessageRow B) → Drain B → Type 0
  Drained writes ms r =
      ((r.closes ≡ false) × (r.sent ≡ map (λ m. m.id) ms))
      ⊎ ((r.closes ≡ true)
          × ((id : Ref) × (rest : List Ref) × (map (λ m. m.id) ms ≡ r.sent ++ id ∷ rest)
              × (writes id ≡ false)))

  drain_items-inbox :
      (writes : Ref → Bool) (device : Ref) (now : Time) (ms : List (MessageRow B)) (db : Db B)
      → inbox device (drain_items writes device now ms db).db ≡ inbox device db
  unfolding drain_items
  drain_items-inbox writes device now [] db = refl
  drain_items-inbox writes device now (m ∷ ms) db = elim (Bool-cases (writes m.id)) [
    | inl e ↦ rw e (
        drain_items-inbox writes device now ms (mark_delivered m.id device now db).1
        ∙ mark_delivered-inbox m.id device device now db)
    | inr e ↦ rw e refl
  ]

  drain_items-Drained :
      (writes : Ref → Bool) (device : Ref) (now : Time) (ms : List (MessageRow B)) (db : Db B)
      → Drained writes ms (drain_items writes device now ms db)
  unfolding drain_items
  drain_items-Drained writes device now [] db = inl (refl, refl)
  drain_items-Drained writes device now (m ∷ ms) db = elim (Bool-cases (writes m.id)) [
    | inr e ↦ rw e (inr (refl, (m.id, map (λ m. m.id) ms, refl, e)))
    | inl e ↦
        elim (drain_items-Drained writes device now ms (mark_delivered m.id device now db).1) [
          | inl (open_still, all) ↦ rw e (inl (open_still, ap (λ l. m.id ∷ l) all))
          | inr (closed, (id, rest, q, bad)) ↦
              rw e (inr (closed, (id, rest, ap (λ l. m.id ∷ l) q, bad)))
        ]
  ]

  -- A drain for an active device sends the messages of its inbox in order, all of them, or those
  -- before the first that the socket does not take, at which it closes the socket. The inbox is
  -- as it was: what was sent stays there.
  pub drain_inbox-Drained :
      (writes : Ref → Bool) (device : Ref) (now : Time) (db : Db B)
      → is_ok (active_device_by_id device db) ≡ true
      → Drained writes (inbox device db) (drain_inbox writes device now db)
        × (inbox device (drain_inbox writes device now db).db ≡ inbox device db)
  unfolding drain_inbox
  drain_inbox-Drained writes device now db live = rw live (
    drain_items-Drained writes device now (inbox device db) db,
    drain_items-inbox writes device now (inbox device db) db,
  )
