-- ===== src/Store/Message/Acks.antt =====
-- Acks and the inbox: `Ack` and `Inbox` of internal/relay/store/message.go.
use askrelay.Base.{
  Ref, Time, unix, Bool, true, false, List, [], ◌∷◌, ◌≡◌, refl, ◌==◌, ◌&&◌, ◌||◌, ok, arith, sym,
  ap, ◌∙◌, ==→eq,
}
use mathlib.Core.Path.{subst}
use askrelay.Base.Table.{exists, select, update}
use askrelay.Store.Schema.{Db, Delivery, MessageRow, is_null, coalesce}
use askrelay.Store.Message.{ack, inbox, is_delivery, oldest_first, insert_oldest}

-- What an ack does to a delivery row.
abbrev acked : Time → Delivery → Delivery
acked now d = record d {
  acked_at = coalesce d.acked_at (unix now);
  delivered_at = coalesce d.delivered_at (unix now);
}

acked_twice :
    (m device : Ref) (first last : Time) (ds : List Delivery)
    → update (is_delivery m device) (acked last) (update (is_delivery m device) (acked first) ds)
      ≡ update (is_delivery m device) (acked first) ds
acked_twice m device first last [] = refl
acked_twice m device first last (d ∷ ds) = ground (arith, acked_twice m device first last ds)

still_known :
    (m device : Ref) (now : Time) (ds : List Delivery)
    → exists (is_delivery m device) (update (is_delivery m device) (acked now) ds)
      ≡ exists (is_delivery m device) ds
still_known m device now [] = refl
still_known m device now (d ∷ ds) = ground (arith, still_known m device now ds)

none_pending :
    (m device : Ref) (now : Time) (ds : List Delivery)
    → exists
        (λ d. is_delivery m device d && is_null d.acked_at)
        (update (is_delivery m device) (acked now) ds)
      ≡ false
none_pending m device now [] = refl
none_pending m device now (d ∷ ds) = ground (arith, none_pending m device now ds)

module _ {B : Type 0} where
  insert_oldest-exists :
      (q : MessageRow B → Bool) (m : MessageRow B) (ms : List (MessageRow B))
      → exists q (insert_oldest m ms) ≡ (q m || exists q ms)
  unfolding insert_oldest
  insert_oldest-exists q m [] = refl
  insert_oldest-exists q m (n ∷ ns) = ground (arith, insert_oldest-exists q m ns)

  oldest_first-exists :
      (q : MessageRow B → Bool) (ms : List (MessageRow B))
      → exists q (oldest_first ms) ≡ exists q ms
  unfolding oldest_first
  oldest_first-exists q [] = refl
  oldest_first-exists q (m ∷ ms) =
      ground (arith, insert_oldest-exists q m (oldest_first ms), oldest_first-exists q ms)

  select-other :
      (p : MessageRow B → Bool) (id : Ref) (ms : List (MessageRow B))
      → ((r : MessageRow B) → (r.id == id) ≡ true → p r ≡ false)
      → exists (λ r. r.id == id) (select p ms) ≡ false
  select-other p id [] h = refl
  select-other p id (m ∷ ms) h = ground (arith, h m, select-other p id ms h)

  ack_effect :
      (m device : Ref) (now : Time) (db : Db B)
      → exists (is_delivery m device) db.deliveries ≡ true
      → ack m device now db ≡ (
        ok tt,
        record db { deliveries = update (is_delivery m device) (acked now) db.deliveries },
      )
  unfolding ack
  ack_effect m device now db known = ground (arith, known)

  ack_known :
      (m device : Ref) (now : Time) (db : Db B)
      → (ack m device now db).0 ≡ ok tt
      → exists (is_delivery m device) db.deliveries ≡ true
  unfolding ack
  ack_known m device now db h = ground arith

  out_of_inbox :
      (m device : Ref) (db : Db B)
      → exists (λ d. is_delivery m device d && is_null d.acked_at) db.deliveries ≡ false
      → exists (λ r. r.id == m) (inbox device db) ≡ false
  unfolding inbox
  out_of_inbox m device db h =
      let p =
        select-other
          (λ r. exists (λ d. is_delivery r.id device d && is_null d.acked_at) db.deliveries) m
          db.messages
          (λ r k.
            subst
              (λ i.
                exists (λ d. is_delivery i device d && is_null d.acked_at) db.deliveries ≡ false)
              (sym (==→eq r.id m k)) h) in
      oldest_first-exists (λ r. r.id == m) _ ∙ p

  -- An ack that returns no error takes the message out of the device's inbox, and to repeat it at
  -- any time returns no error and changes nothing: the first time stays.
  pub ack_once :
      (m device : Ref) (first last : Time) (db : Db B)
      → (ack m device first db).0 ≡ ok tt
      → let after = (ack m device first db).1 in
        (ack m device last after ≡ (ok tt, after))
        × (exists (λ r. r.id == m) (inbox device after) ≡ false)
  ack_once m device first last db h =
      let known = ack_known m device first db h in
      rw (ack_effect m device first db known) (
        ack_effect m device last _ (still_known m device first db.deliveries ∙ known)
            ∙ ap (λ ds. (ok tt, record db { deliveries = ds }))
                (acked_twice m device first last db.deliveries),
        out_of_inbox m device _ (none_pending m device first db.deliveries),
      )
