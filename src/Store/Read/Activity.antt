-- ===== src/Store/Read/Activity.antt =====
-- `HasActivity` of internal/relay/store/read.go, which wakes a waiting client, against
-- `InboundAwaiting` and `DraftsAwaitingReview`, which say what there is to do.
use askrelay.Base.{Ref, Bool, true, false, not, List, [], ◌∷◌, ◌≡◌, refl, ◌==◌, ◌&&◌, arith}
use askrelay.Base.Table.{exists, select}
use askrelay.Store.Schema.{Db}
use askrelay.Store.Approval.{latest_at}
use askrelay.Store.Read.{
  awaits, is_awaiting, joins_awaiting, has_activity, inbound_awaiting, inbound_items, order_by,
  is_reviewable, drafts_awaiting_review,
}

select-none : {A : Type 0} (p : A → Bool) (rs : List A) → exists p rs ≡ false → select p rs ≡ []
select-none p [] h = refl
select-none p (r ∷ rs) h = ground (arith, select-none p rs)

narrower :
    {A : Type 0} (p q : A → Bool) (rs : List A)
    → ((a : A) → q a ≡ true → p a ≡ true)
    → exists p rs ≡ false
    → exists q rs ≡ false
narrower p q [] imp h = refl
narrower p q (r ∷ rs) imp h = ground (arith, imp r, narrower p q rs imp)

wider :
    {A : Type 0} (p q : A → Bool) (rs : List A)
    → ((a : A) → p a ≡ true → q a ≡ true)
    → exists p rs ≡ true
    → exists q rs ≡ true
wider p q [] imp h = h
wider p q (r ∷ rs) imp h = ground (arith, imp r, wider p q rs imp)

module _ {B : Type 0} (person : Ref) (db : Db B) where
  -- Where `has_activity` is false there is nothing to decide: no message is shown as awaiting and
  -- no draft waits for review.
  pub idle_shows_nothing :
      has_activity person db ≡ false
      → (inbound_awaiting person db ≡ []) × (drafts_awaiting_review person db ≡ [])
  unfolding has_activity inbound_awaiting drafts_awaiting_review inbound_items order_by
  idle_shows_nothing h =
      let quiet =
        narrower (λ m. joins_awaiting db person m && not (m.sender_id == person))
          (is_awaiting db person) db.messages (λ a m. ground arith) (ground arith) in
      (
        rw (select-none (is_awaiting db person) db.messages quiet) refl,
        rw (select-none (is_reviewable person) db.drafts (ground arith)) refl,
      )

  -- The converse fails on a thread that its person has answered. Where the thread waits for a
  -- verdict on the person's own answer, a message of the other party makes `has_activity` true for
  -- the person, although no message of the thread is shown to that person, the other party's being
  -- older than the latest of the thread.
  pub answered_stays_active :
      (x : Ref)
      → exists (λ t. t.id == x && awaits person t) db.threads ≡ true
      → exists (λ m. m.thread_id == x && not (m.sender_id == person)) db.messages ≡ true
      → exists
          (λ m.
            m.thread_id == x
            && not (m.sender_id == person)
            && m.received_at == latest_at x db.messages)
          db.messages
        ≡ false
      → (has_activity person db ≡ true)
        × (exists (λ m. m.thread_id == x && is_awaiting db person m) db.messages ≡ false)
  unfolding has_activity
  answered_stays_active x waits other older = (
    ground (
      arith,
      wider (λ m. m.thread_id == x && not (m.sender_id == person))
          (λ m. joins_awaiting db person m && not (m.sender_id == person)) db.messages
          (λ m k. ground arith) other,
    ),
    narrower
        (λ m.
          m.thread_id == x
          && not (m.sender_id == person)
          && m.received_at == latest_at x db.messages)
        (λ m. m.thread_id == x && is_awaiting db person m) db.messages (λ m k. ground arith) older,
  )
