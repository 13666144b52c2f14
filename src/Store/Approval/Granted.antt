-- ===== src/Store/Approval/Granted.antt =====
-- A standing grant at work: `SetThreadGrant` before `ApproveInboundViaGrant`,
-- internal/relay/store/approval.go.
use askrelay.Base.{
  Ref, no_id, Time, unix, ◌≡◌, refl, ◌∙◌, true, false, ok, some, List, [], ◌∷◌, ◌==◌, arith, ap,
}
use askrelay.Base.Table.{exists, find, update}
use askrelay.Gate.{inbound, input_required, working, apply_inbound_grant, apply_inbound, covers}
use askrelay.Store.Schema.{Db, Thread}
use askrelay.Store.Approval.{
  is_active_on, set_thread_grant, approve_inbound_via_grant, approve_granted,
}

updated_first :
    (t : Ref) (f : Thread → Thread) (ts : List Thread) (th : Thread)
    → ((r : Thread) → (f r).id ≡ r.id)
    → find (λ r. r.id == t) ts ≡ some th
    → find (λ r. r.id == t) (update (λ r. r.id == t) f ts) ≡ some (f th)
updated_first t f [] th keeps g = absurd (ground arith)
updated_first t f (r ∷ rs) th keeps g = ground (arith, keeps r, updated_first t f rs th keeps)

module _ {B : Type 0} where
  set_thread_grant-active :
      (t p : Ref) (now : Time) (id : Ref) (db : Db B)
      → (set_thread_grant t p inbound now id db).0 ≡ ok tt
      → (exists (is_active_on t p inbound) (set_thread_grant t p inbound now id db).1.grants ≡ true)
        × ((set_thread_grant t p inbound now id db).1.threads ≡ db.threads)
  unfolding set_thread_grant
  set_thread_grant-active t p now id db h = (ground arith, ground arith)

  active-approves :
      (t p message : Ref) (now : Time) (th : Thread) (db : Db B)
      → (t == no_id) ≡ false
      → exists (is_active_on t p inbound) db.grants ≡ true
      → find (λ r. r.id == t) db.threads ≡ some th
      → th.state ≡ input_required
      → ((approve_inbound_via_grant t p message now db).0 ≡ ok true)
        × (find (λ r. r.id == t) (approve_inbound_via_grant t p message now db).1.threads
            ≡ some (record th { state = working; updated_at = unix now }))
  unfolding approve_inbound_via_grant approve_granted apply_inbound_grant apply_inbound covers
  active-approves t p message now th db real active found waits =
      let q =
        updated_first t (λ r. record r { state = working; updated_at = unix now }) db.threads th
          (λ r. refl) found in
      (ground arith, ground (arith, q))

  -- Behind a `set_thread_grant` for inbound messages that returned no error, a message of the
  -- thread, where that awaits a verdict, is approved by the grant: `approve_inbound_via_grant`
  -- returns true, and the thread is working.
  pub grant-approves :
      (t p id message : Ref) (first last : Time) (th : Thread) (db : Db B)
      → (set_thread_grant t p inbound first id db).0 ≡ ok tt
      → (t == no_id) ≡ false
      → find (λ r. r.id == t) db.threads ≡ some th
      → th.state ≡ input_required
      → let r =
          approve_inbound_via_grant t p message last (set_thread_grant t p inbound first id db).1 in
        (r.0 ≡ ok true)
        × (find (λ r. r.id == t) r.1.threads
            ≡ some (record th { state = working; updated_at = unix last }))
  grant-approves t p id message first last th db h real found waits =
      let (active, same) = set_thread_grant-active t p first id db h in
      active-approves t p message last th (set_thread_grant t p inbound first id db).1 real active
        (ap (λ ts. find (λ r. r.id == t) ts) same ∙ found) waits
