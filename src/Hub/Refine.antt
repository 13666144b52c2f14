-- ===== src/Hub/Refine.antt =====
-- The hub of internal/relay/ws.go against its specification: a connection, or none, for each
-- person and device.
use askrelay.Base.{
  Ref, Bool-cases, true, false, ◌&&◌, Option, none, some, List, [], ◌∷◌, ◌==◌, ◌≡◌, refl, ap, ◌∙◌,
  inl, inr, if◌then◌else◌, arith,
}
use mathlib.Core.Path.{fun_ext}
use askrelay.Base.Table.{exists}
use askrelay.Hub.Registry.{
  Entries, get, put, delete_key, Hub, or_empty, conn_of, add, is_conn, has_no_entry, without,
  remove, close_all,
}

-- A call of a method of the hub that writes.
pub data HubCall : Type 0 where
  adds removes : Ref → Ref → Ref → HubCall
  closes_all : HubCall

-- The hub after a call.
unfoldable pub call : HubCall → Hub → Hub
call (adds p d c) h = (add p d c h).0
call (removes p d c) h = remove p d c h
call closes_all h = (close_all h).0

unfoldable pub calls : List HubCall → Hub → Hub
calls [] h = h
calls (k ∷ ks) h = calls ks (call k h)

-- What the hub promises: the connection of each person and device.
abbrev pub Registered : Type 0
Registered = Ref → Ref → Option Ref

-- A reconnect takes the place of what was there, and a connection takes away itself alone.
abbrev pub promised : HubCall → Registered → Registered
promised (adds p d c) r p' d' = if p' == p && d' == d then some c else r p' d'
promised (removes p d c) r p' d' = if p' == p && d' == d && is_conn (r p d) c then none else r p' d'
promised closes_all r p' d' = none

abbrev pub promised_all : List HubCall → Registered → Registered
promised_all [] r = r
promised_all (k ∷ ks) r = promised_all ks (promised k r)

-- Each person with an entry has a connection.
abbrev pub NoEmpty : Hub → Type 0
NoEmpty h = exists (λ e. has_no_entry e.1) h ≡ false

module _ {A : Type 0} where
  get-delete_key :
      (j k : Ref) (m : Entries A) → get j (delete_key k m) ≡ (if j == k then none else get j m)
  get-delete_key j k [] = ground arith
  get-delete_key j k ((i, a) ∷ m) = ground (arith, get-delete_key j k m)

  get-put :
      (j k : Ref) (a : A) (m : Entries A) → get j (put k a m) ≡ (if j == k then some a else get j m)
  get-put j k a m = ground (arith, get-delete_key j k m)

NoEmpty-delete_key : (p : Ref) (h : Hub) → NoEmpty h → NoEmpty (delete_key p h)
NoEmpty-delete_key p [] e = refl
NoEmpty-delete_key p ((q, m) ∷ h) e = ground (arith, NoEmpty-delete_key p h)

conn_of-put :
    (p p' d' : Ref) (m : Entries Ref) (h : Hub)
    → conn_of p' d' (put p m h) ≡ (if p' == p then get d' m else conn_of p' d' h)
conn_of-put p p' d' m h = ground (arith, get-put p' p m h)

conn_of-without :
    (p p' d' : Ref) (m : Entries Ref) (h : Hub)
    → conn_of p' d' (without p m h) ≡ (if p' == p then get d' m else conn_of p' d' h)
conn_of-without p p' d' [] h = ground (arith, get-delete_key p' p h)
conn_of-without p p' d' (e ∷ m) h = ground (arith, conn_of-put p p' d' (e ∷ m) h)

get-empty : {A : Type 0} (d : Ref) (m : Entries A) → has_no_entry m ≡ true → get d m ≡ none
get-empty d [] h = refl
get-empty d (e ∷ m) h = absurd (ground arith)

call-promised :
    (k : HubCall) (h : Hub) (p' d' : Ref)
    → conn_of p' d' (call k h) ≡ promised k (λ p d. conn_of p d h) p' d'
unfolding call add remove close_all
call-promised (adds p d c) h p' d' = ground (
  arith,
  conn_of-put p p' d' (put d c (or_empty (get p h))) h,
  get-put d' d c (or_empty (get p h)),
)
call-promised (removes p d c) h p' d' = elim (Bool-cases (is_conn (conn_of p d h) c)) [
  | inl own ↦ ground (
    arith,
    conn_of-without p p' d' (delete_key d (or_empty (get p h))) h,
    get-delete_key d' d (or_empty (get p h)),
  )
  | inr superseded ↦ ground arith
]
call-promised closes_all h p' d' = refl

call-NoEmpty : (k : HubCall) (h : Hub) → NoEmpty h → NoEmpty (call k h)
unfolding call add remove close_all
call-NoEmpty (adds p d c) h e = ground (arith, NoEmpty-delete_key p h e)
call-NoEmpty (removes p d c) h e = ground (arith, NoEmpty-delete_key p h e)
call-NoEmpty closes_all h e = refl

calls-from :
    (ks : List HubCall) (h : Hub) (r : Registered)
    → (λ p d. conn_of p d h) ≡ r
    → (p d : Ref) → conn_of p d (calls ks h) ≡ promised_all ks r p d
unfolding calls
calls-from [] h r e p d = ap (λ f. f p d) e
calls-from (k ∷ ks) h r e p d =
    calls-from ks (call k h) (promised k r)
      (fun_ext (λ p'. fun_ext (λ d'. call-promised k h p' d')) ∙ ap (promised k) e) p d

calls-NoEmpty : (ks : List HubCall) (h : Hub) → NoEmpty h → NoEmpty (calls ks h)
unfolding calls
calls-NoEmpty [] h e = e
calls-NoEmpty (k ∷ ks) h e = calls-NoEmpty ks (call k h) (call-NoEmpty k h e)

-- After any calls on a new hub, the connection of each person and device is the one that the
-- specification has, where a reconnect takes the place of the connection before it and a
-- connection that was superseded takes nothing away; and no person without a connection keeps an
-- entry.
pub calls-promised :
    (ks : List HubCall) (p d : Ref)
    → (conn_of p d (calls ks []) ≡ promised_all ks (λ p d. none) p d) × NoEmpty (calls ks [])
calls-promised ks p d = (calls-from ks [] (λ p d. none) refl p d, calls-NoEmpty ks [] refl)
