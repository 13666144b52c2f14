-- ===== src/Mcp/Wait/Slots.antt =====
-- The slots of wait_for_activity: `waitAcquire` and `waitRelease` of internal/relay/mcp/handler.go
-- in any interleaving of calls.
use askrelay.Base.{
  ℕ, suc, ◌-◌, ◌≤◌, Ref, Bool-cases, true, false, ◌≡◌, refl, inl, inr, List, [], ◌∷◌, ◌==◌, ltb,
  if◌then◌else◌, arith,
}
use askrelay.Base.Table.{exists, delete}
use askrelay.Mcp.Wait.{Waiting, count_of, put, wait_acquire, wait_release, count_down}

-- How many of the calls that hold a slot are a person's.
abbrev pub held : Ref → List Ref → ℕ
held person [] = 0
held person (p ∷ ps) = if p == person then suc (held person ps) else held person ps

-- The calls without one of this person's.
abbrev pub leave : Ref → List Ref → List Ref
leave person [] = []
leave person (p ∷ ps) = if p == person then ps else p ∷ leave person ps

-- The map beside the calls that hold a slot, each by its person. A call enters where it gets a
-- slot, goes away at once where it gets none, and gives back its slot when it returns.
pub data Reach : Waiting → List Ref → Type 0 where
  start : Reach [] []
  enters :
      (person : Ref) (w w' : Waiting) (calls : List Ref)
      → Reach w calls
      → wait_acquire person w ≡ (true, w')
      → Reach w' (person ∷ calls)
  turned_away :
      (person : Ref) (w w' : Waiting) (calls : List Ref)
      → Reach w calls
      → wait_acquire person w ≡ (false, w')
      → Reach w' calls
  returns :
      (person : Ref) (w : Waiting) (calls : List Ref)
      → Reach w calls
      → 1 ≤ held person calls
      → Reach (wait_release person w) (leave person calls)

count_of-delete :
    (p person : Ref) (w : Waiting)
    → count_of p (delete (λ e. e.0 == person) w) ≡ (if p == person then 0 else count_of p w)
count_of-delete p person [] = ground arith
count_of-delete p person ((q, n) ∷ w) = ground (arith, count_of-delete p person w)

count_of-put :
    (p person : Ref) (n : ℕ) (w : Waiting)
    → count_of p (put person n w) ≡ (if p == person then n else count_of p w)
count_of-put p person n w = ground (arith, count_of-delete p person w)

held-leave :
    (p person : Ref) (calls : List Ref)
    → held p (leave person calls) ≡ (if p == person then held p calls - 1 else held p calls)
held-leave p person [] = ground arith
held-leave p person (c ∷ cs) = ground (arith, held-leave p person cs)

-- No entry of the map is 0.
abbrev pub NoZero : Waiting → Type 0
NoZero w = exists (λ e. e.1 == 0) w ≡ false

NoZero-delete : (person : Ref) (w : Waiting) → NoZero w → NoZero (delete (λ e. e.0 == person) w)
NoZero-delete person [] h = refl
NoZero-delete person ((q, n) ∷ w) h = ground (arith, NoZero-delete person w)

count_of-release :
    (p person : Ref) (w : Waiting)
    → count_of p (wait_release person w) ≡ (if p == person then count_of p w - 1 else count_of p w)
unfolding wait_release count_down
count_of-release p person w = elim (Bool-cases (ltb 0 (count_of person w))) [
  | inl some_held ↦ ground (
    arith,
    count_of-put p person (count_of person w - 1) w,
    count_of-put person person (count_of person w - 1) w,
    count_of-delete p person (put person (count_of person w - 1) w),
  )
  | inr none_held ↦ ground (arith, count_of-delete p person w)
]

NoZero-release : (person : Ref) (w : Waiting) → NoZero w → NoZero (wait_release person w)
unfolding wait_release count_down
NoZero-release person w h = elim (Bool-cases (ltb 0 (count_of person w))) [
  | inl some_held ↦
      ground (arith, NoZero-delete person w h, NoZero-delete person (delete (λ e. e.0 == person) w))
  | inr none_held ↦ ground (arith, NoZero-delete person w h)
]

acquire-taken :
    (p : Ref) (w w' : Waiting)
    → wait_acquire p w ≡ (true, w')
    → (count_of p w ≤ 1) × (w' ≡ put p (suc (count_of p w)) w)
unfolding wait_acquire
acquire-taken p w w' q = (ground arith, ground arith)

acquire-refused : (p : Ref) (w w' : Waiting) → wait_acquire p w ≡ (false, w') → w' ≡ w
unfolding wait_acquire
acquire-refused p w w' q = ground arith

acquire-free : (p : Ref) (w : Waiting) → (wait_acquire p w).0 ≡ ltb (count_of p w) 2
unfolding wait_acquire
acquire-free p w = ground arith

-- The map agrees with the calls that hold a slot.
abbrev Agrees : Ref → Waiting → List Ref → Type 0
Agrees person w calls = (count_of person w ≡ held person calls) × (held person calls ≤ 2) × NoZero w

enter-Agrees :
    (person p : Ref) (w : Waiting) (calls : List Ref)
    → count_of p w ≤ 1
    → Agrees person w calls
    → Agrees p w calls
    → Agrees person (put p (suc (count_of p w)) w) (p ∷ calls)
enter-Agrees person p w calls room (same, few, zeros) (same_p, few_p, zeros_p) =
    let counted = count_of-put person p (suc (count_of p w)) w in
    (ground (arith, counted), ground arith, ground (arith, NoZero-delete p w zeros))

return-Agrees :
    (person p : Ref) (w : Waiting) (calls : List Ref)
    → Agrees person w calls
    → Agrees person (wait_release p w) (leave p calls)
return-Agrees person p w calls (same, few, zeros) =
    let left = held-leave person p calls in
    (ground (arith, count_of-release person p w), ground arith, NoZero-release p w zeros)

Reach-Agrees :
    (w : Waiting) (calls : List Ref) (person : Ref) → Reach w calls → Agrees person w calls
Reach-Agrees w calls person start = (refl, ground arith, refl)
Reach-Agrees w' calls' person (enters p w _ calls r q) =
    let (room, after) = acquire-taken p w w' q in
    rw after (
      enter-Agrees person p w calls room (Reach-Agrees w calls person r) (Reach-Agrees w calls p r))
Reach-Agrees w' calls person (turned_away p w _ _ r q) =
    rw (acquire-refused p w w' q) (Reach-Agrees w calls person r)
Reach-Agrees w' calls' person (returns p w calls r some_held) =
    return-Agrees person p w calls (Reach-Agrees w calls person r)

-- Whatever calls came and went, the map has for each person the number of that person's calls
-- that hold a slot, which is 2 at most; a call of the person gets a slot exactly if fewer than 2
-- hold one; and the map keeps no entry that is 0.
pub Reach-Slots :
    (w : Waiting) (calls : List Ref) (person : Ref)
    → Reach w calls
    → (count_of person w ≡ held person calls)
      × (held person calls ≤ 2)
      × ((wait_acquire person w).0 ≡ ltb (held person calls) 2)
      × NoZero w
Reach-Slots w calls person r =
    let (same, few, zeros) = Reach-Agrees w calls person r in
    (same, few, rw (← same) (acquire-free person w), zeros)
