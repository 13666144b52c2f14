-- ===== src/Envelope/Order.antt =====
-- The order of the keys of an object: `compareUTF16` of internal/envelope/canon.go.
use askrelay.Base.{
  ℕ, suc, ◌+◌, ◌-◌, ◌/◌, ◌%◌, ◌≤◌, ◌++◌, ◌==◌, ==→eq, ◌⊎◌, ◌∙◌, sym, ap, ltb, if◌then◌else◌, Text,
  true, false, List, [], ◌∷◌, ◌≡◌, refl, arith, inl, inr, Bool-cases,
}
use mathlib.Core.List.{Permᴰ}
use mathlib.Core.List.Permᴰ
use askrelay.Envelope.Canon.{
  compare_units, compare_utf16, encode_utf16, is_greater, insert_key, sort_keys,
}

-- The UTF-16 code units of a character: itself, or a high and a low surrogate.
abbrev pub units_of : ℕ → List ℕ
units_of r =
    if ltb r 65536 then r ∷ [] else (55296 + (r - 65536) / 1024) ∷ (56320 + (r - 65536) % 1024) ∷ []

abbrev pub utf16 : Text → List ℕ
utf16 [] = []
utf16 (r ∷ s) = units_of r ++ utf16 s

-- The dictionary order, in which a proper prefix comes first.
abbrev pub AtMost : List ℕ → List ℕ → Type 0
AtMost [] ys = Unit
AtMost (x ∷ xs) [] = ⊥
AtMost (x ∷ xs) (y ∷ ys) = (suc x ≤ y) ⊎ ((x ≡ y) × AtMost xs ys)

AtMost-trans : (xs ys zs : List ℕ) → AtMost xs ys → AtMost ys zs → AtMost xs zs
AtMost-trans [] ys zs h k = tt
AtMost-trans (x ∷ xs) [] zs h k = absurd h
AtMost-trans (x ∷ xs) (y ∷ ys) [] h k = absurd k
AtMost-trans (x ∷ xs) (y ∷ ys) (z ∷ zs) (inl p) (inl q) = inl (omega arith)
AtMost-trans (x ∷ xs) (y ∷ ys) (z ∷ zs) (inl p) (inr (q, k)) = inl (omega arith)
AtMost-trans (x ∷ xs) (y ∷ ys) (z ∷ zs) (inr (p, h)) (inl q) = inl (omega arith)
AtMost-trans (x ∷ xs) (y ∷ ys) (z ∷ zs) (inr (p, h)) (inr (q, k)) =
    inr (p ∙ q, AtMost-trans xs ys zs h k)

encode_utf16-utf16 : (s : Text) → encode_utf16 s ≡ utf16 s
unfolding encode_utf16
encode_utf16-utf16 [] = refl
encode_utf16-utf16 (r ∷ s) = elim (Bool-cases (ltb r 65536)) [
  | inl small ↦ rw small (ap (λ u. r ∷ u) (encode_utf16-utf16 s))
  | inr wide ↦ rw wide (
      ap (λ u. (55296 + (r - 65536) / 1024) ∷ (56320 + (r - 65536) % 1024) ∷ u)
        (encode_utf16-utf16 s))
]

-- What the comparison of code units says of their order.
compare_units-AtMost :
    (xs ys : List ℕ)
    → ((is_greater (compare_units xs ys) ≡ false) → AtMost xs ys)
      × ((is_greater (compare_units xs ys) ≡ true) → AtMost ys xs)
unfolding compare_units
compare_units-AtMost [] [] = (λ h. tt, λ h. tt)
compare_units-AtMost [] (y ∷ ys) = (λ h. tt, λ h. absurd (ground arith))
compare_units-AtMost (x ∷ xs) [] = (λ h. absurd (ground arith), λ h. tt)
compare_units-AtMost (x ∷ xs) (y ∷ ys) = elim (Bool-cases (x == y)) [
  | inl same ↦
      let q = ==→eq x y same in
      let rest = compare_units-AtMost xs ys in
      (λ h. inr (q, rest.0 (ground arith)), λ h. inr (sym q, rest.1 (ground arith)))
  | inr other ↦ (λ h. inl (ground arith), λ h. inl (ground arith))
]

compare_utf16-AtMost :
    (k j : Text)
    → ((is_greater (compare_utf16 k j) ≡ false) → AtMost (utf16 k) (utf16 j))
      × ((is_greater (compare_utf16 k j) ≡ true) → AtMost (utf16 j) (utf16 k))
unfolding compare_utf16
compare_utf16-AtMost k j =
    rw (← encode_utf16-utf16 k, ← encode_utf16-utf16 j)
      (compare_units-AtMost (encode_utf16 k) (encode_utf16 j))

module _ {ℓ} {A : Type ℓ} where
  -- The UTF-16 code units of this key are at most those of every key of the list.
  abbrev pub IsBelow : Text → List (Text × A) → Type 0
  IsBelow k [] = Unit
  IsBelow k ((j, b) ∷ l) = AtMost (utf16 k) (utf16 j) × IsBelow k l

  -- The keys are in the dictionary order of their UTF-16 code units.
  abbrev pub InKeyOrder : List (Text × A) → Type 0
  InKeyOrder [] = Unit
  InKeyOrder ((k, a) ∷ l) = IsBelow k l × InKeyOrder l

  IsBelow-trans :
      (k j : Text) (l : List (Text × A)) → AtMost (utf16 k) (utf16 j) → IsBelow j l → IsBelow k l
  IsBelow-trans k j [] h below = tt
  IsBelow-trans k j ((i, b) ∷ l) h below =
      (AtMost-trans (utf16 k) (utf16 j) (utf16 i) h below.0, IsBelow-trans k j l h below.1)

  insert_key-IsBelow :
      (j k : Text) (a : A) (l : List (Text × A))
      → AtMost (utf16 j) (utf16 k)
      → IsBelow j l
      → IsBelow j (insert_key k a l)
  unfolding insert_key
  insert_key-IsBelow j k a [] h below = (h, tt)
  insert_key-IsBelow j k a ((i, b) ∷ l) h below =
      elim (Bool-cases (is_greater (compare_utf16 k i))) [
        | inl after ↦ rw after (below.0, insert_key-IsBelow j k a l h below.1)
        | inr before ↦ rw before (h, below)
      ]

  insert_key-InKeyOrder :
      (k : Text) (a : A) (l : List (Text × A)) → InKeyOrder l → InKeyOrder (insert_key k a l)
  unfolding insert_key
  insert_key-InKeyOrder k a [] h = (tt, tt)
  insert_key-InKeyOrder k a ((j, b) ∷ l) h = elim (Bool-cases (is_greater (compare_utf16 k j))) [
    | inl after ↦ rw after (
      insert_key-IsBelow j k a l ((compare_utf16-AtMost k j).1 after) h.0,
      insert_key-InKeyOrder k a l h.1,
    )
    | inr before ↦
        let least = (compare_utf16-AtMost k j).0 before in
        rw before ((least, IsBelow-trans k j l least h.0), h)
  ]

  sorted : (l : List (Text × A)) → InKeyOrder (sort_keys l)
  unfolding sort_keys
  sorted [] = tt
  sorted ((k, a) ∷ l) = insert_key-InKeyOrder k a (sort_keys l) (sorted l)

  insert_key-Perm : (k : Text) (a : A) (l : List (Text × A)) → Permᴰ ((k, a) ∷ l) (insert_key k a l)
  unfolding insert_key
  insert_key-Perm k a [] = Permᴰ.refl ((k, a) ∷ [])
  insert_key-Perm k a ((j, b) ∷ l) = elim (Bool-cases (is_greater (compare_utf16 k j))) [
    | inl after ↦
        rw after (Permᴰ.trans (Permᴰ.swap refl refl) (Permᴰ.cons refl (insert_key-Perm k a l)))
    | inr before ↦ rw before (Permᴰ.refl ((k, a) ∷ (j, b) ∷ l))
  ]

  sort_keys-Perm : (l : List (Text × A)) → Permᴰ l (sort_keys l)
  unfolding sort_keys
  sort_keys-Perm [] = Permᴰ.nil
  sort_keys-Perm ((k, a) ∷ l) =
      Permᴰ.trans (Permᴰ.cons refl (sort_keys-Perm l)) (insert_key-Perm k a (sort_keys l))

  -- The members of an object are written in the dictionary order of their keys' UTF-16 code units,
  -- all of them and no other: the sorted list is a permutation in which the units of a key are at
  -- most those of every later one.
  pub sort_keys-InKeyOrder :
      (l : List (Text × A)) → InKeyOrder (sort_keys l) × Permᴰ l (sort_keys l)
  sort_keys-InKeyOrder l = (sorted l, sort_keys-Perm l)
