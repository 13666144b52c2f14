-- ===== src/Redact/Replaced.antt =====
-- What a rule of internal/redact/redact.go makes of a text.
use askrelay.Base.{
  ℕ, ◌+◌, ◌-◌, ◌≤◌, Bytes, Bool-cases, Option, none, some, List, [], ◌∷◌, ◌++◌, length, drop,
  append-take-drop, drop-plus, ltb, inl, inr, ◌≡◌, refl, sym, ap, ◌∙◌, if◌then◌else◌, arith,
}
use mathlib.Core.Path.{subst}
use askrelay.Redact.Rules.{
  RedactKind, rules, Patterns, slice, marker_of, replace_spans, apply, apply_locs, redact_by,
  redact,
}

-- The text comes of the other one by a marker in the place of each of these secrets, in order.
pub data Replaces (marker : Bytes) : Bytes → Bytes → List Bytes → Type 0 where
  keeps : (s : Bytes) → Replaces marker s s []
  cuts :
      (kept secret s t : Bytes) (secrets : List Bytes)
      → Replaces marker s t secrets
      → Replaces marker (kept ++ (secret ++ s)) (kept ++ (marker ++ t)) (secret ∷ secrets)

-- The spans come in order and do not overlap.
abbrev pub InSequence : ℕ → List (Option (ℕ × ℕ)) → Type 0
InSequence last [] = Unit
InSequence last (none ∷ locs) = InSequence last locs
InSequence last (some (gs, ge) ∷ locs) = (last ≤ gs) × (gs ≤ ge) × InSequence ge locs

-- The matched texts that are no markers.
abbrev pub secrets_of : Patterns → Bytes → List (Option (ℕ × ℕ)) → List Bytes
secrets_of pat s [] = []
secrets_of pat s (none ∷ locs) = secrets_of pat s locs
secrets_of pat s (some (gs, ge) ∷ locs) =
    if pat.is_marker (slice gs ge s)
    then secrets_of pat s locs
    else slice gs ge s ∷ secrets_of pat s locs

drop-split : (i j : ℕ) (s : Bytes) → i ≤ j → drop i s ≡ slice i j s ++ drop j s
drop-split i j s h =
    let q : i + (j - i) ≡ j = omega arith in
    sym (append-take-drop (j - i) (drop i s))
    ∙ ap (λ t. slice i j s ++ t) (drop-plus i (j - i) s ∙ ap (λ k. drop k s) q)

InSequence-mono :
    (a b : ℕ) (locs : List (Option (ℕ × ℕ))) → a ≤ b → InSequence b locs → InSequence a locs
InSequence-mono a b [] h q = tt
InSequence-mono a b (none ∷ locs) h q = InSequence-mono a b locs h q
InSequence-mono a b (some (gs, ge) ∷ locs) h q = (omega (arith, q.0), q.1, q.2)

module _ (pat : Patterns) where
  replace_spans-Replaces :
      (marker s : Bytes) (last : ℕ) (locs : List (Option (ℕ × ℕ)))
      → InSequence last locs
      → Replaces marker
          (drop last s)
          (replace_spans pat marker s last locs).0
          (secrets_of pat s locs)
        × ((replace_spans pat marker s last locs).1 ≡ length (secrets_of pat s locs))
  unfolding replace_spans
  replace_spans-Replaces marker s last [] h = (keeps (drop last s), refl)
  replace_spans-Replaces marker s last (none ∷ locs) h = replace_spans-Replaces marker s last locs h
  replace_spans-Replaces marker s last (some (gs, ge) ∷ locs) h =
      elim (Bool-cases (pat.is_marker (slice gs ge s))) [
        | inl e ↦ rw e (
            replace_spans-Replaces marker s last locs
              (InSequence-mono last ge locs (omega (arith, h.0, h.1)) h.2))
        | inr e ↦
            let (rest, count) = replace_spans-Replaces marker s ge locs h.2 in
            let split =
              drop-split last gs s h.0 ∙ ap (λ t. slice last gs s ++ t) (drop-split gs ge s h.1) in
            rw e (
              subst
                  (λ x.
                    Replaces marker x
                      (slice last gs s ++ (marker ++ (replace_spans pat marker s ge locs).0))
                      (slice gs ge s ∷ secrets_of pat s locs))
                  (sym split)
                  (cuts (slice last gs s) (slice gs ge s) (drop ge s)
                    (replace_spans pat marker s ge locs).0 (secrets_of pat s locs) rest),
              omega (arith, count),
            )
      ]

  -- The spans of every rule come in order, in whatever text.
  abbrev pub Ordered : Type 0
  Ordered = (k : RedactKind) (s : Bytes) → InSequence 0 (pat.matches k s)

  locs-Replaces :
      (k : RedactKind) (s : Bytes) (locs : List (Option (ℕ × ℕ)))
      → InSequence 0 locs
      → Replaces (marker_of k) s (apply_locs pat k s locs).0 (secrets_of pat s locs)
        × ((apply_locs pat k s locs).1 ≡ length (secrets_of pat s locs))
  locs-Replaces k s [] h = (keeps s, refl)
  locs-Replaces k s (loc ∷ locs) h = replace_spans-Replaces (marker_of k) s 0 (loc ∷ locs) h

  -- Each rule in turn puts its marker in the place of each secret that it matches, and what is
  -- counted is how many those are.
  abbrev pub Redacts : List RedactKind → Bytes → Bytes → List (RedactKind × ℕ) → Type 0
  Redacts [] s t counts = (t ≡ s) × (counts ≡ [])
  Redacts (k ∷ ks) s t counts =
      (mid : Bytes) × (later : List (RedactKind × ℕ)) × Replaces (marker_of k) s mid
        (secrets_of pat s (pat.matches k s))
      × Redacts ks mid t later
      × (let n = length (secrets_of pat s (pat.matches k s)) in
          counts ≡ (if ltb 0 n then (k, n) ∷ later else later))

  redact_by-Redacts :
      (ks : List RedactKind) (s : Bytes)
      → Ordered
      → Redacts ks s (redact_by pat ks s).0 (redact_by pat ks s).1
  unfolding redact_by apply
  redact_by-Redacts [] s ordered = (refl, refl)
  redact_by-Redacts (k ∷ ks) s ordered =
      let (replaced, count) = locs-Replaces k s (pat.matches k s) (ordered k s) in
      let mid = (apply pat k s).0 in
      (mid, (redact_by pat ks mid).1, replaced, redact_by-Redacts ks mid ordered, rw (← count) refl)

  -- A redacted text is what the rules make of it one after the other: each puts its marker in the
  -- place of exactly the texts that it matches and that are no markers already, and leaves
  -- everything else as it is; and the counts are how many those are. The spans of the matches of
  -- a rule come in order and do not overlap.
  pub redact-Redacts : (s : Bytes) → Ordered → Redacts rules s (redact pat s).0 (redact pat s).1
  unfolding redact
  redact-Redacts s ordered = redact_by-Redacts rules s ordered
