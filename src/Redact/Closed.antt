-- ===== src/Redact/Closed.antt =====
-- The redaction program of internal/redact/hook.go fails closed.
use askrelay.Base.{
  ◌+◌, ◌≤◌, Bytes, Bool-cases, true, not, ◌||◌, Option-cases, some, List, [], ◌∷◌, ◌++◌, length,
  length-append, ltb, inl, inr, ◌≡◌, refl, sym, ap, ◌∙◌, arith,
}
use mathlib.Core.List.{append-nil, append_assoc}
use askrelay.Redact.Hook.{
  max_hook_output, Written, write, write_all, Run, fails, exits, is_empty, hook_output, hook,
}

-- All that was written.
abbrev pub output : List Bytes → Bytes
output [] = []
output (p ∷ ps) = p ++ output ps

-- What the writer holds is counted and within the cap.
abbrev Capped : Written → Type 0
Capped w = (w.n ≡ length w.buf) × (w.n ≤ max_hook_output)

write-Capped :
    (w v : Written) (p : Bytes) → Capped w → write w p ≡ some v → Capped v × (v.buf ≡ w.buf ++ p)
unfolding write
write-Capped w v p h q = elim (Bool-cases (ltb max_hook_output (w.n + length p))) [
  | inl e ↦ absurd (ground arith)
  | inr e ↦ ground (arith, length-append w.buf p)
]

write_all-Capped :
    (ps : List Bytes) (w v : Written)
    → Capped w
    → write_all (some w) ps ≡ some v
    → Capped v × (v.buf ≡ w.buf ++ output ps)
unfolding write_all
write_all-Capped [] w v h q =
    let same : w ≡ v = ground arith in
    (ground arith, sym (ap (λ x. x.buf) same) ∙ sym (append-nil w.buf))
write_all-Capped (p ∷ ps) w v h q = elim (Option-cases (write w p)) [
  | inl e ↦ absurd (ground arith)
  | inr (u, e) ↦
      let (capped, now) = write-Capped w u p h e in
      let (last, all) = write_all-Capped ps u v capped (ap (λ o. write_all o ps) (sym e) ∙ q) in
      (last, all ∙ ap (λ b. b ++ output ps) now ∙ append_assoc w.buf p (output ps))
]

-- The writer before the first write.
abbrev blank : Written
blank = record { buf = []; n = 0 }

-- The hook lets a text through only where the program could be run, exited with 0 and wrote no
-- more than 1 MiB; what goes on is all that the program wrote, and it is not empty unless the
-- text is.
pub hook-Closed :
    (text out : Bytes) (r : Run)
    → hook text r ≡ some out
    → (ps : List Bytes) × (r ≡ exits ps)
      × (out ≡ output ps)
      × (length out ≤ max_hook_output)
      × ((is_empty text || not (is_empty out)) ≡ true)
unfolding hook hook_output
hook-Closed text out fails h = absurd (ground arith)
hook-Closed text out (exits ps) h = elim (Option-cases (write_all (some blank) ps)) [
  | inl e ↦ absurd (ground arith)
  | inr (w, e) ↦
      let (capped, all) = write_all-Capped ps blank w (refl, ground arith) e in
      let same : w.buf ≡ out = ground arith in (ps, refl, ground arith, ground arith, ground arith)
]
