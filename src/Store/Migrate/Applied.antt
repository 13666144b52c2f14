-- ===== src/Store/Migrate/Applied.antt =====
-- What a run of internal/relay/store/migrate.go leaves behind.
use askrelay.Base.{
  ℕ, suc, ◌+◌, ◌≤◌, Bool-cases, Option, Option-cases, none, some, List, [], ◌∷◌, length, ◌==◌,
  ==→eq, ltb, leb, ◌⊎◌, inl, inr, ◌≡◌, refl, sym, ap, ◌∙◌, arith,
}
use Prim.Native.Nat.{max}
use mathlib.Core.Path.{subst}
use askrelay.Store.Migrate.{Migration, Versioned, MigrateError, apply_file, apply_files, migrate}

module _ {S : Type 0} where
  -- The schema grows from one version to another by files applied in order, none left out: `i` is
  -- the position of the first file of the list.
  pub data Grows : ℕ → List (Migration S) → Versioned S → Versioned S → Type 0 where
    stays : (i : ℕ) (ms : List (Migration S)) (db : Versioned S) → Grows i ms db db
    skips :
        (i : ℕ) (m : Migration S) (ms : List (Migration S)) (db to : Versioned S)
        → suc i ≤ db.user_version
        → Grows (suc i) ms db to
        → Grows i (m ∷ ms) db to
    applies :
        (i : ℕ) (m : Migration S) (ms : List (Migration S)) (db to : Versioned S) (f : S → Option S)
        (t : S)
        → db.user_version ≡ i
        → m.version ≡ some (suc i)
        → m.ddl ≡ some f
        → f db.schema ≡ some t
        → Grows (suc i) ms (record { user_version = suc i; schema = t }) to
        → Grows i (m ∷ ms) db to

  -- The version of the database at a file of the loop.
  abbrev At : ℕ → ℕ → Versioned S → Type 0
  At version i db = db.user_version ≡ max version i

  file-none :
      (version i : ℕ) (m : Migration S) (db next : Versioned S)
      → At version i db
      → apply_file version i m db ≡ (none, next)
      → (m.version ≡ some (suc i))
        × At version (suc i) next
        × (((suc i ≤ db.user_version) × (next ≡ db))
            ⊎ ((db.user_version ≡ i)
                × ((f : S → Option S) × (t : S) × (m.ddl ≡ some f)
                    × (f db.schema ≡ some t)
                    × (next ≡ record { user_version = suc i; schema = t }))))
  unfolding apply_file
  file-none version i m db next at h = elim (Option-cases m.version) [
    | inl e ↦ absurd (ground arith)
    | inr (v, e) ↦ elim (Bool-cases (v == suc i)) [
      | inr gap ↦ absurd (ground arith)
      | inl good ↦
          let numbered = ==→eq v (suc i) good in
          elim (Bool-cases (leb v version)) [
            | inl old ↦ (ground arith, ground arith, inl (ground arith, ground arith))
            | inr new ↦ elim (Option-cases m.ddl) [
              | inl d ↦ absurd (ground arith)
              | inr (f, d) ↦ elim (Option-cases (f db.schema)) [
                | inl q ↦ absurd (ground arith)
                | inr (t, q) ↦
                    (ground arith, ground arith, inr (ground arith, (f, t, d, q, ground arith)))
              ]
            ]
          ]
    ]
  ]

  file-some :
      (version i : ℕ) (m : Migration S) (db next : Versioned S) (e : MigrateError)
      → apply_file version i m db ≡ (some e, next)
      → next ≡ db
  unfolding apply_file
  file-some version i m db next e h = ground arith

  -- The files are numbered from the position `i`.
  abbrev pub Numbered : ℕ → List (Migration S) → Type 0
  Numbered i [] = Unit
  Numbered i (m ∷ ms) = (m.version ≡ some (suc i)) × Numbered (suc i) ms

  files-next :
      (version i : ℕ) (m : Migration S) (ms : List (Migration S)) (db next : Versioned S)
      → apply_file version i m db ≡ (none, next)
      → apply_files version i (m ∷ ms) db ≡ apply_files version (suc i) ms next
  unfolding apply_files
  files-next version i m ms db next h = ground arith

  files-stop :
      (version i : ℕ) (m : Migration S) (ms : List (Migration S)) (db next : Versioned S)
      (e : MigrateError)
      → apply_file version i m db ≡ (some e, next)
      → apply_files version i (m ∷ ms) db ≡ (some e, next)
  unfolding apply_files
  files-stop version i m ms db next e h = ground arith

  files-Grows :
      (version i : ℕ) (ms : List (Migration S)) (db : Versioned S)
      → At version i db
      → Grows i ms db (apply_files version i ms db).1
  unfolding apply_files
  files-Grows version i [] db at = stays i [] db
  files-Grows version i (m ∷ ms) db at = elim (Option-cases (apply_file version i m db).0) [
    | inr (e, q) ↦
        let next = (apply_file version i m db).1 in
        let stop = files-stop version i m ms db next e (ground arith) in
        let same = file-some version i m db next e (ground arith) in
        subst (λ r. Grows i (m ∷ ms) db r) (sym (ap (λ r. r.1) stop ∙ same)) (stays i (m ∷ ms) db)
    | inl q ↦
        let next = (apply_file version i m db).1 in
        let (numbered, later, how) = file-none version i m db next at (ground arith) in
        let rest = files-Grows version (suc i) ms next later in
        let to = (apply_files version (suc i) ms next).1 in
        let onward = sym (ap (λ r. r.1) (files-next version i m ms db next (ground arith))) in
        subst (λ r. Grows i (m ∷ ms) db r) onward
          (elim how [
            | inl (old, same) ↦
                skips i m ms db to old (subst (λ x. Grows (suc i) ms x to) same rest)
            | inr (level, (f, t, d, ran, same)) ↦
                applies i m ms db to f t level numbered d ran
                  (subst (λ x. Grows (suc i) ms x to) same rest)
          ])
  ]

  files-Numbered :
      (version i : ℕ) (ms : List (Migration S)) (db to : Versioned S)
      → At version i db
      → apply_files version i ms db ≡ (none, to)
      → Numbered i ms × At version (i + length ms) to
  unfolding apply_files
  files-Numbered version i [] db to at h = (tt, ground arith)
  files-Numbered version i (m ∷ ms) db to at h = elim (Option-cases (apply_file version i m db).0) [
    | inr (e, q) ↦ absurd (ground arith)
    | inl q ↦
        let next = (apply_file version i m db).1 in
        let (numbered, later, how) = file-none version i m db next at (ground arith) in
        let (all, last) = files-Numbered version (suc i) ms next to later (ground arith) in
        ((numbered, all), ground arith)
  ]

  file-old :
      (version i : ℕ) (m : Migration S) (db : Versioned S)
      → m.version ≡ some (suc i)
      → suc i ≤ version
      → apply_file version i m db ≡ (none, db)
  unfolding apply_file
  file-old version i m db numbered old = ground arith

  files-done :
      (version i : ℕ) (ms : List (Migration S)) (db : Versioned S)
      → Numbered i ms
      → i + length ms ≤ version
      → apply_files version i ms db ≡ (none, db)
  unfolding apply_files
  files-done version i [] db numbered done = refl
  files-done version i (m ∷ ms) db numbered done =
      files-next version i m ms db db (file-old version i m db numbered.0 (ground arith))
      ∙ files-done version (suc i) ms db numbered.1 (ground arith)

  -- A run with no error ends at the version of the last file, the files being numbered from 1
  -- without a gap; each file above the version that the database had was applied once, in order,
  -- by a transaction of its own; and a second run finds nothing to do and changes nothing.
  pub migrate-Grows :
      (files : List (Migration S)) (db db' : Versioned S)
      → migrate files db ≡ (none, db')
      → (db'.user_version ≡ length files)
        × Numbered 0 files
        × Grows 0 files db db'
        × (migrate files db' ≡ (none, db'))
  unfolding migrate
  migrate-Grows files db db' h = elim (Bool-cases (ltb (length files) db.user_version)) [
    | inl e ↦ absurd (ground arith)
    | inr e ↦
        let ran : apply_files db.user_version 0 files db ≡ (none, db') = ground arith in
        let (numbered, last) = files-Numbered db.user_version 0 files db db' (ground arith) ran in
        let reached : db'.user_version ≡ length files = ground arith in
        let grown = files-Grows db.user_version 0 files db (ground arith) in
        let again = files-done db'.user_version 0 files db' numbered (ground arith) in
        (reached, numbered, subst (λ r. Grows 0 files db r) (ap (λ r. r.1) ran) grown, ground arith)
  ]
