-- ===== src/Store/Migrate.antt =====
-- The schema's migrations: internal/relay/store/migrate.go.
pub mod Applied
use askrelay.Base.{
  ℕ, suc, ◌+◌, Bool, not, Option, none, some, List, [], ◌∷◌, length, ◌==◌, ltb, leb, if◌then◌else◌,
}

-- A file of the set, in the order of the names: its version, or none where the name has no good
-- prefix, and what its text does to a schema `S`, where it can be read and applied.
pub record Migration (S : Type 0) : Type 0 where
  pub version : Option ℕ
  pub ddl : Option (S → Option S)

-- The database: `PRAGMA user_version` and the schema.
pub record Versioned (S : Type 0) : Type 0 where
  pub user_version : ℕ
  pub schema : S

-- `ErrSchemaTooNew`, a bad name or a gap, a file that cannot be read, and one that SQLite refuses.
pub data MigrateError : Type 0 where
  schema_too_new bad_version non_contiguous unreadable refused : MigrateError

-- The error, if there is one, and the database after the run.
abbrev pub Migrated : Type 0 → Type 0
Migrated S = Option MigrateError × Versioned S

module _ {S : Type 0} where
  -- A transaction: the file's text and the new version, or neither.
  abbrev pub apply_ddl : ℕ → Option (S → Option S) → Versioned S → Migrated S
  apply_ddl v none db = (some unreadable, db)
  apply_ddl v (some f) db = elim (f db.schema) [
    | none ↦ (some refused, db)
    | some t ↦ (none, record { user_version = v; schema = t })
  ]

  -- A round of the loop for the file at position `i`, where `version` is what the database had
  -- before the loop.
  unfoldable pub apply_file : ℕ → ℕ → Migration S → Versioned S → Migrated S
  apply_file version i m db = elim m.version [
    | none ↦ (some bad_version, db)
    | some v ↦
        if not (v == suc i)
        then (some non_contiguous, db)
        else if leb v version
        then (none, db)
        else apply_ddl v m.ddl db
  ]

  unfoldable pub apply_files : ℕ → ℕ → List (Migration S) → Versioned S → Migrated S
  unfolding apply_file
  apply_files version i [] db = (none, db)
  apply_files version i (m ∷ ms) db =
      let (e, next) = apply_file version i m db in
      let rest = apply_files version (suc i) ms next in
      elim e [ some x ↦ (some x, next) | none ↦ rest ]

  -- `migrate`
  unfoldable pub migrate : List (Migration S) → Versioned S → Migrated S
  unfolding apply_files
  migrate files db =
      if ltb (length files) db.user_version
      then (some schema_too_new, db)
      else apply_files db.user_version 0 files db
