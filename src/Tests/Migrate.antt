-- ===== src/Tests/Migrate.antt =====
-- A database at version 1, and two migrations.
use askrelay.Base.{ℕ, ◌+◌, none, some, List, [], ◌∷◌, length, ◌≡◌, refl}
use askrelay.Store.Migrate.{Migration, Versioned, migrate}
use askrelay.Store.Migrate.Applied.{Numbered, Grows, migrate-Grows}

abbrev files : List (Migration ℕ)
files =
    (record { version = some 1; ddl = some (λ s. some (s + 10)) })
    ∷ (record { version = some 2; ddl = some (λ s. some (s + 200)) })
    ∷ []

abbrev first : Versioned ℕ
first = record { user_version = 1; schema = 10 }

abbrev second : Versioned ℕ
second = record { user_version = 2; schema = 210 }

migrate-Grows_example :
    (second.user_version ≡ length files)
    × Numbered 0 files
    × Grows 0 files first second
    × (migrate files second ≡ (none, second))
unfolding migrate
migrate-Grows_example = migrate-Grows files first second refl
