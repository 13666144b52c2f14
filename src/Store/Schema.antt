-- ===== src/Store/Schema.antt =====
-- Transactions on the tables: `writeTx` of internal/relay/store/identity.go, and the statements
-- that it runs.
mod Tables
pub use Tables.*
use askrelay.Base.{
  ℕ, Ref, Bool, true, false, Option, none, some, List, ◌==◌, Result, ok, err, Result-cases, ◌⊎◌,
  inl, inr, ◌≡◌, arith,
}
use askrelay.Base.Table.{exists}
use askrelay.Gate.{ThreadState, Direction, DraftState, GateError}
use askrelay.Envelope.{EnvelopeError}

-- The sentinel errors of the store, the refusals that it passes on, and `database` for a fault of
-- SQLite, a broken constraint among them.
pub data StoreError : Type 0 where
  not_found invite_invalid key_in_use replay not_fresh not_participant : StoreError
  client_unknown code_invalid refresh_invalid refresh_reused bad_id bad_key database : StoreError
  refused_by_gate : GateError → StoreError
  refused_envelope : EnvelopeError → StoreError

-- Statements in a transaction: what they return, and the rows after them.
abbrev pub Tx : Type 0 → Type 0 → Type 0
Tx B A = Db B → Result StoreError (A × Db B)

-- The result of a method of the store, with the database after it.
abbrev pub Outcome : Type 0 → Type 0 → Type 0
Outcome B A = Result StoreError A × Db B

infixl 5 ◌>>=◌ ◌>>◌
abbrev pub ◌>>=◌ : {B A C : Type 0} → Tx B A → (A → Tx B C) → Tx B C
◌>>=◌ m f db = elim (m db) [ ok (a, db') ↦ f a db' | err e ↦ err e ]

abbrev pub ◌>>◌ : {B C : Type 0} → Tx B (Unit {0}) → Tx B C → Tx B C
m >> k = m >>= λ _. k

-- A step that ends without an error splits into its two parts.
pub >>=-eq-ok :
    {B A C : Type 0} (m : Tx B A) (f : A → Tx B C) {db db' : Db B} {c : C}
    → (m >>= f) db ≡ ok (c, db')
    → (a : A) × (mid : Db B) × (m db ≡ ok (a, mid)) × (f a mid ≡ ok (c, db'))
>>=-eq-ok m f {db} h = elim (Result-cases (m db)) [
  | inl ((a, mid), e) ↦ (a, mid, e, rw (e, ◌>>=◌) at h)
  | inr (_, e) ↦ absurd (ground arith)
]

module _ {B A : Type 0} where
  abbrev pub pure : A → Tx B A
  pure a db = ok (a, db)

  -- A query, which changes no row.
  abbrev pub query : (Db B → A) → Tx B A
  query f db = ok (f db, db)

  abbrev pub or_error : Option A → StoreError → Tx B A
  or_error none e db = err e
  or_error (some a) e db = ok (a, db)

  -- A refusal by the gate, wrapped.
  abbrev pub lift_gate : Result GateError A → Tx B A
  lift_gate (ok a) db = ok (a, db)
  lift_gate (err e) db = err (refused_by_gate e)

  abbrev pub lift_envelope : Result EnvelopeError A → Tx B A
  lift_envelope (ok a) db = ok (a, db)
  lift_envelope (err e) db = err (refused_envelope e)

  -- `writeTx`: commit where the function returns no error, and roll back where it does. The
  -- mutex makes the transactions of concurrent callers a sequence.
  abbrev pub write_tx : Tx B A → Db B → Outcome B A
  write_tx m db = elim (m db) [ ok (a, db') ↦ (ok a, db') | err e ↦ (err e, db) ]

module _ {B A : Type 0} where
  -- A transaction commits or rolls back.
  pub write_tx-cases :
      (m : Tx B A) (db : Db B)
      → ((write_tx m db).1 ≡ db)
        ⊎ ((a : A) × (db' : Db B) × (m db ≡ ok (a, db')) × ((write_tx m db).1 ≡ db'))
  write_tx-cases m db = elim (Result-cases (m db)) [
    | inl ((a, db'), e) ↦ inr (a, db', e, rw (e, write_tx))
    | inr (_, e) ↦ inl (rw (e, write_tx))
  ]

  pub write_tx-ok :
      (m : Tx B A) (db : Db B) (a : A)
      → (write_tx m db).0 ≡ ok a
      → (db' : Db B) × (m db ≡ ok (a, db')) × ((write_tx m db).1 ≡ db')
  write_tx-ok m db a h = elim (Result-cases (m db)) [
    | inl ((b, db'), e) ↦ (db', ground arith, rw (e, write_tx))
    | inr (_, e) ↦ absurd (ground arith)
  ]

module _ {B : Type 0} where
  abbrev pub refuse_if : Bool → StoreError → Tx B (Unit {0})
  refuse_if true e db = err e
  refuse_if false e db = ok (tt, db)

  -- A statement that changes rows.
  abbrev pub exec : (Db B → Db B) → Tx B (Unit {0})
  exec f db = ok (tt, f db)

  -- `REFERENCES persons(id)`, `REFERENCES devices(id)` and `REFERENCES threads(id)`
  abbrev pub has_person : Ref → Db B → Bool
  has_person p db = exists (λ r. r.id == p) db.persons

  abbrev pub has_device : Ref → Db B → Bool
  has_device d db = exists (λ r. r.id == d) db.devices

  abbrev pub has_thread : Ref → Db B → Bool
  has_thread t db = exists (λ r. r.id == t) db.threads

abbrev pub is_null {ℓ} : {A : Type ℓ} → Option A → Bool
is_null none = true
is_null (some a) = false

-- `COALESCE(o, a)`
abbrev pub coalesce {ℓ} : {A : Type ℓ} → Option A → A → Option A
coalesce none a = some a
coalesce (some b) a = some b
