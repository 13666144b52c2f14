-- ===== src/History/Drafts.antt =====
-- A decided draft: the verdicts of internal/relay/store/draft.go against every later call.
use askrelay.Base.{
  Ref, Time, unix, Option, none, some, sym, inl, inr, Bool, false, List, [], ◌∷◌, ◌≡◌, refl, ◌==◌,
  ◌&&◌, arith,
}
use mathlib.Core.Path.{subst}
use askrelay.Base.Table.{exists}
use askrelay.Gate.{is_pending_review, sent, discarded, DraftState}
use askrelay.Envelope.{External, Envelope}
use askrelay.Store.{Db, Draft, create_draft, sweep_drafts, discard_draft}
use askrelay.Store.Drafts.Effects.{edit_rows, decide_rows}
use askrelay.History.{
  Call, Settings, step, run, Each, creates_draft, releases_draft, discards_draft,
  releases_via_grant, sweeps_drafts,
}
use askrelay.History.Delivery.{
  Delivers, idle, lets_in, releases, release_draft-Delivers, release_via_grant-Delivers,
  discard_draft-decides,
}
use askrelay.History.Frame.{step-drafts}
use askrelay.History.Rows.{exists-update-false, exists-update-clears, exists-delete-false}

-- The draft waits for a verdict.
abbrev is_pending : {B : Type 0} → Ref → Draft B → Bool
is_pending i d = d.id == i && is_pending_review d.state

-- No draft with this id waits for a verdict.
abbrev pub IsDecided : {B : Type 0} → Ref → Db B → Type 0
IsDecided i db = exists (is_pending i) db.drafts ≡ false

-- The call makes no draft with this id.
abbrev pub MakesOther : Ref → Time → Call → Type 0
MakesOther i now (creates_draft t author e) = (e.id == i) ≡ false
MakesOther i now call = Unit

module _ {B : Type 0} where
  edit_rows-decided :
      (i id : Ref) (edit : Option B) (ds : List (Draft B))
      → exists (is_pending i) ds ≡ false
      → exists (is_pending i) (edit_rows id edit ds) ≡ false
  edit_rows-decided i id none ds h = h
  edit_rows-decided i id (some blob) ds h = exists-update-false _ _ _ ds (λ a m. m) h

  decide_rows-decided :
      (i id : Ref) (next : DraftState) (via : Bool) (now : Time) (ds : List (Draft B))
      → is_pending_review next ≡ false
      → exists (is_pending i) ds ≡ false
      → exists (is_pending i) (decide_rows id next via now ds) ≡ false
  decide_rows-decided i id next via now ds final h =
      exists-update-false _ (λ d. d.id == id)
        (λ d. record d { state = next; via_grant = via; decided_at = some (unix now) }) ds
        (λ a m. ground arith) h

  pub decide_rows-decides :
      (i : Ref) (next : DraftState) (via : Bool) (now : Time) (ds : List (Draft B))
      → is_pending_review next ≡ false
      → exists (is_pending i) (decide_rows i next via now ds) ≡ false
  decide_rows-decides i next via now ds final =
      exists-update-clears _ (λ d. d.id == i)
        (λ d. record d { state = next; via_grant = via; decided_at = some (unix now) }) ds
        (λ a m. ground arith) (λ a. ground arith)

  Delivers-IsDecided :
      (i : Ref) (db db' : Db B) → Delivers db db' → IsDecided i db → IsDecided i db'
  Delivers-IsDecided i db db' (idle q) h = rw q h
  Delivers-IsDecided i db db' (lets_in _ _ _ _ q) h = rw q h
  Delivers-IsDecided i db db' (releases e s now blob id edit via q) h = rw q (
      decide_rows-decided i id sent via now (edit_rows id edit db.drafts) refl
        (edit_rows-decided i id edit db.drafts h))

module _ {B : Type 0} (ext : External B) (c : Settings) where
  create_draft-IsDecided :
      (i t author : Ref) (e : Envelope) (now : Time) (db : Db B)
      → (e.id == i) ≡ false
      → IsDecided i db
      → IsDecided i (create_draft ext t author e now db).1
  unfolding create_draft
  create_draft-IsDecided i t author e now db other h = ground arith

  discard_draft-IsDecided :
      (i person id : Ref) (now : Time) (db : Db B)
      → IsDecided i db
      → IsDecided i (discard_draft ext person id now db).1
  discard_draft-IsDecided i person id now db h = elim (discard_draft-decides ext person id now db) [
    | inl q ↦ rw q h
    | inr q ↦ rw q (decide_rows-decided i id discarded false now db.drafts refl h)
  ]

  step-IsDecided :
      (now : Time) (call : Call) (i : Ref) (db : Db B)
      → MakesOther i now call
      → IsDecided i db
      → IsDecided i (step ext c now call db)
  unfolding step sweep_drafts
  step-IsDecided now (creates_draft t author e) i db other h =
      create_draft-IsDecided i t author e now db other h
  step-IsDecided now (releases_draft p d edited) i db other h =
      Delivers-IsDecided i db _ (release_draft-Delivers ext p d edited now db) h
  step-IsDecided now (releases_via_grant d p) i db other h =
      Delivers-IsDecided i db _ (release_via_grant-Delivers ext d p now db) h
  step-IsDecided now (discards_draft p d) i db other h = discard_draft-IsDecided i p d now db h
  step-IsDecided now sweeps_drafts i db other h = exists-delete-false _ _ db.drafts h
  step-IsDecided now call i db other h =
      subst (λ ds. exists (is_pending i) ds ≡ false) (sym (step-drafts ext c now call db tt)) h

  pub run-IsDecided :
      (calls : List (Time × Call)) (i : Ref) (db : Db B)
      → Each (MakesOther i) calls
      → IsDecided i db
      → IsDecided i (run ext c calls db)
  unfolding run
  run-IsDecided [] i db other h = h
  run-IsDecided ((now, call) ∷ calls) i db other h =
      run-IsDecided calls i (step ext c now call db) other.1
        (step-IsDecided now call i db other.0 h)
