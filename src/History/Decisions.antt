-- ===== src/History/Decisions.antt =====
-- Verdicts on a draft: `ReleaseDraft`, `DiscardDraft` and `ReleaseReplyViaGrant` of
-- internal/relay/store/draft.go, and what comes after one of them.
use askrelay.Base.{
  Ref, Time, Text, Option, none, some, sym, ap, Bool, true, false, List, [], ◌∷◌, ◌≡◌, refl, ◌==◌,
  ◌&&◌, arith, ok,
}
use askrelay.Base.Table.{exists, find}
use askrelay.Gate.{is_pending_review, sent, discarded, Release}
use askrelay.Envelope.{External, Envelope}
use askrelay.Store.{
  Db, release_draft, release_draft_tx, discard_draft, discard_loaded, load_draft, ◌>>=◌,
  release_via_grant_tx, release_reply_via_grant, write_tx-ok,
}
use askrelay.Store.Drafts.Effects.{
  Released, edit_rows, release_draft_tx-Released, release_via_grant_tx-granted, discard-decided,
}
use askrelay.History.{Call, Settings, run, Each}
use askrelay.History.Drafts.{IsDecided, MakesOther, run-IsDecided, decide_rows-decides}

-- A method gave a verdict on the draft: it returned no error, and its transaction led from one
-- database to the other.
pub data Decides {B : Type 0} (ext : External B) (i : Ref) (now : Time) (db db' : Db B)
    : Type 0 where
  by_author :
      (person : Ref) (edited : Option Text) (r : Ref × Option (Release Envelope))
      → release_draft ext person i edited now db ≡ (ok r, db')
      → Decides ext i now db db'
  by_discard :
      (person : Ref) → discard_draft ext person i now db ≡ (ok tt, db') → Decides ext i now db db'
  by_grant :
      (granter r : Ref) (rel : Release Envelope)
      → release_reply_via_grant ext i granter now db ≡ (ok (r, some rel), db')
      → Decides ext i now db db'

find-exists :
    {A : Type 0} (p q : A → Bool) (rs : List A) (a : A)
    → find p rs ≡ some a
    → q a ≡ true
    → exists (λ r. p r && q r) rs ≡ true
find-exists p q [] a h m = absurd (ground arith)
find-exists p q (r ∷ rs) a h m = ground (arith, find-exists p q rs a)

module _ {B : Type 0} (ext : External B) (i : Ref) (now : Time) where
  -- The draft was pending, and it is decided.
  unfoldable Turns : Db B → Db B → Type 0
  Turns db db' =
      (exists (λ d. d.id == i && is_pending_review d.state) db.drafts ≡ true) × IsDecided i db'

  Released-Turns :
      (person : Ref) (edited : Option Text) (via : Bool) (db db' : Db B) (r : Ref)
      (rel : Option (Release Envelope))
      → Released ext i person edited via now db db' r rel
      → Turns db db'
  unfolding Turns
  Released-Turns person edited via db db' r rel q = (
    find-exists (λ d. d.id == i) (λ d. is_pending_review d.state) db.drafts q.row q.found
        (rw q.pending refl),
    rw q.delivered (decide_rows-decides i sent via now (edit_rows i q.edit db.drafts) refl),
  )

  Decides-Turns : (db db' : Db B) → Decides ext i now db db' → Turns db db'
  unfolding Turns release_draft discard_draft release_reply_via_grant
  Decides-Turns db db' (by_author person edited (r, rel) h) =
      let (mid, e, after) =
        write_tx-ok (release_draft_tx ext person i edited now) db (r, rel) (ap (λ o. o.0) h) in
      rw (sym (ap (λ o. o.1) h), after)
        (Released-Turns person edited false db mid r rel
          (release_draft_tx-Released ext person i edited now db mid r rel e))
  Decides-Turns db db' (by_discard person h) =
      let (mid, e, after) =
        write_tx-ok (load_draft ext i >>= discard_loaded person i now) db tt (ap (λ o. o.0) h) in
      let (d, f, _, pending, q) = discard-decided ext person i now db mid e in
      (
        find-exists (λ d. d.id == i) (λ d. is_pending_review d.state) db.drafts d f
            (rw pending refl),
        rw (sym (ap (λ o. o.1) h), after, q)
            (decide_rows-decides i discarded false now db.drafts refl),
      )
  Decides-Turns db db' (by_grant granter r rel h) =
      let (mid, e, after) =
        write_tx-ok (release_via_grant_tx ext i granter now) db (r, some rel) (ap (λ o. o.0) h) in
      rw (sym (ap (λ o. o.1) h), after)
        (Released-Turns granter none true db mid r (some rel)
          (release_via_grant_tx-granted ext i granter now db mid r rel e).0)

-- A draft is decided once: behind a verdict, of its author or by a standing grant, no release and
-- no discard of it goes through, whatever calls are made between the two, as long as none of them
-- creates a draft with the same id.
pub decided_once :
    {B : Type 0} (ext : External B) (c : Settings) (i : Ref) (first last : Time)
    (calls : List (Time × Call)) (db db' db'' : Db B)
    → Decides ext i first db db'
    → Each (MakesOther i) calls
    → ¬ Decides ext i last (run ext c calls db') db''
unfolding Turns
decided_once ext c i first last calls db db' db'' h other again =
    let done = run-IsDecided ext c calls i db' other (Decides-Turns ext i first db db' h).1 in
    ground (arith, done, (Decides-Turns ext i last (run ext c calls db') db'' again).0)
