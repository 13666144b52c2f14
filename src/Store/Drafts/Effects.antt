-- ===== src/Store/Drafts/Effects.antt =====
-- What a release of a draft, by its author or by a grant, and a discard do to the database:
-- internal/relay/store/draft.go.
mod Steps
pub use Steps.{edited_payload, edit_rows, decide_rows, Released}
use Steps.{
  load_draft-eq-ok, apply_edit-eq-ok, approved-Delivers, granted-Delivers, minted_release, Delivers,
  deliver_in_tx-eq-ok,
}
use askrelay.Base.{
  Ref, Time, Text, unix, ◌≡◌, inl, inr, Option, none, some, Bool, true, false, List, ok, arith,
  Option-cases, Result-cases, ◌==◌, ◌⊎◌, [], ◌∷◌, Bool-cases, refl,
}
use askrelay.Base.Table.{find, exists, update}
use askrelay.Gate.{
  Release, Direction, inbound, outbound, other_direction, is_outbound, DraftState, pending_review,
  sent, discarded, apply_outbound, apply_outbound_grant,
}
use askrelay.Envelope.{External, Envelope, decode}
use askrelay.Store.Schema.{Db, Draft, GrantRow, is_null, >>=-eq-ok, ◌>>=◌}
use askrelay.Store.Message.{ingest_tx}
use askrelay.Store.Message.Ingest.{ingested, ingest_tx-ingested}
use askrelay.Store.Drafts.{
  load_draft, apply_edit, deliver_in_tx, deliver_decided, release_approved, release_loaded,
  release_if_granted, is_active_outbound, release_draft_tx, release_granted, release_via_grant_tx,
  discard_loaded, with_text,
}

-- One of the grants is this person's, for what goes out on this thread, and is not revoked.
abbrev pub HoldsOutbound : Ref → Ref → List GrantRow → Type 0
HoldsOutbound thread person [] = ⊥
HoldsOutbound thread person (g ∷ gs) =
    ((g.thread_id ≡ thread)
      × (g.person_id ≡ person)
      × (g.direction ≡ outbound)
      × (g.revoked_at ≡ none))
    ⊎ HoldsOutbound thread person gs

is_outbound→eq : (d : Direction) → is_outbound d ≡ true → d ≡ outbound
is_outbound→eq outbound h = refl
is_outbound→eq inbound h = absurd (ground arith)
is_outbound→eq (other_direction n) h = absurd (ground arith)

is_null→eq : (o : Option Time) → is_null o ≡ true → o ≡ none
is_null→eq none h = refl
is_null→eq (some t) h = absurd (ground arith)

exists-HoldsOutbound :
    (thread person : Ref) (gs : List GrantRow)
    → exists (is_active_outbound thread person) gs ≡ true
    → HoldsOutbound thread person gs
exists-HoldsOutbound thread person [] h = absurd (ground arith)
exists-HoldsOutbound thread person (g ∷ gs) h =
    elim (Bool-cases (is_active_outbound thread person g)) [
      | inl this ↦ inl (
        ground arith,
        ground arith,
        is_outbound→eq g.direction (ground arith),
        is_null→eq g.revoked_at (ground arith),
      )
      | inr other ↦ inr (exists-HoldsOutbound thread person gs (ground arith))
    ]

module _ {B : Type 0} where
  loaded-Released :
      (ext : External B) (person id : Ref) (edited : Option Text) (now : Time) (d : Draft B)
      (stored : Envelope) (db db' : Db B) (r : Ref) (rel : Option (Release Envelope))
      → find (λ d. d.id == id) db.drafts ≡ some d
      → decode ext d.envelope ≡ ok stored
      → release_loaded ext person id edited now (d, stored) db ≡ ok ((r, rel), db')
      → Released ext id person edited false now db db' r rel
  unfolding release_loaded
  loaded-Released ext person id edited now d stored db db' r rel f g h =
      elim (Result-cases (apply_edit ext id edited stored db)) [
        | inl ((payload, mid), e) ↦
            let (edit, is_edit, p, q) = apply_edit-eq-ok ext id edited stored payload db mid e in
            let (pending, minted, to, (blob, m, after)) =
              approved-Delivers ext id d payload now mid db' r rel (ground arith) in
            record {
              row = d;
              stored = stored;
              edit = edit;
              blob = blob;
              found = f;
              decoded = g;
              rewritten = is_edit;
              owned = ground arith;
              pending = pending;
              minted = rw (← p) minted;
              addressed = rw (← p) to;
              marshalled = rw (← p) m;
              delivered = rw (← p) (ground arith);
            }
        | inr (_, e) ↦ absurd (ground arith)
      ]

  -- Where the transaction of `release_draft` returns no error, the draft was the caller's own and
  -- pending review; the release is of that draft, with the edited text if there is one, and not by
  -- a grant; and the database is the one before with the draft's envelope rewritten to the edited
  -- payload where there is an edited text and as it was where there is none, with the draft marked
  -- as sent and decided now, and with its payload ingested under the author's name, dated by the
  -- relay's clock.
  pub release_draft_tx-Released :
      (ext : External B) (person id : Ref) (edited : Option Text) (now : Time) (db db' : Db B)
      (r : Ref) (rel : Option (Release Envelope))
      → release_draft_tx ext person id edited now db ≡ ok ((r, rel), db')
      → Released ext id person edited false now db db' r rel
  unfolding release_draft_tx
  release_draft_tx-Released ext person id edited now db db' r rel h =
      elim (Result-cases (load_draft ext id db)) [
        | inl (((d, stored), mid), e) ↦
            let (f, g, q) = load_draft-eq-ok ext id db mid d stored e in
            loaded-Released ext person id edited now d stored db db' r rel f g (ground arith)
        | inr (_, e) ↦ absurd (ground arith)
      ]

  if_granted-Released :
      (ext : External B) (granter id : Ref) (now : Time) (d : Draft B) (stored : Envelope)
      (db db' : Db B) (r : Ref) (rel : Release Envelope)
      → find (λ d. d.id == id) db.drafts ≡ some d
      → decode ext d.envelope ≡ ok stored
      → release_if_granted ext id granter now (d, stored) db ≡ ok ((r, some rel), db')
      → Released ext id granter none true now db db' r (some rel)
        × (exists (is_active_outbound rel.thread granter) db.grants ≡ true)
  unfolding release_if_granted
  if_granted-Released ext granter id now d stored db db' r rel f g h =
      let (pending, minted, to, (blob, m, after)) =
        granted-Delivers ext id d stored now db db' r (some rel) (ground arith) in
      (
        record {
          row = d;
          stored = stored;
          edit = none;
          blob = blob;
          found = f;
          decoded = g;
          rewritten = refl;
          owned = ground arith;
          pending = pending;
          minted = minted;
          addressed = to;
          marshalled = m;
          delivered = ground arith;
        },
        ground arith,
      )

  -- What a release by a grant does, and the query that found the grant.
  pub release_via_grant_tx-granted :
      (ext : External B) (id granter : Ref) (now : Time) (db db' : Db B) (r : Ref)
      (rel : Release Envelope)
      → release_via_grant_tx ext id granter now db ≡ ok ((r, some rel), db')
      → Released ext id granter none true now db db' r (some rel)
        × (exists (is_active_outbound rel.thread granter) db.grants ≡ true)
  unfolding release_via_grant_tx
  release_via_grant_tx-granted ext id granter now db db' r rel h =
      elim (Result-cases (load_draft ext id db)) [
        | inl (((d, stored), mid), e) ↦
            let (f, g, q) = load_draft-eq-ok ext id db mid d stored e in
            if_granted-Released ext granter id now d stored db db' r rel f g (ground arith)
        | inr (_, e) ↦ absurd (ground arith)
      ]

  -- Where the transaction of `release_reply_via_grant` returns a release, the draft was the
  -- granter's own and pending review; the release is of that draft as it is stored and marked as
  -- by a grant; the database is the one before with the draft marked as sent, its envelope as it
  -- was, and its payload ingested; and the granter had an outbound grant on the thread of the
  -- release that is not revoked.
  pub release_via_grant_tx-Released :
      (ext : External B) (id granter : Ref) (now : Time) (db db' : Db B) (r : Ref)
      (rel : Release Envelope)
      → release_via_grant_tx ext id granter now db ≡ ok ((r, some rel), db')
      → Released ext id granter none true now db db' r (some rel)
        × HoldsOutbound rel.thread granter db.grants
  release_via_grant_tx-Released ext id granter now db db' r rel h =
      let (released, granted) = release_via_grant_tx-granted ext id granter now db db' r rel h in
      (released, exists-HoldsOutbound rel.thread granter db.grants granted)

  not_granted :
      (ext : External B) (id granter : Ref) (now : Time) (d : Draft B) (stored : Envelope)
      (db db' : Db B) (r : Ref)
      → release_if_granted ext id granter now (d, stored) db ≡ ok ((r, none), db')
      → db' ≡ db
  unfolding release_if_granted
  not_granted ext id granter now d stored db db' r h =
      elim (Result-cases (release_granted ext id d stored now db)) [
        | inl (((r', none), mid), e) ↦
            absurd (ground (arith, granted-Delivers ext id d stored now db mid r' none e))
        | inl (((r', some rel), mid), e) ↦ ground arith
        | inr (_, e) ↦ ground arith
      ]

  -- Where no release is made the database is as it was.
  pub release_via_grant_tx-none :
      (ext : External B) (id granter : Ref) (now : Time) (db db' : Db B) (r : Ref)
      → release_via_grant_tx ext id granter now db ≡ ok ((r, none), db')
      → db' ≡ db
  unfolding release_via_grant_tx release_if_granted
  release_via_grant_tx-none ext id granter now db db' r h =
      elim (Result-cases (load_draft ext id db)) [
        | inl (((d, stored), mid), e) ↦
            let (f, g, q) = load_draft-eq-ok ext id db mid d stored e in
            not_granted ext id granter now d stored db db' r (ground arith)
        | inr (_, e) ↦ absurd (ground arith)
      ]

  loaded-decided :
      (person id : Ref) (now : Time) (d : Draft B) (e : Envelope) (db db' : Db B)
      → discard_loaded person id now (d, e) db ≡ ok (tt, db')
      → (d.author_id ≡ person)
        × (d.state ≡ pending_review)
        × (db' ≡ record db { drafts = decide_rows id discarded false now db.drafts })
  unfolding discard_loaded apply_outbound
  loaded-decided person id now d e db db' h = ground arith

  -- A draft is discarded by its author, while it is pending, and nothing else changes.
  pub discard-decided :
      (ext : External B) (person id : Ref) (now : Time) (db db' : Db B)
      → (load_draft ext id >>= discard_loaded person id now) db ≡ ok (tt, db')
      → (d : Draft B) × (find (λ d. d.id == id) db.drafts ≡ some d)
        × (d.author_id ≡ person)
        × (d.state ≡ pending_review)
        × (db' ≡ record db { drafts = decide_rows id discarded false now db.drafts })
  discard-decided ext person id now db db' h = elim (Result-cases (load_draft ext id db)) [
    | inl (((d, stored), mid), e) ↦
        let (f, g, q) = load_draft-eq-ok ext id db mid d stored e in
        let (owned, pending, after) =
          loaded-decided person id now d stored mid db' (ground arith) in
        (d, f, owned, pending, ground arith)
    | inr (_, e) ↦ absurd (ground arith)
  ]
