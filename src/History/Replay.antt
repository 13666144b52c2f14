-- ===== src/History/Replay.antt =====
-- Replay.
use askrelay.Base.{
  ℕ, ◌∙◌, sym, ap, inl, inr, ◌⊎◌, Bool-cases, ◌≤◌, Ref, Time, Bool, true, ◌&&◌, List, [], ◌∷◌, unix,
  unix_mono, ◌≡◌, ◌==◌, arith, ok, err, ◌-◌,
}
use native.Mathlib.Nat.{le_trans}
use mathlib.Core.Path.{subst}
use askrelay.Base.Table.{exists}
use askrelay.Envelope.{External, Envelope}
use askrelay.Store.Message.Ingest.{ingest_tx-ingested}
use askrelay.Store.{
  Db, Tombstone, ingest_tx, write_tx, write_tx-ok, is_stale, replay, not_fresh, ingest_message,
  prune_tombstones,
}
use askrelay.History.{
  Call, Settings, step, run, InOrder, ingests, releases_draft, releases_via_grant,
  prunes_tombstones,
}
use askrelay.History.Frame.{step-tombstones}
use askrelay.History.Rows.{exists-delete-true, exists_mono}
use askrelay.History.Delivery.{
  Delivers, idle, lets_in, releases, ingest_message-Delivers, release_draft-Delivers,
  release_via_grant-Delivers,
}

InOrder-le :
    (from : Time) (calls : List (Time × Call)) (to : Time) → InOrder from calls to → from ≤ to
InOrder-le from [] to o = o
InOrder-le from ((now, call) ∷ calls) to o = omega (arith, InOrder-le now calls to o.1)

-- The tombstone of this id with this time is there.
abbrev is_tombstone : Ref → ℕ → Tombstone → Bool
is_tombstone id sent_at t = t.id == id && t.sent_at == sent_at

abbrev pub Remembers : {B : Type 0} → Ref → ℕ → Db B → Type 0
Remembers id sent_at db = exists (is_tombstone id sent_at) db.tombstones ≡ true

module _ {B : Type 0} (ext : External B) (c : Settings) where
  Delivers-Remembers :
      (id : Ref) (sent_at : ℕ) (db db' : Db B)
      → Delivers db db'
      → Remembers id sent_at db
      → Remembers id sent_at db'
  Delivers-Remembers id sent_at db db' (idle same) h = rw same h
  Delivers-Remembers id sent_at db db' (lets_in e sender now blob q) h = rw q (ground arith)
  Delivers-Remembers id sent_at db db' (releases e sender now blob d edit via q) h =
      rw q (ground arith)

  -- A call does not forget a tombstone whose time is in the freshness window.
  step-Remembers :
      (now : Time) (call : Call) (id : Ref) (sent_at : ℕ) (db : Db B)
      → unix (now - c.fresh.max_age) ≤ sent_at
      → Remembers id sent_at db
      → Remembers id sent_at (step ext c now call db)
  unfolding step prune_tombstones
  step-Remembers now (ingests e sender) id s db w h =
      Delivers-Remembers id s db _ (ingest_message-Delivers ext e sender c.fresh now db) h
  step-Remembers now (releases_draft p d edited) id s db w h =
      Delivers-Remembers id s db _ (release_draft-Delivers ext p d edited now db) h
  step-Remembers now (releases_via_grant d p) id s db w h =
      Delivers-Remembers id s db _ (release_via_grant-Delivers ext d p now db) h
  step-Remembers now prunes_tombstones id s db w h =
      exists-delete-true _ _ db.tombstones (λ t m. ground arith) h
  step-Remembers now call id s db w h =
      subst (λ ts. exists (is_tombstone id s) ts ≡ true)
        (sym (step-tombstones ext c now call db tt)) h

  run-Remembers :
      (calls : List (Time × Call)) (from to : Time) (id : Ref) (sent_at : ℕ) (db : Db B)
      → InOrder from calls to
      → unix (to - c.fresh.max_age) ≤ sent_at
      → Remembers id sent_at db
      → Remembers id sent_at (run ext c calls db)
  unfolding run
  run-Remembers [] from to id s db o w h = h
  run-Remembers ((now, call) ∷ calls) from to id s db o w h =
      run-Remembers calls now to id s (step ext c now call db) o.1 w (
        step-Remembers now call id s db
          (le_trans
            (unix_mono (now - c.fresh.max_age) (to - c.fresh.max_age)
              (omega (arith, InOrder-le now calls to o.1)))
            w)
          h)

  -- A remembered message is refused.
  remembered-refused :
      (e : Envelope) (sender : Ref) (now : Time) (sent_at : ℕ) (db : Db B)
      → Remembers e.id sent_at db
      → write_tx (ingest_tx ext e sender now) db ≡ (err replay, db)
  unfolding ingest_tx
  remembered-refused e sender now s db h = ground (
    arith,
    exists_mono (is_tombstone e.id s) (λ t. t.id == e.id) db.tombstones (λ t m. ground arith) h,
  )

  -- What the check of the clock lets through is in the window.
  remembered-ingest :
      (e : Envelope) (sender : Ref) (now : Time) (sent_at : ℕ) (db : Db B)
      → (unix (now - c.fresh.max_age) ≤ sent_at → Remembers e.id sent_at db)
      → unix e.sent_at ≤ sent_at
      → let r = (ingest_message ext e sender c.fresh now db).0 in
        (r ≡ err replay) ⊎ (r ≡ err not_fresh)
  unfolding ingest_message
  remembered-ingest e sender now s db known le = elim (Bool-cases (ext.is_uuid e.id)) [
    | inr bad ↦ inl (rw bad)
    | inl good ↦ elim (Bool-cases (is_stale c.fresh e.sent_at now)) [
      | inl old ↦ inr (rw (good, old))
      | inr new ↦ inl (
          rw (good, new)
            (ap (λ p. p.0)
              (remembered-refused e sender now s db (
                known (le_trans (unix_mono (now - c.fresh.max_age) e.sent_at (ground arith)) le)))))
    ]
  ]

  stored-Remembers :
      (e : Envelope) (sender : Ref) (now : Time) (db : Db B)
      → (write_tx (ingest_tx ext e sender now) db).0 ≡ ok tt
      → Remembers e.id (unix e.sent_at) (write_tx (ingest_tx ext e sender now) db).1
  stored-Remembers e sender now db h =
      let (db', m, after) = write_tx-ok (ingest_tx ext e sender now) db tt h in
      let (_, _, q) = ingest_tx-ingested ext e sender now db db' m in
      subst (λ d. exists (is_tombstone e.id (unix e.sent_at)) d.tombstones ≡ true) (sym (after ∙ q))
        (ground arith)

  ingested-Remembers :
      (e : Envelope) (sender : Ref) (now : Time) (db : Db B)
      → (ingest_message ext e sender c.fresh now db).0 ≡ ok tt
      → Remembers e.id (unix e.sent_at) (ingest_message ext e sender c.fresh now db).1
  unfolding ingest_message
  ingested-Remembers e sender now db h = elim (Bool-cases (ext.is_uuid e.id)) [
    | inr bad ↦ absurd (ground arith)
    | inl good ↦ elim (Bool-cases (is_stale c.fresh e.sent_at now)) [
      | inl old ↦ absurd (ground arith)
      | inr new ↦ rw (good, new) (stored-Remembers e sender now db (rw (good, new) at h))
    ]
  ]

  -- A message that was let in is never let in again, under its id and with the time that it was
  -- signed with (or an earlier one), whoever sends it: whatever calls were made since, in whatever
  -- order, the sweeper's among them, while the clock did not run back and the relay kept its
  -- settings. It is refused as a replay or as stale.
  pub ingest_once :
      (e e' : Envelope) (sender sender' : Ref) (first last : Time) (calls : List (Time × Call))
      (db : Db B)
      → (ingest_message ext e sender c.fresh first db).0 ≡ ok tt
      → InOrder first calls last
      → e'.id ≡ e.id
      → e'.sent_at ≤ e.sent_at
      → let db' = run ext c calls (ingest_message ext e sender c.fresh first db).1 in
        let r = (ingest_message ext e' sender' c.fresh last db').0 in
        (r ≡ err replay) ⊎ (r ≡ err not_fresh)
  ingest_once e e' sender sender' first last calls db h o same le =
      remembered-ingest e' sender' last (unix e.sent_at) _
        (λ w. rw same (
          run-Remembers calls first last e.id (unix e.sent_at) _ o w
            (ingested-Remembers e sender first db h)))
        (unix_mono e'.sent_at e.sent_at le)
