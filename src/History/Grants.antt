-- ===== src/History/Grants.antt =====
-- Standing grants: `SetThreadGrant` and `RevokeThreadGrant` of internal/relay/store/approval.go
-- against every later call.
use askrelay.Base.{
  ◌≤◌, Ref, no_id, Time, unix, none, some, sym, inl, inr, ◌⊎◌, Bool-cases, true, false, List, [],
  ◌∷◌, ◌≡◌, refl, ◌==◌, ◌&&◌, arith, ok,
}
use mathlib.Core.Path.{subst}
use askrelay.Base.Table.{exists, find, update, affected}
use askrelay.Gate.{Direction, inbound, outbound, same_direction, other_direction}
use askrelay.Envelope.{External, Envelope, decode}
use askrelay.Store.{
  Db, Draft, load_draft, release_if_granted, GrantRow, is_active_on, is_active_outbound, new_grant,
  set_thread_grant, revoke_thread_grant, approve_inbound_via_grant, release_reply_via_grant,
  release_via_grant_tx,
}
use askrelay.History.{Call, Settings, step, run, Each, sets_grant, revokes_grant}
use askrelay.History.Frame.{step-grants}
use askrelay.History.Rows.{exists-update-false, exists-update-all, exists_mono, affected-zero}

-- The person has no standing grant on the thread in this direction.
abbrev pub HasNoGrant : {B : Type 0} → Ref → Ref → Direction → Db B → Type 0
HasNoGrant t p dir db = exists (is_active_on t p dir) db.grants ≡ false

-- The call gives no such grant.
abbrev pub GrantsOther : Ref → Ref → Direction → Time → Call → Type 0
GrantsOther t p dir now (sets_grant t' p' dir' id) =
    (t' == t && p' == p && same_direction dir' dir) ≡ false
GrantsOther t p dir now call = Unit

abbrev spend : Time → GrantRow → GrantRow
spend now g = record g { revoked_at = some (unix now) }

-- The table holds one active grant at most for a thread, a person and a direction.
abbrev pub GrantsUnique : {B : Type 0} → Db B → Type 0
GrantsUnique db = (t p : Ref) (dir : Direction) → affected (is_active_on t p dir) db.grants ≤ 1

same_direction-eq : (a b : Direction) → same_direction a b ≡ true → a ≡ b
same_direction-eq inbound inbound h = refl
same_direction-eq outbound outbound h = refl
same_direction-eq (other_direction a) (other_direction b) h = ground arith
same_direction-eq _ _ h = absurd (ground arith)

rows_match :
    (t p t' p' : Ref) (dir dir' : Direction) (now : Time) (id : Ref) (gs : List GrantRow)
    → is_active_on t p dir (new_grant t' p' dir' now id) ≡ true
    → exists (is_active_on t' p' dir') gs ≡ false
    → exists (is_active_on t p dir) gs ≡ false
rows_match t p t' p' dir dir' now id gs e h =
    let same = same_direction-eq dir' dir (ground arith) in
    let k : (t' ≡ t) × (p' ≡ p) = (ground arith, ground arith) in rw (sym same, sym k.0, sym k.1) h

module _ {B : Type 0} (ext : External B) (c : Settings) where
  set_thread_grant-grants :
      (t p : Ref) (dir : Direction) (now : Time) (id : Ref) (db : Db B)
      → ((set_thread_grant t p dir now id db).1.grants ≡ db.grants)
        ⊎ (((set_thread_grant t p dir now id db).1.grants ≡ new_grant t p dir now id ∷ db.grants)
            × HasNoGrant t p dir db)
  unfolding set_thread_grant
  set_thread_grant-grants t p dir now id db = ground arith

  revoke_thread_grant-grants :
      (t p : Ref) (dir : Direction) (now : Time) (db : Db B)
      → ((revoke_thread_grant t p dir now db).1.grants ≡ db.grants)
        ⊎ ((revoke_thread_grant t p dir now db).1.grants
            ≡ update (is_active_on t p dir) (spend now) db.grants)
  unfolding revoke_thread_grant
  revoke_thread_grant-grants t p dir now db = ground arith

  step-HasNoGrant :
      (now : Time) (call : Call) (t p : Ref) (dir : Direction) (db : Db B)
      → GrantsOther t p dir now call
      → HasNoGrant t p dir db
      → HasNoGrant t p dir (step ext c now call db)
  unfolding step
  step-HasNoGrant now (sets_grant t' p' dir' id) t p dir db other h =
      elim (set_thread_grant-grants t' p' dir' now id db) [
        | inl q ↦ rw q h
        | inr (q, _) ↦ rw q (ground arith)
      ]
  step-HasNoGrant now (revokes_grant t' p' dir') t p dir db other h =
      elim (revoke_thread_grant-grants t' p' dir' now db) [
        | inl q ↦ rw q h
        | inr q ↦ rw q (
            exists-update-false (is_active_on t p dir) (is_active_on t' p' dir') (spend now)
              db.grants (λ a m. ground arith) h)
      ]
  step-HasNoGrant now call t p dir db other h =
      subst (λ gs. exists (is_active_on t p dir) gs ≡ false)
        (sym (step-grants ext c now call db tt)) h

  run-HasNoGrant :
      (calls : List (Time × Call)) (t p : Ref) (dir : Direction) (db : Db B)
      → Each (GrantsOther t p dir) calls
      → HasNoGrant t p dir db
      → HasNoGrant t p dir (run ext c calls db)
  unfolding run
  run-HasNoGrant [] t p dir db other h = h
  run-HasNoGrant ((now, call) ∷ calls) t p dir db other h =
      run-HasNoGrant calls t p dir (step ext c now call db) other.1
        (step-HasNoGrant now call t p dir db other.0 h)

  revoke-HasNoGrant :
      (t p : Ref) (dir : Direction) (now : Time) (db : Db B)
      → (revoke_thread_grant t p dir now db).0 ≡ ok tt
      → HasNoGrant t p dir (revoke_thread_grant t p dir now db).1
  unfolding revoke_thread_grant
  revoke-HasNoGrant t p dir now db h =
      let cleared =
        exists-update-all (is_active_on t p dir) (spend now) db.grants (λ g m. ground arith) in
      ground (arith, cleared)

  ungranted-approval :
      (t p message : Ref) (now : Time) (db : Db B)
      → HasNoGrant t p inbound db
      → approve_inbound_via_grant t p message now db ≡ (ok false, db)
  unfolding approve_inbound_via_grant
  ungranted-approval t p message now db h = ground arith

  -- Behind a revocation of a person's inbound grant on a thread that returned no error,
  -- `approve_inbound_via_grant` decides nothing there for that person and leaves the database as
  -- it is, whatever calls are made between, as long as none of them gives that grant again.
  pub revoked_inbound_grant :
      (t p message : Ref) (first last : Time) (calls : List (Time × Call)) (db : Db B)
      → (revoke_thread_grant t p inbound first db).0 ≡ ok tt
      → Each (GrantsOther t p inbound) calls
      → let after = run ext c calls (revoke_thread_grant t p inbound first db).1 in
        approve_inbound_via_grant t p message last after ≡ (ok false, after)
  revoked_inbound_grant t p message first last calls db h other =
      ungranted-approval t p message last _
        (run-HasNoGrant calls t p inbound _ other (revoke-HasNoGrant t p inbound first db h))

  ungranted-release :
      (t p i : Ref) (now : Time) (db : Db B) (row : Draft B) (stored : Envelope)
      → HasNoGrant t p outbound db
      → find (λ d. d.id == i) db.drafts ≡ some row
      → decode ext row.envelope ≡ ok stored
      → row.thread_id ≡ t
      → release_reply_via_grant ext i p now db ≡ (ok (no_id, none), db)
  unfolding release_reply_via_grant release_via_grant_tx load_draft release_if_granted
  ungranted-release t p i now db row stored h f g same =
      let weaker =
        exists_mono (is_active_outbound t p) (is_active_on t p outbound) db.grants
          (λ a m. ground arith) in
      elim (Bool-cases (exists (is_active_outbound t p) db.grants)) [
        | inl e ↦ absurd (ground (arith, weaker e))
        | inr e ↦ ground arith
      ]

  -- Behind a revocation of a person's outbound grant on a thread that returned no error,
  -- `release_reply_via_grant` releases no draft of that thread for that person: it returns no
  -- release and no error and leaves the database as it is, whatever calls are made between, as
  -- long as none of them gives that grant again. The draft is any whose envelope decodes.
  pub revoked_outbound_grant :
      (t p i : Ref) (first last : Time) (calls : List (Time × Call)) (db : Db B) (row : Draft B)
      (stored : Envelope)
      → (revoke_thread_grant t p outbound first db).0 ≡ ok tt
      → Each (GrantsOther t p outbound) calls
      → find (λ d. d.id == i) (run ext c calls (revoke_thread_grant t p outbound first db).1).drafts
        ≡ some row
      → decode ext row.envelope ≡ ok stored
      → row.thread_id ≡ t
      → let after = run ext c calls (revoke_thread_grant t p outbound first db).1 in
        release_reply_via_grant ext i p last after ≡ (ok (no_id, none), after)
  revoked_outbound_grant t p i first last calls db row stored h other f g same =
      ungranted-release t p i last _ row stored
        (run-HasNoGrant calls t p outbound _ other (revoke-HasNoGrant t p outbound first db h)) f g
        same

  affected-spent :
      (t p t' p' : Ref) (dir dir' : Direction) (now : Time) (gs : List GrantRow)
      → affected (is_active_on t p dir) (update (is_active_on t' p' dir') (spend now) gs)
        ≤ affected (is_active_on t p dir) gs
  affected-spent t p t' p' dir dir' now [] = ground arith
  affected-spent t p t' p' dir dir' now (g ∷ gs) =
      ground (arith, affected-spent t p t' p' dir dir' now gs)

  -- Every call keeps to one active grant at most for a thread, a person and a direction.
  pub step-GrantsUnique :
      (now : Time) (call : Call) (db : Db B)
      → GrantsUnique db
      → GrantsUnique (step ext c now call db)
  unfolding step
  step-GrantsUnique now (sets_grant t' p' dir' id) db h t p dir =
      elim (set_thread_grant-grants t' p' dir' now id db) [
        | inl q ↦ rw q (h t p dir)
        | inr (q, empty) ↦
            rw q (elim (Bool-cases (is_active_on t p dir (new_grant t' p' dir' now id))) [
              | inl e ↦
                  let m = rows_match t p t' p' dir dir' now id db.grants e empty in
                  ground (arith, affected-zero (is_active_on t p dir) db.grants m)
              | inr e ↦ ground (arith, h t p dir)
            ])
      ]
  step-GrantsUnique now (revokes_grant t' p' dir') db h t p dir =
      elim (revoke_thread_grant-grants t' p' dir' now db) [
        | inl q ↦ rw q (h t p dir)
        | inr q ↦ rw q (ground (arith, affected-spent t p t' p' dir dir' now db.grants, h t p dir))
      ]
  step-GrantsUnique now call db h t p dir =
      subst (λ gs. affected (is_active_on t p dir) gs ≤ 1) (sym (step-grants ext c now call db tt))
        (h t p dir)
