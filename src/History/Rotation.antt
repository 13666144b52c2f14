-- ===== src/History/Rotation.antt =====
-- Rotation and reuse of refresh tokens: histories behind `ConsumeRefreshToken` of
-- internal/relay/store/oauth.go.
mod Live
use Live.{spent_used, spent_not_live, dead_not_live}
use askrelay.Base.{
  ℕ, ◌≤◌, Ref, Time, unix, unix_mono, some, sym, inl, inr, ◌⊎◌, Bool, Bool-cases, Option-cases,
  true, false, List, [], ◌∷◌, ◌≡◌, refl, ◌==◌, arith, ok, err,
}
use mathlib.Core.Path.{subst}
use askrelay.Base.Table.{exists, find, update, affected}
use askrelay.Envelope.{External}
use askrelay.Store.{
  Db, RefreshGrant, RefreshRow, is_live_token, is_spent_token, is_family, create_refresh_token,
  consume_refresh_token, refresh_invalid, refresh_reused, sweep_oauth,
}
use askrelay.History.{Call, Settings, step, run, Each, creates_token, consumes_token, sweeps_oauth}
use askrelay.History.Frame.{step-refresh_tokens}
use askrelay.History.Rows.{
  exists-update-false, exists-update-clears, exists-update-all, exists-delete-false, affected-zero,
  find-none, update-none, affected-none, exists-weaker,
}
use askrelay.History.Tokens.{
  is_of, IsDead, IssuesElse, TokensUnique, step-TokensUnique, step-IsDead, spend,
  consume_refresh_token-rows,
}

-- No row of the hash is unspent and unexpired at a time.
abbrev pub IsUsed : {B : Type 0} → Ref → ℕ → Db B → Type 0
IsUsed hash at db = exists (is_live_token hash at) db.refresh_tokens ≡ false

-- The call issues no token of this hash.
abbrev pub IssuesHashElse : {B : Type 0} → External B → Ref → Time → Call → Type 0
IssuesHashElse ext hash now (creates_token token g expires) = (ext.sha256 token == hash) ≡ false
IssuesHashElse ext hash now call = Unit

module _ {B : Type 0} (ext : External B) (c : Settings) where
  run-TokensUnique :
      (calls : List (Time × Call)) (db : Db B) → TokensUnique db → TokensUnique (run ext c calls db)
  unfolding run
  run-TokensUnique [] db h = h
  run-TokensUnique ((now, call) ∷ calls) db h =
      run-TokensUnique calls (step ext c now call db) (step-TokensUnique ext c now call db h)

  run-IsDead :
      (calls : List (Time × Call)) (p cl : Ref) (db : Db B)
      → Each (IssuesElse p cl) calls
      → IsDead p cl db
      → IsDead p cl (run ext c calls db)
  unfolding run
  run-IsDead [] p cl db other h = h
  run-IsDead ((now, call) ∷ calls) p cl db other h =
      run-IsDead calls p cl (step ext c now call db) other.1
        (step-IsDead ext c now call p cl db other.0 h)

  step-IsUsed :
      (now : Time) (call : Call) (hash : Ref) (at : ℕ) (db : Db B)
      → IssuesHashElse ext hash now call
      → IsUsed hash at db
      → IsUsed hash at (step ext c now call db)
  unfolding step create_refresh_token sweep_oauth
  step-IsUsed now (creates_token token g expires) hash at db other h = ground arith
  step-IsUsed now (consumes_token token) hash at db other h =
      elim (consume_refresh_token-rows ext c token now db) [
        | inl q ↦ rw q h
        | inr (inl q) ↦ rw q (spent_used now hash at _ db.refresh_tokens h)
        | inr (inr (p, cl, q)) ↦
            rw q (spent_used now hash at _ _ (spent_used now hash at _ db.refresh_tokens h))
      ]
  step-IsUsed now sweeps_oauth hash at db other h = exists-delete-false _ _ db.refresh_tokens h
  step-IsUsed now call hash at db other h =
      subst (λ ts. exists (is_live_token hash at) ts ≡ false)
        (sym (step-refresh_tokens ext c now call db tt)) h

  run-IsUsed :
      (calls : List (Time × Call)) (hash : Ref) (at : ℕ) (db : Db B)
      → Each (IssuesHashElse ext hash) calls
      → IsUsed hash at db
      → IsUsed hash at (run ext c calls db)
  unfolding run
  run-IsUsed [] hash at db other h = h
  run-IsUsed ((now, call) ∷ calls) hash at db other h =
      run-IsUsed calls hash at (step ext c now call db) other.1
        (step-IsUsed now call hash at db other.0 h)

  consume-IsUsed :
      (token : Ref) (first last : Time) (g : RefreshGrant) (db : Db B)
      → (consume_refresh_token ext token first db).0 ≡ ok g
      → first ≤ last
      → IsUsed (ext.sha256 token) (unix last) (consume_refresh_token ext token first db).1
  unfolding consume_refresh_token
  consume-IsUsed token first last g db h le =
      let order = unix_mono first last le in
      let hash = ext.sha256 token in
      let q =
        exists-update-clears (is_live_token hash (unix last)) (is_live_token hash (unix first))
          (spend first) db.refresh_tokens (λ a m. ground arith) (λ a. ground arith) in
      elim (Bool-cases (affected (is_live_token hash (unix first)) db.refresh_tokens == 1)) [
        | inl one ↦ ground (arith, q)
        | inr other ↦
            elim (Option-cases (
              find (is_spent_token hash)
                (update (is_live_token hash (unix first)) (spend first) db.refresh_tokens))) [
                  | inl f ↦ absurd (ground arith)
                  | inr (t, f) ↦ absurd (ground arith)
                ]
      ]

  used-refused :
      (token : Ref) (now : Time) (db : Db B)
      → IsUsed (ext.sha256 token) (unix now) db
      → let r = (consume_refresh_token ext token now db).0 in
        (r ≡ err refresh_reused) ⊎ (r ≡ err refresh_invalid)
  unfolding consume_refresh_token
  used-refused token now db h =
      let hash = ext.sha256 token in
      let empty = affected-zero (is_live_token hash (unix now)) db.refresh_tokens h in
      elim (Option-cases (
        find (is_spent_token hash)
          (update (is_live_token hash (unix now)) (spend now) db.refresh_tokens))) [
            | inl f ↦ ground arith
            | inr (t, f) ↦ ground arith
          ]

  -- A refresh token is rotated once: behind a `consume_refresh_token` that returned its binding,
  -- another one of the same token ends in `refresh_reused` or `refresh_invalid`, whatever calls
  -- are made between the two, as long as the clock does not run back and no call issues a token
  -- of the same hash.
  pub rotated_once :
      (token : Ref) (first last : Time) (g : RefreshGrant) (calls : List (Time × Call)) (db : Db B)
      → (consume_refresh_token ext token first db).0 ≡ ok g
      → first ≤ last
      → Each (IssuesHashElse ext (ext.sha256 token)) calls
      → let after = run ext c calls (consume_refresh_token ext token first db).1 in
        let r = (consume_refresh_token ext token last after).0 in
        (r ≡ err refresh_reused) ⊎ (r ≡ err refresh_invalid)
  rotated_once token first last g calls db h le other = used-refused token last _ (
      run-IsUsed calls (ext.sha256 token) (unix last) _ other
        (consume-IsUsed token first last g db h le))

  reuse-IsDead :
      (token : Ref) (now : Time) (row : RefreshRow) (db : Db B)
      → TokensUnique db
      → find (is_spent_token (ext.sha256 token)) db.refresh_tokens ≡ some row
      → ((consume_refresh_token ext token now db).0 ≡ err refresh_reused)
        × IsDead row.binding.person_id row.binding.client_id
            (consume_refresh_token ext token now db).1
  unfolding consume_refresh_token
  reuse-IsDead token now row db one f =
      let hash = ext.sha256 token in
      let live = spent_not_live hash (unix now) db.refresh_tokens row (one hash) f in
      let same = update-none (is_live_token hash (unix now)) (spend now) db.refresh_tokens live in
      let empty = affected-zero (is_live_token hash (unix now)) db.refresh_tokens live in
      let dead =
        exists-update-all (is_family row.binding.person_id row.binding.client_id) (spend now)
          db.refresh_tokens (λ a m. ground arith) in
      let stays = subst (λ ts. find (is_spent_token hash) ts ≡ some row) (sym same) f in
      let clears =
        subst
          (λ ts.
            exists (is_family row.binding.person_id row.binding.client_id)
              (update (is_family row.binding.person_id row.binding.client_id) (spend now) ts)
            ≡ false)
          (sym same) dead in
      (ground (arith, empty, stays), ground (arith, empty, stays, clears))

  reuse-TokensUnique :
      (token : Ref) (now : Time) (db : Db B)
      → TokensUnique db
      → TokensUnique (consume_refresh_token ext token now db).1
  unfolding step
  reuse-TokensUnique token now db one = step-TokensUnique ext c now (consumes_token token) db one

  -- A spent refresh token that comes back ends in `refresh_reused` and takes its family with it:
  -- behind it any token that is stored for the same person and client ends in `refresh_reused` or
  -- `refresh_invalid`, whatever calls are made between, as long as none of them issues a token
  -- for that person and client. The table is one in which a hash is a key.
  pub reuse_revokes_family :
      (token again : Ref) (first last : Time) (row other_row : RefreshRow)
      (calls : List (Time × Call)) (db : Db B)
      → TokensUnique db
      → find (is_spent_token (ext.sha256 token)) db.refresh_tokens ≡ some row
      → Each (IssuesElse row.binding.person_id row.binding.client_id) calls
      → find
          (λ t. t.token_hash == ext.sha256 again)
          (run ext c calls (consume_refresh_token ext token first db).1).refresh_tokens
        ≡ some other_row
      → is_of row.binding.person_id row.binding.client_id other_row.binding ≡ true
      → let first_use = consume_refresh_token ext token first db in
        let later_use = consume_refresh_token ext again last (run ext c calls first_use.1) in
        (first_use.0 ≡ err refresh_reused)
        × ((later_use.0 ≡ err refresh_reused) ⊎ (later_use.0 ≡ err refresh_invalid))
  reuse_revokes_family token again first last row other_row calls db one f other g same =
      let (spent, dead) = reuse-IsDead token first row db one f in
      let after = run ext c calls (consume_refresh_token ext token first db).1 in
      let key =
        run-TokensUnique calls _ (reuse-TokensUnique token first db one) (ext.sha256 again) in
      (
        spent,
        used-refused again last after (
            dead_not_live (ext.sha256 again) (unix last) row.binding.person_id row.binding.client_id
              after.refresh_tokens other_row key g same (run-IsDead calls _ _ _ other dead)),
      )
