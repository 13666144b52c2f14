-- ===== src/History/Tokens.antt =====
-- Refresh tokens: `ConsumeRefreshToken` of internal/relay/store/oauth.go, its rotation and its
-- answer to a token that comes back, against every later call.
use askrelay.Base.{
  ◌≤◌, Ref, Time, unix, some, sym, inl, inr, ◌⊎◌, Bool, Bool-cases, Option-cases, false, List, [],
  ◌∷◌, ◌≡◌, ◌==◌, leb, ◌&&◌, arith,
}
use mathlib.Core.Path.{subst}
use askrelay.Base.Table.{exists, find, update, affected, delete}
use askrelay.Envelope.{External}
use askrelay.Store.{
  Db, RefreshGrant, RefreshRow, is_live_token, is_spent_token, is_family, create_refresh_token,
  consume_refresh_token, sweep_oauth,
}
use askrelay.History.{Call, Settings, step, creates_token, consumes_token, sweeps_oauth}
use askrelay.History.Frame.{step-refresh_tokens}
use askrelay.History.Rows.{exists-update-false, exists-delete-false, affected-zero}

-- The row is of this person and this client.
abbrev pub is_of : Ref → Ref → RefreshGrant → Bool
is_of person client g = g.person_id == person && g.client_id == client

-- No row of the family is unspent.
abbrev pub IsDead : {B : Type 0} → Ref → Ref → Db B → Type 0
IsDead person client db = exists (is_family person client) db.refresh_tokens ≡ false

-- The call issues no token for this person and client.
abbrev pub IssuesElse : Ref → Ref → Time → Call → Type 0
IssuesElse person client now (creates_token token g expires) = is_of person client g ≡ false
IssuesElse person client now call = Unit

-- The primary key: one row at most for a hash.
abbrev pub TokensUnique : {B : Type 0} → Db B → Type 0
TokensUnique db = (hash : Ref) → affected (λ t. t.token_hash == hash) db.refresh_tokens ≤ 1

abbrev pub spend : Time → RefreshRow → RefreshRow
spend now t = record t { consumed_at = some (unix now) }

affected-spent :
    (hash : Ref) (p : RefreshRow → Bool) (now : Time) (ts : List RefreshRow)
    → affected (λ t. t.token_hash == hash) (update p (spend now) ts)
      ≤ affected (λ t. t.token_hash == hash) ts
affected-spent hash p now [] = ground arith
affected-spent hash p now (t ∷ ts) = ground (arith, affected-spent hash p now ts)

affected-delete :
    (hash : Ref) (p : RefreshRow → Bool) (ts : List RefreshRow)
    → affected (λ t. t.token_hash == hash) (delete p ts) ≤ affected (λ t. t.token_hash == hash) ts
affected-delete hash p [] = ground arith
affected-delete hash p (t ∷ ts) = ground (arith, affected-delete hash p ts)

spent_dead :
    (now : Time) (p cl : Ref) (q : RefreshRow → Bool) (ts : List RefreshRow)
    → exists (is_family p cl) ts ≡ false
    → exists (is_family p cl) (update q (spend now) ts) ≡ false
spent_dead now p cl q ts h =
    exists-update-false (is_family p cl) q (spend now) ts (λ a m. ground arith) h

module _ {B : Type 0} (ext : External B) (c : Settings) where
  -- What a use of a token does to the table: live rows of the hash are spent, and then perhaps
  -- a family.
  pub consume_refresh_token-rows :
      (token : Ref) (now : Time) (db : Db B)
      → let used =
          update (is_live_token (ext.sha256 token) (unix now)) (spend now) db.refresh_tokens in
        let after = (consume_refresh_token ext token now db).1.refresh_tokens in
        (after ≡ db.refresh_tokens)
        ⊎ ((after ≡ used)
            ⊎ ((p : Ref) × (cl : Ref) × (after ≡ update (is_family p cl) (spend now) used)))
  unfolding consume_refresh_token
  consume_refresh_token-rows token now db =
      let hash = ext.sha256 token in
      elim (Bool-cases (affected (is_live_token hash (unix now)) db.refresh_tokens == 1)) [
        | inl one ↦ ground arith
        | inr other ↦
            elim (Option-cases (
              find (is_spent_token hash)
                (update (is_live_token hash (unix now)) (spend now) db.refresh_tokens))) [
                  | inl f ↦ ground arith
                  | inr (t, f) ↦ inr (inr (t.binding.person_id, t.binding.client_id, ground arith))
                ]
      ]

  pub step-TokensUnique :
      (now : Time) (call : Call) (db : Db B)
      → TokensUnique db
      → TokensUnique (step ext c now call db)
  unfolding step create_refresh_token sweep_oauth
  step-TokensUnique now (creates_token token g expires) db h hash =
      let fresh = affected-zero (λ t. t.token_hash == hash) db.refresh_tokens in
      ground (arith, h hash, fresh)
  step-TokensUnique now (consumes_token token) db h hash =
      elim (consume_refresh_token-rows token now db) [
        | inl q ↦ rw q (h hash)
        | inr (inl q) ↦ rw q (
            ground (
              arith,
              affected-spent hash (is_live_token (ext.sha256 token) (unix now)) now
                  db.refresh_tokens,
              h hash,
            ))
        | inr (inr (p, cl, q)) ↦ rw q (
            ground (
              arith,
              affected-spent hash (is_live_token (ext.sha256 token) (unix now)) now
                  db.refresh_tokens,
              affected-spent hash (is_family p cl) now (
                  update (is_live_token (ext.sha256 token) (unix now)) (spend now)
                    db.refresh_tokens),
              h hash,
            ))
      ]
  step-TokensUnique now sweeps_oauth db h hash =
      ground
        (arith, affected-delete hash (λ t. leb t.expires_at (unix now)) db.refresh_tokens, h hash)
  step-TokensUnique now call db h hash =
      subst (λ ts. affected (λ t. t.token_hash == hash) ts ≤ 1)
        (sym (step-refresh_tokens ext c now call db tt)) (h hash)

  pub step-IsDead :
      (now : Time) (call : Call) (p cl : Ref) (db : Db B)
      → IssuesElse p cl now call
      → IsDead p cl db
      → IsDead p cl (step ext c now call db)
  unfolding step create_refresh_token sweep_oauth
  step-IsDead now (creates_token token g expires) p cl db other h = ground arith
  step-IsDead now (consumes_token token) p cl db other h =
      elim (consume_refresh_token-rows token now db) [
        | inl q ↦ rw q h
        | inr (inl q) ↦ rw q (spent_dead now p cl _ db.refresh_tokens h)
        | inr (inr (p', cl', q)) ↦
            rw q (spent_dead now p cl _ _ (spent_dead now p cl _ db.refresh_tokens h))
      ]
  step-IsDead now sweeps_oauth p cl db other h = exists-delete-false _ _ db.refresh_tokens h
  step-IsDead now call p cl db other h =
      subst (λ ts. exists (is_family p cl) ts ≡ false)
        (sym (step-refresh_tokens ext c now call db tt)) h
