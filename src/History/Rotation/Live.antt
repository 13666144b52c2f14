-- ===== src/History/Rotation/Live.antt =====
-- Live rows among the refresh tokens: the WHERE clauses of `ConsumeRefreshToken`,
-- internal/relay/store/oauth.go.
use askrelay.Base.{
  ℕ, ◌≤◌, Ref, Time, some, inl, inr, Bool, Bool-cases, true, false, List, [], ◌∷◌, ◌≡◌, refl, ◌==◌,
  arith,
}
use askrelay.Base.Table.{exists, find, update, affected}
use askrelay.Store.{RefreshRow, is_live_token, is_spent_token, is_family}
use askrelay.History.Rows.{exists-update-false, find-none, affected-none, exists-weaker}
use askrelay.History.Tokens.{is_of, spend}

pub spent_used :
    (now : Time) (hash : Ref) (at : ℕ) (q : RefreshRow → Bool) (ts : List RefreshRow)
    → exists (is_live_token hash at) ts ≡ false
    → exists (is_live_token hash at) (update q (spend now) ts) ≡ false
spent_used now hash at q ts h =
    exists-update-false (is_live_token hash at) q (spend now) ts (λ a m. ground arith) h

-- Rows of which one at most has the hash: a spent one leaves no room for a live one.
pub spent_not_live :
    (hash : Ref) (at : ℕ) (ts : List RefreshRow) (row : RefreshRow)
    → affected (λ t. t.token_hash == hash) ts ≤ 1
    → find (is_spent_token hash) ts ≡ some row
    → exists (is_live_token hash at) ts ≡ false
spent_not_live hash at [] row one f = refl
spent_not_live hash at (t ∷ ts) row one f = elim (Bool-cases (t.token_hash == hash)) [
  | inr other ↦ ground (arith, spent_not_live hash at ts row)
  | inl same ↦
      let alone = affected-none (λ r. r.token_hash == hash) ts (ground arith) in
      let live =
        exists-weaker (is_live_token hash at) (λ r. r.token_hash == hash) ts (λ a m. ground arith)
          alone in
      let spent = find-none (is_spent_token hash) ts (
        exists-weaker (is_spent_token hash) (λ r. r.token_hash == hash) ts (λ a m. ground arith)
          alone) in
      ground (arith, live, spent)
]

-- A row of a family that is spent is not live.
pub dead_not_live :
    (hash : Ref) (at : ℕ) (p cl : Ref) (ts : List RefreshRow) (row : RefreshRow)
    → affected (λ t. t.token_hash == hash) ts ≤ 1
    → find (λ t. t.token_hash == hash) ts ≡ some row
    → is_of p cl row.binding ≡ true
    → exists (is_family p cl) ts ≡ false
    → exists (is_live_token hash at) ts ≡ false
dead_not_live hash at p cl [] row one f same dead = refl
dead_not_live hash at p cl (t ∷ ts) row one f same dead = elim (Bool-cases (t.token_hash == hash)) [
  | inr other ↦ ground (arith, dead_not_live hash at p cl ts row)
  | inl hit ↦
      let alone = affected-none (λ r. r.token_hash == hash) ts (ground arith) in
      let live =
        exists-weaker (is_live_token hash at) (λ r. r.token_hash == hash) ts (λ a m. ground arith)
          alone in
      ground (arith, live)
]
