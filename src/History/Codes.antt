-- ===== src/History/Codes.antt =====
-- Authorization codes: `ConsumeAuthCode` of internal/relay/store/oauth.go against every later call.
use askrelay.Base.{
  ℕ, ◌≤◌, Ref, Time, unix, unix_mono, some, sym, false, List, [], ◌∷◌, ◌≡◌, ◌==◌, arith, ok, err,
}
use mathlib.Core.Path.{subst}
use askrelay.Base.Table.{exists}
use askrelay.Envelope.{External}
use askrelay.Store.{
  Db, CodeRow, is_live_code, create_auth_code, auth_code_by_code, consume_auth_code, code_invalid,
  sweep_oauth,
}
use askrelay.History.{Call, Settings, step, run, Each, creates_code, consumes_code, sweeps_oauth}
use askrelay.History.Frame.{step-codes}
use askrelay.History.Rows.{
  exists-update-false, exists-update-clears, exists-delete-false, affected-zero, find-none,
}

-- No row of this hash is unspent and unexpired at a time, nor at any later time.
abbrev pub IsSpent : {B : Type 0} → Ref → ℕ → Db B → Type 0
IsSpent hash at db = exists (is_live_code hash at) db.codes ≡ false

-- The call issues no code of this hash.
abbrev pub IssuesOther : {B : Type 0} → External B → Ref → Time → Call → Type 0
IssuesOther ext hash now (creates_code code b expires) = (ext.sha256 code == hash) ≡ false
IssuesOther ext hash now call = Unit

abbrev spend : Time → CodeRow → CodeRow
spend now c = record c { consumed_at = some (unix now) }

module _ {B : Type 0} (ext : External B) (c : Settings) where
  step-IsSpent :
      (now : Time) (call : Call) (hash : Ref) (at : ℕ) (db : Db B)
      → IssuesOther ext hash now call
      → IsSpent hash at db
      → IsSpent hash at (step ext c now call db)
  unfolding step create_auth_code consume_auth_code sweep_oauth
  step-IsSpent now (creates_code code b expires) hash at db other h = ground arith
  step-IsSpent now (consumes_code code) hash at db other h =
      let q =
        exists-update-false (is_live_code hash at) (is_live_code (ext.sha256 code) (unix now))
          (spend now) db.codes (λ a m. ground arith) h in
      ground (arith, q)
  step-IsSpent now sweeps_oauth hash at db other h = exists-delete-false _ _ db.codes h
  step-IsSpent now call hash at db other h =
      subst (λ cs. exists (is_live_code hash at) cs ≡ false) (sym (step-codes ext c now call db tt))
        h

  run-IsSpent :
      (calls : List (Time × Call)) (hash : Ref) (at : ℕ) (db : Db B)
      → Each (IssuesOther ext hash) calls
      → IsSpent hash at db
      → IsSpent hash at (run ext c calls db)
  unfolding run
  run-IsSpent [] hash at db other h = h
  run-IsSpent ((now, call) ∷ calls) hash at db other h =
      run-IsSpent calls hash at (step ext c now call db) other.1
        (step-IsSpent now call hash at db other.0 h)

  consumed-IsSpent :
      (code : Ref) (first last : Time) (db : Db B)
      → (consume_auth_code ext code first db).0 ≡ ok tt
      → first ≤ last
      → IsSpent (ext.sha256 code) (unix last) (consume_auth_code ext code first db).1
  unfolding consume_auth_code
  consumed-IsSpent code first last db h le =
      let order = unix_mono first last le in
      let q =
        exists-update-clears (is_live_code (ext.sha256 code) (unix last))
          (is_live_code (ext.sha256 code) (unix first)) (spend first) db.codes (λ a m. ground arith)
          (λ a. ground arith) in
      ground (arith, q)

  spent-refused :
      (code : Ref) (now : Time) (db : Db B)
      → IsSpent (ext.sha256 code) (unix now) db
      → ((consume_auth_code ext code now db).0 ≡ err code_invalid)
        × (auth_code_by_code ext code now db ≡ err code_invalid)
  unfolding consume_auth_code auth_code_by_code
  spent-refused code now db h =
      let none_live = affected-zero (is_live_code (ext.sha256 code) (unix now)) db.codes h in
      let absent = find-none (is_live_code (ext.sha256 code) (unix now)) db.codes h in
      (ground (arith, none_live), ground (arith, absent))

  -- An authorization code is redeemed once: behind a `consume_auth_code` that returned no error,
  -- both the look-up of the code and another `consume_auth_code` of it end in `code_invalid`,
  -- whatever calls are made between the two, as long as the clock does not run back and no call
  -- issues a code of the same hash.
  pub redeemed_once :
      (code : Ref) (first last : Time) (calls : List (Time × Call)) (db : Db B)
      → (consume_auth_code ext code first db).0 ≡ ok tt
      → first ≤ last
      → Each (IssuesOther ext (ext.sha256 code)) calls
      → let after = run ext c calls (consume_auth_code ext code first db).1 in
        ((consume_auth_code ext code last after).0 ≡ err code_invalid)
        × (auth_code_by_code ext code last after ≡ err code_invalid)
  redeemed_once code first last calls db h le other = spent-refused code last _ (
      run-IsSpent calls (ext.sha256 code) (unix last) _ other
        (consumed-IsSpent code first last db h le))
