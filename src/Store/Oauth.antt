-- ===== src/Store/Oauth.antt =====
-- internal/relay/store/oauth.go: clients, authorization codes and refresh tokens.
use askrelay.Base.{
  ℕ, ◌+◌, ◌-◌, ◌*◌, Ref, Time, Duration, seconds, unix, Bool, not, ◌&&◌, Option, none, some, List,
  ◌==◌, ltb, leb, Result, ok, err, if◌then◌else◌,
}
use askrelay.Base.Table.{find, exists, delete, update, affected}
use askrelay.Envelope.{External}
use askrelay.Store.Schema.{
  OauthClient, AuthCode, CodeRow, RefreshGrant, RefreshRow, Db, Tx, Outcome, StoreError, ◌>>=◌,
  ◌>>◌, pure, query, or_error, refuse_if, exec, write_tx, client_unknown, code_invalid,
  refresh_invalid, refresh_reused, database, is_null,
}
use askrelay.Store.Insert.{insert_client, insert_code, insert_refresh}

-- `WHERE code_hash = ? AND consumed_at IS NULL AND expires_at > ?`
abbrev pub is_live_code : Ref → ℕ → CodeRow → Bool
is_live_code hash now c = c.code_hash == hash && is_null c.consumed_at && ltb now c.expires_at

-- `WHERE token_hash = ? AND consumed_at IS NULL AND expires_at > ?`
abbrev pub is_live_token : Ref → ℕ → RefreshRow → Bool
is_live_token hash now t = t.token_hash == hash && is_null t.consumed_at && ltb now t.expires_at

-- `WHERE token_hash = ? AND consumed_at IS NOT NULL`
abbrev pub is_spent_token : Ref → RefreshRow → Bool
is_spent_token hash t = t.token_hash == hash && not (is_null t.consumed_at)

-- `WHERE person_id = ? AND client_id = ? AND consumed_at IS NULL`
abbrev pub is_family : Ref → Ref → RefreshRow → Bool
is_family person client t =
    t.binding.person_id == person && t.binding.client_id == client && is_null t.consumed_at

-- `oauthClientTTL`
abbrev pub oauth_client_ttl : Duration
oauth_client_ttl = seconds (30 * 24 * 3600)

-- How a refresh ends inside its transaction, which commits in all three cases.
pub data RefreshOutcome : Type 0 where
  rotated : RefreshGrant → RefreshOutcome
  invalid reused : RefreshOutcome

-- The sentinel that `ConsumeRefreshToken` gives out behind the transaction.
refresh_result : Result StoreError RefreshOutcome → Result StoreError RefreshGrant
refresh_result (ok (rotated g)) = ok g
refresh_result (ok invalid) = err refresh_invalid
refresh_result (ok reused) = err refresh_reused
refresh_result (err e) = err e

-- An abandoned client: old, and with no refresh token.
abbrev pub is_abandoned : ℕ → List RefreshRow → OauthClient → Bool
is_abandoned cutoff tokens c =
    leb c.created_at cutoff && not (exists (λ t. t.binding.client_id == c.client_id) tokens)

module _ {B : Type 0} where
  -- `RegisterClient`, with the fresh id as an argument.
  unfoldable pub register_client : List Ref → Ref → Time → Ref → Db B → Outcome B Ref
  register_client uris name now fresh = write_tx do
    insert_client (record {
      client_id = fresh;
      redirect_uris = uris;
      client_name = name;
      created_at = unix now;
    })
    pure fresh

  unfoldable pub client_by_id : Ref → Db B → Result StoreError OauthClient
  client_by_id id db = elim (find (λ c. c.client_id == id) db.clients) [
    | none ↦ err client_unknown
    | some c ↦ ok c
  ]

  unfoldable pub create_auth_code :
      External B → Ref → AuthCode → Time → Time → Db B → Outcome B (Unit {0})
  create_auth_code ext code b expires_at now = write_tx (
      insert_code (record {
        code_hash = ext.sha256 code;
        binding = b;
        created_at = unix now;
        expires_at = unix expires_at;
        consumed_at = none;
      }))

  unfoldable pub auth_code_by_code : External B → Ref → Time → Db B → Result StoreError AuthCode
  auth_code_by_code ext code now db =
      elim (find (is_live_code (ext.sha256 code) (unix now)) db.codes) [
        | none ↦ err code_invalid
        | some c ↦ ok c.binding
      ]

  unfoldable pub consume_auth_code : External B → Ref → Time → Db B → Outcome B (Unit {0})
  consume_auth_code ext code now = write_tx do
    n ← query (λ db. affected (is_live_code (ext.sha256 code) (unix now)) db.codes)
    exec (λ db. record db {
      codes =
          update (is_live_code (ext.sha256 code) (unix now))
            (λ c. record c { consumed_at = some (unix now) }) db.codes;
    })
    refuse_if (n == 0) code_invalid

  unfoldable pub create_refresh_token :
      External B → Ref → RefreshGrant → Time → Time → Db B → Outcome B (Unit {0})
  create_refresh_token ext token g expires_at now = write_tx (
      insert_refresh (record {
        token_hash = ext.sha256 token;
        binding = g;
        created_at = unix now;
        expires_at = unix expires_at;
        consumed_at = none;
      }))

  -- `SET consumed_at = ?`
  abbrev pub spend_where : (RefreshRow → Bool) → Time → Tx B (Unit {0})
  spend_where p now = exec (λ db. record db {
    refresh_tokens = update p (λ t. record t { consumed_at = some (unix now) }) db.refresh_tokens;
  })

  -- The branch where a live token was spent: its binding.
  unfoldable pub read_binding : Ref → Tx B RefreshOutcome
  read_binding hash = do
    row ← query (λ db. find (λ t. t.token_hash == hash) db.refresh_tokens)
    t ← or_error row database
    pure (rotated t.binding)

  -- A spent token came back: the family of the token is spent too.
  revoke_family : Option RefreshRow → Time → Tx B RefreshOutcome
  revoke_family none now = pure invalid
  revoke_family (some t) now =
      spend_where (is_family t.binding.person_id t.binding.client_id) now >> pure reused

  unfoldable pub consume_refresh_tx : Ref → Time → Tx B RefreshOutcome
  unfolding read_binding revoke_family
  consume_refresh_tx hash now = do
    n ← query (λ db. affected (is_live_token hash (unix now)) db.refresh_tokens)
    spend_where (is_live_token hash (unix now)) now
    spent ← query (λ db. find (is_spent_token hash) db.refresh_tokens)
    if n == 1 then read_binding hash else revoke_family spent now

  unfoldable pub consume_refresh_token : External B → Ref → Time → Db B → Outcome B RefreshGrant
  unfolding consume_refresh_tx refresh_result
  consume_refresh_token ext token now db =
      let (r, db') = write_tx (consume_refresh_tx (ext.sha256 token) now) db in
      (refresh_result r, db')

  unfoldable pub sweep_oauth : Time → Db B → Outcome B ℕ
  sweep_oauth now = write_tx do
    codes ← query (λ db. affected (λ c. leb c.expires_at (unix now)) db.codes)
    exec (λ db. record db { codes = delete (λ c. leb c.expires_at (unix now)) db.codes })
    tokens ← query (λ db. affected (λ t. leb t.expires_at (unix now)) db.refresh_tokens)
    exec (λ db. record db {
      refresh_tokens = delete (λ t. leb t.expires_at (unix now)) db.refresh_tokens;
    })
    clients ←
        query (λ db.
          affected (is_abandoned (unix (now - oauth_client_ttl)) db.refresh_tokens) db.clients)
    exec (λ db. record db {
      clients = delete (is_abandoned (unix (now - oauth_client_ttl)) db.refresh_tokens) db.clients;
    })
    pure (codes + tokens + clients)
