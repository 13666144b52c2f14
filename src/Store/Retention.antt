-- ===== src/Store/Retention.antt =====
-- internal/relay/store/retention.go: what the sweeper deletes.
pub mod Kept
use askrelay.Base.{
  ℕ, ◌-◌, Ref, Time, Duration, unix, Bool, true, false, not, ◌&&◌, ◌||◌, Option, none, some, List,
  [], ◌∷◌, ◌==◌, ltb, leb, Result, ok, err, if◌then◌else◌,
}
use Prim.Native.Nat.{max}
use askrelay.Base.Table.{exists, delete, affected}
use askrelay.Gate.{DraftState, sent, discarded}
use askrelay.Store.Schema.{
  MessageRow, Delivery, Draft, Db, Outcome, ◌>>=◌, ◌>>◌, pure, query, exec, write_tx, is_null,
}
use askrelay.Store.Message.{Freshness}

pub record RetentionPolicy : Type 0 where
  pub ack_grace : Duration
  pub hard_ttl : Duration

abbrev pub option_max : Option ℕ → Option ℕ → Option ℕ
option_max none b = b
option_max (some a) none = some a
option_max (some a) (some b) = some (max a b)

-- `SELECT MAX(d.acked_at) FROM deliveries d WHERE d.message_id = ?`, null with no ack.
unfoldable pub last_ack : Ref → List Delivery → Option ℕ
last_ack message [] = none
last_ack message (d ∷ ds) =
    if d.message_id == message
    then option_max d.acked_at (last_ack message ds)
    else last_ack message ds

-- `o <= cutoff`, which null does not satisfy.
abbrev pub at_most : Option ℕ → ℕ → Bool
at_most none cutoff = false
at_most (some a) cutoff = leb a cutoff

-- The three conditions under which a message is acked by all its devices, past the grace.
unfoldable pub is_acked : List Delivery → ℕ → Ref → Bool
unfolding last_ack
is_acked deliveries cutoff message =
    exists (λ d. d.message_id == message) deliveries
    && not (exists (λ d. d.message_id == message && is_null d.acked_at) deliveries)
    && at_most (last_ack message deliveries) cutoff

-- `state IN ('sent','discarded')`
abbrev pub is_decided : DraftState → Bool
is_decided sent = true
is_decided discarded = true
is_decided _ = false

module _ {B : Type 0} where
  -- The WHERE clause of `SweepMessages`.
  abbrev pub is_swept : RetentionPolicy → Time → List Delivery → MessageRow B → Bool
  is_swept p now deliveries m =
      leb m.received_at (unix (now - p.hard_ttl))
      || is_acked deliveries (unix (now - p.ack_grace)) m.id

  -- `ON DELETE CASCADE`: a delivery row goes with its message.
  unfoldable pub sweep_messages : RetentionPolicy → Time → Db B → Outcome B ℕ
  sweep_messages p now = write_tx do
    n ← query (λ db. affected (is_swept p now db.deliveries) db.messages)
    exec (λ db. record db {
      messages = delete (is_swept p now db.deliveries) db.messages;
      deliveries =
          delete
            (λ d. exists (λ m. m.id == d.message_id && is_swept p now db.deliveries m) db.messages)
            db.deliveries;
    })
    pure n

  -- The WHERE clause of `SweepDrafts`.
  abbrev pub is_swept_draft : ℕ → Draft B → Bool
  is_swept_draft cutoff d = is_decided d.state && at_most d.decided_at cutoff

  unfoldable pub sweep_drafts : RetentionPolicy → Time → Db B → Outcome B ℕ
  sweep_drafts p now = write_tx do
    n ← query (λ db. affected (is_swept_draft (unix (now - p.hard_ttl))) db.drafts)
    exec (λ db. record db { drafts = delete (is_swept_draft (unix (now - p.hard_ttl))) db.drafts })
    pure n

  unfoldable pub prune_tombstones : Freshness → Time → Db B → Outcome B ℕ
  prune_tombstones fresh now = write_tx do
    n ← query (λ db. affected (λ t. ltb t.sent_at (unix (now - fresh.max_age))) db.tombstones)
    exec (λ db. record db {
      tombstones = delete (λ t. ltb t.sent_at (unix (now - fresh.max_age))) db.tombstones;
    })
    pure n
