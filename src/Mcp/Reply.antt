-- ===== src/Mcp/Reply.antt =====
-- What a tool of internal/relay/mcp answers: its output or a sanitized error, the person whose
-- devices are notified, and the database behind its calls of the store.
use askrelay.Base.{Ref, Option, none, Result}
use askrelay.Store.{Db}

-- The errors that reach a client: `errInternal`, `errNotFound`, `errNotReviewable`, `errTooLong`,
-- `errNotAwaiting`, and those that `send_message` and `set_thread_grant` make on the spot.
pub data ToolError : Type 0 where
  internal unseen not_reviewable too_long not_awaiting not_on_roster to_oneself : ToolError
  bad_direction : ToolError

abbrev pub Reply : Type 0 → Type 0 → Type 0
Reply B A = Result ToolError A × Option Ref × Db B

-- An answer that notifies nobody.
abbrev pub quietly : {B A : Type 0} → Result ToolError A → Db B → Reply B A
quietly r db = (r, none, db)
