-- ===== src/Mcp/Tools.antt =====
-- A call of a tool by a person: `serverFor` of internal/relay/mcp/handler.go, which gives each of
-- the tools that write to the one person.
use askrelay.Base.{Ref, Time, Text, Option}
use askrelay.Envelope.{External}
use askrelay.Store.{Db}
use askrelay.Mcp.Reply.{Reply}
use askrelay.Mcp.Send.{SendInput, send_message, approve_reply, discard_reply}
use askrelay.Mcp.Verdicts.{GrantInput, approve_message, decline_message, change_thread_grant}

-- A tool with its input, and the fresh ids that it may use.
pub data ToolCall : Type 0 where
  sends : SendInput → Ref → Ref → ToolCall
  approves_reply : Ref → Option Text → ToolCall
  discards_reply : Ref → ToolCall
  approves_message : Ref → ToolCall
  declines_message : Ref → ToolCall
  changes_grant : GrantInput → Ref → ToolCall

module _ {B : Type 0} where
  -- The database behind an answer.
  abbrev pub after : {A : Type 0} → Reply B A → Db B
  after r = r.2

  -- Whose devices an answer notifies.
  abbrev pub notified : {A : Type 0} → Reply B A → Option Ref
  notified r = r.1

  -- The database after a call of a tool.
  unfoldable pub serve : External B → Ref → Time → ToolCall → Db B → Db B
  unfolding send_message approve_reply discard_reply approve_message decline_message
      change_thread_grant
  serve ext person now (sends input thread fresh) db =
      after (send_message ext person input thread fresh now db)
  serve ext person now (approves_reply id edited) db =
      after (approve_reply ext person id edited now db)
  serve ext person now (discards_reply id) db = after (discard_reply ext person id now db)
  serve ext person now (approves_message id) db = after (approve_message person id now db)
  serve ext person now (declines_message id) db = after (decline_message person id now db)
  serve ext person now (changes_grant input fresh) db =
      after (change_thread_grant person input fresh now db)
