-- ===== src/Mcp/Unseen.antt =====
-- What the tools of internal/relay/mcp answer about a thread of other people.
use askrelay.Base.{
  Ref, no_id, Time, Text, none, some, true, false, ◌&&◌, ◌||◌, Bool-cases, Result, ok, err,
  Result-cases, ◌⊎◌, inl, inr, List, [], ◌∷◌, ◌≡◌, refl, ◌==◌, ltb, arith,
}
use askrelay.Base.Table.{find, exists}
use askrelay.Gate.{is_inbound, is_outbound}
use askrelay.Envelope.{External, Envelope, max_body_bytes, byte_length}
use askrelay.Store.{
  Db, Thread, Person, StoreError, is_party, thread_for, create_draft, create_valid_draft,
  create_draft_tx, set_thread_grant, set_grant_tx, revoke_thread_grant, revoke_grant_tx,
}
use askrelay.Mcp.Reply.{ToolError, Reply, unseen, quietly}
use askrelay.Mcp.Send.{
  SendInput, send_message, answer_drafted, answer_threaded, answer_addressed, choose_thread, asked,
  draft_refusal, address_refusal,
}
use askrelay.Mcp.Verdicts.{GrantInput, change_thread_grant, answer_grant}
use askrelay.Mcp.Tools.{after, notified}
use askrelay.Mcp.Spotlight.{Rendering}
use askrelay.Mcp.Reading.{get_thread, thread_output}

-- There is no such thread, or it is one of other people.
abbrev pub Hidden : {B : Type 0} → Ref → Ref → Db B → Type 0
Hidden person thread db = exists (λ t. t.id == thread && is_party person t) db.threads ≡ false

hidden-find :
    (person thread : Ref) (ts : List Thread)
    → exists (λ t. t.id == thread && is_party person t) ts ≡ false
    → (find (λ t. t.id == thread) ts ≡ none)
      ⊎ ((t : Thread) × (find (λ t. t.id == thread) ts ≡ some t) × (is_party person t ≡ false))
hidden-find person thread [] h = inl refl
hidden-find person thread (t ∷ ts) h = elim (Bool-cases (t.id == thread)) [
  | inl e ↦ inr (t, ground arith, ground arith)
  | inr e ↦ elim (hidden-find person thread ts (ground arith)) [
    | inl q ↦ inl (ground arith)
    | inr (t', q, other) ↦ inr (t', ground arith, other)
  ]
]

module _ {B : Type 0} where
  -- The call is refused, and nothing is stored and nobody notified.
  abbrev pub Refused : {A : Type 0} → Db B → Reply B A → Type 0
  Refused db r = (after r ≡ db) × (notified r ≡ none) × ((e : ToolError) × (r.0 ≡ err e))

  get-unseen :
      (ext : External B) (how : Rendering) (nonce : Ref → Text) (person thread : Ref) (db : Db B)
      → Hidden person thread db
      → get_thread ext how nonce person thread db ≡ err unseen
  unfolding get_thread thread_for thread_output
  get-unseen ext how nonce person thread db h =
      ground (arith, hidden-find person thread db.threads h)

  grant-unseen :
      (person fresh : Ref) (input : GrantInput) (now : Time) (db : Db B)
      → Hidden person input.thread_id db
      → (is_inbound input.direction || is_outbound input.direction) ≡ true
      → change_thread_grant person input fresh now db ≡ quietly (err unseen) db
  unfolding change_thread_grant set_thread_grant set_grant_tx revoke_thread_grant revoke_grant_tx
      answer_grant
  grant-unseen person fresh input now db h valid =
      ground (arith, hidden-find person input.thread_id db.threads h)

  draft-refused :
      (ext : External B) (person thread : Ref) (e : Envelope) (now : Time) (db : Db B)
      → Hidden person thread db
      → (v : StoreError) × (create_draft ext thread person e now db ≡ (err v, db))
  unfolding create_draft create_valid_draft create_draft_tx
  draft-refused ext person thread e now db h =
      elim (Result-cases (create_draft ext thread person e now db).0) [
        | inl (id, q) ↦ absurd (ground (arith, hidden-find person thread db.threads h))
        | inr (v, q) ↦ (v, ground arith)
      ]

  threaded-Refused :
      (ext : External B) (person recipient thread : Ref) (text : Text) (fresh : Ref) (now : Time)
      (db : Db B)
      → Hidden person thread db
      → Refused db (answer_threaded ext person recipient text fresh now (ok thread, db))
  unfolding answer_threaded answer_drafted
  threaded-Refused ext person recipient thread text fresh now db h =
      let (v, q) =
        draft-refused ext person thread (asked person recipient thread text fresh now) now db h in
      rw q (refl, refl, (draft_refusal v, refl))

  addressed-Refused :
      (ext : External B) (person : Ref) (input : SendInput) (fresh_thread fresh : Ref) (now : Time)
      (db : Db B) (found : Result StoreError Person)
      → Hidden person input.thread db
      → (input.thread == no_id) ≡ false
      → Refused db (answer_addressed ext person input fresh_thread fresh now db found)
  unfolding answer_addressed choose_thread
  addressed-Refused ext person input fresh_thread fresh now db (err v) h given =
      (refl, refl, (address_refusal v, refl))
  addressed-Refused ext person input fresh_thread fresh now db (ok r) h given =
      elim (Bool-cases (r.id == person)) [
        | inl own ↦ rw own (refl, refl, (askrelay.Mcp.to_oneself, refl))
        | inr other ↦
            rw (other, given)
              (threaded-Refused ext person r.id input.thread input.text fresh now db h)
      ]

  send-Refused :
      (ext : External B) (person : Ref) (input : SendInput) (fresh_thread fresh : Ref) (now : Time)
      (db : Db B)
      → Hidden person input.thread db
      → (input.thread == no_id) ≡ false
      → Refused db (send_message ext person input fresh_thread fresh now db)
  unfolding send_message
  send-Refused ext person input fresh_thread fresh now db h given =
      elim (Bool-cases (ltb max_body_bytes (byte_length input.text))) [
        | inl long ↦ rw long (refl, refl, (askrelay.Mcp.too_long, refl))
        | inr fits ↦
            rw fits (addressed-Refused ext person input fresh_thread fresh now db _ h given)
      ]

  -- About a thread that is unknown, or that the person is no party of, get_thread and
  -- set_thread_grant (for a direction that there is) answer the same error, and set_thread_grant
  -- changes nothing; send_message into it ends in an error, stores nothing and notifies nobody.
  pub foreign_thread :
      (ext : External B) (how : Rendering) (nonce : Ref → Text) (person fresh_thread fresh : Ref)
      (input : SendInput) (grant : GrantInput) (now : Time) (db : Db B)
      → Hidden person input.thread db
      → (input.thread == no_id) ≡ false
      → grant.thread_id ≡ input.thread
      → (is_inbound grant.direction || is_outbound grant.direction) ≡ true
      → (get_thread ext how nonce person input.thread db ≡ err unseen)
        × (change_thread_grant person grant fresh now db ≡ quietly (err unseen) db)
        × Refused db (send_message ext person input fresh_thread fresh now db)
  foreign_thread ext how nonce person fresh_thread fresh input grant now db h given same valid = (
    get-unseen ext how nonce person input.thread db h,
    grant-unseen person fresh grant now db (rw same h) valid,
    send-Refused ext person input fresh_thread fresh now db h given,
  )
