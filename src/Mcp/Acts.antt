-- ===== src/Mcp/Acts.antt =====
-- What the tools of internal/relay/mcp do to the store, as calls of its methods.
use askrelay.Base.{
  Ref, no_id, Time, Text, ltb, Option, Bool, true, false, Bool-cases, Result, ok, err, inl, inr,
  List, [], ◌∷◌, ◌≡◌, refl, ◌==◌, if◌then◌else◌, arith,
}
use askrelay.Gate.{Release, ThreadState, approve, reject}
use askrelay.Envelope.{External, Envelope, max_body_bytes, byte_length}
use askrelay.Store.{
  Db, Outcome, Person, StoreError, approve_inbound_message, decline_inbound_message,
  set_thread_grant, revoke_thread_grant,
}
use askrelay.History.{
  Call, Settings, Each, step, run, starts_thread, creates_draft, releases_draft, discards_draft,
  releases_via_grant, decides_message, sets_grant, revokes_grant,
}
use askrelay.Mcp.Send.{
  SendInput, send_message, answer_released, answer_drafted, answer_threaded, answer_addressed,
  choose_thread, is_long_edit, approve_reply, answer_approved, discard_reply, answer_discarded,
}
use askrelay.Mcp.Verdicts.{
  GrantInput, answer_verdict, approve_message, decline_message, answer_grant, change_thread_grant,
}
use askrelay.Mcp.Tools.{
  ToolCall, sends, approves_reply, discards_reply, approves_message, declines_message,
  changes_grant, after, serve,
}

-- The call is made in the person's name.
abbrev pub ActsAs : Ref → Call → Type 0
ActsAs person (starts_thread i r id) = i ≡ person
ActsAs person (creates_draft t author e) = author ≡ person
ActsAs person (releases_draft p d edited) = p ≡ person
ActsAs person (discards_draft p d) = p ≡ person
ActsAs person (releases_via_grant d granter) = granter ≡ person
ActsAs person (decides_message p m v) = p ≡ person
ActsAs person (sets_grant t p dir id) = p ≡ person
ActsAs person (revokes_grant t p dir) = p ≡ person
ActsAs person _ = ⊥

-- One database comes of another by calls made now and in the person's name.
abbrev pub Acts : {B : Type 0} → External B → Settings → Ref → Time → Db B → Db B → Type 0
Acts ext c person now db db' =
    (calls : List (Time × Call)) × (db' ≡ run ext c calls db)
    × Each (λ t call. (t ≡ now) × ActsAs person call) calls

module _ {B : Type 0} (ext : External B) (c : Settings) (person : Ref) (now : Time) where
  idle : (db db' : Db B) → db' ≡ db → Acts ext c person now db db'
  unfolding run
  idle db db' q = ([], q, tt)

  then_call :
      (call : Call) (db db' : Db B)
      → ActsAs person call
      → Acts ext c person now (step ext c now call db) db'
      → Acts ext c person now db db'
  unfolding run
  then_call call db db' h (calls, q, each) = ((now, call) ∷ calls, q, ((refl, h), each))

  one_call :
      (call : Call) (db db' : Db B)
      → ActsAs person call
      → db' ≡ step ext c now call db
      → Acts ext c person now db db'
  one_call call db db' h q = then_call call db db' h (idle (step ext c now call db) db' q)

  released-after :
      (draft thread : Ref) (o : Outcome B (Ref × Option (Release Envelope)))
      → after (answer_released draft thread o) ≡ o.1
  unfolding answer_released
  released-after draft thread o = ground arith

  drafted-Acts :
      (thread : Ref) (o : Outcome B Ref)
      → Acts ext c person now o.1 (after (answer_drafted ext person thread now o))
  unfolding answer_drafted step
  drafted-Acts thread (ok draft, db) =
      one_call (releases_via_grant draft person) db _ refl (released-after draft thread _)
  drafted-Acts thread (err e, db) = idle db _ (ground arith)

  threaded-Acts :
      (recipient : Ref) (text : Text) (fresh : Ref) (o : Outcome B Ref)
      → Acts ext c person now o.1 (after (answer_threaded ext person recipient text fresh now o))
  unfolding answer_threaded step
  threaded-Acts recipient text fresh (ok thread, db) =
      then_call (creates_draft thread person _) db _ refl (drafted-Acts thread _)
  threaded-Acts recipient text fresh (err e, db) = idle db _ refl

  chosen-Acts :
      (recipient thread fresh fresh_thread : Ref) (text : Text) (db : Db B)
      → Acts ext c person now db (
          after (
            answer_threaded ext person recipient text fresh now
              (choose_thread person recipient thread fresh_thread now db)))
  unfolding choose_thread step
  chosen-Acts recipient thread fresh fresh_thread text db = elim (Bool-cases (thread == no_id)) [
    | inl new ↦ rw new (
        then_call (starts_thread person recipient fresh_thread) db _ refl
          (threaded-Acts recipient text fresh _))
    | inr given ↦ rw given (threaded-Acts recipient text fresh (ok thread, db))
  ]

  addressed-Acts :
      (input : SendInput) (fresh_thread fresh : Ref) (db : Db B) (found : Result StoreError Person)
      → Acts ext c person now db
          (after (answer_addressed ext person input fresh_thread fresh now db found))
  unfolding answer_addressed
  addressed-Acts input fresh_thread fresh db (ok r) = elim (Bool-cases (r.id == person)) [
    | inl own ↦ rw own (idle db db refl)
    | inr other ↦ rw other (chosen-Acts r.id input.thread fresh fresh_thread input.text db)
  ]
  addressed-Acts input fresh_thread fresh db (err e) = idle db _ (ground arith)

  send-Acts :
      (input : SendInput) (fresh_thread fresh : Ref) (db : Db B)
      → Acts ext c person now db (after (send_message ext person input fresh_thread fresh now db))
  unfolding send_message
  send-Acts input fresh_thread fresh db =
      elim (Bool-cases (ltb max_body_bytes (byte_length input.text))) [
        | inl long ↦ rw long (idle db db refl)
        | inr fits ↦ rw fits (addressed-Acts input fresh_thread fresh db _)
      ]

  approved-after :
      (id : Ref) (o : Outcome B (Ref × Option (Release Envelope)))
      → after (answer_approved id o) ≡ o.1
  unfolding answer_approved
  approved-after id o = ground arith

  discarded-after : (id : Ref) (o : Outcome B (Unit {0})) → after (answer_discarded id o) ≡ o.1
  unfolding answer_discarded
  discarded-after id o = ground arith

  verdict-after : (id : Ref) (o : Outcome B ThreadState) → after (answer_verdict id o) ≡ o.1
  unfolding answer_verdict
  verdict-after id o = ground arith

  grant-after : (input : GrantInput) (o : Outcome B (Unit {0})) → after (answer_grant input o) ≡ o.1
  unfolding answer_grant
  grant-after input o = ground arith

  changed-Acts :
      (input : GrantInput) (fresh : Ref) (db : Db B) (on : Bool)
      → Acts ext c person now db
          (if on
            then set_thread_grant input.thread_id person input.direction now fresh db
            else revoke_thread_grant input.thread_id person input.direction now db).1
  unfolding step
  changed-Acts input fresh db true =
      one_call (sets_grant input.thread_id person input.direction fresh) db _ refl refl
  changed-Acts input fresh db false =
      one_call (revokes_grant input.thread_id person input.direction) db _ refl refl

  -- A call of a tool by a person leaves the database as some calls of the store's methods leave
  -- it, one after the other, each made at this time and in this person's name; a tool that is
  -- refused early makes none.
  pub serve-Acts :
      (tool : ToolCall) (db : Db B) → Acts ext c person now db (serve ext person now tool db)
  unfolding serve step approve_reply discard_reply approve_message decline_message
      change_thread_grant approve_inbound_message decline_inbound_message
  serve-Acts (sends input fresh_thread fresh) db = send-Acts input fresh_thread fresh db
  serve-Acts (approves_reply id edited) db = elim (Bool-cases (is_long_edit edited)) [
    | inl long ↦ rw long (idle db db refl)
    | inr fits ↦
        rw fits (one_call (releases_draft person id edited) db _ refl (approved-after id _))
  ]
  serve-Acts (discards_reply id) db =
      one_call (discards_draft person id) db _ refl (discarded-after id _)
  serve-Acts (approves_message id) db =
      one_call (decides_message person id approve) db _ refl (verdict-after id _)
  serve-Acts (declines_message id) db =
      one_call (decides_message person id reject) db _ refl (verdict-after id _)
  serve-Acts (changes_grant input fresh) db =
      rw (grant-after input _) (changed-Acts input fresh db input.enabled)
