-- ===== src/History/Delivery.antt =====
-- The calls that deliver a message, `IngestMessage`, `ReleaseDraft` and `ReleaseReplyViaGrant`, by
-- what they leave in the database.
use askrelay.Base.{
  Ref, Time, Text, Option, none, some, Bool, true, false, ◌≡◌, ◌∙◌, ap, ◌⊎◌, inl, inr, Bool-cases,
}
use askrelay.Gate.{sent, discarded}
use askrelay.Envelope.{External, Envelope}
use askrelay.Store.{
  Db, Freshness, ingest_tx, ingest_message, release_draft_tx, release_draft, release_via_grant_tx,
  release_reply_via_grant, is_stale, write_tx, write_tx-cases, discard_draft, discard_loaded,
  load_draft, ◌>>=◌,
}
use askrelay.Store.Message.Ingest.{ingested, ingest_tx-ingested}
use askrelay.Store.Drafts.Effects.{
  edited_payload, edit_rows, decide_rows, release_draft_tx-Released, release_via_grant_tx-granted,
  release_via_grant_tx-none, discard-decided,
}

module _ {B : Type 0} where
  -- Nothing happened, or a message was let in behind a change of the drafts.
  pub data Delivers (db db' : Db B) : Type 0 where
    idle : db' ≡ db → Delivers db db'
    lets_in :
        (e : Envelope) (sender : Ref) (now : Time) (blob : B)
        → db' ≡ ingested e sender now blob db
        → Delivers db db'
    releases :
        (e : Envelope) (sender : Ref) (now : Time) (blob : B) (id : Ref) (edit : Option B)
        (via_grant : Bool)
        → db'
          ≡ ingested e sender now blob (record db {
            drafts = decide_rows id sent via_grant now (edit_rows id edit db.drafts);
          })
        → Delivers db db'

  ingest_tx-Delivers :
      (ext : External B) (e : Envelope) (sender : Ref) (now : Time) (db : Db B)
      → Delivers db (write_tx (ingest_tx ext e sender now) db).1
  ingest_tx-Delivers ext e sender now db = elim (write_tx-cases (ingest_tx ext e sender now) db) [
    | inl same ↦ idle same
    | inr (_, db', h, after) ↦
        let (blob, _, q) = ingest_tx-ingested ext e sender now db db' h in
        lets_in e sender now blob (after ∙ q)
  ]

  ingest_tx-drafts :
      (ext : External B) (e : Envelope) (sender : Ref) (now : Time) (db : Db B)
      → (write_tx (ingest_tx ext e sender now) db).1.drafts ≡ db.drafts
  ingest_tx-drafts ext e sender now db = elim (write_tx-cases (ingest_tx ext e sender now) db) [
    | inl same ↦ ap (λ d. d.drafts) same
    | inr (_, db', h, after) ↦
        let (_, _, q) = ingest_tx-ingested ext e sender now db db' h in
        ap (λ d. d.drafts) (after ∙ q)
  ]

  pub ingest_message-Delivers :
      (ext : External B) (e : Envelope) (sender : Ref) (fresh : Freshness) (now : Time) (db : Db B)
      → Delivers db (ingest_message ext e sender fresh now db).1
  unfolding ingest_message
  ingest_message-Delivers ext e sender fresh now db = elim (Bool-cases (ext.is_uuid e.id)) [
    | inr bad ↦ idle (rw bad)
    | inl good ↦ elim (Bool-cases (is_stale fresh e.sent_at now)) [
      | inl old ↦ idle (rw (good, old))
      | inr new ↦ rw (good, new) (ingest_tx-Delivers ext e sender now db)
    ]
  ]

  pub release_draft-Delivers :
      (ext : External B) (person id : Ref) (edited : Option Text) (now : Time) (db : Db B)
      → Delivers db (release_draft ext person id edited now db).1
  unfolding release_draft
  release_draft-Delivers ext person id edited now db =
      elim (write_tx-cases (release_draft_tx ext person id edited now) db) [
        | inl same ↦ idle same
        | inr ((r, rel), db', h, after) ↦
            let q = release_draft_tx-Released ext person id edited now db db' r rel h in
            releases (record (edited_payload edited q.stored) { sent_at = now }) person now q.blob
              id q.edit false (after ∙ q.delivered)
      ]

  pub release_via_grant-Delivers :
      (ext : External B) (id granter : Ref) (now : Time) (db : Db B)
      → Delivers db (release_reply_via_grant ext id granter now db).1
  unfolding release_reply_via_grant
  release_via_grant-Delivers ext id granter now db =
      elim (write_tx-cases (release_via_grant_tx ext id granter now) db) [
        | inl same ↦ idle same
        | inr ((r, none), db', h, after) ↦
            idle (after ∙ release_via_grant_tx-none ext id granter now db db' r h)
        | inr ((r, some rel), db', h, after) ↦
            let (q, _) = release_via_grant_tx-granted ext id granter now db db' r rel h in
            releases (record q.stored { sent_at = now }) granter now q.blob id q.edit true
              (after ∙ q.delivered)
      ]

  -- A discard leaves everything, or decides the one draft.
  pub discard_draft-decides :
      (ext : External B) (person id : Ref) (now : Time) (db : Db B)
      → ((discard_draft ext person id now db).1 ≡ db)
        ⊎ ((discard_draft ext person id now db).1
            ≡ record db { drafts = decide_rows id discarded false now db.drafts })
  unfolding discard_draft
  discard_draft-decides ext person id now db =
      elim (write_tx-cases (load_draft ext id >>= discard_loaded person id now) db) [
        | inl same ↦ inl same
        | inr (_, db', h, after) ↦
            let (_, _, _, _, q) = discard-decided ext person id now db db' h in inr (after ∙ q)
      ]

  pub ingest_message-drafts :
      (ext : External B) (e : Envelope) (sender : Ref) (fresh : Freshness) (now : Time) (db : Db B)
      → (ingest_message ext e sender fresh now db).1.drafts ≡ db.drafts
  unfolding ingest_message
  ingest_message-drafts ext e sender fresh now db = elim (Bool-cases (ext.is_uuid e.id)) [
    | inr bad ↦ rw bad
    | inl good ↦ elim (Bool-cases (is_stale fresh e.sent_at now)) [
      | inl old ↦ rw (good, old)
      | inr new ↦ rw (good, new) (ingest_tx-drafts ext e sender now db)
    ]
  ]
