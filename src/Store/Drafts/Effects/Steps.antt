-- ===== src/Store/Drafts/Effects/Steps.antt =====
-- What the steps of a release do to the database: internal/relay/store/draft.go.
use askrelay.Base.{
  Ref, Time, Text, unix, ◌≡◌, inl, inr, Option, none, some, Bool, true, false, List, ok, arith,
  Option-cases, Result-cases, ◌==◌, refl, codes, ◌∷◌, [],
}
use askrelay.Base.Table.{find, update}
use askrelay.Gate.{Release, DraftState, pending_review, sent, apply_outbound, apply_outbound_grant}
use askrelay.Envelope.{External, Envelope, decode}
use askrelay.Store.Schema.{Db, Draft, >>=-eq-ok}
use askrelay.Store.Message.{ingest_tx}
use askrelay.Store.Message.Ingest.{ingested, ingest_tx-ingested}
use askrelay.Store.Drafts.{
  load_draft, apply_edit, deliver_in_tx, deliver_decided, release_approved, release_granted,
  with_text,
}

-- The payload that is released: the stored one, with the edited text if there is one.
abbrev pub edited_payload : Option Text → Envelope → Envelope
edited_payload none e = e
edited_payload (some s) e = record e {
  body = record { role = e.body.role; parts = (record { type = codes "text"; text = s }) ∷ [] };
}

module _ {B : Type 0} where
  -- The draft rows after the edit, if there is one.
  abbrev pub edit_rows : Ref → Option B → List (Draft B) → List (Draft B)
  edit_rows id none ds = ds
  edit_rows id (some blob) ds = update (λ d. d.id == id) (λ d. record d { envelope = blob }) ds

  -- What a draft's envelope is rewritten to: the edited payload as the encoder writes it, or
  -- nothing where there is no edited text.
  abbrev pub IsEdit : External B → Option Text → Envelope → Option B → Type 0
  IsEdit ext none stored edit = edit ≡ none
  IsEdit ext (some s) stored edit =
      (blob : B) × (edit ≡ some blob) × (ext.marshal (edited_payload (some s) stored) ≡ some blob)

  -- The draft rows after a decision.
  abbrev pub decide_rows : Ref → DraftState → Bool → Time → List (Draft B) → List (Draft B)
  decide_rows id next via_grant now =
      update (λ d. d.id == id)
        (λ d. record d { state = next; via_grant = via_grant; decided_at = some (unix now) })

  -- The effect of a release: the author's own pending draft, decided and delivered.
  pub record Released (ext : External B) (id person : Ref) (edited : Option Text) (via_grant : Bool)
      (now : Time) (db db' : Db B) (recipient : Ref) (rel : Option (Release Envelope))
      : Type 0 where
    pub row : Draft B
    pub stored : Envelope
    pub edit : Option B
    pub blob : B
    pub found : find (λ d. d.id == id) db.drafts ≡ some row
    pub decoded : decode ext row.envelope ≡ ok stored
    pub rewritten : IsEdit ext edited stored edit
    pub owned : row.author_id ≡ person
    pub pending : row.state ≡ pending_review
    pub minted :
        rel
        ≡ some (record {
          thread = row.thread_id;
          id = id;
          payload = edited_payload edited stored;
          via_grant = via_grant;
        })
    pub addressed : recipient ≡ (edited_payload edited stored).to
    pub marshalled :
        ext.marshal (record (edited_payload edited stored) { sent_at = now }) ≡ some blob
    pub delivered :
        db'
        ≡ ingested
            (record (edited_payload edited stored) { sent_at = now })
            person
            now
            blob
            (record db { drafts = decide_rows id sent via_grant now (edit_rows id edit db.drafts) })

  pub load_draft-eq-ok :
      (ext : External B) (id : Ref) (db db' : Db B) (d : Draft B) (e : Envelope)
      → load_draft ext id db ≡ ok ((d, e), db')
      → (find (λ d. d.id == id) db.drafts ≡ some d) × (decode ext d.envelope ≡ ok e) × (db' ≡ db)
  unfolding load_draft
  load_draft-eq-ok ext id db db' d e h = elim (Option-cases (find (λ d. d.id == id) db.drafts)) [
    | inl absent ↦ absurd (ground arith)
    | inr (row, f) ↦ elim (Result-cases (decode ext row.envelope)) [
      | inl (stored, g) ↦ (ground arith, ground arith, ground arith)
      | inr (_, g) ↦ absurd (ground arith)
    ]
  ]

  pub apply_edit-eq-ok :
      (ext : External B) (id : Ref) (edited : Option Text) (e p : Envelope) (db db' : Db B)
      → apply_edit ext id edited e db ≡ ok (p, db')
      → (blob : Option B) × IsEdit ext edited e blob
        × (p ≡ edited_payload edited e)
        × (db' ≡ record db { drafts = edit_rows id blob db.drafts })
  unfolding apply_edit
  apply_edit-eq-ok ext id none e p db db' h = (none, refl, ground arith, ground arith)
  apply_edit-eq-ok ext id (some s) e p db db' h =
      elim (Option-cases (ext.marshal (with_text s e))) [
        | inl no_blob ↦ absurd (ground arith)
        | inr (blob, m) ↦ (some blob, (blob, refl, m), ground arith, ground arith)
      ]

  pub deliver_in_tx-eq-ok :
      (ext : External B) (e : Envelope) (author : Ref) (now : Time) (r : Ref) (db db' : Db B)
      → deliver_in_tx ext e author now db ≡ ok (r, db')
      → (blob : B) × (ext.marshal (record e { sent_at = now }) ≡ some blob)
        × (r ≡ e.to)
        × (db' ≡ ingested (record e { sent_at = now }) author now blob db)
  unfolding deliver_in_tx
  deliver_in_tx-eq-ok ext e author now r db db' h =
      let (_, mid, s, t) = >>=-eq-ok (ingest_tx ext (record e { sent_at = now }) author now) _ h in
      let (blob, m, q) = ingest_tx-ingested ext (record e { sent_at = now }) author now db mid s in
      (blob, m, ground arith, ground arith)

  -- The decision of the gate and the delivery, for a draft that was looked up.
  decided :
      (ext : External B) (id : Ref) (d : Draft B) (payload : Envelope) (via_grant : Bool)
      (now : Time) (db db' : Db B) (next : DraftState) (rel rel' : Option (Release Envelope))
      (r : Ref)
      → deliver_decided ext id d payload via_grant now (next, rel) db ≡ ok ((r, rel'), db')
      → (blob : B) × (ext.marshal (record payload { sent_at = now }) ≡ some blob)
        × (rel' ≡ rel)
        × (r ≡ payload.to)
        × (db'
            ≡ ingested
                (record payload { sent_at = now })
                d.author_id
                now
                blob
                (record db { drafts = decide_rows id next via_grant now db.drafts }))
  unfolding deliver_decided
  decided ext id d payload via_grant now db db' next rel rel' r h =
      elim (Result-cases (deliver_in_tx ext payload d.author_id now mid)) [
        | inl ((r', end), e) ↦
            let (blob, m, to, q) = deliver_in_tx-eq-ok ext payload d.author_id now r' mid end e in
            (blob, m, ground arith, ground arith, ground arith)
        | inr (_, e) ↦ absurd (ground arith)
      ]
    where
      mid : Db B
      mid = record db { drafts = decide_rows id next via_grant now db.drafts }

  -- What the gate lets through, with the delivery that follows.
  abbrev pub Delivers :
      External B
      → Ref
      → Draft B
      → Envelope
      → Bool
      → Time
      → Db B
      → Db B
      → Ref
      → Option (Release Envelope)
      → Type 0
  Delivers ext id d payload via_grant now db db' r rel =
      (d.state ≡ pending_review)
      × (rel
          ≡ some
              (record { thread = d.thread_id; id = id; payload = payload; via_grant = via_grant }))
      × (r ≡ payload.to)
      × ((blob : B) × (ext.marshal (record payload { sent_at = now }) ≡ some blob)
          × (db'
              ≡ ingested (record payload { sent_at = now }) d.author_id now blob
                  (record db { drafts = decide_rows id sent via_grant now db.drafts })))

  pub minted_release : Ref → Draft B → Envelope → Bool → Option (Release Envelope)
  minted_release id d payload via_grant =
      some (record { thread = d.thread_id; id = id; payload = payload; via_grant = via_grant })

  pub approved-Delivers :
      (ext : External B) (id : Ref) (d : Draft B) (payload : Envelope) (now : Time) (db db' : Db B)
      (r : Ref) (rel : Option (Release Envelope))
      → release_approved ext id d payload now db ≡ ok ((r, rel), db')
      → Delivers ext id d payload false now db db' r rel
  unfolding release_approved apply_outbound minted_release
  approved-Delivers ext id d payload now db db' r rel h =
      let (blob, m, s, to, q) =
        decided ext id d payload false now db db' sent (minted_release id d payload false) rel r
          (ground arith) in
      (ground arith, s, to, (blob, m, q))

  pub granted-Delivers :
      (ext : External B) (id : Ref) (d : Draft B) (payload : Envelope) (now : Time) (db db' : Db B)
      (r : Ref) (rel : Option (Release Envelope))
      → release_granted ext id d payload now db ≡ ok ((r, rel), db')
      → Delivers ext id d payload true now db db' r rel
  unfolding release_granted apply_outbound_grant apply_outbound minted_release
  granted-Delivers ext id d payload now db db' r rel h =
      let (blob, m, s, to, q) =
        decided ext id d payload true now db db' sent (minted_release id d payload true) rel r
          (ground arith) in
      (ground arith, s, to, (blob, m, q))
