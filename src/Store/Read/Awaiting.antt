-- ===== src/Store/Read/Awaiting.antt =====
-- What `InboundAwaiting` (internal/relay/store/read.go) shows a person, against the verdicts that
-- `inboundMessageVerdict` (internal/relay/store/approval.go) takes from that person.
use askrelay.Base.{
  ◌≤◌, Ref, Time, some, Option-cases, Bool-cases, inl, inr, Bool, true, false, List, [], ◌∷◌, ◌≡◌,
  ◌==◌, ◌&&◌, arith, ok, ◌↔◌,
}
use askrelay.Base.Table.{exists, find, affected}
use askrelay.Gate.{working, approve, apply_inbound}
use askrelay.Store.Schema.{Db, Thread, MessageRow}
use askrelay.Store.Approval.{inbound_message_verdict, latest_message, thread_of, is_latest}
use askrelay.Store.Read.{awaits, is_awaiting}

-- The primary key of the threads: one row at most for an id.
abbrev pub ThreadsUnique : {B : Type 0} → Db B → Type 0
ThreadsUnique db = (id : Ref) → affected (λ t. t.id == id) db.threads ≤ 1

exists-affected :
    (p q : Thread → Bool) (ts : List Thread)
    → exists (λ t. p t && q t) ts ≡ true
    → (affected p ts == 0) ≡ false
exists-affected p q [] h = absurd (ground arith)
exists-affected p q (t ∷ ts) h = ground (arith, exists-affected p q ts)

-- Where one row at most passes a test, it is the first.
find_unique :
    (p q : Thread → Bool) (ts : List Thread)
    → affected p ts ≤ 1
    → exists (λ t. p t && q t) ts ≡ true
    → (t : Thread) × (find p ts ≡ some t) × (q t ≡ true)
find_unique p q [] one h = absurd (ground arith)
find_unique p q (t ∷ ts) one h = elim (Bool-cases (p t)) [
  | inr miss ↦ rw miss (find_unique p q ts (ground arith) (ground arith))
  | inl hit ↦ (t, ground arith, ground (arith, exists-affected p q ts))
]

find-true :
    (p q : Thread → Bool) (ts : List Thread) (t : Thread)
    → find p ts ≡ some t
    → q t ≡ true
    → exists (λ t. p t && q t) ts ≡ true
find-true p q [] t f h = absurd (ground arith)
find-true p q (r ∷ rs) t f h = ground (arith, find-true p q rs t)

find-passes : {A : Type 0} (p : A → Bool) (rs : List A) (r : A) → find p rs ≡ some r → p r ≡ true
find-passes p [] r f = absurd (ground arith)
find-passes p (a ∷ rs) r f = ground (arith, find-passes p rs r)

module _ {B : Type 0} (person message : Ref) (now : Time) (db : Db B) where
  -- A person approves a message that is shown as awaiting, and no other: where thread ids are a
  -- key, `inbound_message_verdict` approves a message exactly if it is the latest of its thread
  -- and the query of `inbound_awaiting` selects it for this person.
  pub shown_to_approve :
      (m : MessageRow B)
      → ThreadsUnique db
      → latest_message message db ≡ some m
      → ((inbound_message_verdict person message approve now db).0 ≡ ok working)
        ↔ (is_awaiting db person m ≡ true)
  unfolding inbound_message_verdict apply_inbound
  shown_to_approve m one f = (
    λ h. elim (Option-cases (thread_of m db)) [
      | inl g ↦ absurd (ground arith)
      | inr (t, g) ↦
          let joined = find-true (λ t. t.id == m.thread_id) (awaits person) db.threads t g in
          ground
            (arith, joined, find-passes (λ r. r.id == message && is_latest db r) db.messages m f)
    ],
    λ h.
        let (t, g, a) =
          find_unique (λ t. t.id == m.thread_id) (awaits person) db.threads (one m.thread_id)
            (ground arith) in
        ground arith,
  )
