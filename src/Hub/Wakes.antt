-- ===== src/Hub/Wakes.antt =====
-- No wake-up is lost: `Notify`, `wake` and `writerLoop` of internal/relay/ws.go in any
-- interleaving, for one connection.
use askrelay.Base.{
  ℕ, zero, suc, ◌-◌, ◌≤◌, Bool, Bool-cases, true, false, ◌≡◌, refl, ◌⊎◌, inl, inr, arith,
}

-- `wake` is the channel of capacity 1 and `reads` tells that the writer has received from it and
-- not yet read the inbox. Beside them stand the messages committed, those of them for which
-- `Notify` is still to be called, and those that the writer's last read of the inbox saw.
pub record Writer : Type 0 where
  pub wake : Bool
  pub reads : Bool
  pub committed : ℕ
  pub owed : ℕ
  pub seen : ℕ

-- The send of `Server.wake`: it fills the channel, or finds it full and drops the signal.
abbrev pub signal : Writer → Writer
signal s = record s { wake = true }

-- The read of the inbox: what is committed by then is seen.
abbrev pub read_off : Writer → Writer
read_off s = record s { reads = false; seen = s.committed }

-- The steps of the ones who commit and notify, and of the writer.
pub data Step : Writer → Writer → Type 0 where
  commits : (s : Writer) → Step s (record s { committed = suc s.committed; owed = suc s.owed })
  notifies : (s : Writer) → 1 ≤ s.owed → Step s (signal (record s { owed = s.owed - 1 }))
  receives :
      (s : Writer)
      → s.wake ≡ true
      → s.reads ≡ false
      → Step s (record s { wake = false; reads = true })
  reads_inbox : (s : Writer) → s.reads ≡ true → Step s (read_off s)

-- A socket opens with a signal, since the inbox may hold mail: `handleWS` wakes the writer.
abbrev pub opened : ℕ → Writer
opened n = record { wake = true; reads = false; committed = n; owed = zero; seen = zero }

pub data Reach (n : ℕ) : Writer → Type 0 where
  opens : Reach n (opened n)
  then_step : (s t : Writer) → Reach n s → Step s t → Reach n t

-- What is not seen is on its way: it is owed a signal, or the signal is there, or is being served.
abbrev Coming : Writer → Type 0
Coming s =
    (s.seen ≤ s.committed)
    × ((s.seen ≡ s.committed) ⊎ ((1 ≤ s.owed) ⊎ ((s.wake ≡ true) ⊎ (s.reads ≡ true))))

Step-Coming : (s t : Writer) → Step s t → Coming s → Coming t
Step-Coming s t (commits _) (least, c) = (ground arith, inr (inl (ground arith)))
Step-Coming s t (notifies _ h) (least, c) = (least, inr (inr (inl refl)))
Step-Coming s t (receives _ h k) (least, c) = (least, inr (inr (inr refl)))
Step-Coming s t (reads_inbox _ h) (least, c) = (ground arith, inl refl)

Reach-Coming : (n : ℕ) (s : Writer) → Reach n s → Coming s
Reach-Coming n s opens = (ground arith, inr (inr (inl refl)))
Reach-Coming n t (then_step s _ r k) = Step-Coming s t k (Reach-Coming n s r)

-- A writer that is behind can go on: once every commit has been notified of, either the writer's
-- last read of the inbox saw all the messages committed, or a step of the writer is enabled, and
-- that step is a read of the inbox or leads to one that sees them all.
pub no_lost_wake :
    (n : ℕ) (s : Writer)
    → Reach n s
    → s.owed ≡ 0
    → (s.seen ≡ s.committed)
      ⊎ ((t : Writer) × (u : Writer) × ((s ≡ t) ⊎ Step s t) × Step t u × (u.seen ≡ s.committed))
no_lost_wake n s r notified = elim (Bool-cases s.reads) [
  | inl reading ↦ inr (s, read_off s, inl refl, reads_inbox s reading, refl)
  | inr idle ↦
      let (least, coming) = Reach-Coming n s r in
      elim coming [
        | inl level ↦ inl level
        | inr (inl owing) ↦ absurd (ground arith)
        | inr (inr (inl woken)) ↦
            let t = record s { wake = false; reads = true } in
            inr (t, read_off t, inr (receives s woken idle), reads_inbox t refl, refl)
        | inr (inr (inr reading)) ↦ absurd (ground arith)
      ]
]
