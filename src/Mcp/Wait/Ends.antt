-- ===== src/Mcp/Wait/Ends.antt =====
-- wait_for_activity of internal/relay/mcp/wait.go comes to an end, and in time.
use askrelay.Base.{
  ℕ, suc, ◌+◌, ◌-◌, ◌^◌, ◌≤◌, ◌==◌, ◌||◌, ltb, if◌then◌else◌, Ref, Time, Duration, seconds,
  Bool-cases, true, false, some, ◌≡◌, refl, inl, inr, ◌⊎◌, List, [], ◌∷◌, length, leb, arith,
}
use Prim.Native.Nat.{min}
use askrelay.Store.{has_activity}
use askrelay.Mcp.Wait.{
  profile_cap, int64_seconds, is_int64_positive, effective_timeout, Round, Ending, active, quiet,
  cancelled, poll, wait_for_activity,
}

-- The wait that a number of seconds asks for: itself, or the client's cap where it is 0 or more.
abbrev pub clamped : ℕ → Ref → Duration
clamped n client =
    if n == 0 || ltb (profile_cap client) (seconds n) then profile_cap client else seconds n

int64_seconds_small : (n : ℕ) → n ≤ 9223372036 → int64_seconds n ≡ seconds n
int64_seconds_small n fits = omega arith

int64_seconds_negative :
    (n : ℕ) → 1 ≤ n → n ≤ 9223372036 → is_int64_positive (int64_seconds (2 ^ 64 - n)) ≡ false
int64_seconds_negative n some_time fits = ground arith

-- Whatever 64-bit number is asked for, the wait is positive, no longer than the client's profile
-- allows, and 25 minutes at most. A number from 0 to 9223372036, whose nanoseconds an int64
-- holds, is clamped to the profile, and the negative of one means the profile's cap.
pub effective_timeout_bounds :
    (requested n k : ℕ) (client : Ref)
    → n ≤ 9223372036
    → 1 ≤ k
    → k ≤ 9223372036
    → (1 ≤ effective_timeout requested client)
      × (effective_timeout requested client ≤ profile_cap client)
      × (profile_cap client ≤ seconds 1500)
      × (effective_timeout n client ≡ clamped n client)
      × (effective_timeout (2 ^ 64 - k) client ≡ profile_cap client)
unfolding effective_timeout profile_cap
effective_timeout_bounds requested n k client fits some_time fits_too = (
  ground arith,
  ground arith,
  ground arith,
  rw (int64_seconds_small n fits) (ground arith),
  rw (int64_seconds_negative k some_time fits_too) refl,
)

-- The sleep between two rounds: `time.After(min(pollInterval, remaining))` has passed.
abbrev pub Paced : {B : Type 0} → Time → Time → List (Round B) → Type 0
Paced deadline from [] = Unit
Paced deadline from (r ∷ rs) =
    (from ≤ r.clock) × Paced deadline (r.clock + min (seconds 1) (deadline - r.clock)) rs

-- The round goes on to the sleep: nothing to see, before the deadline, and not cancelled.
abbrev pub Waits : {B : Type 0} → Ref → Time → Round B → Type 0
Waits person deadline r =
    (has_activity person r.db ≡ false) × (suc r.clock ≤ deadline) × (r.gone ≡ false)

-- Why a round ends the wait this way.
abbrev pub Decides : {B : Type 0} → Ref → Time → Round B → Ending → Type 0
Decides person deadline r active = has_activity person r.db ≡ true
Decides person deadline r quiet = (has_activity person r.db ≡ false) × (deadline ≤ r.clock)
Decides person deadline r cancelled =
    (has_activity person r.db ≡ false) × (suc r.clock ≤ deadline) × (r.gone ≡ true)

-- The ending is that of one of the rounds, and every round before it goes on to the sleep.
abbrev pub Justified : {B : Type 0} → Ref → Time → List (Round B) → Ending → Type 0
Justified person deadline [] e = ⊥
Justified person deadline (r ∷ rs) e =
    Decides person deadline r e ⊎ (Waits person deadline r × Justified person deadline rs e)

sleep_enough :
    (deadline from clock n : ℕ)
    → leb deadline clock ≡ false
    → from ≤ clock
    → deadline + seconds 1 ≤ from + seconds (suc n)
    → deadline + seconds 1 ≤ clock + min (seconds 1) (deadline - clock) + seconds n
sleep_enough deadline from clock n early after long = ground arith

more_left :
    (deadline from clock n : ℕ)
    → leb deadline clock ≡ false
    → from ≤ clock
    → deadline + seconds 1 ≤ from + seconds (suc n)
    → 1 ≤ n
more_left deadline from clock n early after long = ground arith

module _ {B : Type 0} (person : Ref) (deadline : Time) where
  poll-ends :
      (rounds : List (Round B)) (from : Time)
      → Paced deadline from rounds
      → deadline + seconds 1 ≤ from + seconds (length rounds)
      → 1 ≤ length rounds
      → (e : Ending) × (poll person deadline rounds ≡ some e) × Justified person deadline rounds e
  unfolding poll
  poll-ends [] from paced long some_left = absurd (ground arith)
  poll-ends (r ∷ rs) from paced long some_left = elim (Bool-cases (has_activity person r.db)) [
    | inl has ↦ (active, ground arith, inl has)
    | inr idle ↦ elim (Bool-cases (leb deadline r.clock)) [
      | inl over ↦ (quiet, ground arith, inl (idle, ground arith))
      | inr early ↦ elim (Bool-cases r.gone) [
        | inl gone ↦ (cancelled, ground arith, inl (idle, ground arith, gone))
        | inr stays ↦
            let (e, q, why) =
              poll-ends rs (r.clock + min (seconds 1) (deadline - r.clock)) paced.1
                (sleep_enough deadline from r.clock (length rs) early paced.0 long)
                (more_left deadline from r.clock (length rs) early paced.0 long) in
            (e, ground arith, inr ((idle, ground arith, stays), why))
      ]
    ]
  ]

-- wait_for_activity ends within 1501 rounds of its loop, whatever wait is asked for and by
-- whichever client, where every round comes after the sleep of the round before. The first round
-- that sees activity, comes at the deadline or later, or finds the context cancelled, ends it, and
-- by the first of these that holds: it answers that there is activity, that there is none, or ends
-- in an error.
pub wait-ends :
    {B : Type 0} (person : Ref) (requested : ℕ) (client : Ref) (now : Time)
    (rounds : List (Round B))
    → Paced (now + effective_timeout requested client) now rounds
    → 1501 ≤ length rounds
    → (e : Ending) × (wait_for_activity person requested client now rounds ≡ some e)
      × Justified person (now + effective_timeout requested client) rounds e
unfolding wait_for_activity
wait-ends person requested client now rounds paced enough =
    poll-ends person (now + effective_timeout requested client) rounds now paced
      (omega (
        arith,
        effective_timeout_bounds requested 1 1 client (ground arith) (ground arith) (ground arith),
      ))
      (omega arith)
