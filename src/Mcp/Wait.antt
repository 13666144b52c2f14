-- ===== src/Mcp/Wait.antt =====
-- wait_for_activity: internal/relay/mcp/wait.go, and its slots in internal/relay/mcp/handler.go.
pub mod Ends
pub mod Slots
use askrelay.Base.{
  ℕ, ◌+◌, ◌-◌, ◌*◌, ◌%◌, ◌^◌, suc, Ref, Time, Duration, seconds, Bool, true, false, not, ◌&&◌, ◌||◌,
  Option, none, some, List, [], ◌∷◌, ◌==◌, ltb, leb, if◌then◌else◌,
}
use askrelay.Base.Table.{find, delete}
use askrelay.Store.{Db, has_activity}

-- "claude.ai", "claude-desktop", "claude-code-remote" and "chatgpt", by their numbers.
abbrev pub claude_ai : Ref
claude_ai = 1

abbrev pub claude_desktop : Ref
claude_desktop = 2

abbrev pub claude_code_remote : Ref
claude_code_remote = 3

abbrev pub chatgpt : Ref
chatgpt = 4

-- `profileCap`
unfoldable pub profile_cap : Ref → Duration
profile_cap client =
    if client == claude_ai || client == claude_desktop
    then seconds 240
    else if client == claude_code_remote
    then seconds (25 * 60)
    else seconds 45

-- `time.Duration(requestedSecs) * time.Second`: an int64 by its bit pattern, which wraps around.
abbrev pub int64_seconds : ℕ → ℕ
int64_seconds requested = seconds requested % 2 ^ 64

-- `d <= 0` of an int64 with this bit pattern.
abbrev pub is_int64_positive : ℕ → Bool
is_int64_positive d = ltb 0 d && ltb d (2 ^ 63)

-- `effectiveTimeout`
unfoldable pub effective_timeout : ℕ → Ref → Duration
unfolding profile_cap
effective_timeout requested client =
    let d = int64_seconds requested in
    if not (is_int64_positive d) || ltb (profile_cap client) d then profile_cap client else d

-- One round of the loop: the database that `HasActivity` reads, the time at which `time.Until`
-- looks at the clock, and whether `ctx.Done()` is what ends the sleep.
pub record Round (B : Type 0) : Type 0 where
  pub db : Db B
  pub clock : Time
  pub gone : Bool

-- How the call ends: with `Activity` true or false, or with the context's error.
pub data Ending : Type 0 where
  active quiet cancelled : Ending

module _ {B : Type 0} (person : Ref) where
  -- The loop over the rounds that come; `none` where it still waits behind the last.
  unfoldable pub poll : Time → List (Round B) → Option Ending
  poll deadline [] = none
  poll deadline (r ∷ rs) =
      let rest = poll deadline rs in
      if has_activity person r.db
      then some active
      else if leb deadline r.clock
      then some quiet
      else if r.gone
      then some cancelled
      else rest

  -- The handler behind `waitAcquire`.
  unfoldable pub wait_for_activity : ℕ → Ref → Time → List (Round B) → Option Ending
  unfolding poll effective_timeout
  wait_for_activity requested client now rounds =
      poll (now + effective_timeout requested client) rounds

-- `h.waiting`: a count for each person who waits.
abbrev pub Waiting : Type 0
Waiting = List (Ref × ℕ)

-- A read of the map, 0 for a key that it lacks.
abbrev pub count_of : Ref → Waiting → ℕ
count_of person [] = 0
count_of person ((p, n) ∷ w) = if p == person then n else count_of person w

abbrev pub put : Ref → ℕ → Waiting → Waiting
put person n w = (person, n) ∷ delete (λ e. e.0 == person) w

-- `maxPerPerson`
abbrev pub max_per_person : ℕ
max_per_person = 2

-- `waitAcquire`
unfoldable pub wait_acquire : Ref → Waiting → Bool × Waiting
wait_acquire person w =
    if leb max_per_person (count_of person w)
    then (false, w)
    else (true, put person (suc (count_of person w)) w)

-- `if h.waiting[person] > 0 { h.waiting[person]-- }`
unfoldable pub count_down : Ref → Waiting → Waiting
count_down person w = if ltb 0 (count_of person w) then put person (count_of person w - 1) w else w

-- `waitRelease`
unfoldable pub wait_release : Ref → Waiting → Waiting
unfolding count_down
wait_release person w =
    let w' = count_down person w in
    if count_of person w' == 0 then delete (λ e. e.0 == person) w' else w'

-- The handler: a call that gets no slot answers at once that there is no activity; one that gets a
-- slot gives it back when it ends.
unfoldable pub handle_wait :
    {B : Type 0} → Ref → ℕ → Ref → Time → List (Round B) → Waiting → Option Ending × Waiting
unfolding wait_for_activity wait_acquire wait_release
handle_wait person requested client now rounds w =
    let (free, taken) = wait_acquire person w in
    if free
    then (wait_for_activity person requested client now rounds, wait_release person taken)
    else (some quiet, taken)
