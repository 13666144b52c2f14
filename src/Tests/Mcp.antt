-- ===== src/Tests/Mcp.antt =====
-- Calls of the tools on the small relay.
use askrelay.Base.{
  ◌⊎◌, ◌==◌, no_id, Ref, ok, ℕ, zero, suc, ◌+◌, ◌-◌, ◌^◌, ◌≤◌, Time, seconds, codes, true, false,
  some, err, List, [], ◌∷◌, ◌++◌, length, ◌≡◌, refl, ltb, arith,
}
use Prim.Native.Nat.{min}
use askrelay.Gate.{outbound}
use askrelay.Envelope.{Envelope}
use askrelay.Mcp.{SendInput, GrantInput, send_message, change_thread_grant, unseen, quietly}
use askrelay.Mcp.Tools.{sends}
use askrelay.Mcp.Acts.{Acts}
use askrelay.Mcp.Request.{handle_mcp, request-Acts}
use askrelay.Oauth.{verify}
use askrelay.Tests.Signed.{two_jwt, iss}
use askrelay.Mcp.Held.{Held, send-Held}
use askrelay.Mcp.Unseen.{Refused, foreign_thread}
use askrelay.Mcp.Reading.{get_thread}
use askrelay.Mcp.Spotlight.{Rendering, newline, backticks, fence}
use askrelay.Mcp.Spotlight.Fence.{fence-Holds}
use askrelay.Mcp.Wait.{
  Round, Ending, chatgpt, claude_ai, effective_timeout, profile_cap, wait_for_activity, count_of,
  wait_acquire,
}
use askrelay.Mcp.Wait.Ends.{Paced, Justified, clamped, effective_timeout_bounds, wait-ends}
use askrelay.Mcp.Wait.Slots.{Reach, start, enters, turned_away, held, NoZero, Reach-Slots}
use askrelay.Tests.Data.{ext, settings, at, relay}

abbrev message : SendInput
message = record { to = 21; text = codes "on it"; thread = 100 }

-- An answer of Alice's, with her access token.
request-Acts_example :
    (handle_mcp ext two_jwt iss 1 (at 10) (sends message 101 61) relay ≡ relay)
    ⊎ ((person : Ref) × (client : Ref) × (verify two_jwt iss 1 (at 10) ≡ ok (person, client))
        × ((person == no_id) ≡ false)
        × Acts ext settings person
            (at 10)
            relay
            (handle_mcp ext two_jwt iss 1 (at 10) (sends message 101 61) relay))
request-Acts_example = request-Acts ext settings two_jwt iss 1 (at 10) (sends message 101 61) relay

abbrev ask : SendInput
ask = record { to = 22; text = codes "any news?"; thread = 0 }

send-Held_example : Held relay (send_message ext 1 ask 101 61 (at 5) relay)
send-Held_example = send-Held ext 1 (at 5) ask 101 61 relay refl

abbrev how : Rendering
how = record {
  quoted = λ s. s;
  defang_urls = λ s. s;
  defang_schemes = λ s. s;
  text_of = λ id. [];
  state_text = λ s. [];
}

abbrev granting : GrantInput
granting = record { thread_id = 100; direction = outbound; enabled = true }

-- A third person.
foreign_thread_example :
    (get_thread ext how (λ id. []) 3 100 relay ≡ err unseen)
    × (change_thread_grant 3 granting 61 (at 5) relay ≡ quietly (err unseen) relay)
    × Refused relay (send_message ext 3 message 101 61 (at 5) relay)
foreign_thread_example =
    foreign_thread ext how (λ id. []) 3 101 61 message granting (at 5) relay refl refl refl refl

fence-Holds_example :
    let s = codes "see " ++ backticks 4 ++ codes " there" in
    (k : ℕ) × (fence s ≡ backticks k ++ newline ∷ s ++ newline ∷ backticks k) × (3 ≤ k) × (5 ≤ k)
fence-Holds_example = fence-Holds 4 (codes "see ") (codes " there")

effective_timeout_bounds_example :
    (1 ≤ effective_timeout 9223372040 claude_ai)
    × (effective_timeout 9223372040 claude_ai ≤ profile_cap claude_ai)
    × (profile_cap claude_ai ≤ seconds 1500)
    × (effective_timeout 30 claude_ai ≡ clamped 30 claude_ai)
    × (effective_timeout (2 ^ 64 - 1) claude_ai ≡ profile_cap claude_ai)
effective_timeout_bounds_example =
    effective_timeout_bounds 9223372040 30 1 claude_ai (ground arith) (ground arith) (ground arith)

-- Rounds a second apart.
abbrev every_second : ℕ → Time → List (Round Envelope)
every_second zero t = []
every_second (suc n) t =
    (record { db = relay; clock = t; gone = false }) ∷ every_second n (t + seconds 1)

every_second-Paced :
    (deadline : Time) (n : ℕ) (from t : Time) → from ≤ t → Paced deadline from (every_second n t)
every_second-Paced deadline zero from t h = tt
every_second-Paced deadline (suc n) from t h = (
  h,
  every_second-Paced deadline n (t + min (seconds 1) (deadline - t)) (t + seconds 1) (ground arith),
)

every_second-length : (n : ℕ) (t : Time) → length (every_second n t) ≡ n
every_second-length zero t = refl
every_second-length (suc n) t = omega (arith, every_second-length n (t + seconds 1))

wait-ends_example :
    (e : Ending) × (wait_for_activity 1 30 chatgpt (at 5) (every_second 1501 (at 5)) ≡ some e)
    × Justified 1 (at 5 + effective_timeout 30 chatgpt) (every_second 1501 (at 5)) e
wait-ends_example =
    wait-ends 1 30 chatgpt (at 5) (every_second 1501 (at 5))
      (every_second-Paced (at 5 + effective_timeout 30 chatgpt) 1501 (at 5) (at 5) (omega arith))
      (omega (arith, every_second-length 1501 (at 5)))

-- A third call finds both slots taken.
both_taken : Reach ((1, 2) ∷ []) (1 ∷ 1 ∷ [])
unfolding wait_acquire
both_taken = turned_away 1 _ _ _ (enters 1 _ _ _ (enters 1 _ ((1, 1) ∷ []) _ start refl) refl) refl

Reach-Slots_example :
    (count_of 1 ((1, 2) ∷ []) ≡ held 1 (1 ∷ 1 ∷ []))
    × (held 1 (1 ∷ 1 ∷ []) ≤ 2)
    × ((wait_acquire 1 ((1, 2) ∷ [])).0 ≡ ltb (held 1 (1 ∷ 1 ∷ [])) 2)
    × NoZero ((1, 2) ∷ [])
Reach-Slots_example = Reach-Slots ((1, 2) ∷ []) (1 ∷ 1 ∷ []) 1 both_taken

-- A request of 18446744074 seconds wraps around to a wait of less than a third of a second.
wrapped_wait : effective_timeout 18446744074 chatgpt ≡ 290448384
unfolding effective_timeout
wrapped_wait = refl
