-- ===== src/Mcp/Spotlight/Fence.antt =====
-- No text closes the code fence that internal/relay/mcp/spotlight.go puts around it.
use askrelay.Base.{ℕ, suc, zero, ◌+◌, ◌≤◌, Text, ◌≡◌, refl, [], ◌∷◌, ◌++◌, arith}
use Prim.Native.Nat.{max}
use askrelay.Mcp.Spotlight.{newline, backticks, longest_run, fence}

longest_run-least : (longest run : ℕ) (s : Text) → max longest run ≤ longest_run longest run s
unfolding longest_run
longest_run-least longest run [] = ground arith
longest_run-least longest run (c ∷ s) =
    ground (arith, longest_run-least longest (suc run) s, longest_run-least (max longest run) 0 s)

-- The run of backticks that a text begins with.
longest_run-starts :
    (n longest run : ℕ) (s : Text) → run + n ≤ longest_run longest run (backticks n ++ s)
unfolding longest_run
longest_run-starts zero longest run s = ground (arith, longest_run-least longest run s)
longest_run-starts (suc n) longest run s = omega (arith, longest_run-starts n longest (suc run) s)

-- A run of backticks inside of a text is no longer than what `longest_run` gives.
longest_run-inside :
    (n longest run : ℕ) (before behind : Text)
    → n ≤ longest_run longest run (before ++ backticks n ++ behind)
unfolding longest_run
longest_run-inside n longest run [] behind = omega (arith, longest_run-starts n longest run behind)
longest_run-inside n longest run (c ∷ before) behind = ground (
  arith,
  longest_run-inside n longest (suc run) before behind,
  longest_run-inside n (max longest run) 0 before behind,
)

-- A text is set between two lines of backticks, three or more of them, and any backticks that
-- stand in a row inside of the text are fewer.
pub fence-Holds :
    (n : ℕ) (before behind : Text)
    → let s = before ++ backticks n ++ behind in
      (k : ℕ) × (fence s ≡ backticks k ++ newline ∷ s ++ newline ∷ backticks k)
      × (3 ≤ k)
      × (suc n ≤ k)
unfolding fence
fence-Holds n before behind =
    let s = before ++ backticks n ++ behind in
    (
      max 3 (suc (longest_run 0 0 s)),
      refl,
      ground arith,
      ground (arith, longest_run-inside n 0 0 before behind),
    )
