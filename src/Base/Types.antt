-- ===== src/Base/Types.antt =====
-- The primitive values of the program.
use Prim.Native.Nat.{ℕ, suc, ◌*◌, ◌/◌, ◌≤◌}
use Prim.Native.Char.{code}
use Prim.Native.String.{String}
use mathlib.Core.List.{List, [], ◌∷◌}
use mathlib.Core.Bool.{Bool, true, false}
use askrelay.Base.Tests.{◌==◌, if◌then◌else◌}
use native.Mathlib.Omega.{arith}

-- A string that the program only compares (a UUID, an e-mail address, a token, a key): a number
-- stands for each string, and 0 for the empty one.
abbrev pub Ref : Type 0
Ref = ℕ

abbrev pub no_id : Ref
no_id = 0

-- `time.Time` and `time.Duration` in nanoseconds. Time is counted from the year 0, the first that
-- the wire format can write, so that a clock in use is ahead of every duration.
abbrev pub Time : Type 0
Time = ℕ

abbrev pub Duration : Type 0
Duration = ℕ

-- `t.Unix()`, the whole seconds, which the tables store.
unfoldable pub unix : Time → ℕ
unix t = t / 1000000000

-- `n * time.Second`
abbrev pub seconds : ℕ → Duration
seconds n = n * 1000000000

-- A text, by its code points.
abbrev pub Text : Type 0
Text = List ℕ

abbrev pub Bytes : Type 0
Bytes = List ℕ

-- The code points of a literal.
abbrev pub codes : String → Text
codes String.[] = []
codes (String.◌∷◌ c s) = code c ∷ codes s

-- `s == t`
abbrev pub same_text : Text → Text → Bool
same_text [] [] = true
same_text [] (d ∷ t) = false
same_text (c ∷ s) [] = false
same_text (c ∷ s) (d ∷ t) = if c == d then same_text s t else false

pub unix_mono : (s t : Time) → s ≤ t → unix s ≤ unix t
unfolding unix
unix_mono s t h = omega arith

pub unix_lt : (s t : Time) → suc (unix s) ≤ unix t → suc s ≤ t
unfolding unix
unix_lt s t h = omega arith
