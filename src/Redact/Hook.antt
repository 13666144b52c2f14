-- ===== src/Redact/Hook.antt =====
-- internal/redact/hook.go: the redaction program of the user.
use askrelay.Base.{
  ℕ, ◌+◌, ◌*◌, Bytes, Bool, true, false, not, ◌&&◌, Option, none, some, List, [], ◌∷◌, ◌++◌, length,
  ltb, if◌then◌else◌,
}

-- `maxHookOutput`
abbrev pub max_hook_output : ℕ
max_hook_output = 1024 * 1024

-- `cappedWriter`, without the cap.
pub record Written : Type 0 where
  pub buf : Bytes
  pub n : ℕ

-- `Write`: `none` is the error.
unfoldable pub write : Written → Bytes → Option Written
write w p =
    if ltb max_hook_output (w.n + length p)
    then none
    else some (record { buf = w.buf ++ p; n = w.n + length p })

-- The writes of the program's output, one after the other, up to the first that is refused.
unfoldable pub write_all : Option Written → List Bytes → Option Written
unfolding write
write_all none ps = none
write_all (some w) [] = some w
write_all (some w) (p ∷ ps) = write_all (write w p) ps

-- What the operating system makes of the program: it cannot be run, exits with a code other than
-- 0, or runs into the time limit; or it exits with 0 behind these writes to its output.
pub data Run : Type 0 where
  fails : Run
  exits : List Bytes → Run

abbrev pub is_empty : Bytes → Bool
is_empty [] = true
is_empty (b ∷ s) = false

-- What follows `cmd.Run`, where `none` is an error and blocks the message.
unfoldable pub hook_output : Bytes → Option Written → Option Bytes
hook_output text none = none
hook_output text (some w) = if not (is_empty text) && is_empty w.buf then none else some w.buf

-- `Hook`: a refused write makes `cmd.Run` return an error.
unfoldable pub hook : Bytes → Run → Option Bytes
unfolding hook_output write_all
hook text fails = none
hook text (exits ps) = hook_output text (write_all (some (record { buf = []; n = 0 })) ps)
