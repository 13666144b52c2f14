-- ===== src/Envelope/Number.antt =====
-- `appendNumber` and `formatFloatES` of internal/envelope/canon.go: a double in ECMAScript's format.
use askrelay.Base.{
  ℕ, zero, suc, ◌+◌, ◌-◌, ◌/◌, ◌%◌, Text, Bool, true, false, ◌||◌, List, [], ◌∷◌, ◌++◌, length, leb,
  ltb, ◌==◌, if◌then◌else◌, Option, none, some, Result, ok, err,
}
use askrelay.Envelope.Data.{Float64, finite, infinite, not_a_number, EnvelopeError, fault}

-- `strings.Repeat(s, n)` for a text of one character.
abbrev pub repeat_char : ℕ → ℕ → Text
repeat_char c zero = []
repeat_char c (suc n) = c ∷ repeat_char c n

-- `s[:n]`
abbrev pub take_chars : ℕ → Text → Text
take_chars zero s = []
take_chars (suc n) [] = []
take_chars (suc n) (c ∷ s) = c ∷ take_chars n s

-- `s[n:]`
abbrev pub drop_chars : ℕ → Text → Text
drop_chars zero s = s
drop_chars (suc n) [] = []
drop_chars (suc n) (c ∷ s) = drop_chars n s

-- The decimal digits of a number below a thousand, for `strconv.Itoa` of an exponent of a double.
pub exponent_digits : ℕ → Text
exponent_digits e =
    if ltb e 10
    then (b'0' + e) ∷ []
    else if ltb e 100
    then (b'0' + e / 10) ∷ (b'0' + e % 10) ∷ []
    else (b'0' + e / 100) ∷ (b'0' + e / 10 % 10) ∷ (b'0' + e % 10) ∷ []

-- The mantissa of the exponential form: a point after the first digit, if there are more.
mantissa : Text → Text
mantissa digits =
    if ltb 1 (length digits) then take_chars 1 digits ++ (b'.' ∷ drop_chars 1 digits) else digits

-- The three cases for n = exp + 1, the position of the decimal point. Here n is `up_n` where the
-- exponent is not negative, so that n is at least 1.
format_up : Text → ℕ → Text
unfolding mantissa exponent_digits
format_up digits e =
    if leb (e + 1) 21
    then (if leb (length digits) (e + 1)
        then digits ++ repeat_char b'0' (e + 1 - length digits)
        else take_chars (e + 1) digits ++ (b'.' ∷ drop_chars (e + 1) digits))
    else mantissa digits ++ (b'e' ∷ b'+' ∷ exponent_digits e)

-- With exponent -e, for e at least 1: n = 1 - e, which is at most 0 and above -6 for e below 7.
format_down : Text → ℕ → Text
unfolding mantissa exponent_digits
format_down digits e =
    if ltb e 7
    then b'0' ∷ b'.' ∷ (repeat_char b'0' (e - 1) ++ digits)
    else mantissa digits ++ (b'e' ∷ b'-' ∷ exponent_digits e)

format_sign : Bool → Text → Text
format_sign true s = b'-' ∷ s
format_sign false s = s

-- `formatFloatES`
unfoldable pub format_float_es : Bool → List ℕ → Bool → ℕ → Text
unfolding format_up format_down format_sign
format_float_es neg [] up e = b'0' ∷ []
format_float_es neg (d ∷ ds) up e =
    format_sign neg (if up || e == 0 then format_up (d ∷ ds) e else format_down (d ∷ ds) e)

-- `appendNumber`, on what `strconv.ParseFloat` made of the number's text.
unfoldable pub append_number : Option Float64 → Result EnvelopeError Text
unfolding format_float_es
append_number none = err fault
append_number (some infinite) = err fault
append_number (some not_a_number) = err fault
append_number (some (finite neg ds up e)) = ok (format_float_es neg ds up e)
