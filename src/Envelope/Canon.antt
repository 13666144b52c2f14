-- ===== src/Envelope/Canon.antt =====
-- The RFC 8785 canonical form: `appendCanonical`, `appendString` and `compareUTF16` of
-- internal/envelope/canon.go.
use askrelay.Base.{
  ℕ, ◌+◌, ◌-◌, ◌/◌, ◌%◌, Text, Bytes, codes, Bool, true, false, List, [], ◌∷◌, ◌++◌, ltb, ◌==◌,
  if◌then◌else◌, Option, Result, ok, err,
}
use askrelay.Envelope.Data.{
  Json, null, bool, string, number, array, object, Items, nil, cons, Fields, end, field,
  EnvelopeError, Float64,
}
use askrelay.Envelope.Number.{append_number}

-- `utf8.AppendRune`
unfoldable pub append_rune : ℕ → Bytes
append_rune r =
    if ltb r 0x80
    then r ∷ []
    else if ltb r 0x800
    then (0xc0 + r / 64) ∷ (0x80 + r % 64) ∷ []
    else if ltb r 0x10000
    then (0xe0 + r / 4096) ∷ (0x80 + r / 64 % 64) ∷ (0x80 + r % 64) ∷ []
    else (0xf0 + r / 262144) ∷ (0x80 + r / 4096 % 64) ∷ (0x80 + r / 64 % 64) ∷ (0x80 + r % 64) ∷ []

-- `hexdigits[d]`
abbrev pub hex_digit : ℕ → ℕ
hex_digit d = if ltb d 10 then b'0' + d else b'a' + (d - 10)

-- The body of the loop of `appendString`: one character.
unfoldable pub escape : ℕ → Bytes
unfolding append_rune
escape r =
    if r == 0x22
    then 0x5c ∷ 0x22 ∷ []
    else if r == 0x5c
    then 0x5c ∷ 0x5c ∷ []
    else if r == 0x08
    then 0x5c ∷ b'b' ∷ []
    else if r == 0x0c
    then 0x5c ∷ b'f' ∷ []
    else if r == 0x0a
    then 0x5c ∷ b'n' ∷ []
    else if r == 0x0d
    then 0x5c ∷ b'r' ∷ []
    else if r == 0x09
    then 0x5c ∷ b't' ∷ []
    else if ltb r 0x20
    then 0x5c ∷ b'u' ∷ b'0' ∷ b'0' ∷ hex_digit (r / 16) ∷ hex_digit (r % 16) ∷ []
    else append_rune r

-- The loop of `appendString` and its closing quote.
unfoldable pub escape_all : Text → Bytes
escape_all [] = 0x22 ∷ []
escape_all (r ∷ s) = escape r ++ escape_all s

unfoldable pub append_string : Text → Bytes
unfolding escape_all
append_string s = 0x22 ∷ escape_all s

-- `utf16.Encode`
unfoldable pub encode_utf16 : Text → List ℕ
encode_utf16 [] = []
encode_utf16 (r ∷ s) =
    if ltb r 0x10000
    then r ∷ encode_utf16 s
    else (0xd800 + (r - 0x10000) / 1024) ∷ (0xdc00 + (r - 0x10000) % 1024) ∷ encode_utf16 s

-- The sign of a three-way comparison.
pub data Order : Type 0 where
  less equal greater : Order

-- The loop of `compareUTF16` over the code units, and the comparison of lengths behind it.
unfoldable pub compare_units : List ℕ → List ℕ → Order
compare_units [] [] = equal
compare_units [] (y ∷ ys) = less
compare_units (x ∷ xs) [] = greater
compare_units (x ∷ xs) (y ∷ ys) =
    let rest = compare_units xs ys in if x == y then rest else if ltb x y then less else greater

unfoldable pub compare_utf16 : Text → Text → Order
unfolding compare_units encode_utf16
compare_utf16 a b = compare_units (encode_utf16 a) (encode_utf16 b)

abbrev pub is_greater : Order → Bool
is_greater greater = true
is_greater _ = false

module _ {ℓ} {A : Type ℓ} where
  -- `slices.SortFunc(keys, compareUTF16)`, on the keys with what belongs to them. The keys of a
  -- map are distinct, so every sort gives this one result.
  unfoldable pub insert_key : Text → A → List (Text × A) → List (Text × A)
  insert_key k a [] = (k, a) ∷ []
  insert_key k a ((j, b) ∷ l) =
      if is_greater (compare_utf16 k j) then (j, b) ∷ insert_key k a l else (k, a) ∷ (j, b) ∷ l

  unfoldable pub sort_keys : List (Text × A) → List (Text × A)
  sort_keys [] = []
  sort_keys ((k, a) ∷ l) = insert_key k a (sort_keys l)

infixl 5 ◌>>=◌
abbrev ◌>>=◌ {ℓ κ} :
    {E : Type 0} {A : Type ℓ} {B : Type κ} → Result E A → (A → Result E B) → Result E B
ok a >>= f = f a
err e >>= f = err e

-- The members of an object after the first, each behind a comma, and the closing brace.
unfoldable pub append_members :
    List (Text × Result EnvelopeError Bytes) → Result EnvelopeError Bytes
append_members [] = ok (b'}' ∷ [])
append_members ((k, r) ∷ l) = do
  v ← r
  rest ← append_members l
  ok (b',' ∷ (append_string k ++ (b':' ∷ (v ++ rest))))

-- An object, from its sorted members.
unfoldable pub append_object : List (Text × Result EnvelopeError Bytes) → Result EnvelopeError Bytes
unfolding append_members
append_object [] = ok (b'{' ∷ b'}' ∷ [])
append_object ((k, r) ∷ l) = do
  v ← r
  rest ← append_members l
  ok (b'{' ∷ (append_string k ++ (b':' ∷ (v ++ rest))))

module _ (parse_float : Text → Option Float64) where
  unfoldable mutual
    -- `appendCanonical`, by what it appends.
    pub append_canonical : Json → Result EnvelopeError Bytes
    append_canonical null = ok (codes "null")
    append_canonical (bool true) = ok (codes "true")
    append_canonical (bool false) = ok (codes "false")
    append_canonical (string s) = ok (append_string s)
    append_canonical (number n) = append_number (parse_float n)
    append_canonical (array nil) = ok (b'[' ∷ b']' ∷ [])
    append_canonical (array (cons x xs)) = do
      v ← append_canonical x
      rest ← append_items xs
      ok (b'[' ∷ (v ++ rest))
    append_canonical (object fs) = append_object (sort_keys (canonical_fields fs))

    -- The elements of an array after the first, and the closing bracket.
    pub append_items : Items → Result EnvelopeError Bytes
    append_items nil = ok (b']' ∷ [])
    append_items (cons x xs) = do
      v ← append_canonical x
      rest ← append_items xs
      ok (b',' ∷ (v ++ rest))

    -- Each key of a map with what its value appends.
    pub canonical_fields : Fields → List (Text × Result EnvelopeError Bytes)
    canonical_fields end = []
    canonical_fields (field k v fs) = (k, append_canonical v) ∷ canonical_fields fs
