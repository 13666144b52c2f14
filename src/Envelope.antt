-- ===== src/Envelope.antt =====
-- Signed envelopes: internal/envelope/envelope.go, sign.go and canon.go.
mod Data
mod Number
mod Canon
pub mod Seal
pub mod Order
pub use Data.*
unfoldable pub use Number.{append_number, format_float_es}
unfoldable pub use Canon.{
  append_string, escape, escape_all, append_rune, compare_utf16, insert_key, sort_keys,
  append_canonical,
}
use askrelay.Base.{
  ℕ, ◌+◌, ◌*◌, Ref, no_id, Time, Text, Bytes, Bool, true, false, not, ◌&&◌, List, [], ◌∷◌, ◌++◌,
  length, ltb, ◌==◌, if◌then◌else◌, Option, none, some, Result, ok, err,
}
use askrelay.Gate.{ThreadState}

infixl 5 ◌>>=◌ ◌>>◌
abbrev ◌>>=◌ {ℓ κ} :
    {E : Type 0} {A : Type ℓ} {B : Type κ} → Result E A → (A → Result E B) → Result E B
ok a >>= f = f a
err e >>= f = err e

abbrev ◌>>◌ {ℓ} : {E : Type 0} {B : Type ℓ} → Result E (Unit {0}) → Result E B → Result E B
m >> k = m >>= λ _. k

abbrev refuse_if : Bool → EnvelopeError → Result EnvelopeError (Unit {0})
refuse_if true e = err e
refuse_if false e = ok tt

abbrev or_fault {ℓ} : {A : Type ℓ} → Option A → Result EnvelopeError A
or_fault none = err fault
or_fault (some a) = ok a

-- `Version`, `MaxBodyBytes`, `MaxWireBytes` and `MaxParts`.
abbrev pub version : ℕ
version = 1

abbrev pub max_body_bytes : ℕ
max_body_bytes = 32 * 1024

abbrev pub max_wire_bytes : ℕ
max_wire_bytes = 64 * 1024

abbrev pub max_parts : ℕ
max_parts = 16

-- `versionSupported`
abbrev pub version_supported : ℕ → Bool
version_supported v = v == version

-- `len(s)`, the bytes of a text in UTF-8.
unfoldable pub byte_length : Text → ℕ
byte_length [] = 0
byte_length (r ∷ s) = length (append_rune r) + byte_length s

-- The loop of `bodySize`.
unfoldable pub parts_size : List Part → ℕ
parts_size [] = 0
parts_size (p ∷ ps) = byte_length p.text + parts_size ps

unfoldable pub body_size : Message → ℕ
unfolding parts_size
body_size m = parts_size m.parts

-- `New`, with the fresh ids and the clock as arguments.
unfoldable pub new_envelope :
    Party → Ref → Ref → ThreadState → Bool → Message → Ref → Ref → Time → Envelope
new_envelope from to thread state ai body new_thread new_id now = record {
  v = version;
  id = new_id;
  thread = if thread == no_id then new_thread else thread;
  from = from;
  to = to;
  state = state;
  sent_at = now;
  ai_generated = ai;
  body = body;
  sig = [];
}

module _ {B : Type 0} (ext : External B) where
  -- `Decode`
  unfoldable pub decode : B → Result EnvelopeError Envelope
  decode blob = do
    e ← or_fault (ext.unmarshal blob)
    refuse_if (not (version_supported e.v)) bad_version
    ok e

  -- `jcs`
  unfoldable pub jcs : B → Result EnvelopeError Bytes
  jcs raw = do append_canonical ext.parse_float (← or_fault (ext.parse_json raw))

  -- `Canonical`
  unfoldable pub canonical : Envelope → Result EnvelopeError Bytes
  unfolding jcs
  canonical e = do jcs (← or_fault (ext.marshal (record e { sig = [] })))

  unfoldable pub check : Envelope → Result EnvelopeError Bytes
  check e = do
    refuse_if (not (version_supported e.v)) bad_version
    refuse_if (ltb max_parts (length e.body.parts)) too_many_parts
    refuse_if (ltb max_body_bytes (body_size e.body)) too_large
    canon ← canonical e
    refuse_if (ltb max_wire_bytes (length canon)) too_large
    ok canon

  -- `Validate`
  unfoldable pub validate : Envelope → Result EnvelopeError (Unit {0})
  validate e = check e >>= λ _. ok tt

  -- `Sign`, which stores the signature in the envelope: it returns the new envelope.
  unfoldable pub sign : Envelope → Bytes → Result EnvelopeError Envelope
  sign e priv = do
    refuse_if (not (length priv == 64)) bad_key
    canon ← check e
    ok (record e { sig = ext.sign priv canon })

  -- `Verify`
  unfoldable pub verify : Envelope → Bytes → Result EnvelopeError (Unit {0})
  verify e pub_key = do
    canon ← check e
    refuse_if (not (length pub_key == 32 && length e.sig == 64)) bad_signature
    refuse_if (not (ext.verify pub_key canon e.sig)) bad_signature
    ok tt
