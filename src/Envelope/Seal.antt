-- ===== src/Envelope/Seal.antt =====
-- What `check`, `Sign` and `Verify` of internal/envelope/sign.go accept.
use askrelay.Base.{
  ℕ, ◌+◌, ◌≤◌, Text, Bytes, true, List, [], ◌∷◌, length, ltb, if◌then◌else◌, some, ok, Result-cases,
  inl, inr, ◌≡◌, refl, ◌∙◌, arith,
}
use askrelay.Envelope.{
  External, Envelope, Part, Json, append_canonical, canonical, check, sign, verify,
}

-- The bytes of a character in UTF-8.
abbrev pub utf8_width : ℕ → ℕ
utf8_width r = if ltb r 0x80 then 1 else if ltb r 0x800 then 2 else if ltb r 0x10000 then 3 else 4

abbrev pub text_width : Text → ℕ
text_width [] = 0
text_width (r ∷ s) = utf8_width r + text_width s

abbrev pub parts_width : List Part → ℕ
parts_width [] = 0
parts_width (p ∷ ps) = text_width p.text + parts_width ps

module _ {B : Type 0} (ext : External B) where
  -- The RFC 8785 form of the JSON that the envelope, without its signature, is encoded as.
  abbrev pub IsCanonical : Envelope → Bytes → Type 0
  IsCanonical e canon =
      (raw : B) × (j : Json) × (ext.marshal (record e { sig = [] }) ≡ some raw)
      × (ext.parse_json raw ≡ some j)
      × (append_canonical ext.parse_float j ≡ ok canon)

  -- The envelope is within the limits, and these are its canonical bytes.
  abbrev pub Accepted : Envelope → Bytes → Type 0
  Accepted e canon =
      (e.v ≡ 1)
      × (length e.body.parts ≤ 16)
      × (parts_width e.body.parts ≤ 32768)
      × IsCanonical e canon
      × (length canon ≤ 65536)

  -- The signature is outside what is signed.
  check-sig : (e : Envelope) (s : Bytes) → check ext (record e { sig = s }) ≡ check ext e
  unfolding check canonical
  check-sig e s = refl

  sign-eq-ok :
      (e signed : Envelope) (priv : Bytes)
      → sign ext e priv ≡ ok signed
      → (c : Bytes) × (check ext e ≡ ok c) × (signed ≡ record e { sig = ext.sign priv c })
  unfolding sign
  sign-eq-ok e signed priv h = elim (Result-cases (check ext e)) [
    | inl (c, q) ↦ (c, q, ground arith)
    | inr (_, q) ↦ absurd (ground arith)
  ]

  verify-good :
      (e : Envelope) (c pub_key : Bytes)
      → check ext e ≡ ok c
      → length pub_key ≡ 32
      → length e.sig ≡ 64
      → ext.verify pub_key c e.sig ≡ true
      → verify ext e pub_key ≡ ok tt
  unfolding verify
  verify-good e c pub_key q size wide good = ground arith

  -- What `sign` has signed, `verify` accepts, under a public key of 32 bytes whose Ed25519
  -- signatures by the private key have 64 bytes and are verified.
  pub verify-sign :
      (e signed : Envelope) (priv pub_key : Bytes)
      → length pub_key ≡ 32
      → ((m : Bytes) → length (ext.sign priv m) ≡ 64)
      → ((m : Bytes) → ext.verify pub_key m (ext.sign priv m) ≡ true)
      → sign ext e priv ≡ ok signed
      → (verify ext signed pub_key ≡ ok tt) × (record signed { sig = e.sig } ≡ e)
  verify-sign e signed priv pub_key size wide good h =
      let (c, q, same) = sign-eq-ok e signed priv h in
      rw same (
        verify-good (record e { sig = ext.sign priv c }) c pub_key
            (check-sig e (ext.sign priv c) ∙ q) size (wide c) (good c),
        refl,
      )
