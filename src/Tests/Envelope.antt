-- ===== src/Tests/Envelope.antt =====
-- Envelopes within the limits, signed and verified, and the order of an object's keys.
use askrelay.Base.{ℕ, ◌≡◌, refl, ok, codes, List, [], ◌∷◌, arith}
use mathlib.Core.List.{Permᴰ}
use askrelay.Envelope.{Envelope, check, sign, verify, sort_keys, insert_key, compare_utf16}
use askrelay.Envelope.Seal.{verify-sign}
use askrelay.Envelope.Order.{InKeyOrder, sort_keys-InKeyOrder}
use askrelay.Tests.Data.{ext, envelope, repeat}

-- The example's canonical form has four bytes.
abbrev signed : Envelope
signed = record (envelope 70 1 2 1) { sig = repeat 64 4 }

verify-sign_example :
    (verify ext signed (repeat 32 0) ≡ ok tt) × (record signed { sig = [] } ≡ envelope 70 1 2 1)
unfolding sign check askrelay.Envelope.body_size askrelay.Envelope.byte_length
    askrelay.Envelope.canonical askrelay.Envelope.append_canonical
verify-sign_example =
    verify-sign ext (envelope 70 1 2 1) signed (repeat 64 1) (repeat 32 0) refl (λ m. refl)
      (λ m. ground arith) refl

abbrev members : List (List ℕ × ℕ)
members = (codes "sig", 1) ∷ (0x1f600 ∷ [], 2) ∷ (0xfb33 ∷ [], 3) ∷ (codes "id", 4) ∷ []

sort_keys-InKeyOrder_example : InKeyOrder (sort_keys members) × Permᴰ members (sort_keys members)
sort_keys-InKeyOrder_example = sort_keys-InKeyOrder members

-- A surrogate pair comes before a code unit from 0xe000 on, as RFC 8785 wants it.
sorted_members :
    sort_keys members
    ≡ (codes "id", 4) ∷ (codes "sig", 1) ∷ (0x1f600 ∷ [], 2) ∷ (0xfb33 ∷ [], 3) ∷ []
unfolding sort_keys insert_key compare_utf16
sorted_members = refl
