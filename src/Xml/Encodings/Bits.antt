-- ===== src/Xml/Encodings/Bits.antt =====
-- xml/encoding.h: the bit vectors of a prefix map, bit by bit.
use native.Mathlib.Nat.{zero-div, div-one}
use gawkextlib.Common.{
  ℕ, zero, suc, ◌/◌, ◌%◌, ◌^◌, ◌≡◌, refl, Bool, false, List, [], ◌∷◌, Bytes, get_or, ◌==◌, arith,
}
use gawkextlib.Xml.Encodings.{has_bit}

-- The bits of a byte, the lowest first, in front of others.
abbrev pub byte_bits : ℕ → List Bool → List Bool
byte_bits v rest =
    (v % 2 == 1)
    ∷ (v / 2 % 2 == 1)
    ∷ (v / 4 % 2 == 1)
    ∷ (v / 8 % 2 == 1)
    ∷ (v / 16 % 2 == 1)
    ∷ (v / 32 % 2 == 1)
    ∷ (v / 64 % 2 == 1)
    ∷ (v / 128 % 2 == 1)
    ∷ rest

abbrev pub all_bits : Bytes → List Bool
all_bits [] = []
all_bits (v ∷ bits) = byte_bits v (all_bits bits)

-- The bit at the place of a byte.
abbrev pub is_set : Bytes → ℕ → Bool
is_set bits byte = get_or (all_bits bits) byte false

no_bit : (n : ℕ) → (0 / n % 2 == 1) ≡ false
no_bit n = rw zero-div refl

pub has_bit-is_set : (bits : Bytes) (byte : ℕ) → has_bit bits byte ≡ is_set bits byte
unfolding has_bit
has_bit-is_set [] byte = no_bit (2 ^ (byte % 8))
has_bit-is_set (v ∷ bits) zero = rw div-one refl
has_bit-is_set (v ∷ bits) (suc zero) = refl
has_bit-is_set (v ∷ bits) (suc (suc zero)) = refl
has_bit-is_set (v ∷ bits) (suc (suc (suc zero))) = refl
has_bit-is_set (v ∷ bits) (suc (suc (suc (suc zero)))) = refl
has_bit-is_set (v ∷ bits) (suc (suc (suc (suc (suc zero))))) = refl
has_bit-is_set (v ∷ bits) (suc (suc (suc (suc (suc (suc zero)))))) = refl
has_bit-is_set (v ∷ bits) (suc (suc (suc (suc (suc (suc (suc zero))))))) = refl
has_bit-is_set (v ∷ bits) (suc (suc (suc (suc (suc (suc (suc (suc n)))))))) =
    let byte = suc (suc (suc (suc (suc (suc (suc (suc n))))))) in
    let quotient : byte / 8 ≡ suc (n / 8) = omega arith in
    let remainder : byte % 8 ≡ n % 8 = omega arith in
    rw (quotient, remainder) (has_bit-is_set bits n)
