-- ===== src/StrHash/Hash/Equal.antt =====
-- lib/strhash.c: what the macro STREQNN decides.
use gawkextlib.Common.{◌≡◌, ◌↔◌, true, [], ◌∷◌, Bytes, length, arith, refl}
use gawkextlib.StrHash.Hash.{memcmp, streqnn}

memcmp_sound : (a b : Bytes) → length a ≡ length b → memcmp a b (length a) ≡ true → a ≡ b
unfolding memcmp
memcmp_sound [] [] l h = refl
memcmp_sound [] (y ∷ b) l h = absurd (omega arith)
memcmp_sound (x ∷ a) [] l h = absurd (omega arith)
memcmp_sound (x ∷ a) (y ∷ b) l h = ground (arith, memcmp_sound a b)

memcmp_refl : (a : Bytes) → memcmp a a (length a) ≡ true
unfolding memcmp
memcmp_refl [] = refl
memcmp_refl (x ∷ a) = ground (arith, memcmp_refl a)

-- The optimised comparison holds exactly of equal strings.
pub streqnn_iff : (a b : Bytes) → (streqnn a b ≡ true) ↔ (a ≡ b)
unfolding streqnn
streqnn_iff [] [] = ground arith
streqnn_iff [] (y ∷ b) = ground arith
streqnn_iff (x ∷ a) [] = ground arith
streqnn_iff (x ∷ a) (y ∷ b) = ground (arith, memcmp_sound a b, memcmp_refl a)

pub streqnn_refl : (a : Bytes) → streqnn a a ≡ true
streqnn_refl a = (streqnn_iff a a).1 refl
