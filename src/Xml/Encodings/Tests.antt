-- ===== src/Xml/Encodings/Tests.antt =====
-- xml/xml_enc_handler.c: an encoding of two bytes, decoded.
use mathlib.Core.Path.{subst}
use gawkextlib.Common.{
  ◌↔◌, ◌<◌, ◌≤◌, inl, inr, false, sym, get_elem?, ℕ, zero, suc, ◌+◌, ◌-◌, ◌≡◌, refl, true, Option,
  some, List, Bytes, [], ◌∷◌, ◌++◌, codes, ok, replicate, arith,
}
use gawkextlib.Xml.Encodings.Decode.{
  IsWellFormed, Decodes, Covers, reach, convert_to_unicode-Decodes,
}
use gawkextlib.Xml.Encodings.Bits.{is_set}
use gawkextlib.Xml.Encodings.Names.{Answers, unknown_encoding-Answers}
use gawkextlib.Xml.Encodings.{
  PrefixMap, Encinfo, has_bit, covers, fetch, convert_byte, convert_from, convert_to_unicode,
  unknown_encoding,
}

-- Two bytes, `a` and then `b`, are the character 900; all else is not mapped.
abbrev first_byte : PrefixMap
first_byte = record {
  min = 97;
  len = 1;
  bmap_start = 0;
  ispfx = replicate 12 0 ++ 2 ∷ replicate 19 0;
  ischar = replicate 32 0;
}

abbrev second_byte : PrefixMap
second_byte = record {
  min = 98;
  len = 1;
  bmap_start = 1;
  ispfx = replicate 32 0;
  ischar = replicate 12 0 ++ 4 ∷ replicate 19 0;
}

abbrev two_bytes : Encinfo ℕ
two_bytes = record {
  firstmap = 0;
  prefixes = first_byte ∷ second_byte ∷ [];
  bytemap = 1 ∷ 900 ∷ [];
}

decoded : convert_to_unicode two_bytes (codes "ab  ") ≡ ok (some 900)
unfolding convert_to_unicode convert_from convert_byte covers has_bit fetch
decoded = refl

the_map : (a b : PrefixMap) → some a ≡ some b → a ≡ b
the_map a b e = cc

part_of :
    (i : ℕ) (pfx : PrefixMap)
    → get_elem? two_bytes.prefixes i ≡ some pfx
    → pfx.bmap_start + reach pfx ≤ 2
part_of zero pfx p = rw (← the_map first_byte pfx p) (omega arith)
part_of (suc zero) pfx p = rw (← the_map second_byte pfx p) (omega arith)
part_of (suc (suc i)) pfx p = absurd (ground arith)

only : (m : PrefixMap) (byte : ℕ) → m.len ≡ 1 → Covers m byte → byte ≡ m.min
only m byte one (above, inl all) = absurd (omega arith)
only m byte one (above, inr below) = omega arith

next_of :
    (i byte next : ℕ) (pfx : PrefixMap)
    → get_elem? two_bytes.prefixes i ≡ some pfx
    → Covers pfx byte
    → is_set pfx.ispfx byte ≡ true
    → get_elem? two_bytes.bytemap (pfx.bmap_start + (byte - pfx.min)) ≡ some next
    → next < 2
next_of zero byte next pfx p c x e =
    let same = the_map first_byte pfx p in
    let covered = subst (λ (m : PrefixMap). Covers m byte) (sym same) c in
    let at : get_elem? two_bytes.bytemap (0 + (byte - 97)) ≡ some next =
      subst
        (λ (m : PrefixMap). get_elem? two_bytes.bytemap (m.bmap_start + (byte - m.min)) ≡ some next)
        (sym same) e in
    let one : some 1 ≡ some next =
      subst (λ (b : ℕ). get_elem? two_bytes.bytemap (0 + (b - 97)) ≡ some next)
        (only first_byte byte refl covered) at in
    ground arith
next_of (suc zero) byte next pfx p c x e =
    let same = the_map second_byte pfx p in
    let covered = subst (λ (m : PrefixMap). Covers m byte) (sym same) c in
    let set : is_set second_byte.ispfx byte ≡ true =
      subst (λ (m : PrefixMap). is_set m.ispfx byte ≡ true) (sym same) x in
    let impossible : false ≡ true =
      subst (λ (b : ℕ). is_set second_byte.ispfx b ≡ true) (only second_byte byte refl covered)
        set in
    cc
next_of (suc (suc i)) byte next pfx p c x e = absurd (ground arith)

two_bytes-IsWellFormed : IsWellFormed two_bytes
two_bytes-IsWellFormed = record { part = part_of; next_map = next_of }

abbrev registry : List (Bytes × Encinfo ℕ)
registry = (codes "BIG5", two_bytes) ∷ (codes "KOI8-R", two_bytes) ∷ []

unknown_encoding-Answers_example :
    Answers registry (codes "Koi8-r") (unknown_encoding registry (codes "Koi8-r"))
unknown_encoding-Answers_example = unknown_encoding-Answers registry (codes "Koi8-r")

convert_to_unicode-Decodes_example :
    ((r : Option ℕ) × (convert_to_unicode two_bytes (codes "ab  ") ≡ ok r))
    × ((convert_to_unicode two_bytes (codes "ab  ") ≡ ok (some 900))
        ↔ Decodes two_bytes 4 0 (codes "ab  ") 900)
convert_to_unicode-Decodes_example =
    convert_to_unicode-Decodes two_bytes (codes "ab  ") 900 two_bytes-IsWellFormed
      (omega arith, (omega arith, (omega arith, (omega arith, tt)))) (ground arith) (ground arith)
