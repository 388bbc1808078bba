-- ===== src/Xml/Encodings.antt =====
-- xml/xml_enc_handler.c and xml/encoding.h: encodings that expat does not know. The tables are made
-- by the build, and so are parameters.
pub mod Decode
pub mod Names
pub mod Bits
mod Tests
use gawkextlib.Common.{
  ℕ, zero, suc, ◌+◌, ◌-◌, ◌/◌, ◌%◌, ◌^◌, Bool, true, false, not, ◌&&◌, ◌||◌, Option, none, some,
  List, [], ◌∷◌, map, Bytes, Run, ok, fault, out_of_bounds, ◌>>=◌, length, get_elem?, get_or, same,
  ltb, leb, ◌==◌, if◌then◌else◌,
}

-- The bit vectors have 32 bytes each.
pub record PrefixMap : Type 0 where
  pub min : ℕ
  pub len : ℕ
  pub bmap_start : ℕ
  pub ispfx : Bytes
  pub ischar : Bytes

-- `firstmap` is of a type `M` of tables of 256 `int`, which is only copied. The sizes are those of
-- the lists.
pub record Encinfo (M : Type 0) : Type 0 where
  pub firstmap : M
  pub prefixes : List PrefixMap
  pub bytemap : List ℕ

-- What a byte comes to: another prefix map, a character, or nothing.
pub data Mapped : Type 0 where
  index character : ℕ → Mapped
  unmapped : Mapped

-- `bits[byte >> 3] & (1 << (byte & 7))`
unfoldable pub has_bit : Bytes → ℕ → Bool
has_bit bits byte = (get_or bits (byte / 8) 0 / 2 ^ (byte % 8)) % 2 == 1

-- The byte is one of those that the prefix map covers; a length of 0 stands for 256.
unfoldable pub covers : PrefixMap → ℕ → Bool
covers pfx byte = leb pfx.min byte && (ltb (byte - pfx.min) pfx.len || pfx.len == 0)

unfoldable pub fetch {ℓ} : {A : Type ℓ} → List A → ℕ → Run A
fetch l i = elim (get_elem? l i) [ none ↦ fault out_of_bounds | some a ↦ ok a ]

module _ {M : Type 0} (enc : Encinfo M) where
  -- The body of the loop.
  unfoldable pub convert_byte : PrefixMap → ℕ → Run Mapped
  convert_byte pfx byte =
      if not (covers pfx byte)
      then ok unmapped
      else if has_bit pfx.ispfx byte
      then (do n ← fetch enc.bytemap (pfx.bmap_start + (byte - pfx.min)); ok (index n))
      else if has_bit pfx.ischar byte
      then (do n ← fetch enc.bytemap (pfx.bmap_start + (byte - pfx.min)); ok (character n))
      else ok unmapped

  -- The loop, with what is left of its four rounds. `none` is -1.
  unfoldable pub convert_from : ℕ → ℕ → Bytes → Run (Option ℕ)
  convert_from zero i seq = ok none
  convert_from (suc rounds) i [] = fault out_of_bounds
  convert_from (suc rounds) i (byte ∷ seq) = do
    pfx ← fetch enc.prefixes i
    mapped ← convert_byte pfx byte
    elim mapped [
      | index n ↦ convert_from rounds n seq
      | character n ↦ ok (some n)
      | unmapped ↦ ok none
    ]

  unfoldable pub convert_to_unicode : Bytes → Run (Option ℕ)
  convert_to_unicode seq = convert_from 4 0 seq

-- `Make uppercase, do not use toupper()`
unfoldable pub upper : ℕ → ℕ
upper c = if leb b'a' c && leb c b'z' then c - 32 else c

unfoldable pub find_encoding : {M : Type 0} → Bytes → List (Bytes × Encinfo M) → Option (Encinfo M)
find_encoding name [] = none
find_encoding name ((n, enc) ∷ rest) =
    let found = find_encoding name rest in if same n name then some enc else found

-- What expat is given: the table for first bytes, and the data of the conversion where there is one.
pub record XmlEncoding (M : Type 0) : Type 0 where
  pub first : M
  pub conversion : Option (Encinfo M)

-- `unknownEncoding`; `none` is XML_STATUS_ERROR.
unfoldable pub unknown_encoding :
    {M : Type 0} → List (Bytes × Encinfo M) → Bytes → Option (XmlEncoding M)
unknown_encoding encs name =
    if ltb 40 (length name) then none else elim (find_encoding (map upper name) encs) [
      | none ↦ none
      | some enc ↦ some (record {
        first = enc.firstmap;
        conversion = if ltb 0 (length enc.prefixes) then some enc else none;
      })
    ]
