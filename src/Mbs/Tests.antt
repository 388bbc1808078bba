-- ===== src/Mbs/Tests.antt =====
-- mbs/mbs.c: the theorems at concrete inputs.
use gawkextlib.Common.{
  ℕ, ◌+◌, ◌≡◌, ◌<◌, ◌≤◌, length, refl, Bool, true, false, Option, none, some, List, [], ◌∷◌, Bytes,
  codes, ok, replicate, ltb, ◌==◌, if◌then◌else◌, arith,
}
use gawkextlib.Gawk.{Numbers, NumberArrayApi}
use gawkextlib.Mbs.RoundTrip.{do_mbs_join-do_mbs_split}
use gawkextlib.Mbs.Width.{Piece, all_bytes, Decode, total_width, do_mbs_wcswidth-pieces}
use gawkextlib.Mbs.{
  number, text, Decoded, invalid, nul, wide, Multibyte, do_mbs_split, do_mbs_join, do_mbs_wcswidth,
  width_loop, columns,
}

abbrev naturals : Numbers
naturals = record { Num = ℕ; of_int = λ n. n; to_int = λ n. n; to_int-of_int = λ n h. refl }

-- An array with the number of its elements.
record Counted : Type 0 where
  count : ℕ
  at : ℕ → Option ℕ

abbrev is_some : Option ℕ → Bool
is_some none = false
is_some (some v) = true

abbrev store_at : Counted → ℕ → ℕ → Counted
store_at a i v = record {
  count = if is_some (a.at i) then a.count else a.count + 1;
  at = λ j. if i == j then some v else a.at j;
}

is_some-store_at :
    (i j v : ℕ) (o : Option ℕ)
    → is_some (if i == j then some v else o) ≡ (if i == j then true else is_some o)
is_some-store_at i j v o = ground arith

count-store_at :
    (a : Counted) (i n v : ℕ)
    → is_some (a.at i) ≡ false
    → some a.count ≡ some n
    → some (store_at a i v).count ≡ some (n + 1)
count-store_at a i n v free e = rw free cc

abbrev counted : NumberArrayApi ℕ
counted = record {
  Array = Counted;
  has = λ a i. is_some (a.at i);
  get_array_element = λ a i. a.at i;
  get_element_count = λ a. some a.count;
  set_array_element = λ a i v. (store_at a i v, true);
  clear_array = λ a. record { count = 0; at = λ i. none };
  has-clear_array = λ a i. refl;
  get_element_count-clear_array = λ a. refl;
  has-set_array_element = λ a i j v h. is_some-store_at i j v (a.at j);
  get-set_array_element = λ a i j v h. refl;
  get_element_count-set_array_element = λ a i n v h free e. count-store_at a i n v free e;
}

abbrev old : Counted
old = record { count = 1; at = λ i. if i == 7 then some 5 else none }

do_mbs_join-do_mbs_split_example :
    (filled : Counted) × (do_mbs_split naturals counted true 2 (some (200 ∷ codes "a")) (some old)
      ≡ (some filled, number 2))
    × (do_mbs_join naturals counted (λ n. some (replicate n 9)) true 1 (some filled)
        ≡ ok (text (200 ∷ codes "a")))
do_mbs_join-do_mbs_split_example =
    do_mbs_join-do_mbs_split naturals counted (λ n. some (replicate n 9)) true 2 1 (200 ∷ codes "a")
      (replicate 3 9) old (λ a i v. refl) (omega arith) refl refl (omega arith) (omega arith)

-- A conversion in which 0xC0 starts two bytes of a wide character, and only ASCII stands alone.
abbrev decode : Bytes → Decoded
decode [] = invalid
decode (b ∷ []) = if ltb b 128 then (if b == 0 then nul else wide 1 b) else invalid
decode (b ∷ c ∷ s) =
    if b == 0xC0
    then wide 2 (256 + c)
    else if ltb b 128
    then (if b == 0 then nul else wide 1 b)
    else invalid

abbrev two_bytes : Multibyte
two_bytes = record {
  State = Unit {0};
  initial = tt;
  mbrtowc = λ st s. (tt, decode s);
  wcwidth = λ wc. if ltb wc 256 then some 1 else some 2;
}

decode-lawful : (s : Bytes) (n wc : ℕ) → decode s ≡ wide n wc → (0 < n) × (n ≤ length s)
decode-lawful [] n wc e = cc
decode-lawful (b ∷ []) n wc e = (ground arith, ground arith)
decode-lawful (b ∷ c ∷ s) n wc e = (ground arith, ground arith)

-- A wide character, a stray byte, a null byte and a letter.
abbrev mixed : Bytes
mixed = 0xC0 ∷ 5 ∷ 0xFF ∷ 0 ∷ codes "a"

do_mbs_wcswidth-pieces_example :
    (ps : List Piece) × (all_bytes ps ≡ mixed)
    × Decode two_bytes tt ps
    × (do_mbs_wcswidth two_bytes 5 true 1 (some mixed) none
        ≡ ok (number (total_width two_bytes ps)))
do_mbs_wcswidth-pieces_example =
    do_mbs_wcswidth-pieces two_bytes 5 true mixed none (λ st s n wc e. decode-lawful s n wc e)
      (omega arith)

mixed_width : do_mbs_wcswidth two_bytes 5 true 1 (some mixed) none ≡ ok (number 6)
unfolding do_mbs_wcswidth width_loop columns
mixed_width = refl
