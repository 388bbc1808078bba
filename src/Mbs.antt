-- ===== src/Mbs.antt =====
-- mbs/mbs.c: the four functions on multibyte strings. What they say in warnings is left out, but
-- not the values that they return then. `char` is signed; a string is the list of its bytes.
pub mod RoundTrip
pub mod Width
mod Tests
use gawkextlib.Common.{
  ℕ, zero, suc, ◌+◌, ◌-◌, ◌%◌, ◌^◌, ◌≡◌, Bool, true, false, ◌&&◌, Option, none, some, List, [], ◌∷◌,
  Bytes, Run, ok, fault, out_of_bounds, uninitialised, out_of_fuel, ◌>>=◌, length, set, take, drop,
  ltb, ◌==◌, if◌then◌else◌,
}
use gawkextlib.Gawk.{Numbers, NumberArrayApi}

-- What the functions return: a number that is not negative, -1, or a string.
pub data Value : Type 0 where
  number : ℕ → Value
  minus_one : Value
  text : Bytes → Value

-- An argument is `none` where `get_argument` fails for it.
unfoldable pub do_mbs_length : Bool → ℕ → Option Bytes → Value
do_mbs_length do_lint nargs x =
    if do_lint && nargs == 0
    then minus_one
    else elim x [ none ↦ minus_one | some s ↦ number (length s) ]

-- `((int) c) & 0xff`: the byte is sign-extended to 32 bits, and cut again.
unfoldable pub low_byte : ℕ → ℕ
low_byte c = (if ltb c 128 then c else c + 2 ^ 32 - 256) % 2 ^ 8

module _ (numbers : Numbers) (api : NumberArrayApi numbers.Num) where
  open numbers use {of_int, to_int}
  open api use {Array, get_array_element, get_element_count, set_array_element, clear_array}

  -- The loop over `string_param` from the place `i` on.
  unfoldable pub split_from : ℕ → Bytes → Array → Array
  split_from i [] a = a
  split_from i (c ∷ s) a =
      split_from (i + 1) s (set_array_element a (i + 1) (of_int (low_byte c))).0

  -- The array comes back as it is left.
  unfoldable pub do_mbs_split : Bool → ℕ → Option Bytes → Option Array → Option Array × Value
  do_mbs_split do_lint nargs string_param array_param =
      if do_lint && nargs == 0 then (array_param, minus_one) else elim string_param [
        | none ↦ (array_param, minus_one)
        | some s ↦ elim array_param [
          | none ↦ (none, minus_one)
          | some a ↦ (some (split_from 0 s (clear_array a)), number (length s))
        ]
      ]

  -- `buffer[j] = c`
  put : Bytes → ℕ → ℕ → Run Bytes
  put buffer j c = if ltb j (length buffer) then ok (set buffer j c) else fault out_of_bounds

  -- The loop over `n` subscripts from `i` on, and `j`.
  unfoldable pub join_from : ℕ → ℕ → Array → Bytes → ℕ → Run (Bytes × ℕ)
  unfolding put
  join_from zero i a buffer j = ok (buffer, j)
  join_from (suc n) i a buffer j = elim (get_array_element a i) [
    | none ↦ join_from n (i + 1) a buffer j
    | some value ↦ do
      buffer' ← put buffer j (to_int value % 2 ^ 8)
      join_from n (i + 1) a buffer' (j + 1)
  ]

  -- `make_malloced_string` takes over the block: the string is its first `j` bytes.
  unfoldable pub join_elements : (ℕ → Option Bytes) → Array → ℕ → Run Value
  unfolding put
  join_elements gawk_malloc a count = elim (gawk_malloc (count + 1)) [
    | none ↦ ok (text [])
    | some block ↦ do
      (buffer, j) ← join_from count 1 a block 0
      ended ← put buffer j 0
      ok (text (take j ended))
  ]

  unfoldable pub do_mbs_join : (ℕ → Option Bytes) → Bool → ℕ → Option Array → Run Value
  do_mbs_join gawk_malloc do_lint nargs array_param =
      if do_lint && nargs == 0 then ok (text []) else elim array_param [
        | none ↦ ok minus_one
        | some a ↦ elim (get_element_count a) [
          | none ↦ ok (text [])
          | some count ↦ if count == 0 then ok (text []) else join_elements gawk_malloc a count
        ]
      ]

-- The results of `mbrtowc`: -1, -2, 0, and a number of bytes with the character.
pub data Decoded : Type 0 where
  invalid incomplete nul : Decoded
  wide : ℕ → ℕ → Decoded

-- The C library's conversion, on a state of its own, and its widths; `none` is -1.
pub record Multibyte : Type 1 where
  pub State : Type 0
  pub initial : State
  pub mbrtowc : State → Bytes → State × Decoded
  pub wcwidth : ℕ → Option ℕ

abbrev pub replacement : ℕ
replacement = 0xFFFD

module _ (lib : Multibyte) where
  open lib use {State, initial, mbrtowc, wcwidth}

  -- What a character adds to `column_count`: its width, if that is greater than 0.
  unfoldable pub columns : ℕ → ℕ
  columns wc = elim (wcwidth wc) [ none ↦ 0 | some width ↦ width ]

  -- The loop over the bytes that are left, with fuel for the rounds.
  unfoldable pub width_loop : ℕ → Bool → State → Bytes → ℕ → Run ℕ
  width_loop fuel using_utf mbs [] column_count = ok column_count
  width_loop zero using_utf mbs (c ∷ sp) column_count = fault out_of_fuel
  width_loop (suc fuel) using_utf mbs (c ∷ sp) column_count =
      let bad =
        width_loop fuel using_utf initial sp
          (if using_utf then column_count + columns replacement else column_count) in
      let st = (mbrtowc mbs (c ∷ sp)).0 in
      elim ((mbrtowc mbs (c ∷ sp)).1) [
        | invalid ↦ bad
        | incomplete ↦ bad
        | nul ↦ width_loop fuel using_utf st sp (column_count + columns 0)
        | wide n wc ↦ width_loop fuel using_utf st (drop n (c ∷ sp)) (column_count + columns wc)
      ]

  -- `not_utf` is `none` where `get_argument` fails for a number; then `num_value` is not set, and
  -- it is this case in which the code reads it.
  unfoldable pub do_mbs_wcswidth : ℕ → Bool → ℕ → Option Bytes → Option ℕ → Run Value
  do_mbs_wcswidth fuel do_lint nargs string not_utf =
      if do_lint && nargs == 0 then ok minus_one else elim string [
        | none ↦ ok minus_one
        | some s ↦
            if ltb 1 nargs
            then elim not_utf [ none ↦ fault uninitialised | some n ↦ ok minus_one ]
            else (do width ← width_loop fuel true initial s 0; ok (number width))
      ]
