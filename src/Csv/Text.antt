-- ===== src/Csv/Text.antt =====
-- csv/csv_split.c and csv/csv_convert.c: the text that `next_char` reads, one byte after another.
use native.Mathlib.Numerals.{add-one}
use native.Mathlib.Nat.{add-zero}
use gawkextlib.Common.{
  ℕ, ◌+◌, ◌≡◌, refl, Option, none, some, [], ◌∷◌, ◌++◌, Bytes, Run, ok, fault, out_of_bounds,
  length, drop, get_elem?, get_elem?-append_left, get_elem?-append_right, get_elem?-drop, drop-suc,
  arith,
}

-- `csv_record[pos]`: the string with its terminator is what may be read.
unfoldable pub char_at : Bytes → ℕ → Run ℕ
char_at csv_record pos = elim (get_elem? (csv_record ++ 0 ∷ []) pos) [
  | none ↦ fault out_of_bounds
  | some c ↦ ok c
]

-- The place `pos` has the bytes `cs` before it, up to the terminator; `none` is behind that.
abbrev pub AtText : Bytes → ℕ → Option Bytes → Type 0
AtText csv_record pos none = Unit
AtText csv_record pos (some cs) = (pos + length cs ≡ length csv_record) × (drop pos csv_record ≡ cs)

pub char_at-cons :
    (csv_record : Bytes) (pos c : ℕ) (cs : Bytes)
    → AtText csv_record pos (some (c ∷ cs))
    → (char_at csv_record pos ≡ ok c) × AtText csv_record (pos + 1) (some cs)
unfolding char_at
char_at-cons s pos c cs (len, rest) =
    let here : get_elem? s (pos + 0) ≡ some c = rw (← get_elem?-drop pos s 0) (rw rest refl) in
    (
      rw (get_elem?-append_left s (0 ∷ []) pos (omega arith), char_at) (rw (rw add-zero at here)),
      (omega arith, rw add-one (drop-suc pos s rest)),
    )

pub char_at-end :
    (csv_record : Bytes) (pos : ℕ) → AtText csv_record pos (some []) → char_at csv_record pos ≡ ok 0
unfolding char_at
char_at-end s pos (len, rest) =
    let at_end : get_elem? (s ++ 0 ∷ []) (length s + 0) ≡ some 0 =
      get_elem?-append_right s (0 ∷ []) 0 in
    let e : length s + 0 ≡ pos = omega arith in rw (rw e at at_end, char_at)
