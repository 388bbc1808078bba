-- ===== src/Csv/Functions.antt =====
-- csv/csv.c: the awk functions `csvconvert` and `csvsplit`, and the input parser that gawk calls.
-- A string of gawk's is the list of its bytes, and a terminator stands behind it.
pub mod Arguments
use gawkextlib.Common.{
  ℕ, ◌+◌, Bool, true, false, not, ◌&&◌, ◌||◌, Option, none, some, List, [], ◌∷◌, ◌++◌, Bytes,
  c_string, Run, ok, ◌>>=◌, length, take, ltb, ◌==◌, if◌then◌else◌,
}
use gawkextlib.Csv.Convert.{ConvertState, csv_convert_record}
use gawkextlib.Csv.FieldWidth.{FieldAllocator, FieldWidthInfo}
use gawkextlib.Csv.Input.{
  ReadByte, CsvReader, InputState, csv_reader_init, csv_read, csv_reader_close,
}
use gawkextlib.Csv.Split.{SplitState, csv_split_record, read_block}
use gawkextlib.Csv.StrBuf.{Allocator, StrBuf, strbuf_value, strbuf_length}
use gawkextlib.Gawk.{ArrayApi}

-- What `lintwarn` was told, of the argument with this number.
pub data Warning : Type 0 where
  truncated wrong_argument : ℕ → Warning

-- The static variable `warned` of a function, and the warnings.
pub record Lint : Type 0 where
  pub warned : Bool
  pub said : List Warning

-- `if (do_lint && !*warned) { lintwarn(…); *warned = awk_true; }`
unfoldable pub warn_once : Bool → Warning → Lint → Lint
warn_once do_lint w l =
    if do_lint && not l.warned then record { warned = true; said = l.said ++ w ∷ [] } else l

-- `arg` is the argument `k`, or `none` where `get_argument` fails.
unfoldable pub get_char_argument : Bool → ℕ → ℕ → ℕ → Option Bytes → Lint → ℕ × Lint
get_char_argument do_lint k nargs defval arg l =
    if ltb k nargs
    then elim arg [
      | none ↦ (defval, warn_once do_lint (wrong_argument (k + 1)) l)
      | some s ↦ elim s [
        | [] ↦ (defval, warn_once do_lint (wrong_argument (k + 1)) l)
        | c ∷ more ↦ (c, if ltb 0 (length more) then warn_once do_lint (truncated (k + 1)) l else l)
      ]
    ]
    else (defval, l)

-- What the functions return.
pub data Value : Type 0 where
  null_string minus_one fatal_error : Value
  number : ℕ → Value
  text : Bytes → Value

-- `*csvfs`: without the argument, a string of one NUL and its terminator.
unfoldable pub separator_argument : ℕ → Option Bytes → Lint → Bytes × Lint
separator_argument nargs arg l =
    if ltb 1 nargs
    then elim arg [
      | none ↦ (0 ∷ 0 ∷ [], record { warned = true; said = l.said ++ wrong_argument 2 ∷ [] })
      | some s ↦ (c_string s [], l)
    ]
    else (0 ∷ 0 ∷ [], l)

-- `sbuf` is the static buffer that the last call left, and `fuel` bounds the parser's rounds.
unfoldable pub do_csvconvert :
    Allocator → ℕ → StrBuf → Bool → ℕ → (ℕ → Option Bytes) → Lint → Run (StrBuf × Value × Lint)
do_csvconvert mem fuel sbuf do_lint nargs args l = elim (args 0) [
  | none ↦ ok (sbuf, null_string, warn_once do_lint (wrong_argument 1) l)
  | some csv_record ↦ do
    let csvfs = separator_argument nargs (args 1) l
    let comma = get_char_argument do_lint 2 nargs b',' (args 2) csvfs.1
    let quote = get_char_argument do_lint 3 nargs b'"' (args 3) comma.1
    r ← csv_convert_record mem fuel sbuf csv_record csvfs.0 comma.0 quote.0 0
    value ← strbuf_value r.sbuf
    result ← read_block value.str r.sbuf.len
    ok (value, text result, quote.1)
]

module _ (api : ArrayApi) (mem : Allocator) where
  open api use {Array, clear_array}

  -- `fields` is the argument 1, if it is an array; it comes back as it is left.
  unfoldable pub do_csvsplit :
      ℕ
      → StrBuf
      → Bool
      → ℕ
      → (ℕ → Option Bytes)
      → Option Array
      → Lint
      → Run (StrBuf × Option Array × Value × Lint)
  do_csvsplit fuel sbuf do_lint nargs args fields l = elim (args 0) [
    | none ↦ ok (sbuf, fields, minus_one, warn_once do_lint (wrong_argument 1) l)
    | some csv_record ↦ elim fields [
      | none ↦ ok (sbuf, none, fatal_error, l)
      | some a ↦ do
        let comma = get_char_argument do_lint 2 nargs b',' (args 2) l
        let quote = get_char_argument do_lint 3 nargs b'"' (args 3) comma.1
        (r, nfields) ←
            csv_split_record api mem do_lint fuel sbuf csv_record (clear_array a) comma.0 quote.0 0
        ok (r.sbuf, some r.oaf, number nfields, quote.1)
    ]
  ]

-- The cached control variables, where gawk has them as a number and as strings.
pub record Control : Type 0 where
  pub csvmode : Option ℕ
  pub csvcomma : Option Bytes
  pub csvquote : Option Bytes
  pub csvfs : Option Bytes

abbrev is_some : Option Bytes → Bool
is_some none = false
is_some (some s) = true

-- CSVMODE is taken to be a whole number.
unfoldable pub csv_can_take_file : Control → Bool
csv_can_take_file v = elim v.csvmode [
  | none ↦ false
  | some mode ↦ is_some v.csvcomma && is_some v.csvquote && is_some v.csvfs && not (mode == 0)
]

-- `str[0]`, the terminator included.
unfoldable pub first_char : Bytes → ℕ
first_char [] = 0
first_char (c ∷ s) = c

-- What `csv_get_record` gives to gawk: the record, its terminator, and CSVRECORD.
pub record Record : Type 0 where
  pub out : Bytes
  pub rt : Bytes
  pub csv_record : Bytes

module _ {W : Type 0} (read : W → ℕ → W × ReadByte) (mem : Allocator)
    (fields : FieldAllocator) where
  -- The reader that `iobuf->opaque` is set to; CSVRECORD becomes the null string.
  unfoldable pub csv_take_control_of : ℕ → ℕ → Bytes → Bytes → Bytes → CsvReader
  csv_take_control_of fd mode comma quote fs =
      csv_reader_init read mem fields fd mode (first_char comma) (first_char quote)
        (some (c_string fs [])) (length fs)

  -- `none` is EOF, where nothing else is set.
  unfoldable pub csv_get_record : ℕ → CsvReader → W → Run (InputState W × Option Record)
  csv_get_record fuel cr w = do
    (s, len) ← csv_read read mem fields fuel cr w
    elim len [
      | none ↦ ok (s, none)
      | some n ↦ do
        awk ← strbuf_value s.rdr.awk_record
        out ← read_block awk.str n
        csv ← strbuf_value s.rdr.csv_record
        rec ← read_block csv.str (strbuf_length csv)
        let rdr = record (s.rdr) { awk_record = awk; csv_record = csv }
        ok (
          record s { rdr = rdr },
          some (record { out = out; rt = take s.rdr.rt_len s.rdr.rt; csv_record = rec }),
        )
    ]
