-- ===== src/Csv/Split.antt =====
-- csv/csv_split.c: a record into the elements of an awk array, from subscript 1 on.
pub mod Correct
pub mod RoundTrip
use gawkextlib.Common.{
  ℕ, zero, suc, ◌+◌, Bool, true, false, not, ◌&&◌, List, [], ◌∷◌, ◌++◌, Bytes, Run, ok, fault,
  null_pointer, use_after_free, ◌>>=◌, take, length, if◌then◌else◌,
}
use gawkextlib.Csv.Excerpt.{Diagnostic, error_excerpt}
use gawkextlib.Csv.Parser.{CsvParser, Message, csv_parse}
use gawkextlib.Csv.StrBuf.{
  Allocator, Block, null, freed, block, StrBuf, strbuf_start, strbuf_init, strbuf_put_char,
}
use gawkextlib.Csv.Text.{char_at}
use gawkextlib.Gawk.{ArrayApi}

-- What `make_const_user_input(sbuf.str, sbuf.length, …)` copies.
unfoldable pub read_block : Block → ℕ → Run Bytes
read_block null n = fault null_pointer
read_block freed n = fault use_after_free
read_block (block b) n = ok (take n b)

module _ (api : ArrayApi) (mem : Allocator) where
  open api use {Array, set_array_element}

  -- The static variables of the file, and what `nonfatal` and `lintwarn` were told.
  pub record SplitState : Type 0 where
    pub csv_record : Bytes
    pub pos : ℕ
    pub sbuf : StrBuf
    pub fieldcount : ℕ
    pub oaf : Array
    pub diagnostics : List Diagnostic
    pub lint_warnings : ℕ

  unfoldable pub next_char : SplitState → Run (SplitState × ℕ)
  next_char s = do c ← char_at s.csv_record s.pos; ok (record s { pos = s.pos + 1 }, c)

  unfoldable pub begin_field : SplitState → Run SplitState
  begin_field s = ok (record s { sbuf = strbuf_start s.sbuf })

  -- `do_lint` says whether gawk was started with lint warnings.
  unfoldable pub end_field : Bool → SplitState → Run SplitState
  end_field do_lint s = do
    value ← read_block s.sbuf.str s.sbuf.len
    let (oaf', done) = set_array_element s.oaf (s.fieldcount + 1) value
    ok (record s {
      fieldcount = s.fieldcount + 1;
      oaf = oaf';
      lint_warnings = if not done && do_lint then s.lint_warnings + 1 else s.lint_warnings;
    })

  unfoldable pub mark_field : SplitState → Run SplitState
  mark_field s = ok s

  unfoldable pub backspace_field : SplitState → Run SplitState
  backspace_field s = ok s

  -- The result of `strbuf_put_char` is not looked at.
  unfoldable pub put_char : ℕ → SplitState → Run SplitState
  put_char c s = do (sb, _) ← strbuf_put_char mem s.sbuf c; ok (record s { sbuf = sb })

  unfoldable pub error : Message → SplitState → Run SplitState
  error msg s =
      ok (record s { diagnostics = s.diagnostics ++ error_excerpt msg s.csv_record s.pos ∷ [] })

  abbrev pub split_parser : Bool → ℕ → ℕ → ℕ → CsvParser SplitState
  split_parser do_lint comma quote options = record {
    delim_char = comma;
    quote_char = quote;
    options = options;
    next_char = next_char;
    begin_field = begin_field;
    end_field = end_field do_lint;
    mark_field = mark_field;
    backspace_field = backspace_field;
    put_char = put_char;
    error = error;
  }

  -- The static variables when the parser starts; `sbuf` is the buffer as the last call left it.
  abbrev pub split_start : StrBuf → Bytes → Array → SplitState
  split_start sbuf s af = record {
    csv_record = s;
    pos = 0;
    sbuf = (strbuf_init mem sbuf).0;
    fieldcount = 0;
    oaf = af;
    diagnostics = [];
    lint_warnings = 0;
  }

  -- `fuel` bounds the parser's rounds.
  unfoldable pub csv_split_record :
      Bool → ℕ → StrBuf → Bytes → Array → ℕ → ℕ → ℕ → Run (SplitState × ℕ)
  csv_split_record do_lint fuel sbuf s af comma quote options = do
    r ← csv_parse (split_parser do_lint comma quote options) fuel (split_start sbuf s af)
    ok (r, r.fieldcount)
