-- ===== src/Csv/Convert.antt =====
-- csv/csv_convert.c: a record into one string, its fields joined by the output separator.
pub mod Join
pub mod Correct
use gawkextlib.Common.{
  ℕ, ◌+◌, Bool, true, false, List, [], ◌∷◌, ◌++◌, Bytes, Option, none, some, Run, ok, fault,
  out_of_bounds, ◌>>=◌, ◌==◌, if◌then◌else◌,
}
use gawkextlib.Csv.Excerpt.{Diagnostic, error_excerpt}
use gawkextlib.Csv.Parser.{CsvParser, Message, csv_parse}
use gawkextlib.Csv.StrBuf.{Allocator, StrBuf, strbuf_init, strbuf_put_char, strbuf_put_string}
use gawkextlib.Csv.Text.{char_at}

-- The static variables of the file, and what `nonfatal` was told. `ofs` is the readable memory at
-- the pointer, its terminator included.
pub record ConvertState : Type 0 where
  pub csv_record : Bytes
  pub pos : ℕ
  pub sbuf : StrBuf
  pub fieldcount : ℕ
  pub ofs : Bytes
  pub diagnostics : List Diagnostic

unfoldable pub next_char : ConvertState → Run (ConvertState × ℕ)
next_char s = do c ← char_at s.csv_record s.pos; ok (record s { pos = s.pos + 1 }, c)

unfoldable pub end_field : ConvertState → Run ConvertState
end_field s = ok (record s { fieldcount = s.fieldcount + 1 })

unfoldable pub mark_field : ConvertState → Run ConvertState
mark_field s = ok s

unfoldable pub backspace_field : ConvertState → Run ConvertState
backspace_field s = ok s

unfoldable pub error : Message → ConvertState → Run ConvertState
error msg s =
    ok (record s { diagnostics = s.diagnostics ++ error_excerpt msg s.csv_record s.pos ∷ [] })

-- `*ofs`
first_byte : Bytes → Run ℕ
first_byte [] = fault out_of_bounds
first_byte (c ∷ s) = ok c

module _ (mem : Allocator) where
  -- The results of the buffer's functions are not looked at.
  unfoldable pub begin_field : ConvertState → Run ConvertState
  begin_field s =
      if s.fieldcount == 0
      then ok s
      else (do (sb, _) ← strbuf_put_string mem s.sbuf (some s.ofs); ok (record s { sbuf = sb }))

  unfoldable pub begin_field0 : ConvertState → Run ConvertState
  begin_field0 s =
      if s.fieldcount == 0
      then ok s
      else (do (sb, _) ← strbuf_put_char mem s.sbuf 0; ok (record s { sbuf = sb }))

  unfoldable pub put_char : ℕ → ConvertState → Run ConvertState
  put_char c s = do (sb, _) ← strbuf_put_char mem s.sbuf c; ok (record s { sbuf = sb })

  -- `nul_separated` says that `*ofs` is NUL.
  abbrev pub convert_parser : Bool → ℕ → ℕ → ℕ → CsvParser ConvertState
  convert_parser nul_separated comma quote options = record {
    delim_char = comma;
    quote_char = quote;
    options = options;
    next_char = next_char;
    begin_field = λ s. if nul_separated then begin_field0 s else begin_field s;
    end_field = end_field;
    mark_field = mark_field;
    backspace_field = backspace_field;
    put_char = put_char;
    error = error;
  }

  -- The static variables when the parser starts; `sbuf` is the buffer as the last call left it.
  abbrev pub convert_start : StrBuf → Bytes → Bytes → ConvertState
  convert_start sbuf s fs = record {
    csv_record = s;
    pos = 0;
    sbuf = (strbuf_init mem sbuf).0;
    fieldcount = 0;
    ofs = fs;
    diagnostics = [];
  }

  -- The result is the state with the buffer that the function returns; `fuel` bounds the rounds.
  unfoldable pub csv_convert_record : ℕ → StrBuf → Bytes → Bytes → ℕ → ℕ → ℕ → Run ConvertState
  unfolding first_byte
  csv_convert_record fuel sbuf s fs comma quote options = do
    first ← first_byte fs
    csv_parse (convert_parser (first == 0) comma quote options) fuel (convert_start sbuf s fs)
