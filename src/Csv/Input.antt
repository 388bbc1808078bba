-- ===== src/Csv/Input.antt =====
-- csv/csv_input.c: the reader of records from a file. A byte is an `unsigned char`.
use gawkextlib.Common.{
  ℕ, ◌+◌, Bool, false, not, ◌&&◌, Option, none, some, List, [], ◌∷◌, ◌++◌, Bytes, Run, ok, fault,
  out_of_bounds, uninitialised, ◌>>=◌, length, set, replicate, ltb, ◌==◌, if◌then◌else◌,
}
use gawkextlib.Csv.Excerpt.{Diagnostic, error_excerpt}
use gawkextlib.Csv.FieldWidth.{
  FieldAllocator, FieldWidthInfo, awk_fieldwidth_info_init, awk_fieldwidth_info_start,
  awk_fieldwidth_info_add,
}
use gawkextlib.Csv.Parser.{CsvParser, Message, csv_lf, csv_null, csv_parse}
use gawkextlib.Csv.Split.{read_block}
use gawkextlib.Csv.StrBuf.{
  Allocator, StrBuf, null, strbuf_init, strbuf_start, strbuf_value, strbuf_free, strbuf_put_char,
  strbuf_put_string,
}

-- CSV_CR
abbrev pub csv_cr : ℕ
csv_cr = 0x0d

-- What `read` of one byte gives: a negative result, 0, or 1 and the byte.
pub data ReadByte : Type 0 where
  failed at_end : ReadByte
  byte : ℕ → ReadByte

-- `struct csv_reader`; the fields of `parser` are the two characters. `after_cr` is `none` for -1.
pub record CsvReader : Type 0 where
  pub fd : ℕ
  pub csv_mode : ℕ
  pub csv_fs : Option Bytes
  pub csv_fs_len : ℕ
  pub after_cr : Option ℕ
  pub delim_char : ℕ
  pub quote_char : ℕ
  pub csv_record : StrBuf
  pub awk_record : StrBuf
  pub csv_fields : FieldWidthInfo
  pub max_fields : ℕ
  pub rt : Bytes
  pub rt_len : ℕ

-- The reader at work, with the static variables that are not copies of its fields, the system `W`
-- that is read, and what `nonfatal` was told. `after_cr` stands in the reader all the time.
pub record InputState (W : Type 0) : Type 0 where
  pub rdr : CsvReader
  pub inside_quotes : Bool
  pub fieldcount : ℕ
  pub field_skip : ℕ
  pub field_len : ℕ
  pub world : W
  pub diagnostics : List Diagnostic

-- `rdr->rt[rdr->rt_len++] = c`
unfoldable pub put_rt : ℕ → CsvReader → Run CsvReader
put_rt c r =
    if ltb r.rt_len (length r.rt)
    then ok (record r { rt = set r.rt r.rt_len c; rt_len = r.rt_len + 1 })
    else fault out_of_bounds

-- `c == csv_quote`, where the right side is a `char`: negative, and so no `c`, from 128 on.
unfoldable pub is_quote : ℕ → ℕ → Bool
is_quote c quote = ltb quote 128 && c == quote

module _ {W : Type 0} (read : W → ℕ → W × ReadByte) (mem : Allocator)
    (fields : FieldAllocator) where
  -- The first byte of `next_char`: the pending one, or one that is read.
  unfoldable pub get_byte : InputState W → InputState W × ReadByte
  get_byte s = elim s.rdr.after_cr [
    | some c ↦ (record s { rdr = record (s.rdr) { after_cr = none } }, byte c)
    | none ↦ (record s { world = (read s.world s.rdr.fd).0 }, (read s.world s.rdr.fd).1)
  ]

  -- The branch for CSV_CR: a newline that follows is taken as well, another byte is kept.
  unfoldable pub end_cr : InputState W → Run (InputState W × ℕ)
  end_cr s = do
    r ← put_rt csv_cr s.rdr
    let w = (read s.world s.rdr.fd).0
    elim ((read s.world s.rdr.fd).1) [
      | failed ↦ ok (record s { rdr = r; world = w }, csv_null)
      | at_end ↦ ok (record s { rdr = r; world = w }, csv_null)
      | byte c ↦
          let kept = record s { rdr = record r { after_cr = some c }; world = w } in
          if c == csv_lf
          then (do r' ← put_rt c r; ok (record s { rdr = r'; world = w }, csv_null))
          else ok (kept, csv_null)
    ]

  -- The branch for CSV_LF.
  unfoldable pub end_lf : InputState W → Run (InputState W × ℕ)
  end_lf s = do r ← put_rt csv_lf s.rdr; ok (record s { rdr = r }, csv_null)

  -- `process the char`; the result of `strbuf_put_char` is not looked at.
  unfoldable pub process : ℕ → InputState W → Run (InputState W × ℕ)
  process c s = do
    (sb, _) ← strbuf_put_char mem s.rdr.csv_record c
    ok (
      record s {
        rdr = record (s.rdr) { csv_record = sb };
        inside_quotes =
            if is_quote c s.rdr.quote_char then not s.inside_quotes else s.inside_quotes;
      },
      c,
    )

  -- Where `read` fails, the code goes on with the byte that it did not get.
  unfoldable pub next_char : InputState W → Run (InputState W × ℕ)
  next_char s =
      let s' = (get_byte s).0 in
      elim ((get_byte s).1) [
        | failed ↦ fault uninitialised
        | at_end ↦ ok (s', csv_null)
        | byte c ↦
            if s'.inside_quotes
            then process c s'
            else if c == csv_cr
            then end_cr s'
            else if c == csv_lf
            then end_lf s'
            else process c s'
      ]

  unfoldable pub begin_field : InputState W → Run (InputState W)
  begin_field s = if s.fieldcount == 0 then ok (record s { field_len = 0 }) else (do
    (sb, _) ← strbuf_put_string mem s.rdr.awk_record s.rdr.csv_fs
    ok (record s {
      rdr = record (s.rdr) { awk_record = sb };
      field_skip = s.rdr.csv_fs_len;
      field_len = 0;
    }))

  unfoldable pub end_field : InputState W → Run (InputState W)
  end_field s = do
    (info, max) ←
        awk_fieldwidth_info_add fields s.rdr.csv_fields s.rdr.max_fields s.field_skip s.field_len
    ok (record s {
      rdr = record (s.rdr) { csv_fields = info; max_fields = max };
      fieldcount = s.fieldcount + 1;
      field_skip = 0;
      field_len = 0;
    })

  unfoldable pub mark_field : InputState W → Run (InputState W)
  mark_field s = ok s

  unfoldable pub backspace_field : InputState W → Run (InputState W)
  backspace_field s = ok s

  unfoldable pub put_char : ℕ → InputState W → Run (InputState W)
  put_char c s = do
    (sb, _) ← strbuf_put_char mem s.rdr.awk_record c
    ok (record s { rdr = record (s.rdr) { awk_record = sb }; field_len = s.field_len + 1 })

  unfoldable pub error : Message → InputState W → Run (InputState W)
  error msg s = do
    sb ← strbuf_value s.rdr.csv_record
    text ← read_block sb.str sb.len
    ok (record s {
      rdr = record (s.rdr) { csv_record = sb };
      diagnostics = s.diagnostics ++ error_excerpt msg text sb.len ∷ [];
    })

  abbrev pub input_parser : CsvReader → CsvParser (InputState W)
  input_parser r = record {
    delim_char = r.delim_char;
    quote_char = r.quote_char;
    options = 0;
    next_char = next_char;
    begin_field = begin_field;
    end_field = end_field;
    mark_field = mark_field;
    backspace_field = backspace_field;
    put_char = put_char;
    error = error;
  }

  -- `rt` is what stands in the block; it has room for three bytes.
  unfoldable pub csv_reader_init : ℕ → ℕ → ℕ → ℕ → Option Bytes → ℕ → CsvReader
  csv_reader_init fdes csvmode csvcomma csvquote csvfs csvfslen =
      let unset : StrBuf = record { str = null; len = 0; capacity = 0 } in
      record {
        fd = fdes;
        csv_mode = csvmode;
        csv_fs = csvfs;
        csv_fs_len = csvfslen;
        after_cr = none;
        delim_char = csvcomma;
        quote_char = csvquote;
        csv_record = (strbuf_init mem unset).0;
        awk_record = (strbuf_init mem unset).0;
        csv_fields = (awk_fieldwidth_info_init fields).0;
        max_fields = (awk_fieldwidth_info_init fields).1;
        rt = replicate 3 0;
        rt_len = 0;
      }

  -- The state in which `csv_read` starts the parser.
  unfoldable pub read_start : CsvReader → W → InputState W
  read_start r w = record {
    rdr = record r {
      rt_len = 0;
      csv_record = strbuf_start r.csv_record;
      awk_record = strbuf_start r.awk_record;
      csv_fields = awk_fieldwidth_info_start r.csv_fields;
    };
    inside_quotes = false;
    fieldcount = 0;
    field_skip = 0;
    field_len = 0;
    world = w;
    diagnostics = [];
  }

  -- The result is the length of the record, or `none` for -1; `fuel` bounds the parser's rounds.
  unfoldable pub csv_read : ℕ → CsvReader → W → Run (InputState W × Option ℕ)
  csv_read fuel r w = do
    s ← csv_parse (input_parser r) fuel (read_start r w)
    let len = s.rdr.awk_record.len
    ok (s, if len == 0 then none else some len)

  -- The block of fields is freed with the reader.
  unfoldable pub csv_reader_close : CsvReader → Run CsvReader
  csv_reader_close r = do
    record_freed ← strbuf_free r.csv_record
    awk_freed ← strbuf_free r.awk_record
    ok (record r {
      csv_record = record_freed;
      awk_record = awk_freed;
      csv_fields = record (r.csv_fields) { fields = [] };
    })
