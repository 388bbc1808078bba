-- ===== src/Csv/Convert/Correct.antt =====
-- csv/csv_convert.c: the string that a call builds.
use mathlib.Core.Path.{subst}
use gawkextlib.Common.{
  c_string, ℕ, ◌+◌, ◌<◌, ◌≡◌, ◌≢◌, refl, ◌∙◌, sym, ap, Bool, true, false, Option, none, some, List,
  [], ◌∷◌, ◌++◌, Bytes, NoNul, ok, length, length-append, ◌==◌, if◌then◌else◌, arith, Bool-cases,
  inl, inr,
}
use gawkextlib.Csv.Convert.Join.{join, join-put, join_first, join_next}
use gawkextlib.Csv.Convert.{
  ConvertState, next_char, begin_field, begin_field0, end_field, put_char, error, convert_parser,
  convert_start, csv_convert_record,
}
use gawkextlib.Csv.Parser.Fields.{Fields, no_fields, apply, collect, collect-actions, fields_of}
use gawkextlib.Csv.Parser.Machine.{Action, begin, end, put, report, actions, perform}
use gawkextlib.Csv.Parser.Simulation.{Allowed, Simulates, csv_parse-simulates}
use gawkextlib.Csv.Parser.{csv_null, CsvParser, csv_parse}
use gawkextlib.Csv.Split.Correct.{some_block}
use gawkextlib.Csv.StrBuf.Append.{
  IsValid, strbuf_init-IsValid, Reliable, strbuf_put_char-Reliable, strbuf_put_string-c_string,
}
use gawkextlib.Csv.StrBuf.{Allocator, StrBuf, contents}
use gawkextlib.Csv.Text.{AtText, char_at-cons, char_at-end}

-- The separator that a C string stands for: an empty one is a NUL between the fields.
abbrev pub separator : Bytes → Bytes
separator [] = 0 ∷ []
separator (c ∷ t) = c ∷ t

abbrev is_empty : Bytes → Bool
is_empty [] = true
is_empty (c ∷ t) = false

-- The fields so far, the one in the making included.
abbrev pub shown : Fields → List Bytes
shown o = if o.is_open then o.completed ++ o.current ∷ [] else o.completed

-- The handler for the beginning of a field depends on whether the separator is empty.
convert_calls :
    (mem : Allocator) (text fs behind : Bytes) (fuel : ℕ) (sbuf : StrBuf) (comma quote options : ℕ)
    → NoNul fs
    → csv_convert_record mem fuel sbuf text (c_string fs behind) comma quote options
      ≡ csv_parse
          (convert_parser mem (is_empty fs) comma quote options)
          fuel
          (convert_start mem sbuf text (c_string fs behind))
unfolding csv_convert_record
convert_calls mem text [] behind fuel sbuf comma quote options n = refl
convert_calls mem text (c ∷ t) behind fuel sbuf comma quote options n =
    let nonzero : (c == 0) ≡ false = ground arith in rw (nonzero, csv_convert_record)

module _ (mem : Allocator) (text fs behind : Bytes) where
  pub record Converts (rest : Option Bytes) (o : Fields) (s : ConvertState) : Type 0 where
    pub same_text : s.csv_record ≡ text
    pub at_text : AtText text s.pos rest
    pub same_ofs : s.ofs ≡ c_string fs behind
    pub buffer : IsValid s.sbuf
    pub built : contents s.sbuf ≡ join (separator fs) (shown o)
    pub counted : s.fieldcount ≡ length o.completed

  begin_first :
      (b : Bool) (s : ConvertState)
      → (s.fieldcount == 0) ≡ true
      → (if b then begin_field0 mem s else begin_field mem s) ≡ ok s
  unfolding begin_field begin_field0
  begin_first true s h = rw h
  begin_first false s h = rw h

  shown_closed : (o : Fields) → o.is_open ≡ false → shown o ≡ o.completed
  shown_closed o h = rw h

  module _ (rel : Reliable mem) (no_nul : NoNul fs) (comma quote options : ℕ) where
    abbrev the_parser : CsvParser ConvertState
    the_parser = convert_parser mem (is_empty fs) comma quote options

    convert_next :
        (c : ℕ) (cs : Bytes) (o : Fields) (s : ConvertState)
        → Converts (some (c ∷ cs)) o s
        → (s' : ConvertState) × (next_char s ≡ ok (s', c)) × Converts (some cs) o s'
    unfolding next_char
    convert_next c cs o s r =
        let (read, rest) = char_at-cons text s.pos c cs r.at_text in
        (
          record s { pos = s.pos + 1 },
          rw (r.same_text, read),
          record {
            same_text = r.same_text;
            at_text = rest;
            same_ofs = r.same_ofs;
            buffer = r.buffer;
            built = r.built;
            counted = r.counted;
          },
        )

    convert_last :
        (o : Fields) (s : ConvertState)
        → Converts (some []) o s
        → (s' : ConvertState) × (next_char s ≡ ok (s', csv_null)) × Converts none o s'
    unfolding next_char
    convert_last o s r = (
      record s { pos = s.pos + 1 },
      rw (r.same_text, char_at-end text s.pos r.at_text),
      record {
        same_text = r.same_text;
        at_text = tt;
        same_ofs = r.same_ofs;
        buffer = r.buffer;
        built = r.built;
        counted = r.counted;
      },
    )

    -- Beginning a field puts the separator behind the fields before it.
    put_separator :
        (fs' : Bytes) (s : ConvertState)
        → fs' ≡ fs
        → s.ofs ≡ c_string fs' behind
        → IsValid s.sbuf
        → s.fieldcount ≢ 0
        → (sb : StrBuf) × ((convert_parser mem (is_empty fs') comma quote options).begin_field s
            ≡ ok (record s { sbuf = sb }))
          × IsValid sb
          × (contents sb ≡ contents s.sbuf ++ separator fs')
    unfolding begin_field begin_field0
    put_separator [] s e ofs v n =
        let (sb, run, w, built) = strbuf_put_char-Reliable mem rel s.sbuf 0 v in
        let later : (s.fieldcount == 0) ≡ false = ground arith in
        (sb, rw (later, begin_field0) (rw run), w, built)
    put_separator (c ∷ t) s e ofs v n =
        let (sb, run, w, built) =
          strbuf_put_string-c_string mem rel c t behind s.sbuf (subst NoNul (sym e) no_nul) v in
        let later : (s.fieldcount == 0) ≡ false = ground arith in
        (sb, rw (later, begin_field) (rw (ofs, run)), w, built)

    convert_begin :
        (rest : Option Bytes) (o : Fields) (s : ConvertState)
        → o.is_open ≡ false
        → Converts rest o s
        → (s' : ConvertState) × (the_parser.begin_field s ≡ ok s')
          × Converts rest (apply begin o) s'
    unfolding begin_field begin_field0
    convert_begin rest o s h r = elim (Bool-cases (s.fieldcount == 0)) [
      | inl first ↦ (
        s,
        begin_first (is_empty fs) s first,
        record {
          same_text = r.same_text;
          at_text = r.at_text;
          same_ofs = r.same_ofs;
          buffer = r.buffer;
          built = ground (arith, r.built, r.counted, join_first (separator fs) o.completed);
          counted = r.counted;
        },
      )
      | inr later ↦
          let (sb, run, v, e) = put_separator fs s refl r.same_ofs r.buffer (ground arith) in
          (
            record s { sbuf = sb },
            run,
            record {
              same_text = r.same_text;
              at_text = r.at_text;
              same_ofs = r.same_ofs;
              buffer = v;
              built = ground (arith, e, r.built, r.counted, join_next (separator fs) o.completed);
              counted = r.counted;
            },
          )
    ]

    convert_act :
        (a : Action) (rest : Option Bytes) (o : Fields) (s : ConvertState)
        → Allowed a o
        → Converts rest o s
        → (s' : ConvertState) × (perform the_parser a s ≡ ok s') × Converts rest (apply a o) s'
    unfolding end_field put_char error
    convert_act begin rest o s h r = convert_begin rest o s h r
    convert_act end rest o s h r = (
      _,
      refl,
      record {
        same_text = r.same_text;
        at_text = r.at_text;
        same_ofs = r.same_ofs;
        buffer = r.buffer;
        built = ground arith;
        counted = omega (arith, length-append o.completed (o.current ∷ []), r.counted);
      },
    )
    convert_act (put c) rest o s h r =
        let (sb, run, v, e) = strbuf_put_char-Reliable mem rel s.sbuf c r.buffer in
        (
          record s { sbuf = sb },
          rw run,
          record {
            same_text = r.same_text;
            at_text = r.at_text;
            same_ofs = r.same_ofs;
            buffer = v;
            built =
                ground (arith, e, r.built, join-put (separator fs) o.completed o.current (c ∷ []));
            counted = r.counted;
          },
        )
    convert_act (report m) rest o s h r = (
      _,
      refl,
      record {
        same_text = r.same_text;
        at_text = r.at_text;
        same_ofs = r.same_ofs;
        buffer = r.buffer;
        built = r.built;
        counted = r.counted;
      },
    )

    convert-Simulates : Simulates the_parser Converts
    convert-Simulates = record {
      next = λ c cs o s n r. convert_next c cs o s r;
      last = convert_last;
      act = convert_act;
    }

    -- With enough fuel a call of `csv_convert_record` builds the fields of the text with the
    -- separator between them; an empty separator stands for a NUL.
    pub csv_convert_record-join :
        (fuel : ℕ) (sbuf : StrBuf)
        → length text + 1 < fuel
        → NoNul text
        → (r : ConvertState) × (csv_convert_record mem fuel sbuf text
              (c_string fs behind)
              comma
              quote
              options
            ≡ ok r)
          × IsValid r.sbuf
          × (contents r.sbuf ≡ join (separator fs) (fields_of comma quote text))
    unfolding fields_of
    csv_convert_record-join fuel sbuf enough nul =
        let (b, allocated) = some_block (mem.malloc 256) rel.malloc_some in
        let (v, done, e) = strbuf_init-IsValid mem sbuf b allocated in
        let (r, rest, run, h) =
          csv_parse-simulates the_parser Converts convert-Simulates fuel text
            (convert_start mem sbuf text (c_string fs behind)) enough nul
            (record {
              same_text = refl;
              at_text = (omega arith, refl);
              same_ofs = refl;
              buffer = v;
              built = e ∙ unfold join in refl;
              counted = refl;
            }) in
        (
          r,
          convert_calls mem text fs behind fuel sbuf comma quote options no_nul ∙ run,
          h.buffer,
          h.built
              ∙ ap (join (separator fs)) (
                  shown_closed (collect (actions comma quote text) no_fields)
                    (collect-actions comma quote text)),
        )
