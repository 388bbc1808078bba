-- ===== src/Csv/Split/Correct.antt =====
-- csv/csv_split.c: the elements of the array after a call.
use gawkextlib.Common.{
  ℕ, zero, suc, ◌+◌, ◌<◌, ◌≡◌, ◌≢◌, refl, ◌∙◌, ap, Bool, true, Option, none, some, List, [], ◌∷◌,
  ◌++◌, Bytes, NoNul, ok, ◌>>=◌, length, length-append, get_elem?, ◌==◌, if◌then◌else◌, arith,
}
use gawkextlib.Csv.Parser.Fields.{Fields, apply, fields_of}
use gawkextlib.Csv.Parser.Machine.{Action, begin, end, put, report, perform}
use gawkextlib.Csv.Parser.Simulation.{Allowed, Simulates, csv_parse-simulates}
use gawkextlib.Csv.Parser.{csv_null}
use gawkextlib.Csv.Split.{
  read_block, SplitState, next_char, begin_field, end_field, put_char, error, split_parser,
  split_start, csv_split_record,
}
use gawkextlib.Csv.StrBuf.Append.{
  IsValid, strbuf_start-IsValid, strbuf_init-IsValid, Reliable, strbuf_put_char-Reliable,
}
use gawkextlib.Csv.StrBuf.{Allocator, StrBuf, contents}
use gawkextlib.Csv.Text.{AtText, char_at-cons, char_at-end}
use gawkextlib.Gawk.{ArrayApi}

-- The element at a subscript, for a list of fields that are numbered from 1.
unfoldable pub nth_field : List Bytes → ℕ → Option Bytes
nth_field fields zero = none
nth_field fields (suc i) = get_elem? fields i

nth_field-append :
    (fields : List Bytes) (f : Bytes) (i : ℕ)
    → nth_field (fields ++ f ∷ []) i
      ≡ (if length fields + 1 == i then some f else nth_field fields i)
unfolding nth_field
nth_field-append [] f zero = ground arith
nth_field-append [] f (suc zero) = ground arith
nth_field-append [] f (suc (suc i)) = ground arith
nth_field-append (x ∷ xs) f zero = ground arith
nth_field-append (x ∷ xs) f (suc zero) = ground arith
nth_field-append (x ∷ xs) f (suc (suc i)) =
    unfold nth_field in ground (arith, nth_field-append xs f (suc i))

pub reads_contents : (sb : StrBuf) → IsValid sb → read_block sb.str sb.len ≡ ok (contents sb)
unfolding read_block
reads_contents sb v = ground arith

pub some_block : (o : Option Bytes) → o ≢ none → (b : Bytes) × (o ≡ some b)
some_block none h = absurd (h refl)
some_block (some b) h = (b, refl)

no_elements : (get : ℕ → Option Bytes) → ((i : ℕ) → get i ≡ none) → (i : ℕ) → get i ≡ nth_field [] i
unfolding nth_field
no_elements get h zero = h zero
no_elements get h (suc i) = h (suc i)

module _ (api : ArrayApi) (mem : Allocator) (text : Bytes) where
  open api use {Array, get, set_array_element, clear_array}

  -- The state of the file in the middle of a call, against the text to come and the fields so far.
  pub record Splits (rest : Option Bytes) (o : Fields) (s : SplitState api mem) : Type 0 where
    pub same_text : s.csv_record ≡ text
    pub at_text : AtText text s.pos rest
    pub buffer : IsValid s.sbuf
    pub current : o.is_open ≡ true → contents s.sbuf ≡ o.current
    pub counted : s.fieldcount ≡ length o.completed
    pub elements : (i : ℕ) → get s.oaf i ≡ nth_field o.completed i
    pub no_lint : s.lint_warnings ≡ 0

  -- The assumptions: an allocator that never gives NULL, and an array that takes every element.
  module _ (rel : Reliable mem)
      (stores : (a : Array) (i : ℕ) (v : Bytes) → (set_array_element a i v).1 ≡ true)
      (do_lint : Bool) (comma quote options : ℕ) where
    split_next :
        (c : ℕ) (cs : Bytes) (o : Fields) (s : SplitState api mem)
        → Splits (some (c ∷ cs)) o s
        → (s' : SplitState api mem) × (next_char api mem s ≡ ok (s', c)) × Splits (some cs) o s'
    unfolding next_char
    split_next c cs o s r =
        let (read, rest) = char_at-cons text s.pos c cs r.at_text in
        (
          record s { pos = s.pos + 1 },
          rw (r.same_text, read),
          record {
            same_text = r.same_text;
            at_text = rest;
            buffer = r.buffer;
            current = r.current;
            counted = r.counted;
            elements = r.elements;
            no_lint = r.no_lint;
          },
        )

    split_last :
        (o : Fields) (s : SplitState api mem)
        → Splits (some []) o s
        → (s' : SplitState api mem) × (next_char api mem s ≡ ok (s', csv_null)) × Splits none o s'
    unfolding next_char
    split_last o s r = (
      record s { pos = s.pos + 1 },
      rw (r.same_text, char_at-end text s.pos r.at_text),
      record {
        same_text = r.same_text;
        at_text = tt;
        buffer = r.buffer;
        current = r.current;
        counted = r.counted;
        elements = r.elements;
        no_lint = r.no_lint;
      },
    )

    split_act :
        (a : Action) (rest : Option Bytes) (o : Fields) (s : SplitState api mem)
        → Allowed a o
        → Splits rest o s
        → (s' : SplitState api mem) × (perform
              (split_parser api mem do_lint comma quote options)
              a
              s
            ≡ ok s')
          × Splits rest (apply a o) s'
    unfolding begin_field end_field put_char error
    split_act begin rest o s h r =
        let (v, e) = strbuf_start-IsValid s.sbuf r.buffer in
        (
          _,
          refl,
          record {
            same_text = r.same_text;
            at_text = r.at_text;
            buffer = v;
            current = λ _. e;
            counted = r.counted;
            elements = r.elements;
            no_lint = r.no_lint;
          },
        )
    split_act end rest o s h r =
        let value = contents s.sbuf in
        let set_it = set_array_element s.oaf (s.fieldcount + 1) value in
        let stored = stores s.oaf (s.fieldcount + 1) value in
        (
          record s {
            fieldcount = s.fieldcount + 1;
            oaf = set_it.0;
            lint_warnings = s.lint_warnings;
          },
          rw (reads_contents s.sbuf r.buffer, ◌>>=◌, stored),
          record {
            same_text = r.same_text;
            at_text = r.at_text;
            buffer = r.buffer;
            current = λ closed. cc;
            counted = omega (arith, length-append o.completed (o.current ∷ []), r.counted);
            elements = λ i.
                api.get-set_array_element s.oaf (s.fieldcount + 1) i value stored
                ∙ ground (
                  arith,
                  nth_field-append o.completed o.current i,
                  r.elements i,
                  r.counted,
                  r.current h,
                );
            no_lint = r.no_lint;
          },
        )
    split_act (put c) rest o s h r =
        let (sb, run, v, e) = strbuf_put_char-Reliable mem rel s.sbuf c r.buffer in
        (
          record s { sbuf = sb },
          rw run,
          record {
            same_text = r.same_text;
            at_text = r.at_text;
            buffer = v;
            current = λ opened. e ∙ ap (λ (x : Bytes). x ++ c ∷ []) (r.current h);
            counted = r.counted;
            elements = r.elements;
            no_lint = r.no_lint;
          },
        )
    split_act (report m) rest o s h r = (
      _,
      refl,
      record {
        same_text = r.same_text;
        at_text = r.at_text;
        buffer = r.buffer;
        current = r.current;
        counted = r.counted;
        elements = r.elements;
        no_lint = r.no_lint;
      },
    )

    split-Simulates : Simulates (split_parser api mem do_lint comma quote options) Splits
    split-Simulates = record {
      next = λ c cs o s n r. split_next c cs o s r;
      last = split_last;
      act = split_act;
    }

    -- A call of `csv_split_record` on an empty array, with enough fuel, stores each field of the
    -- text as the element that its number is the subscript of, stores nothing else, and returns
    -- the number of fields.
    pub csv_split_record-fields :
        (fuel : ℕ) (sbuf : StrBuf) (af : Array)
        → length text + 1 < fuel
        → NoNul text
        → ((i : ℕ) → get af i ≡ none)
        → (r : SplitState api mem) × (csv_split_record api mem do_lint fuel sbuf text af comma quote
              options
            ≡ ok (r, length (fields_of comma quote text)))
          × ((i : ℕ) → get r.oaf i ≡ nth_field (fields_of comma quote text) i)
    unfolding csv_split_record fields_of nth_field
    csv_split_record-fields fuel sbuf af enough no_nul empty =
        let (b, allocated) = some_block (mem.malloc 256) rel.malloc_some in
        let (v, done, e) = strbuf_init-IsValid mem sbuf b allocated in
        let (r, rest, run, h) =
          csv_parse-simulates (split_parser api mem do_lint comma quote options) Splits
            split-Simulates fuel text (split_start api mem sbuf text af) enough no_nul
            (record {
              same_text = refl;
              at_text = (omega arith, refl);
              buffer = v;
              current = λ closed. cc;
              counted = refl;
              elements = no_elements (get af) empty;
              no_lint = refl;
            }) in
        (r, rw run (ap (λ (n : ℕ). ok (r, n)) h.counted), h.elements)
