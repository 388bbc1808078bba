-- ===== src/Csv/Tests.antt =====
-- csv/: runs on short records, and the theorems at concrete inputs.
mod Memory
use Memory.{memory, memory-Reliable, arrays, no_buffer}
use gawkextlib.Common.{
  ℕ, zero, suc, ◌+◌, ◌≤◌, ap, length-replicate, replicate, ◌==◌, if◌then◌else◌, ◌-◌, ◌≡◌, ◌≢◌, refl,
  Bool, true, false, ◌⊎◌, Option, none, some, List, [], ◌∷◌, ◌++◌, map, Bytes, NoNul, c_string,
  codes, Run, ok, fault, out_of_bounds, length, take, get_elem?, arith,
}
use gawkextlib.Csv.Convert.Correct.{separator, csv_convert_record-join}
use gawkextlib.Csv.Convert.Join.{join}
use gawkextlib.Csv.Convert.{ConvertState, csv_convert_record}
use gawkextlib.Csv.Excerpt.Caret.{error_excerpt_caret}
use gawkextlib.Csv.Excerpt.{error_excerpt}
use gawkextlib.Csv.Parser.Fields.{Brackets, no_fields, collect, fields_of}
use gawkextlib.Csv.Parser.Order.{Recorder, recorder, csv_parse-Brackets}
use gawkextlib.Csv.Parser.Machine.{actions, actions_from, move, last_actions}
use gawkextlib.Csv.Parser.RoundTrip.{Cell, quoted, plain, text, render}
use gawkextlib.Csv.Parser.{unexpected_quote, csv_parse}
use gawkextlib.Csv.Split.Correct.{nth_field, csv_split_record-fields}
use gawkextlib.Csv.Split.RoundTrip.{csv_split_record-render}
use gawkextlib.Csv.Split.{SplitState, csv_split_record}
use gawkextlib.Csv.FieldWidth.Append.{
  IsValid as FieldsValid, entries, awk_fieldwidth_info_init-IsValid, awk_fieldwidth_info_add_lem,
}
use gawkextlib.Csv.FieldWidth.{
  Field, FieldAllocator, FieldWidthInfo, awk_fieldwidth_info_init, awk_fieldwidth_info_add,
}
use gawkextlib.Csv.Variables.Kept.{csv_load_vars-set}
use gawkextlib.Csv.Variables.{csv_load_vars}
use gawkextlib.VarInit.{Symbols, other, plain as a_number, is_undefined}
use gawkextlib.Csv.StrBuf.Append.{
  IsValid, strbuf_init-IsValid, strbuf_value-contents, strbuf_put_char_lem,
  strbuf_put_string-c_string, strbuf_put_string-empty,
}
use gawkextlib.Csv.StrBuf.{
  StrBuf, freed, bytes_of, contents, blksize, strbuf_init, strbuf_value, strbuf_put_char,
  strbuf_put_string,
}

machine : Unit {0}
unfolding fields_of actions_from move last_actions collect
machine = tt

abbrev comma : ℕ
comma = b','

abbrev quote : ℕ
quote = b'"'

fields_simple :
    fields_of comma quote (codes "a,\"b,\"\"c\",,d")
    ≡ codes "a" ∷ codes "b,\"c" ∷ [] ∷ codes "d" ∷ []
unfolding machine
fields_simple = refl

-- A stray quote is kept, and text behind a closing quote is joined to the field.
fields_stray : fields_of comma quote (codes "a\"b,\"c\"d") ≡ codes "a\"b" ∷ codes "c\"d" ∷ []
unfolding machine
fields_stray = refl

fields_none : fields_of comma quote [] ≡ []
unfolding machine
fields_none = refl

csv_parse-Brackets_example :
    (s : Recorder) × (csv_parse
        (recorder comma quote)
        9
        (record { to_read = codes "a,b"; log = [] })
      ≡ ok s)
    × Brackets false s.log false
    × ((collect s.log no_fields).completed ≡ fields_of comma quote (codes "a,b"))
csv_parse-Brackets_example =
    csv_parse-Brackets comma quote 9 (codes "a,b") (omega arith) (omega arith)

abbrev empty : StrBuf
empty = (strbuf_init memory no_buffer).0

empty-IsValid : IsValid empty
empty-IsValid = (strbuf_init-IsValid memory no_buffer _ refl).0

strbuf_value-contents_example :
    (r : StrBuf) × (strbuf_value empty ≡ ok r)
    × IsValid r
    × (contents r ≡ contents empty)
    × (take (suc r.len) (bytes_of r.str) ≡ contents empty ++ 0 ∷ [])
strbuf_value-contents_example = strbuf_value-contents empty empty-IsValid

strbuf_put_char_lem_example :
    (r : StrBuf) × (((strbuf_put_char memory empty b'a' ≡ ok (r, 0))
        × IsValid r
        × (contents r ≡ contents empty ++ b'a' ∷ []))
      ⊎ ((strbuf_put_char memory empty b'a' ≡ ok (r, 1))
          × (r.str ≡ freed)
          × (memory.realloc (bytes_of empty.str) (empty.capacity + blksize) ≡ none)))
strbuf_put_char_lem_example = strbuf_put_char_lem memory empty b'a' empty-IsValid

strbuf_put_string-c_string_example :
    (r : StrBuf) × (strbuf_put_string memory empty (some (c_string (codes "ab") [])) ≡ ok (r, 0))
    × IsValid r
    × (contents r ≡ contents empty ++ codes "ab")
strbuf_put_string-c_string_example =
    strbuf_put_string-c_string memory memory-Reliable b'a' (codes "b") [] empty (omega arith)
      empty-IsValid

strbuf_put_string-empty_example :
    (strbuf_put_string memory empty (some (c_string [] [])) ≡ fault out_of_bounds)
    × (r : StrBuf) × (strbuf_put_string memory empty (some (c_string [] (c_string (codes "z") [])))
        ≡ ok (r, 0))
    × (contents r ≡ contents empty ++ 0 ∷ codes "z")
strbuf_put_string-empty_example =
    strbuf_put_string-empty memory memory-Reliable (codes "z") [] empty (omega arith) empty-IsValid

error_excerpt_caret_example :
    get_elem?
      (error_excerpt unexpected_quote (codes "a\"b") 2).textline
      ((error_excerpt unexpected_quote (codes "a\"b") 2).cursor - 1)
    ≡ get_elem? (codes "a\"b") (2 - 1)
error_excerpt_caret_example =
    error_excerpt_caret unexpected_quote (codes "a\"b") 2 (omega arith) (omega arith)

csv_split_record-fields_example :
    (r : SplitState arrays memory) × (csv_split_record arrays memory true 9 no_buffer
        (codes "a,\"b\"")
        (λ i. none)
        comma
        quote
        0
      ≡ ok (r, length (fields_of comma quote (codes "a,\"b\""))))
    × ((i : ℕ) → r.oaf i ≡ nth_field (fields_of comma quote (codes "a,\"b\"")) i)
csv_split_record-fields_example =
    csv_split_record-fields arrays memory (codes "a,\"b\"") memory-Reliable (λ a i v. refl) true
      comma quote 0 9 no_buffer (λ i. none) (omega arith) (omega arith) (λ i. refl)

csv_convert_record-join_example :
    (r : ConvertState) × (csv_convert_record memory 9 no_buffer
        (codes "a,\"b\"")
        (c_string (codes "|") [])
        comma
        quote
        0
      ≡ ok r)
    × IsValid r.sbuf
    × (contents r.sbuf ≡ join (separator (codes "|")) (fields_of comma quote (codes "a,\"b\"")))
csv_convert_record-join_example =
    csv_convert_record-join memory (codes "a,\"b\"") (codes "|") [] memory-Reliable (omega arith)
      comma quote 0 9 no_buffer (omega arith) (omega arith)

csv_split_record-render_example :
    (r : SplitState arrays memory) × (csv_split_record arrays memory true 20 no_buffer
        (render comma quote (plain (codes "x")) (quoted (codes "\"y") ∷ []))
        (λ i. none)
        comma
        quote
        0
      ≡ ok (r, length (map text (plain (codes "x") ∷ quoted (codes "\"y") ∷ []))))
    × ((i : ℕ) → r.oaf i ≡ nth_field (map text (plain (codes "x") ∷ quoted (codes "\"y") ∷ [])) i)
csv_split_record-render_example =
    csv_split_record-render arrays memory (plain (codes "x")) (quoted (codes "\"y") ∷ []) true comma
      quote 0 20 no_buffer (λ i. none) memory-Reliable (λ a i v. refl) (λ i. refl) (omega arith)
      (omega arith) (λ none_left. cc) (omega arith) (omega arith)

abbrev record_and_marks : ℕ → Option Bytes
record_and_marks i =
    if i == 0 then some (codes "a;b") else if i == 2 then some (codes ";;") else none

abbrev blank : Field
blank = record { skip = 0; len = 0 }

length-blanks : (n : ℕ) → length (replicate n blank) ≡ n
length-blanks n = length-replicate {A = Field} n blank

-- A block of fields of another size.
abbrev refit : List Field → ℕ → List Field
refit a zero = []
refit [] (suc n) = blank ∷ refit [] n
refit (x ∷ a) (suc n) = x ∷ refit a n

length-refit : (a : List Field) (n : ℕ) → length (refit a n) ≡ n
length-refit a zero = refl
length-refit [] (suc n) = ap suc (length-refit [] n)
length-refit (x ∷ a) (suc n) = ap suc (length-refit a n)

take-refit : (a : List Field) (n k : ℕ) → k ≤ length a → k ≤ n → take k (refit a n) ≡ take k a
take-refit a n zero h le = refl
take-refit a zero (suc k) h le = absurd (omega arith)
take-refit [] (suc n) (suc k) h le = absurd (omega arith)
take-refit (x ∷ a) (suc n) (suc k) h le = ap (◌∷◌ x) (take-refit a n k (omega arith) (omega arith))

abbrev field_memory : FieldAllocator
field_memory = record {
  emalloc = λ n. replicate n blank;
  erealloc = λ a n. refit a n;
  length-emalloc = length-blanks;
  length-erealloc = length-refit;
  take-erealloc = take-refit;
}

awk_fieldwidth_info_add_lem_example :
    (info' : FieldWidthInfo) × (capacity' : ℕ) × (awk_fieldwidth_info_add field_memory
        (awk_fieldwidth_info_init field_memory).0
        (awk_fieldwidth_info_init field_memory).1
        1
        4
      ≡ ok (info', capacity'))
    × FieldsValid info' capacity'
    × (entries info'
        ≡ entries (awk_fieldwidth_info_init field_memory).0 ++ record { skip = 1; len = 4 } ∷ [])
awk_fieldwidth_info_add_lem_example =
    awk_fieldwidth_info_add_lem field_memory (awk_fieldwidth_info_init field_memory).0
      (awk_fieldwidth_info_init field_memory).1 1 4 (awk_fieldwidth_info_init-IsValid field_memory)

-- A symbol table in which every name is a scalar, and that counts the updates.
true_not_false : true ≢ false
true_not_false e = cc

abbrev counting : Symbols ℕ
counting = record {
  Cookie = ℕ;
  ArrayCookie = ℕ;
  lookup = λ t name. some other;
  lookup_scalar = λ t name. some (length name);
  sym_update = λ t name v. (t + 1, true);
  create_array = 0;
  updated_cookie = λ t name. 0;
  clear_array = λ t a. t;
  sym_update-refused = λ t name v h. absurd (true_not_false h);
}

csv_load_vars-set_example : csv_load_vars counting (a_number 0) 4 ≡ some (5, 7 ∷ 8 ∷ 8 ∷ 5 ∷ 9 ∷ [])
csv_load_vars-set_example =
    csv_load_vars-set counting (a_number 0) 4 7 8 8 5 9 (unfold is_undefined in refl, refl)
      (unfold is_undefined in refl, refl) (unfold is_undefined in refl, refl)
      (unfold is_undefined in refl, refl) refl refl
