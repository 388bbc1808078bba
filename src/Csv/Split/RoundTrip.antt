-- ===== src/Csv/Split/RoundTrip.antt =====
-- csv/csv_split.c: a record that was written by the rules of the format, split again.
use gawkextlib.Common.{
  ℕ, ◌+◌, ◌<◌, ◌≡◌, ◌≢◌, ◌∙◌, ap, Bool, true, none, List, [], ◌∷◌, map, Bytes, NoNul, ok, length,
}
use gawkextlib.Csv.Parser.RoundTrip.{Cell, plain, text, render, AllWritable, fields_of-render}
use gawkextlib.Csv.Parser.{csv_lf}
use gawkextlib.Csv.Split.Correct.{nth_field, csv_split_record-fields}
use gawkextlib.Csv.Split.{SplitState, csv_split_record}
use gawkextlib.Csv.StrBuf.Append.{Reliable}
use gawkextlib.Csv.StrBuf.{Allocator, StrBuf}
use gawkextlib.Gawk.{ArrayApi}

module _ (api : ArrayApi) (mem : Allocator) where
  open api use {Array, get, set_array_element}

  -- Take a delimiter and a quote that differ from each other and from the newline, and a record
  -- without NUL whose fields are written between quotes, their quotes doubled, or plainly, where
  -- they hold no delimiter, quote or newline, other than a single empty plain field. With an
  -- allocator that never gives NULL, an array that is empty and takes every element, and enough
  -- fuel, `csv_split_record` returns the number of these fields and stores exactly them, from
  -- subscript 1 on.
  pub csv_split_record-render :
      (x : Cell) (xs : List Cell) (do_lint : Bool) (comma quote options fuel : ℕ) (sbuf : StrBuf)
      (af : Array)
      → Reliable mem
      → ((a : Array) (i : ℕ) (v : Bytes) → (set_array_element a i v).1 ≡ true)
      → ((i : ℕ) → get af i ≡ none)
      → (quote ≢ comma) × (comma ≢ csv_lf) × (quote ≢ csv_lf)
      → AllWritable comma quote (x ∷ xs)
      → ((xs ≡ []) → x ≢ plain [])
      → NoNul (render comma quote x xs)
      → length (render comma quote x xs) + 1 < fuel
      → (r : SplitState api mem) × (csv_split_record api mem do_lint fuel sbuf
            (render comma quote x xs)
            af
            comma
            quote
            options
          ≡ ok (r, length (map text (x ∷ xs))))
        × ((i : ℕ) → get r.oaf i ≡ nth_field (map text (x ∷ xs)) i)
  csv_split_record-render x xs do_lint comma quote options fuel sbuf af rel stores empty apart h
        single no_nul enough =
      let record_text = render comma quote x xs in
      let same = fields_of-render comma quote x xs apart h single in
      let (r, run, stored) =
        csv_split_record-fields api mem record_text rel stores do_lint comma quote options fuel sbuf
          af enough no_nul empty in
      (
        r,
        run ∙ ap (λ (fs : List Bytes). ok (r, length fs)) same,
        λ i. stored i ∙ ap (λ (fs : List Bytes). nth_field fs i) same,
      )
