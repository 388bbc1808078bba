-- ===== src/Csv/Parser/RoundTrip.antt =====
-- csv/csv_parser.c: a record that is written by the rules of the format is parsed back to its fields.
use gawkextlib.Common.{
  ℕ, ◌≡◌, ◌≢◌, refl, ◌∙◌, ap, true, false, ◌⊎◌, inl, inr, List, [], ◌∷◌, ◌++◌, append-nil,
  append_assoc, map, Bytes, ◌==◌, if◌then◌else◌, arith, Bool-cases,
}
use gawkextlib.Csv.Parser.Fields.{Fields, no_fields, apply, collect, collect-append, fields_of}
use gawkextlib.Csv.Parser.Machine.{begin, put, move, last_actions, actions_from}
use gawkextlib.Csv.Parser.{
  csv_lf, State, before_field, in_quoted_field, after_quote, in_unquoted_field, after_delim,
}

-- A field as it is written: between quotes, or as it is.
pub data Cell : Type 0 where
  quoted : Bytes → Cell
  plain : Bytes → Cell

abbrev pub text : Cell → Bytes
text (quoted f) = f
text (plain f) = f

module _ (d q : ℕ) where
  -- Each quote inside a field is doubled.
  abbrev pub doubled : Bytes → Bytes
  doubled [] = []
  doubled (c ∷ cs) = if c == q then q ∷ q ∷ doubled cs else c ∷ doubled cs

  abbrev pub render_cell : Cell → Bytes
  render_cell (quoted f) = q ∷ (doubled f ++ q ∷ [])
  render_cell (plain f) = f

  abbrev pub render : Cell → List Cell → Bytes
  render x [] = render_cell x
  render x (y ∷ ys) = render_cell x ++ d ∷ render y ys

  -- Without quotes a field holds no delimiter, quote or newline.
  abbrev pub Plain : Bytes → Type 0
  Plain [] = Unit
  Plain (c ∷ cs) = (c ≢ d) × (c ≢ q) × (c ≢ csv_lf) × Plain cs

  abbrev pub Writable : Cell → Type 0
  Writable (quoted f) = Unit
  Writable (plain f) = Plain f

  abbrev pub AllWritable : List Cell → Type 0
  AllWritable [] = Unit
  AllWritable (x ∷ xs) = Writable x × AllWritable xs

  run : State → Bytes → Fields → Fields
  run st cs o = collect (actions_from d q st cs) o

  run-move :
      (st : State) (c : ℕ) (cs : Bytes) (o : Fields)
      → (move d q st c).stop ≡ false
      → run st (c ∷ cs) o ≡ run (move d q st c).state cs (collect (move d q st c).actions o)
  unfolding run actions_from
  run-move st c cs o h = rw h (collect-append (move d q st c).actions _ o)

  run_end : (st : State) (o : Fields) → run st [] o ≡ collect (last_actions st) o
  unfolding run actions_from
  run_end st o = refl

  module _ (apart : (q ≢ d) × (d ≢ csv_lf) × (q ≢ csv_lf)) where
    run-doubled :
        (f rest : Bytes) (o : Fields)
        → run in_quoted_field (doubled f ++ q ∷ rest) o
          ≡ run after_quote rest (record o { current = o.current ++ f })
    unfolding move collect
    run-doubled [] rest o =
        rw append-nil (run-move in_quoted_field q rest o (ground arith) ∙ ground arith)
    run-doubled (c ∷ f) rest o = elim (Bool-cases (c == q)) [
      | inl e ↦ rw e (
          run-move in_quoted_field q (q ∷ (doubled f ++ q ∷ rest)) o (ground arith)
          ∙ ground (
            arith,
            run-move after_quote q (doubled f ++ q ∷ rest) o,
            run-doubled f rest (apply (put c) o),
            append_assoc o.current (c ∷ []) f,
          ))
      | inr e ↦ rw e (
          run-move in_quoted_field c (doubled f ++ q ∷ rest) o (ground arith)
          ∙ ground (arith, run-doubled f rest (apply (put c) o), append_assoc o.current (c ∷ []) f))
    ]

    run-Plain :
        (f rest : Bytes) (o : Fields)
        → Plain f
        → run in_unquoted_field (f ++ rest) o
          ≡ run in_unquoted_field rest (record o { current = o.current ++ f })
    unfolding move collect
    run-Plain [] rest o h = rw append-nil
    run-Plain (c ∷ f) rest o h =
        run-move in_unquoted_field c (f ++ rest) o (ground arith)
        ∙ ground (arith, run-Plain f rest (apply (put c) o), append_assoc o.current (c ∷ []) f)

    -- A cell followed by a delimiter, at the start of a record or behind a delimiter.
    run_cell :
        (st : State) (x : Cell) (rest : Bytes) (o : Fields)
        → (st ≡ before_field) ⊎ (st ≡ after_delim)
        → Writable x
        → run st (render_cell x ++ d ∷ rest) o
          ≡ run after_delim rest
              (record { completed = o.completed ++ text x ∷ []; current = text x; is_open = false })
    unfolding move collect
    run_cell st (quoted f) rest o s h =
        run-move st q (doubled f ++ q ∷ [] ++ d ∷ rest) o (ground arith)
        ∙ rw append_assoc (
            ground (
              arith,
              run-doubled f (d ∷ rest) (apply begin o),
              run-move after_quote d rest (record o { current = f; is_open = true }),
            ))
    run_cell st (plain []) rest o s h = run-move st d rest o (ground arith) ∙ ground arith
    run_cell st (plain (c ∷ f)) rest o s h =
        run-move st c (f ++ d ∷ rest) o (ground arith)
        ∙ ground (
          arith,
          run-Plain f (d ∷ rest) (record o { current = c ∷ []; is_open = true }),
          run-move in_unquoted_field d rest (record o { current = c ∷ f; is_open = true }),
        )

    -- The last cell of the record.
    run_cell_last :
        (st : State) (x : Cell) (o : Fields)
        → (st ≡ after_delim) ⊎ ((st ≡ before_field) × (x ≢ plain []))
        → Writable x
        → (run st (render_cell x) o).completed ≡ o.completed ++ text x ∷ []
    unfolding run actions_from move collect last_actions
    run_cell_last st (quoted f) o s h = ground (
      arith,
      run-move st q (doubled f ++ q ∷ []) o,
      run-doubled f [] (apply begin o),
      run_end after_quote (record o { current = f; is_open = true }),
    )
    run_cell_last st (plain []) o s h = ground (arith, run_end st o)
    run_cell_last st (plain (c ∷ f)) o s h = ground (
      arith,
      append-nil f,
      run-move st c f o,
      run-Plain f [] (record o { current = c ∷ []; is_open = true }),
      run_end in_unquoted_field (record o { current = c ∷ f; is_open = true }),
    )

    run-render :
        (st : State) (x : Cell) (xs : List Cell) (o : Fields)
        → (st ≡ after_delim) ⊎ ((st ≡ before_field) × ((xs ≡ []) → x ≢ plain []))
        → AllWritable (x ∷ xs)
        → (run st (render x xs) o).completed ≡ o.completed ++ map text (x ∷ xs)
    run-render st x [] o s h = run_cell_last st x o (ground arith) h.0
    run-render st x (y ∷ ys) o s h =
        let next : Fields = record {
          completed = o.completed ++ text x ∷ [];
          current = text x;
          is_open = false;
        } in
        ap (λ (r : Fields). r.completed) (run_cell st x (render y ys) o (ground arith) h.0)
        ∙ run-render after_delim y ys next (inl refl) h.1
        ∙ append_assoc o.completed (text x ∷ []) (map text (y ∷ ys))

  -- With a delimiter and a quote that differ from each other and from the newline, a record whose
  -- fields are written between quotes, their quotes doubled, or plainly, where they hold no special
  -- character, parses to exactly these fields; only a single empty plain field is left out.
  pub fields_of-render :
      (x : Cell) (xs : List Cell)
      → (q ≢ d) × (d ≢ csv_lf) × (q ≢ csv_lf)
      → AllWritable (x ∷ xs)
      → ((xs ≡ []) → x ≢ plain [])
      → fields_of d q (render x xs) ≡ map text (x ∷ xs)
  unfolding fields_of run
  fields_of-render x xs apart h single =
      run-render apart before_field x xs no_fields (inr (refl, single)) h
