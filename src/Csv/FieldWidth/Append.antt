-- ===== src/Csv/FieldWidth/Append.antt =====
-- csv/awk_fieldwidth_info.c: a field is appended, inside the block.
use native.Mathlib.Numerals.{add-one}
use gawkextlib.Common.{
  ℕ, ◌+◌, ◌*◌, ◌<◌, ◌≤◌, ◌≡◌, refl, ap, ◌∙◌, List, [], ◌∷◌, ◌++◌, ok, length, length-set, take,
  take-set_end, set, leb, lt→ltb, Bool-cases, inl, inr, arith,
}
use gawkextlib.Csv.FieldWidth.{
  Field, FieldAllocator, FieldWidthInfo, grow, awk_fieldwidth_info_init, awk_fieldwidth_info_add,
}

-- The block has the capacity that the caller remembers, and the fields so far are inside.
pub record IsValid (info : FieldWidthInfo) (capacity : ℕ) : Type 0 where
  pub sized : length info.fields ≡ capacity
  pub inside : info.nf ≤ capacity
  pub some_capacity : 0 < capacity

abbrev pub entries : FieldWidthInfo → List Field
entries info = take info.nf info.fields

module _ (mem : FieldAllocator) where
  open mem use {emalloc, erealloc, length-emalloc, length-erealloc, take-erealloc}

  pub awk_fieldwidth_info_init-IsValid :
      IsValid (awk_fieldwidth_info_init mem).0 (awk_fieldwidth_info_init mem).1
  unfolding awk_fieldwidth_info_init
  awk_fieldwidth_info_init-IsValid = record {
    sized = length-emalloc 10;
    inside = omega arith;
    some_capacity = omega arith;
  }

  grow_lem :
      (info : FieldWidthInfo) (capacity : ℕ)
      → IsValid info capacity
      → ((grow mem info capacity).0.nf ≡ info.nf)
        × (length ((grow mem info capacity).0.fields) ≡ (grow mem info capacity).1)
        × (info.nf < (grow mem info capacity).1)
        × (take info.nf ((grow mem info capacity).0.fields) ≡ entries info)
  unfolding grow
  grow_lem info capacity h = elim (Bool-cases (leb capacity info.nf)) [
    | inl e ↦
        let sized = h.sized in
        let inside = h.inside in
        let positive = h.some_capacity in
        (
          rw e refl,
          rw e (length-erealloc info.fields (capacity * 2)),
          rw e (omega arith),
          rw e (take-erealloc info.fields (capacity * 2) info.nf (omega arith) (omega arith)),
        )
    | inr e ↦
        let less : info.nf < capacity = ground arith in
        (rw e refl, rw e h.sized, rw e less, rw e refl)
  ]

  take-set_next :
      (xs : List Field) (n : ℕ) (v : Field)
      → n < length xs
      → take (n + 1) (set xs n v) ≡ take n xs ++ v ∷ []
  take-set_next xs n v h = rw add-one (take-set_end xs n v h)

  -- In a valid structure, `awk_fieldwidth_info_add` runs into no fault: it makes room where there is
  -- none, writes inside the block, keeps the fields so far and appends the new one, and leaves
  -- the structure valid with the capacity that it returns.
  pub awk_fieldwidth_info_add_lem :
      (info : FieldWidthInfo) (capacity skip len : ℕ)
      → IsValid info capacity
      → (info' : FieldWidthInfo) × (capacity' : ℕ) × (awk_fieldwidth_info_add mem info capacity skip
            len
          ≡ ok (info', capacity'))
        × IsValid info' capacity'
        × (entries info' ≡ entries info ++ record { skip = skip; len = len } ∷ [])
  unfolding awk_fieldwidth_info_add
  awk_fieldwidth_info_add_lem info capacity skip len h =
      let (same, sized, room, kept) = grow_lem info capacity h in
      let grown = (grow mem info capacity).0 in
      let new : Field = record { skip = skip; len = len } in
      let fits : grown.nf < length grown.fields = omega arith in
      (
        record { nf = grown.nf + 1; fields = set grown.fields grown.nf new },
        (grow mem info capacity).1,
        rw (lt→ltb grown.nf (length grown.fields) fits) refl,
        record {
          sized = length-set grown.fields grown.nf new ∙ sized;
          inside = omega arith;
          some_capacity = omega arith;
        },
        take-set_next grown.fields grown.nf new fits
            ∙ ap (λ (k : ℕ). take k grown.fields ++ new ∷ []) same
            ∙ ap (◌++ new ∷ []) kept,
      )
