-- ===== src/Mbs/RoundTrip.antt =====
-- mbs/mbs.c: `mbs_split` and `mbs_join` undo each other.
use gawkextlib.Common.{
  ℕ, zero, suc, ◌+◌, ◌%◌, ◌^◌, ◌<◌, ◌≤◌, ◌≡◌, refl, sym, ap, ◌∙◌, Bool, true, false, ◌&&◌, Option,
  none, some, [], ◌∷◌, ◌++◌, append_assoc, append-nil, Bytes, Run, ok, length, set, take,
  length-set, take-set_end, take-set_le, lt→ltb, ◌==◌, if◌then◌else◌, Option-cases, inl, inr, arith,
}
use native.Mathlib.Numerals.{add-one}
use gawkextlib.Gawk.{Numbers, NumberArrayApi}
use gawkextlib.Mbs.{
  Value, number, text, low_byte, split_from, join_from, join_elements, do_mbs_split, do_mbs_join,
}

low_byte_lem : (c : ℕ) → c < 256 → low_byte c ≡ c
unfolding low_byte
low_byte_lem c h = ground arith

-- The bytes of a string.
abbrev pub AreBytes : Bytes → Type 0
AreBytes [] = Unit
AreBytes (c ∷ s) = (c < 256) × AreBytes s

gt_not_eq : (i j : ℕ) → i < j → (i == j) ≡ false
gt_not_eq i j h = ground arith

no_lint : (do_lint : Bool) (n : ℕ) → 0 < n → (do_lint && n == 0) ≡ false
no_lint true n h = ground arith
no_lint false n h = refl

take-set_next :
    (xs : Bytes) (n v : ℕ) → n < length xs → take (n + 1) (set xs n v) ≡ take n xs ++ v ∷ []
take-set_next xs n v h = rw add-one (take-set_end xs n v h)

module _ (numbers : Numbers) (api : NumberArrayApi numbers.Num) where
  open numbers use {of_int, to_int, to_int-of_int}
  open api use {
    Array, has, get_array_element, get_element_count, set_array_element, clear_array,
    has-clear_array, get_element_count-clear_array, has-set_array_element, get-set_array_element,
    get_element_count-set_array_element,
  }

  -- The low bytes of the elements at `n` subscripts from `i` on, where there are any.
  unfoldable pub bytes_from : ℕ → ℕ → Array → Bytes
  bytes_from zero i a = []
  bytes_from (suc n) i a = elim (get_array_element a i) [
    | none ↦ bytes_from n (i + 1) a
    | some value ↦ to_int value % 2 ^ 8 ∷ bytes_from n (i + 1) a
  ]

  join_from_lem :
      (n i : ℕ) (a : Array) (buffer : Bytes) (j : ℕ)
      → j + n < length buffer
      → (b : Bytes) × (k : ℕ) × (join_from numbers api n i a buffer j ≡ ok (b, k))
        × (length b ≡ length buffer)
        × (k ≤ j + n)
        × (take k b ≡ take j buffer ++ bytes_from n i a)
  unfolding join_from bytes_from
  join_from_lem zero i a buffer j h =
      (buffer, j, refl, refl, omega arith, sym (append-nil (take j buffer)))
  join_from_lem (suc n) i a buffer j h = elim (Option-cases (get_array_element a i)) [
    | inl e ↦
        let (b, k, run, len, le, eq) = join_from_lem n (i + 1) a buffer j (omega arith) in
        (b, k, rw (join_from, e) run, len, omega arith, rw (bytes_from, e) eq)
    | inr (value, e) ↦
        let byte = to_int value % 2 ^ 8 in
        let (b, k, run, len, le, eq) =
          join_from_lem n (i + 1) a (set buffer j byte) (j + 1)
            (omega (arith, length-set buffer j byte)) in
        (
          b,
          k,
          rw (join_from, e, lt→ltb j (length buffer) (omega arith)) run,
          len ∙ length-set buffer j byte,
          omega arith,
          rw (bytes_from, e)
              (eq
                ∙ ap (◌++ bytes_from n (i + 1) a) (take-set_next buffer j byte (omega arith))
                ∙ append_assoc (take j buffer) (byte ∷ []) (bytes_from n (i + 1) a)),
        )
  ]

  join_elements_lem :
      (gawk_malloc : ℕ → Option Bytes) (a : Array) (count : ℕ) (block : Bytes)
      → gawk_malloc (count + 1) ≡ some block
      → length block ≡ count + 1
      → join_elements numbers api gawk_malloc a count ≡ ok (text (bytes_from count 1 a))
  unfolding join_elements
  join_elements_lem gawk_malloc a count block e len =
      let (b, k, run, same, le, eq) = join_from_lem count 1 a block 0 (omega arith) in
      rw (join_elements, e, run, lt→ltb k (length b) (omega arith))
        (ap (λ (s : Bytes). ok (text s)) (take-set_le b k k 0 (omega arith) ∙ eq))

  -- Where every write into the array succeeds, what is below `i` stays.
  get-split_from :
      ((a : Array) (i : ℕ) (v : numbers.Num) → (set_array_element a i v).1 ≡ true)
      → (s : Bytes) (i j : ℕ) (a : Array) → j ≤ i
      → get_array_element (split_from numbers api i s a) j ≡ get_array_element a j
  unfolding split_from
  get-split_from stores [] i j a h = refl
  get-split_from stores (c ∷ s) i j a h =
      let v = of_int (low_byte c) in
      get-split_from stores s (i + 1) j (set_array_element a (i + 1) v).0 (omega arith)
      ∙ get-set_array_element a (i + 1) j v (stores a (i + 1) v)
      ∙ ground arith

  get_element_count-split_from :
      ((a : Array) (i : ℕ) (v : numbers.Num) → (set_array_element a i v).1 ≡ true)
      → (s : Bytes) (i n : ℕ) (a : Array) → ((j : ℕ) → i < j → has a j ≡ false)
      → get_element_count a ≡ some n
      → get_element_count (split_from numbers api i s a) ≡ some (n + length s)
  unfolding split_from
  get_element_count-split_from stores [] i n a free e = e ∙ ap some (omega arith)
  get_element_count-split_from stores (c ∷ s) i n a free e =
      let v = of_int (low_byte c) in
      let stored = stores a (i + 1) v in
      get_element_count-split_from stores s (i + 1) (n + 1) (set_array_element a (i + 1) v).0
        (λ j h.
          has-set_array_element a (i + 1) j v stored
          ∙ rw (gt_not_eq (i + 1) j h) (free j (omega arith)))
        (get_element_count-set_array_element a (i + 1) n v stored (free (i + 1) (omega arith)) e)
      ∙ ap some (omega arith)

  bytes_from-split_from :
      ((a : Array) (i : ℕ) (v : numbers.Num) → (set_array_element a i v).1 ≡ true)
      → (s : Bytes) (i : ℕ) (a : Array) → AreBytes s
      → bytes_from (length s) (i + 1) (split_from numbers api i s a) ≡ s
  unfolding split_from bytes_from
  bytes_from-split_from stores [] i a h = refl
  bytes_from-split_from stores (c ∷ s) i a (small, h) =
      let v = of_int (low_byte c) in
      let a' = (set_array_element a (i + 1) v).0 in
      let here : get_array_element (split_from numbers api (i + 1) s a') (i + 1) ≡ some v =
        get-split_from stores s (i + 1) (i + 1) a' (omega arith)
        ∙ get-set_array_element a (i + 1) (i + 1) v (stores a (i + 1) v)
        ∙ ground arith in
      let byte : to_int v % 2 ^ 8 ≡ c =
        rw (low_byte_lem c small, to_int-of_int c (omega arith)) (omega arith) in
      rw (bytes_from, here) (rw byte (ap (◌∷◌ c) (bytes_from-split_from stores s (i + 1) a' h)))

  -- With an array that takes every element and an allocation that succeeds, `mbs_split` returns
  -- the length of a string of bytes, and `mbs_join` of the array that it filled gives the string
  -- back, however the functions are warned about their other arguments.
  pub do_mbs_join-do_mbs_split :
      (gawk_malloc : ℕ → Option Bytes) (do_lint : Bool) (nargs nargs' : ℕ) (s block : Bytes)
      (a : Array)
      → ((a : Array) (i : ℕ) (v : numbers.Num) → (set_array_element a i v).1 ≡ true)
      → AreBytes s
      → gawk_malloc (length s + 1) ≡ some block
      → length block ≡ length s + 1
      → 0 < nargs
      → 0 < nargs'
      → (filled : Array) × (do_mbs_split numbers api do_lint nargs (some s) (some a)
          ≡ (some filled, number (length s)))
        × (do_mbs_join numbers api gawk_malloc do_lint nargs' (some filled) ≡ ok (text s))
  unfolding do_mbs_split do_mbs_join
  do_mbs_join-do_mbs_split gawk_malloc do_lint nargs nargs' s block a stores h e len pos pos' =
      let filled = split_from numbers api 0 s (clear_array a) in
      let count : get_element_count filled ≡ some (length s) =
        get_element_count-split_from stores s 0 0 (clear_array a) (λ j lt. has-clear_array a j)
          (get_element_count-clear_array a)
        ∙ ap some (omega arith) in
      (
        filled,
        rw (no_lint do_lint nargs pos) refl,
        rw (no_lint do_lint nargs' pos', count)
            (joined s (
              join_elements_lem gawk_malloc filled (length s) block e len
              ∙ ap (λ (t : Bytes). ok (text t))
                  (bytes_from-split_from stores s 0 (clear_array a) h))),
      )
    where
      joined :
          (t : Bytes) {r : Run Value}
          → r ≡ ok (text t)
          → (if length t == 0 then ok (text []) else r) ≡ ok (text t)
      joined [] eq = refl
      joined (c ∷ t) eq = ground (arith, eq)
