-- ===== src/StrHash/Sizes.antt =====
-- lib/strhash.c: `get_table_size`.
use gawkextlib.Common.{
  ℕ, suc, ◌≤◌, ◌<◌, ◌≡◌, refl, ◌⊎◌, inl, inr, some, List, [], ◌∷◌, get_elem?, drop, Bool-cases, ltb,
  if◌then◌else◌, arith,
}

-- The array `sizes`.
abbrev pub sizes : List ℕ
sizes =
    13 ∷ 127 ∷ 1021 ∷ 8191 ∷ 16381 ∷ 32749 ∷ 65497 ∷ 131101 ∷ 262147 ∷ 524309 ∷ 1048583 ∷ 2097169
    ∷ 4194319 ∷ 8388617 ∷ 16777259 ∷ 33554467 ∷ 67108879 ∷ 134217757 ∷ 268435459 ∷ 536870923
    ∷ 1073741827 ∷ []

abbrev pub max_size : ℕ
max_size = 1073741827

-- The loop over the array, from some place on; at the end the last size read is the result.
next_size : ℕ → ℕ → List ℕ → ℕ
next_size oldsize last [] = last
next_size oldsize last (n ∷ ns) = if ltb oldsize n then n else next_size oldsize n ns

unfoldable pub get_table_size : ℕ → ℕ
unfolding next_size
get_table_size oldsize = next_size oldsize 0 sizes

-- No size of the list lies above `oldsize` and below `n`.
abbrev pub IsNext : ℕ → ℕ → List ℕ → Type 0
IsNext oldsize n [] = Unit
IsNext oldsize n (m ∷ ms) = ((m ≤ oldsize) ⊎ (n ≤ m)) × IsNext oldsize n ms

-- A size is never zero, and never above the last of the array.
pub get_table_size_range : (n : ℕ) → (13 ≤ get_table_size n) × (get_table_size n ≤ max_size)
unfolding get_table_size
get_table_size_range n = ground arith

-- The loop gives a size of the array that it goes over.
next_size-get_elem? :
    (oldsize last n : ℕ) (ns : List ℕ)
    → (i : ℕ) × (get_elem? (n ∷ ns) i ≡ some (next_size oldsize last (n ∷ ns)))
unfolding next_size
next_size-get_elem? oldsize last n [] = elim (Bool-cases (ltb oldsize n)) [
  | inl above ↦ (0, rw above refl)
  | inr below ↦ (0, rw below refl)
]
next_size-get_elem? oldsize last n (m ∷ ms) =
    let (i, e) = next_size-get_elem? oldsize n m ms in
    elim (Bool-cases (ltb oldsize n)) [
      | inl above ↦ (0, rw above refl)
      | inr below ↦ (suc i, rw below e)
    ]

-- The result is a size of the array. Below the last one it is the least that is above the old size;
-- from the last size on it is the last size, which is no growth.
pub get_table_size-IsNext :
    (n : ℕ)
    → ((i : ℕ) × (get_elem? sizes i ≡ some (get_table_size n)))
      × (((n < max_size) × (n < get_table_size n) × IsNext n (get_table_size n) sizes)
          ⊎ ((max_size ≤ n) × (get_table_size n ≡ max_size)))
unfolding get_table_size
get_table_size-IsNext n = (next_size-get_elem? n 0 13 (drop 1 sizes), ground arith)
