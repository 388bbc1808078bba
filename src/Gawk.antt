-- ===== src/Gawk.antt =====
-- What the extensions call of gawk's extension API (gawkapi.h, which is not part of this repository),
-- as interfaces: the operations are parameters, and the laws are what gawk documents of them.
use gawkextlib.Common.{
  ℕ, ◌+◌, ◌<◌, ◌^◌, ◌≡◌, Bool, true, false, Option, none, some, Bytes, ◌==◌, if◌then◌else◌,
}

-- Arrays with numeric subscripts and string elements.
pub record ArrayApi : Type 1 where
  pub Array : Type 0
  pub get : Array → ℕ → Option Bytes
  pub set_array_element : Array → ℕ → Bytes → Array × Bool
  pub clear_array : Array → Array
  pub get-clear_array : (a : Array) (i : ℕ) → get (clear_array a) i ≡ none
  pub get-set_array_element :
      (a : Array) (i j : ℕ) (v : Bytes)
      → (set_array_element a i v).1 ≡ true
      → get (set_array_element a i v).0 j ≡ (if i == j then some v else get a j)

-- awk's numbers, as far as they are made of and cut to an `int`. `to_int` is the bit pattern.
pub record Numbers : Type 1 where
  pub Num : Type 0
  pub of_int : ℕ → Num
  pub to_int : Num → ℕ
  pub to_int-of_int : (n : ℕ) → n < 2 ^ 31 → to_int (of_int n) ≡ n

-- Arrays whose elements are read and written as numbers. `has` says whether an element stands at
-- a subscript; `get_array_element` gives it when it can be had as a number.
pub record NumberArrayApi (Num : Type 0) : Type 1 where
  pub Array : Type 0
  pub has : Array → ℕ → Bool
  pub get_array_element : Array → ℕ → Option Num
  pub get_element_count : Array → Option ℕ
  pub set_array_element : Array → ℕ → Num → Array × Bool
  pub clear_array : Array → Array
  pub has-clear_array : (a : Array) (i : ℕ) → has (clear_array a) i ≡ false
  pub get_element_count-clear_array : (a : Array) → get_element_count (clear_array a) ≡ some 0
  pub has-set_array_element :
      (a : Array) (i j : ℕ) (v : Num)
      → (set_array_element a i v).1 ≡ true
      → has (set_array_element a i v).0 j ≡ (if i == j then true else has a j)
  pub get-set_array_element :
      (a : Array) (i j : ℕ) (v : Num)
      → (set_array_element a i v).1 ≡ true
      → get_array_element (set_array_element a i v).0 j
        ≡ (if i == j then some v else get_array_element a j)
  pub get_element_count-set_array_element :
      (a : Array) (i n : ℕ) (v : Num)
      → (set_array_element a i v).1 ≡ true
      → has a i ≡ false
      → get_element_count a ≡ some n
      → get_element_count (set_array_element a i v).0 ≡ some (n + 1)
