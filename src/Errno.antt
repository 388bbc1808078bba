-- ===== src/Errno.antt =====
-- errno/errno.c: the names of error numbers. Two lists of them are made by the build, and so are
-- parameters: the pairs of `init_errno` for each table. Warnings are left out.
pub mod RoundTrip
mod Tests
use gawkextlib.Common.{
  ℕ, ◌+◌, Bool, true, false, Option, none, some, List, [], ◌∷◌, Bytes, max, ltb, ◌==◌,
  if◌then◌else◌,
}

-- `init_errno(A, B)`
pub record Entry : Type 0 where
  pub n : ℕ
  pub name : Bytes

-- A number that is an argument: whole and not negative, or not.
pub data Number : Type 0 where
  whole : ℕ → Number
  fraction_or_negative : Number

-- NUMERR: one more than the largest subscript.
unfoldable pub numerr : List Entry → ℕ
numerr [] = 0
numerr (e ∷ es) = max (e.n + 1) (numerr es)

-- `errno2name[i]` of the table `{ [A] = B, … }`, in which the last of two initialisers counts;
-- `none` is NULL.
unfoldable pub errno2name : List Entry → ℕ → Option Bytes
errno2name [] i = none
errno2name (e ∷ es) i = elim (errno2name es i) [
  | some name ↦ some name
  | none ↦ if e.n == i then some e.name else none
]

-- An argument is `none` where `get_argument` fails, and the result is `none` for the null string.
unfoldable pub do_errno2name : List Entry → Option Number → Option Bytes
do_errno2name es errnum = elim errnum [
  | none ↦ none
  | some x ↦ elim x [
    | fraction_or_negative ↦ none
    | whole i ↦ if ltb i (numerr es) then errno2name es i else none
  ]
]

-- The C library's comparison, where `true` stands for 0, and its message of an error number.
pub record Strings : Type 0 where
  pub strcasecmp : Bytes → Bytes → Bool
  pub strerror : Number → Bytes

module _ (lib : Strings) where
  open lib use {strcasecmp, strerror}

  unfoldable pub do_strerror : Option Number → Option Bytes
  do_strerror errnum = elim errnum [ none ↦ none | some x ↦ some (strerror x) ]

  -- The loop over `name2errno`.
  unfoldable pub search : List Entry → Bytes → Option ℕ
  search [] name = none
  search (e ∷ es) name = if strcasecmp name e.name then some e.n else search es name

  -- The result is `none` for -1.
  unfoldable pub do_name2errno : List Entry → Option Bytes → Option ℕ
  do_name2errno es err = elim err [ none ↦ none | some name ↦ search es name ]
