-- ===== src/Errno/RoundTrip.antt =====
-- errno/errno.c: from a number to its name and back.
use gawkextlib.Common.{
  ℕ, ◌<◌, ◌≡◌, ◌≢◌, sym, ap, ◌∙◌, true, false, ◌⊎◌, inl, inr, some, List, [], ◌∷◌, Bytes, ◌==◌,
  Bool-cases, Option-cases, arith,
}
use gawkextlib.Errno.{Entry, whole, errno2name, do_errno2name, Strings, search, do_name2errno}

-- The table has this number with this name.
abbrev pub Listed : List Entry → ℕ → Bytes → Type 0
Listed [] n name = 0 < 0
Listed (e ∷ es) n name = ((e.n ≡ n) × (e.name ≡ name)) ⊎ Listed es n name

true_not_false : true ≢ false
true_not_false e = cc

errno2name-Listed :
    (es : List Entry) (n : ℕ) (name : Bytes) → errno2name es n ≡ some name → Listed es n name
unfolding errno2name
errno2name-Listed [] n name e = cc
errno2name-Listed (x ∷ es) n name e = elim (Option-cases (errno2name es n)) [
  | inr (other, found) ↦
      let found' : errno2name es n ≡ some name = ground (arith, found, e) in
      inr (errno2name-Listed es n name found')
  | inl nothing ↦ elim (Bool-cases (x.n == n)) [
    | inl hit ↦ inl (ground arith, ground (arith, nothing, hit, e))
    | inr miss ↦ absurd (ground (arith, nothing, miss, e))
  ]
]

module _ (lib : Strings) where
  open lib use {strcasecmp}

  -- Every entry whose name is taken for this one has this number.
  abbrev pub Unambiguous : List Entry → Bytes → ℕ → Type 0
  Unambiguous [] name n = Unit
  Unambiguous (e ∷ es) name n = (strcasecmp name e.name ≡ true → e.n ≡ n) × Unambiguous es name n

  search-Listed :
      (es : List Entry) (n : ℕ) (name : Bytes)
      → strcasecmp name name ≡ true
      → Unambiguous es name n
      → Listed es n name
      → search lib es name ≡ some n
  unfolding search
  search-Listed [] n name self h at = absurd (omega arith)
  search-Listed (x ∷ es) n name self (here, h) at = elim (Bool-cases (strcasecmp name x.name)) [
    | inl hit ↦ rw (search, hit) (ap some (here hit))
    | inr miss ↦ elim at [
      | inl (number, same_name) ↦ absurd (true_not_false (sym self ∙ (rw same_name at miss)))
      | inr later ↦ rw (search, miss) (search-Listed es n name self h later)
    ]
  ]

  -- Where `errno2name` gives a name for a number, and the other table lists all of the first one,
  -- and under that name, whatever the case of its letters, only this number, `name2errno` gives the
  -- number back; `strcasecmp` is taken to find a name equal to itself.
  pub do_name2errno-do_errno2name :
      (es ns : List Entry) (n : ℕ) (name : Bytes)
      → ((s : Bytes) → strcasecmp s s ≡ true)
      → ((i : ℕ) (s : Bytes) → Listed es i s → Listed ns i s)
      → Unambiguous ns name n
      → do_errno2name es (some (whole n)) ≡ some name
      → do_name2errno lib ns (some name) ≡ some n
  unfolding do_errno2name do_name2errno
  do_name2errno-do_errno2name es ns n name self all h e =
      let found : errno2name es n ≡ some name = ground (arith, e) in
      search-Listed ns n name (self name) h (all n name (errno2name-Listed es n name found))
