-- ===== src/VarInit/Ownership.antt =====
-- lib/varinit.c: who owns the string of an initial value after a call.
use gawkextlib.Common.{
  ◌≡◌, refl, Bool, true, false, ◌||◌, Bytes, ◌⊎◌, inl, inr, Bool-cases, Option-cases,
}
use gawkextlib.VarInit.{
  string, Symbols, Result, is_undefined, gawk_api_varinit_scalar, gawk_api_varinit_constant,
}

module _ {T : Type 0} (sym : Symbols T) where
  open sym use {Cookie, lookup, sym_update, sym_update-refused}

  -- The string was freed, once, and the table is as before; or gawk took it, and it was not freed.
  abbrev pub OneOwner : T → Bytes → Bytes → Result T Cookie → Type 0
  OneOwner t name s r =
      ((r.freed ≡ true) × (r.symbols ≡ t))
      ⊎ ((r.freed ≡ false)
          × ((sym_update t name (string s)).1 ≡ true)
          × (r.symbols ≡ (sym_update t name (string s)).0))

  varinit_scalar-OneOwner :
      (t : T) (name s : Bytes) (override : Bool)
      → OneOwner t name s (gawk_api_varinit_scalar sym t name (string s) override)
  unfolding gawk_api_varinit_scalar
  varinit_scalar-OneOwner t name s override =
      elim (Bool-cases (override || is_undefined sym t name)) [
        | inr e ↦ rw (gawk_api_varinit_scalar, e) (inl (refl, refl))
        | inl e ↦ elim (Bool-cases ((sym_update t name (string s)).1)) [
          | inl took ↦ rw (gawk_api_varinit_scalar, e, took) (inr (refl, refl, refl))
          | inr refused ↦
              rw (gawk_api_varinit_scalar, e, refused)
                (inl (refl, sym_update-refused t name (string s) refused))
        ]
      ]

  varinit_constant-OneOwner :
      (t : T) (name s : Bytes) → OneOwner t name s (gawk_api_varinit_constant sym t name (string s))
  unfolding gawk_api_varinit_constant
  varinit_constant-OneOwner t name s = elim (Option-cases (lookup t name)) [
    | inr (found, e) ↦ rw (gawk_api_varinit_constant, e) (inl (refl, refl))
    | inl e ↦ elim (Bool-cases ((sym_update t name (string s)).1)) [
      | inl took ↦ rw (gawk_api_varinit_constant, e, took) (inr (refl, refl, refl))
      | inr refused ↦
          rw (gawk_api_varinit_constant, e, refused)
            (inl (refl, sym_update-refused t name (string s) refused))
    ]
  ]

  -- On every path through `gawk_api_varinit_scalar` and `gawk_api_varinit_constant`, an initial
  -- string has one owner in the end: it was freed and the table is as before, or `sym_update` took
  -- it, the table is the updated one, and the string was not freed.
  pub varinit-OneOwner :
      (t : T) (name s : Bytes) (override : Bool)
      → OneOwner t name s (gawk_api_varinit_scalar sym t name (string s) override)
        × OneOwner t name s (gawk_api_varinit_constant sym t name (string s))
  varinit-OneOwner t name s override =
      (varinit_scalar-OneOwner t name s override, varinit_constant-OneOwner t name s)
