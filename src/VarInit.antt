-- ===== src/VarInit.antt =====
-- lib/varinit.c: scalar variables, constants and arrays of an extension, entered into gawk's symbol
-- table. The strings of initial values are allocated, and belong to gawk or are freed.
pub mod Ownership
mod Tests
use gawkextlib.Common.{ℕ, ◌≡◌, Bool, true, false, ◌||◌, Option, none, some, Bytes, if◌then◌else◌}

-- The value of a symbol, as far as the file tells values apart.
pub data Found (ArrayCookie : Type 0) : Type 0 where
  undefined other : Found ArrayCookie
  array : ArrayCookie → Found ArrayCookie

-- `awk_value_t` as an initial value: a string that was allocated, anything else, or an array.
pub data Value (ArrayCookie : Type 0) : Type 0 where
  string : Bytes → Value ArrayCookie
  plain : ℕ → Value ArrayCookie
  array_of : ArrayCookie → Value ArrayCookie

-- gawk's symbol table. `lookup` is `sym_lookup` for AWK_UNDEFINED, which finds any symbol; `sym_update` says whether it took the value, and changes nothing if not.
pub record Symbols (T : Type 0) : Type 1 where
  pub Cookie : Type 0
  pub ArrayCookie : Type 0
  pub lookup : T → Bytes → Option (Found ArrayCookie)
  pub lookup_scalar : T → Bytes → Option Cookie
  pub sym_update : T → Bytes → Value ArrayCookie → T × Bool
  pub create_array : ArrayCookie
  pub updated_cookie : T → Bytes → ArrayCookie
  pub clear_array : T → ArrayCookie → T
  pub sym_update-refused :
      (t : T) (name : Bytes) (v : Value ArrayCookie)
      → (sym_update t name v).1 ≡ false
      → (sym_update t name v).0 ≡ t

-- What a call does: the table it leaves, the cookie (`none` where it returns false), and whether
-- it freed the string of the initial value.
pub record Result (T : Type 0) (C : Type 0) : Type 0 where
  pub symbols : T
  pub cookie : Option C
  pub freed : Bool

abbrev pub is_string : {A : Type 0} → Value A → Bool
is_string (string s) = true
is_string (plain n) = false
is_string (array_of a) = false

module _ {T : Type 0} (sym : Symbols T) where
  open sym use {
    Cookie, ArrayCookie, lookup, lookup_scalar, sym_update, create_array, updated_cookie,
    clear_array,
  }

  -- `!sym_lookup(…) || (val.val_type == AWK_UNDEFINED)`
  unfoldable pub is_undefined : T → Bytes → Bool
  is_undefined t name = elim (lookup t name) [
    | none ↦ true
    | some found ↦ elim found [ undefined ↦ true | array a ↦ false | other ↦ false ]
  ]

  unfoldable pub gawk_api_varinit_scalar : T → Bytes → Value ArrayCookie → Bool → Result T Cookie
  gawk_api_varinit_scalar t name initial_value override_existing_value =
      let updated = sym_update t name initial_value in
      if override_existing_value || is_undefined t name
      then elim (updated.1) [
        | true ↦ record {
          symbols = updated.0;
          cookie = lookup_scalar updated.0 name;
          freed = false;
        }
        | false ↦ record { symbols = updated.0; cookie = none; freed = is_string initial_value }
      ]
      else record { symbols = t; cookie = lookup_scalar t name; freed = is_string initial_value }

  unfoldable pub gawk_api_varinit_constant : T → Bytes → Value ArrayCookie → Result T Cookie
  gawk_api_varinit_constant t name initial_value = elim (lookup t name) [
    | some found ↦ record { symbols = t; cookie = none; freed = is_string initial_value }
    | none ↦
        let updated = sym_update t name initial_value in
        elim (updated.1) [
          | true ↦ record {
            symbols = updated.0;
            cookie = lookup_scalar updated.0 name;
            freed = false;
          }
          | false ↦ record { symbols = updated.0; cookie = none; freed = is_string initial_value }
        ]
  ]

  -- `sym_update` changes the cookie of the value that it is given.
  unfoldable pub gawk_api_varinit_array : T → Bytes → Bool → T × Option ArrayCookie
  gawk_api_varinit_array t name clear_it = elim (lookup t name) [
    | some found ↦ elim found [
      | undefined ↦ (t, none)
      | other ↦ (t, none)
      | array cookie ↦ (if clear_it then clear_array t cookie else t, some cookie)
    ]
    | none ↦
        let updated = sym_update t name (array_of create_array) in
        if updated.1 then (updated.0, some (updated_cookie updated.0 name)) else (updated.0, none)
  ]
