-- ===== src/VarInit/Tests.antt =====
-- lib/varinit.c: a symbol table of one name, and the theorem at a concrete input.
use gawkextlib.Common.{ℕ, true, false, Option, none, some, codes}
use gawkextlib.VarInit.Ownership.{OneOwner, varinit-OneOwner}
use gawkextlib.VarInit.{
  Value, other, string, Symbols, gawk_api_varinit_scalar, gawk_api_varinit_constant,
}

abbrev one_name : Symbols (Option (Value ℕ))
one_name = record {
  Cookie = ℕ;
  ArrayCookie = ℕ;
  lookup = λ t name. elim t [ none ↦ none | some v ↦ some other ];
  lookup_scalar = λ t name. elim t [ none ↦ none | some v ↦ some 0 ];
  sym_update = λ t name v. (some v, true);
  create_array = 0;
  updated_cookie = λ t name. 0;
  clear_array = λ t a. t;
  sym_update-refused = λ t name v h. cc;
}

varinit-OneOwner_example :
    OneOwner one_name none
      (codes "CSVFS")
      (codes ",")
      (gawk_api_varinit_scalar one_name none (codes "CSVFS") (string (codes ",")) false)
    × OneOwner one_name none
        (codes "CSVFS")
        (codes ",")
        (gawk_api_varinit_constant one_name none (codes "CSVFS") (string (codes ",")))
varinit-OneOwner_example = varinit-OneOwner one_name none (codes "CSVFS") (codes ",") false
