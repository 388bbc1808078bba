-- ===== src/Csv/Variables.antt =====
-- csv/csv.c: the variables of the extension, entered into gawk's symbol table.
pub mod Kept
use gawkextlib.Common.{
  ℕ, Bool, true, false, Option, none, some, List, [], ◌∷◌, Bytes, codes, take, ◌==◌, if◌then◌else◌,
}
use gawkextlib.VarInit.{Value, string, plain, Symbols, Result, gawk_api_varinit_scalar}

-- `VARNODE`, without its cookie.
pub record VarNode : Type 0 where
  pub name : Bytes
  pub default_type : ℕ
  pub default_string : Bytes
  pub default_length : ℕ
  pub default_num : ℕ

abbrev pub csvmode : VarNode
csvmode = record {
  name = codes "CSVMODE";
  default_type = 2;
  default_string = [];
  default_length = 0;
  default_num = 0;
}

abbrev pub csvcomma : VarNode
csvcomma = record {
  name = codes "CSVCOMMA";
  default_type = 1;
  default_string = b',' ∷ [];
  default_length = 1;
  default_num = 0;
}

abbrev pub csvquote : VarNode
csvquote = record {
  name = codes "CSVQUOTE";
  default_type = 1;
  default_string = b'"' ∷ [];
  default_length = 1;
  default_num = 0;
}

-- The default is the byte NUL.
abbrev pub csvfs : VarNode
csvfs = record {
  name = codes "CSVFS";
  default_type = 1;
  default_string = 0 ∷ [];
  default_length = 1;
  default_num = 0;
}

abbrev pub csvrecord : VarNode
csvrecord = record {
  name = codes "CSVRECORD";
  default_type = 0;
  default_string = [];
  default_length = 0;
  default_num = 0;
}

module _ {T : Type 0} (sym : Symbols T) (null_string : Value (sym.ArrayCookie)) where
  -- `switch (node->default_type)`
  unfoldable pub initial : VarNode → Value (sym.ArrayCookie)
  initial node =
      if node.default_type == 1
      then string (take node.default_length node.default_string)
      else if node.default_type == 2
      then plain node.default_num
      else null_string

  -- The table and the cookie that the node gets, or `none` where the extension ends with an error.
  unfoldable pub csv_varinit_scalar : T → VarNode → Bool → Option (T × sym.Cookie)
  csv_varinit_scalar t node override =
      let r = gawk_api_varinit_scalar sym t node.name (initial node) override in
      elim r.cookie [ none ↦ none | some cookie ↦ some (r.symbols, cookie) ]

  -- The nodes one after another, each with its `override`.
  unfoldable pub load_nodes : T → List (VarNode × Bool) → Option (T × List sym.Cookie)
  load_nodes t [] = some (t, [])
  load_nodes t ((node, override) ∷ nodes) = elim (csv_varinit_scalar t node override) [
    | none ↦ none
    | some (t', cookie) ↦ elim (load_nodes t' nodes) [
      | none ↦ none
      | some (last, cookies) ↦ some (last, cookie ∷ cookies)
    ]
  ]

  unfoldable pub csv_load_vars : T → Option (T × List sym.Cookie)
  csv_load_vars t = load_nodes t (
      (csvmode, false)
      ∷ (csvcomma, false)
      ∷ (csvquote, false)
      ∷ (csvfs, false)
      ∷ (csvrecord, true)
      ∷ [])
