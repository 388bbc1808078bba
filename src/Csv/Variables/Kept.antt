-- ===== src/Csv/Variables/Kept.antt =====
-- csv/csv.c: the control variables that a program has set before the extension is loaded.
use gawkextlib.Common.{◌≡◌, refl, true, false, some, [], ◌∷◌}
use gawkextlib.Csv.Variables.{
  VarNode, csvmode, csvcomma, csvquote, csvfs, csvrecord, initial, csv_varinit_scalar, load_nodes,
  csv_load_vars,
}
use gawkextlib.VarInit.{Value, Symbols, is_undefined, gawk_api_varinit_scalar}

module _ {T : Type 0} (sym : Symbols T) (null_string : Value (sym.ArrayCookie)) where
  open sym use {Cookie, lookup_scalar, sym_update}

  csv_varinit_scalar-set :
      (t : T) (node : VarNode) (c : Cookie)
      → is_undefined sym t node.name ≡ false
      → lookup_scalar t node.name ≡ some c
      → csv_varinit_scalar sym null_string t node false ≡ some (t, c)
  unfolding csv_varinit_scalar gawk_api_varinit_scalar
  csv_varinit_scalar-set t node c e found =
      rw (csv_varinit_scalar, gawk_api_varinit_scalar, e, found) (rw e refl)

  -- Where the four control variables are set and scalar, and gawk takes the initial value of
  -- CSVRECORD and then has it as a scalar, `csv_load_vars` succeeds; the only change of the symbol
  -- table is that of CSVRECORD, which becomes the null string, and the cookies are those of the
  -- variables.
  pub csv_load_vars-set :
      (t : T) (mode comma quote fs rec : Cookie)
      → (is_undefined sym t csvmode.name ≡ false) × (lookup_scalar t csvmode.name ≡ some mode)
      → (is_undefined sym t csvcomma.name ≡ false) × (lookup_scalar t csvcomma.name ≡ some comma)
      → (is_undefined sym t csvquote.name ≡ false) × (lookup_scalar t csvquote.name ≡ some quote)
      → (is_undefined sym t csvfs.name ≡ false) × (lookup_scalar t csvfs.name ≡ some fs)
      → (sym_update t csvrecord.name null_string).1 ≡ true
      → lookup_scalar (sym_update t csvrecord.name null_string).0 csvrecord.name ≡ some rec
      → csv_load_vars sym null_string t
        ≡ some ((sym_update t csvrecord.name null_string).0, mode ∷ comma ∷ quote ∷ fs ∷ rec ∷ [])
  unfolding csv_load_vars load_nodes
  csv_load_vars-set t mode comma quote fs rec (m, m') (c, c') (q, q') (f, f') took found =
      let last : csv_varinit_scalar sym null_string t csvrecord true
          ≡ some ((sym_update t csvrecord.name null_string).0, rec) =
        record_set in
      rw
        (
          csv_load_vars,
          load_nodes,
          csv_varinit_scalar-set t csvmode mode m m',
          csv_varinit_scalar-set t csvcomma comma c c',
          csv_varinit_scalar-set t csvquote quote q q',
          csv_varinit_scalar-set t csvfs fs f f',
          last,
        )
        refl
    where
      record_set :
          csv_varinit_scalar sym null_string t csvrecord true
          ≡ some ((sym_update t csvrecord.name null_string).0, rec)
      record_set =
          unfold csv_varinit_scalar gawk_api_varinit_scalar initial in
          rw (took, found) (rw took refl)
