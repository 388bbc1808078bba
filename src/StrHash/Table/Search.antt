-- ===== src/StrHash/Table/Search.antt =====
-- lib/strhash.c: what `strhash_get` finds among all entries of the table.
use mathlib.Core.Path.{subst}
use gawkextlib.Common.{
  ℕ, zero, suc, ◌≡◌, ◌≢◌, refl, sym, ap, ◌∙◌, false, inl, inr, Option, none, some, List, [], ◌∷◌,
  Bytes, ok, get_elem?, arith, Bool-cases,
}
use mathlib.Core.List.{flatten}
use gawkextlib.StrHash.Chain.{Entry, Chain, find}
use gawkextlib.StrHash.Hash.Equal.{streqnn_iff}
use gawkextlib.StrHash.Hash.{streqnn}
use gawkextlib.StrHash.Table.Get.{lookup, strhash_get-lookup}
use gawkextlib.StrHash.Table.Layout.{IsValid, flatten-view}
use gawkextlib.StrHash.Table.{Table, strhash_get}

differs : (s t : Bytes) → streqnn s t ≡ false → s ≢ t
differs s t e same = let yes = (streqnn_iff s t).1 same in cc

module _ {ℓ} {D : Type ℓ} where
  -- The entries of all buckets, one after the other.
  abbrev pub entries_of : Table D → List (Entry D)
  entries_of ht = flatten ht.ht_index

  -- The answer to a search of these entries: one with the string, or NULL, where none has it.
  abbrev pub Finds : List (Entry D) → Bytes → Option (Entry D) → Type ℓ
  Finds c s none = (i : ℕ) (e : Entry D) → get_elem? c i ≡ some e → e.s ≢ s
  Finds c s (some e) = (e.s ≡ s) × (i : ℕ) × (get_elem? c i ≡ some e)

  value : (x e : Entry D) → some x ≡ some e → x ≡ e
  value x e h = cc

  Finds-cons :
      (x : Entry D) (c : Chain D) (s : Bytes) (r : Option (Entry D))
      → s ≢ x.s
      → Finds c s r
      → Finds (x ∷ c) s r
  Finds-cons x c s none other h = λ i e at same. absent i e at same
    where
      absent : (i : ℕ) (e : Entry D) → get_elem? (x ∷ c) i ≡ some e → e.s ≢ s
      absent zero e at = λ same. other (sym same ∙ ap (λ (y : Entry D). y.s) (sym (value x e at)))
      absent (suc i) e at = h i e at
  Finds-cons x c s (some e) other (same, i, at) = (same, suc i, at)

  find-Finds : (c : Chain D) (s : Bytes) → Finds c s (find s c)
  unfolding find
  find-Finds [] s = λ i e at. absurd (ground arith)
  find-Finds (x ∷ c) s = elim (Bool-cases (streqnn s x.s)) [
    | inl e ↦ rw (find, e) (sym ((streqnn_iff s x.s).0 e), 0, refl)
    | inr e ↦
        let other : s ≢ x.s = λ same. absurd (differs s x.s e same) in
        rw (find, e) (Finds-cons x c s (find s c) other (find-Finds c s))
  ]

  -- A search without insertion ends and changes nothing; it returns an entry of the table that has
  -- the string, or NULL, where no entry of the whole table has it.
  pub strhash_get-Finds :
      (ht : Table D) (s : Bytes)
      → IsValid ht
      → (r : Option (Entry D)) × (strhash_get ht s false ≡ ok (ht, r)) × Finds (entries_of ht) s r
  strhash_get-Finds ht s v =
      let (whole, once) = flatten-view ht.index_size ht.ht_index s v.placed in
      (
        lookup ht s,
        strhash_get-lookup ht s v,
        subst (λ r. Finds (entries_of ht) s r) whole (find-Finds (entries_of ht) s),
      )
