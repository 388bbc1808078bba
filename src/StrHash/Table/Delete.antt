-- ===== src/StrHash/Table/Delete.antt =====
-- lib/strhash.c: `strhash_delete` and `strhash_destroy`.
use mathlib.Core.List.{flatten}
use gawkextlib.Common.{
  ◌+◌, ◌-◌, ◌≡◌, ◌∙◌, true, false, none, some, List, [], ◌∷◌, Bytes, ok, ◌>>=◌, length-set, set,
  if◌then◌else◌, arith,
}
use gawkextlib.StrHash.Chain.{
  Entry, Chain, unlink, count, find-unlink, count-unlink-le, length-unlink, find-count_zero,
  count-find-none, count-append,
}
use gawkextlib.StrHash.Hash.{streqnn}
use gawkextlib.StrHash.Hash.Equal.{streqnn_iff}
use gawkextlib.StrHash.Table.Get.{lookup}
use gawkextlib.StrHash.Table.Layout.{
  home, chain_at, view, IsValid, bucket_of-home, load-home, set-IsPlaced, view-set,
  length-flatten-home, flatten-view,
}
use gawkextlib.StrHash.Table.{
  Table, DeleteFunc, call, store, strhash_delete, destroy_chain, destroy_all, strhash_destroy,
}

module _ {ℓ} {D : Type ℓ} where
  -- The table after the entry of `s` has been taken out.
  pub record Deleted (ht : Table D) (s : Bytes) (r : Table D) : Type ℓ where
    pub valid : IsValid r
    pub entries : r.entries + 1 ≡ ht.entries
    pub reads : (q : Bytes) → lookup r q ≡ (if streqnn q s then none else lookup ht q)

module _ {ℓ κ} {D : Type ℓ} {S : Type κ} where
  -- Deleting an absent string reports -1; the table and the caller's state stay.
  pub strhash_delete-absent :
      (ht : Table D) (s : Bytes) (func : DeleteFunc D S) (opaque : S)
      → IsValid ht
      → lookup ht s ≡ none
      → strhash_delete ht s func opaque ≡ ok (ht, opaque, false)
  unfolding strhash_delete view
  strhash_delete-absent ht s func opaque v h =
      rw (bucket_of-home ht s v.roomy, ◌>>=◌, load-home ht s v, ◌>>=◌, h)

  -- Deleting a present string reports 0 and calls the function on its entry; the count goes down
  -- by one, the table stays valid, and only this string's lookup changes.
  pub strhash_delete-Deleted :
      (ht : Table D) (s : Bytes) (func : DeleteFunc D S) (opaque : S) (e : Entry D)
      → IsValid ht
      → lookup ht s ≡ some e
      → (r : Table D) × (strhash_delete ht s func opaque ≡ ok (r, call func e opaque, true))
        × Deleted ht s r
  unfolding strhash_delete view store
  strhash_delete-Deleted ht s func opaque e v h =
      let n = ht.index_size in
      let old = chain_at ht.ht_index (home s n) in
      let new = unlink s old in
      let shorter = length-unlink s old h in
      let flat = length-flatten-home n ht.ht_index s new v.width v.roomy v.placed in
      (
        record ht { ht_index = set ht.ht_index (home s n) new; entries = ht.entries - 1 },
        rw (bucket_of-home ht s v.roomy, ◌>>=◌, load-home ht s v, ◌>>=◌, h) (ground arith),
        record {
          valid = record {
            laid = record {
              width = length-set ht.ht_index _ _ ∙ v.width;
              roomy = v.roomy;
              placed =
                  set-IsPlaced n ht.ht_index s new v.width v.roomy v.placed
                    (λ q. ground (arith, v.placed q (home s n), count-unlink-le s q old));
            };
            counted = omega arith;
          };
          entries = omega arith;
          reads =
              view-set n ht.ht_index s new v.width v.roomy v.placed _
                (λ q same. ground (arith, find-unlink s q old, v.placed q (home s n)))
                (λ q other. ground (arith, streqnn_iff q s));
        },
      )

module _ {ℓ} {D : Type ℓ} where
  -- A callback that keeps the entries it is called on.
  abbrev pub keep : DeleteFunc D (Chain D)
  keep = some (λ ent log. ent ∷ log)

  destroy_chain-keep :
      (s : Bytes) (c log : Chain D) → count s (destroy_chain c keep log) ≡ count s c + count s log
  unfolding destroy_chain count
  destroy_chain-keep s [] log = omega arith
  destroy_chain-keep s (e ∷ c) log = omega (arith, destroy_chain-keep s c (e ∷ log))

  destroy_all-keep :
      (s : Bytes) (cs : List (Chain D)) (log : Chain D)
      → count s (destroy_all cs keep log) ≡ count s (flatten cs) + count s log
  unfolding destroy_all count flatten
  destroy_all-keep s [] log = omega arith
  destroy_all-keep s (c ∷ cs) log = omega (
    arith,
    destroy_all-keep s cs (destroy_chain c keep log),
    destroy_chain-keep s c log,
    count-append s c (flatten cs),
  )

  -- Destroying a valid table calls the function once for each string that the table holds, and
  -- for no other string.
  pub strhash_destroy-once :
      (ht : Table D) (s : Bytes)
      → IsValid ht
      → count s (strhash_destroy ht keep []) ≡ elim (lookup ht s) [ none ↦ 0 | some _ ↦ 1 ]
  unfolding strhash_destroy count
  strhash_destroy-once ht s v =
      let (same, once) = flatten-view ht.index_size ht.ht_index s v.placed in
      let all = flatten ht.ht_index in
      ground
        (arith, destroy_all-keep s ht.ht_index [], count-find-none s all, find-count_zero s all)
