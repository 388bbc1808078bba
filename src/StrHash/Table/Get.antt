-- ===== src/StrHash/Table/Get.antt =====
-- lib/strhash.c: `strhash_create` and `strhash_get`.
use mathlib.Core.Path.{subst}
use gawkextlib.Common.{
  ℕ, ◌+◌, ◌*◌, ◌≡◌, refl, ◌∙◌, Bool, true, false, not, ◌&&◌, Option, none, some, ◌∷◌, Bytes, ok,
  fault, use_after_free, ◌>>=◌, set, ltb, leb, if◌then◌else◌, arith, Bool-cases, Option-cases, inl,
  inr,
}
use gawkextlib.StrHash.Chain.{Entry}
use gawkextlib.StrHash.Hash.{streqnn}
use gawkextlib.StrHash.Sizes.{get_table_size, get_table_size_range}
use gawkextlib.StrHash.Table.Grow.{Holds, fresh-Holds, push-Holds, strhash_grow-Grows}
use gawkextlib.StrHash.Table.Layout.{
  home, chain_at, view, IsValid, bucket_of-home, home_bucket, load-home,
}
use gawkextlib.StrHash.Table.{
  Table, avg_chain_max, strhash_create, load, store, strhash_grow, count_entry, insert_missing,
  strhash_get,
}

module _ {ℓ} {D : Type ℓ} where
  -- What the table holds under a string.
  abbrev pub lookup : Table D → Bytes → Option (Entry D)
  lookup ht s = view ht.index_size ht.ht_index s

  -- A new table is valid and holds nothing.
  pub strhash_create-IsValid :
      (n : ℕ)
      → IsValid (strhash_create {D = D} n)
        × ((s : Bytes) → lookup (strhash_create {D = D} n) s ≡ none)
  unfolding strhash_create
  strhash_create-IsValid n =
      let h = fresh-Holds {D = D} (get_table_size n) in
      (
        record {
          laid = record {
            width = h.width;
            roomy = omega (arith, (get_table_size_range n).0);
            placed = h.placed;
          };
          counted = omega (arith, h.filled);
        },
        h.reads,
      )

  -- One more entry makes `strhash_get` replace the block by a larger one.
  abbrev pub must_grow : Table D → Bool
  must_grow ht =
      not ht.size_maxed
      && ltb (avg_chain_max * ht.index_size) (ht.entries + 1)
      && not (leb (get_table_size ht.index_size) ht.index_size)

  -- The table after a new entry for `s`.
  pub record Inserted (ht : Table D) (s : Bytes) (r : Table D) : Type ℓ where
    pub valid : IsValid r
    pub entries : r.entries ≡ ht.entries + 1
    pub reads :
        (q : Bytes)
        → lookup r q
          ≡ (if streqnn q s then some (record { data_ptr = none; s = s }) else lookup ht q)

  -- A string that is present is returned with its entry, whether or not insertion was asked for,
  -- and the table stays.
  pub strhash_get-present :
      (ht : Table D) (s : Bytes) (insert : Bool) (e : Entry D)
      → IsValid ht
      → lookup ht s ≡ some e
      → strhash_get ht s insert ≡ ok (ht, some e)
  unfolding strhash_get view
  strhash_get-present ht s insert e v h =
      rw (bucket_of-home ht s v.roomy, ◌>>=◌, load-home ht s v, ◌>>=◌, h)

  -- Without insertion a string that is absent gives NULL, and the table stays.
  pub strhash_get-absent :
      (ht : Table D) (s : Bytes)
      → IsValid ht
      → lookup ht s ≡ none
      → strhash_get ht s false ≡ ok (ht, none)
  unfolding strhash_get view
  strhash_get-absent ht s v h = rw (bucket_of-home ht s v.roomy, ◌>>=◌, load-home ht s v, ◌>>=◌, h)

  -- The insertion is all that is left of the call.
  strhash_get-insert_missing :
      (ht : Table D) (s : Bytes)
      → IsValid ht
      → lookup ht s ≡ none
      → strhash_get ht s true ≡ insert_missing ht s (home_bucket ht s)
  unfolding strhash_get view
  strhash_get-insert_missing ht s v h =
      rw (bucket_of-home ht s v.roomy, ◌>>=◌, load-home ht s v, ◌>>=◌, h)

  -- Where the block is not replaced, only the count and the flag change.
  count_entry-keeps :
      (ht : Table D)
      → must_grow ht ≡ false
      → (m : Bool) × (count_entry ht ≡ ok (record ht { entries = ht.entries + 1; size_maxed = m }))
  unfolding count_entry strhash_grow
  count_entry-keeps ht h = elim (Bool-cases (leb (get_table_size ht.index_size) ht.index_size)) [
    | inl e ↦ (
      not (
          not (not ht.size_maxed && ltb (avg_chain_max * ht.index_size) (ht.entries + 1))
          && not ht.size_maxed),
      ground arith,
    )
    | inr e ↦ (ht.size_maxed, ground arith)
  ]

  insert_missing-Inserted :
      (ht : Table D) (s : Bytes)
      → IsValid ht
      → lookup ht s ≡ none
      → must_grow ht ≡ false
      → (r : Table D) × (insert_missing ht s (home_bucket ht s)
          ≡ ok (r, some (record { data_ptr = none; s = s })))
        × Inserted ht s r
  unfolding insert_missing load store
  insert_missing-Inserted ht s v h small =
      let (m, run) = count_entry-keeps ht small in
      let e : Entry D = record { data_ptr = none; s = s } in
      let old = chain_at ht.ht_index (home s ht.index_size) in
      let held : Holds ht.index_size ht.entries (lookup ht) ht.ht_index = record {
        width = v.width;
        placed = v.placed;
        filled = omega arith;
        reads = λ q. refl;
      } in
      let pushed = push-Holds ht.index_size ht.entries (lookup ht) ht.ht_index e v.roomy held h in
      (
        record ht {
          ht_index = set ht.ht_index (home s ht.index_size) (e ∷ old);
          entries = ht.entries + 1;
          size_maxed = m;
        },
        rw run (ground (arith, load-home ht s v)),
        record {
          valid = record {
            laid = record { width = pushed.width; roomy = v.roomy; placed = pushed.placed };
            counted = omega (arith, pushed.filled);
          };
          entries = refl;
          reads = pushed.reads;
        },
      )

  insert_missing-use_after_free :
      (ht : Table D) (s : Bytes)
      → IsValid ht
      → must_grow ht ≡ true
      → insert_missing ht s (home_bucket ht s) ≡ fault use_after_free
  unfolding insert_missing count_entry load
  insert_missing-use_after_free ht s v big =
      let (r, run, g) =
        strhash_grow-Grows (record ht { entries = ht.entries + 1 })
          (record { width = v.width; roomy = v.roomy; placed = v.placed }) in
      ground (arith, run, g.moved)

  -- A string that is absent is inserted with a NULL datum where the block need not be replaced:
  -- the entry is returned, the count goes up by one, the table stays valid, and only this string's
  -- lookup changes.
  pub strhash_get-Inserted :
      (ht : Table D) (s : Bytes)
      → IsValid ht
      → lookup ht s ≡ none
      → must_grow ht ≡ false
      → (r : Table D) × (strhash_get ht s true ≡ ok (r, some (record { data_ptr = none; s = s })))
        × Inserted ht s r
  strhash_get-Inserted ht s v h small =
      rw (strhash_get-insert_missing ht s v h) (insert_missing-Inserted ht s v h small)

  -- Where the block is replaced, the insertion of an absent string goes on with the pointer into
  -- the old block, which is freed by then.
  pub strhash_get-use_after_free :
      (ht : Table D) (s : Bytes)
      → IsValid ht
      → lookup ht s ≡ none
      → must_grow ht ≡ true
      → strhash_get ht s true ≡ fault use_after_free
  strhash_get-use_after_free ht s v h big =
      strhash_get-insert_missing ht s v h ∙ insert_missing-use_after_free ht s v big

  -- A search without insertion changes nothing and returns what the table holds: the entry of the
  -- string if it is present, and NULL otherwise.
  pub strhash_get-lookup :
      (ht : Table D) (s : Bytes) → IsValid ht → strhash_get ht s false ≡ ok (ht, lookup ht s)
  strhash_get-lookup ht s v = elim (Option-cases (lookup ht s)) [
    | inl absent ↦ rw absent (strhash_get-absent ht s v absent)
    | inr (e, present) ↦ rw present (strhash_get-present ht s false e v present)
  ]

  -- Whatever table a call returns is valid.
  pub strhash_get-IsValid :
      (ht : Table D) (s : Bytes) (insert : Bool) {r : Table D} {e : Option (Entry D)}
      → IsValid ht
      → strhash_get ht s insert ≡ ok (r, e)
      → IsValid r
  strhash_get-IsValid ht s false {r} {e} v run =
      let same : ht ≡ r = cc (strhash_get-lookup ht s v) in subst IsValid same v
  strhash_get-IsValid ht s true {r} {e} v run = elim (Option-cases (lookup ht s)) [
    | inr (x, present) ↦
        let same : ht ≡ r = cc (strhash_get-present ht s true x v present) in subst IsValid same v
    | inl absent ↦ elim (Bool-cases (must_grow ht)) [
      | inl big ↦ cc (strhash_get-use_after_free ht s v absent big)
      | inr small ↦
          let (q, done, i) = strhash_get-Inserted ht s v absent small in
          let same : q ≡ r = cc in subst IsValid same i.valid
    ]
  ]
