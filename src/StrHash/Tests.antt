-- ===== src/StrHash/Tests.antt =====
-- lib/strhash.c: runs on concrete strings, and the theorems at concrete tables.
use gawkextlib.Common.{
  ℕ, zero, suc, ◌+◌, ◌≡◌, ◌⊎◌, ◌≤◌, ◌<◌, ◌%◌, ◌↔◌, refl, true, false, Option, none, some, List, [],
  ◌∷◌, Bytes, Run, ok, fault, use_after_free, arith, codes, get_elem?,
}
use gawkextlib.StrHash.Chain.{Entry, find, count, unlink}
use gawkextlib.StrHash.Hash.{my_hash, streqnn, hashc, char_value}
use gawkextlib.StrHash.Hash.Duff.{sdbm, my_hash-sdbm}
use gawkextlib.StrHash.Hash.Equal.{streqnn_iff}
use gawkextlib.StrHash.Sizes.{sizes, max_size, get_table_size, get_table_size-IsNext, IsNext}
use gawkextlib.StrHash.Table.Delete.{Deleted, strhash_delete-Deleted, strhash_destroy-once, keep}
use gawkextlib.StrHash.Table.Search.{entries_of, Finds, strhash_get-Finds}
use gawkextlib.StrHash.Table.Get.{
  lookup, Inserted, strhash_create-IsValid, strhash_get-Inserted, strhash_get-use_after_free,
  strhash_get-IsValid,
}
use gawkextlib.StrHash.Table.Grow.{Grows, strhash_grow-Grows}
use gawkextlib.StrHash.Table.Layout.{IsValid, view, home}
use gawkextlib.StrHash.Table.{
  Table, strhash_create, strhash_get, strhash_grow, strhash_delete, strhash_destroy, call, cell,
  bucket_of, load, store, count_entry, insert_missing, move_chain, move_all,
}

program : Unit {0}
unfolding my_hash streqnn hashc char_value get_table_size find unlink strhash_create cell bucket_of
    load store move_chain move_all strhash_grow count_entry insert_missing strhash_get
    strhash_delete view home sdbm
program = tt

abbrev empty : Table ℕ
empty = strhash_create 0

-- Insert the strings one after another, as far as no call runs into a fault.
insert_all : Table ℕ → List Bytes → Table ℕ
insert_all ht [] = ht
insert_all ht (s ∷ ss) = elim (strhash_get ht s true) [ ok (r, _) ↦ insert_all r ss | fault _ ↦ ht ]

insert_all-IsValid : (ss : List Bytes) (ht : Table ℕ) → IsValid ht → IsValid (insert_all ht ss)
unfolding insert_all
insert_all-IsValid [] ht v = v
insert_all-IsValid (s ∷ ss) ht v =
    go (strhash_get ht s true) refl (λ r w. insert_all-IsValid ss r w)
  where
    go :
        (m : Run (Table ℕ × Option (Entry ℕ)))
        → strhash_get ht s true ≡ m
        → ((r : Table ℕ) → IsValid r → IsValid (insert_all r ss))
        → IsValid (elim m [ ok (r, _) ↦ insert_all r ss | fault _ ↦ ht ])
    go (ok (r, e)) run ih = ih r (strhash_get-IsValid ht s true v run)
    go (fault f) run ih = v

-- The strings "a" to "z".
letters_from : ℕ → ℕ → List Bytes
letters_from zero c = []
letters_from (suc n) c = (c ∷ []) ∷ letters_from n (c + 1)

abbrev full : Table ℕ
full = insert_all empty (letters_from 26 b'a')

full-IsValid : IsValid full
full-IsValid = insert_all-IsValid _ empty (strhash_create-IsValid 0).0

hash_abc :
    my_hash (codes "abc") 3 13 ≡ ok (record { index = 417419622498 % 13; code = 417419622498 })
unfolding program
hash_abc = refl

full_entries : full.entries ≡ 26
unfolding program insert_all letters_from
full_entries = refl

my_hash-sdbm_example :
    my_hash (codes "regex") 5 13
    ≡ ok (record { index = sdbm 0 (codes "regex") % 13; code = sdbm 0 (codes "regex") })
my_hash-sdbm_example = my_hash-sdbm (codes "regex") 13 (omega arith)

streqnn_iff_example : (streqnn (codes "ab") (codes "ac") ≡ true) ↔ (codes "ab" ≡ codes "ac")
streqnn_iff_example = streqnn_iff (codes "ab") (codes "ac")

get_table_size-IsNext_example :
    ((i : ℕ) × (get_elem? sizes i ≡ some (get_table_size 127)))
    × (((127 < max_size) × (127 < get_table_size 127) × IsNext 127 (get_table_size 127) sizes)
        ⊎ ((max_size ≤ 127) × (get_table_size 127 ≡ max_size)))
get_table_size-IsNext_example = get_table_size-IsNext 127

strhash_grow-Grows_example : (r : Table ℕ) × (strhash_grow full ≡ ok r) × Grows full r
strhash_grow-Grows_example = strhash_grow-Grows full full-IsValid.laid

strhash_get-Finds_example :
    (r : Option (Entry ℕ)) × (strhash_get full (codes "q") false ≡ ok (full, r))
    × Finds (entries_of full) (codes "q") r
strhash_get-Finds_example = strhash_get-Finds full (codes "q") full-IsValid

strhash_get-Inserted_example :
    (r : Table ℕ) × (strhash_get empty (codes "a") true
      ≡ ok (r, some (record { data_ptr = none; s = codes "a" })))
    × Inserted empty (codes "a") r
strhash_get-Inserted_example =
    strhash_get-Inserted empty (codes "a") (strhash_create-IsValid 0).0 (unfold program in refl)
      (unfold program in refl)

-- The 27th distinct string of a table that `strhash_create(0)` made.
strhash_get-use_after_free_example : strhash_get full (codes "A") true ≡ fault use_after_free
strhash_get-use_after_free_example =
    strhash_get-use_after_free full (codes "A") full-IsValid
      (unfold program insert_all letters_from in refl)
      (unfold program insert_all letters_from in refl)

strhash_delete-Deleted_example :
    (r : Table ℕ) × (strhash_delete full (codes "q") keep []
      ≡ ok (r, call keep (record { data_ptr = none; s = codes "q" }) [], true))
    × Deleted full (codes "q") r
strhash_delete-Deleted_example =
    strhash_delete-Deleted full (codes "q") keep [] (record { data_ptr = none; s = codes "q" })
      full-IsValid (unfold program insert_all letters_from in refl)

strhash_destroy-once_example :
    count (codes "q") (strhash_destroy full keep [])
    ≡ elim (lookup full (codes "q")) [ none ↦ 0 | some _ ↦ 1 ]
strhash_destroy-once_example = strhash_destroy-once full (codes "q") full-IsValid
