-- ===== src/StrHash/Table.antt =====
-- lib/strhash.c: the table and its operations. A block of buckets is known by a number of its own,
-- so that a pointer into a block that was freed is told apart from one into the block in use.
-- Running out of memory ends the process (`emalloc`, `ezalloc`), so every allocation succeeds here.
pub mod Layout
pub mod Grow
pub mod Get
pub mod Search
pub mod Delete
use gawkextlib.Common.{
  ℕ, zero, suc, ◌+◌, ◌-◌, ◌*◌, Bool, true, false, not, ◌&&◌, Option, none, some, List, [], ◌∷◌,
  Bytes, Run, ok, fault, use_after_free, out_of_bounds, ◌>>=◌, length, get_elem?, set, replicate,
  ltb, leb, ◌==◌, if◌then◌else◌,
}
use gawkextlib.StrHash.Chain.{Entry, Chain, find, unlink}
use gawkextlib.StrHash.Hash.{word, my_hash}
use gawkextlib.StrHash.Sizes.{get_table_size}

abbrev pub avg_chain_max : ℕ
avg_chain_max = 2

-- `struct _strhash`. `block` names the allocation that `ht_index` points to.
pub record Table {ℓ} (D : Type ℓ) : Type ℓ where
  pub block : ℕ
  pub ht_index : List (Chain D)
  pub index_size : ℕ
  pub entries : ℕ
  pub size_maxed : Bool

-- A pointer `&ht->ht_index[slot]`, taken when `ht_index` was the allocation `array`.
pub record Bucket : Type 0 where
  pub array : ℕ
  pub slot : ℕ

-- `size_t` subtraction of one.
abbrev pub decrement : ℕ → ℕ
decrement n = if n == 0 then word - 1 else n - 1

module _ {ℓ} {D : Type ℓ} where
  unfoldable pub strhash_create : ℕ → Table D
  strhash_create min_table_size = record {
    block = 0;
    ht_index = replicate (get_table_size min_table_size) [];
    index_size = get_table_size min_table_size;
    entries = 0;
    size_maxed = false;
  }

  -- `index[i]`
  unfoldable pub cell : List (Chain D) → ℕ → Run (Chain D)
  cell index i = elim (get_elem? index i) [ none ↦ fault out_of_bounds | some c ↦ ok c ]

  -- `&ht->ht_index[hash(s, len, ht->index_size, NULL)]`
  unfoldable pub bucket_of : Table D → Bytes → Run Bucket
  bucket_of ht s = do
    h ← my_hash s (length s) ht.index_size
    ok (record { array = ht.block; slot = h.index })

  -- `*bucket`
  unfoldable pub load : Table D → Bucket → Run (Chain D)
  unfolding cell
  load ht bucket =
      if bucket.array == ht.block then cell ht.ht_index bucket.slot else fault use_after_free

  -- `*bucket = c`
  unfoldable pub store : Table D → Bucket → Chain D → Run (Table D)
  store ht bucket c =
      if bucket.array == ht.block
      then ok (record ht { ht_index = set ht.ht_index bucket.slot c })
      else fault use_after_free

  -- The inner loop of `strhash_grow`: each entry goes to the front of its new bucket.
  unfoldable pub move_chain : ℕ → Chain D → List (Chain D) → Run (List (Chain D))
  move_chain newsize [] new_index = ok new_index
  move_chain newsize (ent ∷ c) new_index = do
    h ← my_hash ent.s (length ent.s) newsize
    old ← cell new_index h.index
    move_chain newsize c (set new_index h.index (ent ∷ old))

  -- The outer loop, over the buckets of the old block.
  unfoldable pub move_all : ℕ → List (Chain D) → List (Chain D) → Run (List (Chain D))
  move_all newsize [] new_index = ok new_index
  move_all newsize (c ∷ cs) new_index = do
    moved ← move_chain newsize c new_index
    move_all newsize cs moved

  unfoldable pub strhash_grow : Table D → Run (Table D)
  strhash_grow ht =
      let newsize = get_table_size ht.index_size in
      if leb newsize ht.index_size then ok (record ht { size_maxed = true }) else (do
        new_index ← move_all newsize ht.ht_index (replicate newsize [])
        ok (record ht { block = ht.block + 1; ht_index = new_index; index_size = newsize }))

  -- `ht->entries++` and the growth that follows it.
  unfoldable pub count_entry : Table D → Run (Table D)
  count_entry ht =
      let ht' = record ht { entries = ht.entries + 1 } in
      if not ht'.size_maxed && ltb (avg_chain_max * ht'.index_size) ht'.entries
      then strhash_grow ht'
      else ok ht'

  -- The rest of `strhash_get` where the string is to be inserted: `bucket` was taken before.
  unfoldable pub insert_missing : Table D → Bytes → Bucket → Run (Table D × Option (Entry D))
  insert_missing ht s bucket = do
    grown ← count_entry ht
    c ← load grown bucket
    let ent : Entry D = record { data_ptr = none; s = s }
    stored ← store grown bucket (ent ∷ c)
    ok (stored, some ent)

  -- The entry returned is `none` for NULL.
  unfoldable pub strhash_get : Table D → Bytes → Bool → Run (Table D × Option (Entry D))
  strhash_get ht s insert_if_missing = do
    bucket ← bucket_of ht s
    c ← load ht bucket
    elim (find s c) [
      | some ent ↦ ok (ht, some ent)
      | none ↦ if not insert_if_missing then ok (ht, none) else insert_missing ht s bucket
    ]

-- `strhash_delete_func` acts on the caller's own state, which `opaque` points to; `none` is NULL.
-- It is called after the entry has left the table, and is taken to leave the table alone.
abbrev pub DeleteFunc {ℓ κ} : Type ℓ → Type κ → Type (ℓ ⊔ κ)
DeleteFunc D S = Option (Entry D → S → S)

module _ {ℓ κ} {D : Type ℓ} {S : Type κ} where
  abbrev pub call : DeleteFunc D S → Entry D → S → S
  call none ent opaque = opaque
  call (some func) ent opaque = func ent opaque

  -- The result is `true` for 0 and `false` for -1.
  unfoldable pub strhash_delete : Table D → Bytes → DeleteFunc D S → S → Run (Table D × S × Bool)
  strhash_delete ht s func opaque = do
    bucket ← bucket_of ht s
    c ← load ht bucket
    elim (find s c) [
      | none ↦ ok (ht, opaque, false)
      | some ent ↦ do
        stored ← store ht bucket (unlink s c)
        ok (record stored { entries = decrement stored.entries }, call func ent opaque, true)
    ]

  -- `while (*bptr != NULL)`: each entry is unlinked from the front and handed over.
  unfoldable pub destroy_chain : Chain D → DeleteFunc D S → S → S
  destroy_chain [] func opaque = opaque
  destroy_chain (ent ∷ c) func opaque = destroy_chain c func (call func ent opaque)

  destroy_all : List (Chain D) → DeleteFunc D S → S → S
  destroy_all [] func opaque = opaque
  destroy_all (c ∷ cs) func opaque = destroy_all cs func (destroy_chain c func opaque)

  unfoldable pub strhash_destroy : Table D → DeleteFunc D S → S → S
  unfolding destroy_all
  strhash_destroy ht func opaque = destroy_all ht.ht_index func opaque
