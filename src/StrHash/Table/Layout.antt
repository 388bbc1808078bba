-- ===== src/StrHash/Table/Layout.antt =====
-- lib/strhash.c: where the entries of a block stand, and what a block means to a reader.
use gawkextlib.Common.{
  ℕ, zero, suc, ◌+◌, ◌%◌, ◌≤◌, ◌<◌, ◌≡◌, ◌≢◌, refl, ◌∙◌, Option, List, [], ◌∷◌, Bytes, ok, length,
  get_or, get_elem?-get_or, set, get_or-set_self, get_or-set_ne, ◌==◌, if◌then◌else◌, arith,
  Bool-cases, inl, inr, length-flatten-set,
}
use mathlib.Core.List.{flatten}
use gawkextlib.StrHash.Chain.{
  Entry, Chain, find, count, find-append_left, find-append_right, count-append,
}
use gawkextlib.StrHash.Hash.Duff.{sdbm, my_hash-sdbm}
use gawkextlib.StrHash.Table.{Table, Bucket, cell, bucket_of, load}

-- The bucket of a string in a block of `n` buckets.
unfoldable pub home : Bytes → ℕ → ℕ
home s n = sdbm 0 s % n

pub home_lem : (s : Bytes) (n : ℕ) → home s n ≡ sdbm 0 s % n
unfolding home
home_lem s n = refl

pub home-lt : (s : Bytes) (n : ℕ) → 0 < n → home s n < n
unfolding home
home-lt s n h = omega arith

module _ {ℓ} {D : Type ℓ} where
  abbrev pub chain_at : List (Chain D) → ℕ → Chain D
  chain_at index i = get_or index i []

  -- Each string stands at most once in its own bucket, and in no other.
  abbrev pub IsPlaced : ℕ → List (Chain D) → Type 0
  IsPlaced n index =
      (s : Bytes) (i : ℕ) → count s (chain_at index i) ≤ (if home s n == i then 1 else 0)

  -- What a lookup of the string finds.
  unfoldable pub view : ℕ → List (Chain D) → Bytes → Option (Entry D)
  view n index s = find s (chain_at index (home s n))

  -- The block has the size that the table records, and its entries stand in their places.
  pub record IsLaid (ht : Table D) : Type 0 where
    pub width : length ht.ht_index ≡ ht.index_size
    pub roomy : 0 < ht.index_size
    pub placed : IsPlaced ht.index_size ht.ht_index

  -- Between calls the count is right too.
  pub record IsValid (ht : Table D) : Type 0 where
    pub laid : IsLaid ht
    pub open laid use *
    pub counted : ht.entries ≡ length (flatten ht.ht_index)

  pub cell-chain_at :
      (index : List (Chain D)) (i : ℕ) → i < length index → cell index i ≡ ok (chain_at index i)
  unfolding cell
  cell-chain_at index i h = rw (get_elem?-get_or index i [] h, cell)

  abbrev pub home_bucket : Table D → Bytes → Bucket
  home_bucket ht s = record { array = ht.block; slot = home s ht.index_size }

  pub bucket_of-home :
      (ht : Table D) (s : Bytes) → 0 < ht.index_size → bucket_of ht s ≡ ok (home_bucket ht s)
  unfolding bucket_of home
  bucket_of-home ht s h = rw (my_hash-sdbm s ht.index_size h)

  pub load-home :
      (ht : Table D) (s : Bytes)
      → IsValid ht
      → load ht (home_bucket ht s) ≡ ok (chain_at ht.ht_index (home s ht.index_size))
  unfolding load
  load-home ht s v =
      let inside : home s ht.index_size < length ht.ht_index =
        omega (arith, home-lt s ht.index_size v.roomy) in
      ground (arith, cell-chain_at ht.ht_index (home s ht.index_size) inside)

  -- Only one bucket holds the string, so a search of all entries is a search of that bucket.
  count-flatten_none :
      (s : Bytes) (index : List (Chain D))
      → ((i : ℕ) → count s (chain_at index i) ≡ 0)
      → count s (flatten index) ≡ 0
  unfolding flatten count
  count-flatten_none s [] h = refl
  count-flatten_none s (c ∷ cs) h = rw (count-append, h 0, count-flatten_none s cs (λ i. h (suc i)))

  flatten_one :
      (s : Bytes) (index : List (Chain D)) (j : ℕ)
      → ((i : ℕ) → i ≢ j → count s (chain_at index i) ≡ 0)
      → (find s (flatten index) ≡ find s (chain_at index j))
        × (count s (flatten index) ≡ count s (chain_at index j))
  unfolding flatten
  flatten_one s [] j h = (refl, refl)
  flatten_one s (c ∷ cs) zero h =
      let others = count-flatten_none s cs (λ i. h (suc i) (omega arith)) in
      (find-append_left s c (flatten cs) others, omega (arith, count-append s c (flatten cs)))
  flatten_one s (c ∷ cs) (suc j) h =
      let first = h 0 (omega arith) in
      let (found, counted) = flatten_one s cs j (λ i n. h (suc i) (omega arith)) in
      (
        find-append_right s c (flatten cs) first ∙ found,
        omega (arith, count-append s c (flatten cs)),
      )

  pub flatten-view :
      (n : ℕ) (index : List (Chain D)) (s : Bytes)
      → IsPlaced n index
      → (find s (flatten index) ≡ view n index s) × (count s (flatten index) ≤ 1)
  unfolding view
  flatten-view n index s placed =
      let (found, counted) = flatten_one s index (home s n) (λ i ne. ground (arith, placed s i)) in
      (found, ground (arith, placed s (home s n)))

  -- A new chain `c` in the bucket of `s` that agrees with the old one on every other string.
  module _ (n : ℕ) (index : List (Chain D)) (s : Bytes) (c : Chain D) (width : length index ≡ n)
      (roomy : 0 < n) (placed : IsPlaced n index) where
    pub set-IsPlaced :
        ((q : Bytes) → count q c ≤ (if home q n == home s n then 1 else 0))
        → IsPlaced n (set index (home s n) c)
    set-IsPlaced few q i = elim (Bool-cases (home s n == i)) [
      | inl e ↦
          let e' : home s n ≡ i = ground arith in
          rw (← e')
            (rw (get_or-set_self index (home s n) c [] (omega (arith, home-lt s n roomy))) (few q))
      | inr e ↦ rw (get_or-set_ne index (home s n) i c [] (ground arith)) (placed q i)
    ]

    pub view-set :
        (f : Bytes → Option (Entry D))
        → ((q : Bytes) → home q n ≡ home s n → find q c ≡ f q)
        → ((q : Bytes) → home q n ≢ home s n → view n index q ≡ f q)
        → (q : Bytes) → view n (set index (home s n) c) q ≡ f q
    unfolding view
    view-set f here there q = elim (Bool-cases (home q n == home s n)) [
      | inl e ↦
          let e' : home q n ≡ home s n = ground arith in
          rw e' (
            rw (get_or-set_self index (home s n) c [] (omega (arith, home-lt s n roomy)))
              (here q e'))
      | inr e ↦
          rw (get_or-set_ne index (home s n) (home q n) c [] (ground arith))
            (there q (ground arith))
    ]

    pub length-flatten-home :
        length (flatten (set index (home s n) c)) + length (chain_at index (home s n))
        ≡ length (flatten index) + length c
    length-flatten-home =
        omega (arith, length-flatten-set index (home s n) c (omega (arith, home-lt s n roomy)))
