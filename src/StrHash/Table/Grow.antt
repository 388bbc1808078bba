-- ===== src/StrHash/Table/Grow.antt =====
-- lib/strhash.c: `strhash_grow` on a valid table.
use gawkextlib.Common.{
  ℕ, zero, suc, ◌+◌, ◌≤◌, ◌<◌, ◌≡◌, ◌⊎◌, refl, ◌∙◌, true, false, Option, none, some, List, [], ◌∷◌,
  ◌++◌, Bytes, ok, ◌>>=◌, >>=-assoc, length, set, length-set, replicate, length-replicate,
  get_or-replicate, if◌then◌else◌, leb, arith, Bool-cases, inl, inr,
}
use mathlib.Core.Path.{fun_ext}
use mathlib.Core.List.{flatten}
use mathlib.Core.Option.{or_else}
use gawkextlib.StrHash.Chain.{Entry, Chain, find, count, find-count_zero, count-find-none}
use gawkextlib.StrHash.Hash.{streqnn}
use gawkextlib.StrHash.Hash.Equal.{streqnn_iff, streqnn_refl}
use gawkextlib.StrHash.Hash.Duff.{my_hash-sdbm}
use gawkextlib.StrHash.Sizes.{get_table_size}
use gawkextlib.StrHash.Table.Layout.{
  home, home_lem, home-lt, chain_at, IsPlaced, view, IsLaid, cell-chain_at, flatten-view,
  set-IsPlaced, view-set, length-flatten-home,
}
use gawkextlib.StrHash.Table.{Table, move_chain, move_all, strhash_grow}

flatten-replicate {ℓ} : (A : Type ℓ) (n : ℕ) → length (flatten {A = A} (replicate n [])) ≡ 0
unfolding flatten
flatten-replicate A zero = refl
flatten-replicate A (suc n) = flatten-replicate A n

module _ {ℓ} {D : Type ℓ} where
  -- A block of `n` buckets with `total` entries that reads as `f`.
  pub record Holds (n total : ℕ) (f : Bytes → Option (Entry D)) (index : List (Chain D))
      : Type ℓ where
    pub width : length index ≡ n
    pub placed : IsPlaced n index
    pub filled : length (flatten index) ≡ total
    pub reads : (q : Bytes) → view n index q ≡ f q

  -- What growth keeps: the lookups, the entries and the count; the block is a new one if it grew.
  pub record Grows (ht r : Table D) : Type ℓ where
    pub laid : IsLaid r
    pub filled : length (flatten r.ht_index) ≡ length (flatten ht.ht_index)
    pub entries : r.entries ≡ ht.entries
    pub reads : (q : Bytes) → view r.index_size r.ht_index q ≡ view ht.index_size ht.ht_index q
    pub moved :
        ((leb (get_table_size ht.index_size) ht.index_size ≡ true)
          × (r.block ≡ ht.block)
          × (r.size_maxed ≡ true))
        ⊎ ((leb (get_table_size ht.index_size) ht.index_size ≡ false)
            × (r.block ≡ ht.block + 1)
            × (r.index_size ≡ get_table_size ht.index_size))

  pub fresh-Holds : (n : ℕ) → Holds n 0 (λ _. none) (replicate n [])
  unfolding view find count
  fresh-Holds n = record {
    width = length-replicate n [];
    placed = λ q i. rw get_or-replicate (omega arith);
    filled = flatten-replicate (Entry D) n;
    reads = λ q. rw get_or-replicate;
  }

  -- One entry pushed onto the front of its bucket.
  pub push-Holds :
      (n total : ℕ) (f : Bytes → Option (Entry D)) (index : List (Chain D)) (e : Entry D)
      → 0 < n
      → Holds n total f index
      → f e.s ≡ none
      → Holds n
          (total + 1)
          (λ q. if streqnn q e.s then some e else f q)
          (set index (home e.s n) (e ∷ chain_at index (home e.s n)))
  unfolding view count find
  push-Holds n total f index e roomy h absent =
      let old = chain_at index (home e.s n) in
      let none_there = count-find-none e.s old (h.reads e.s ∙ absent) in
      record {
        width = length-set index _ _ ∙ h.width;
        placed =
            set-IsPlaced n index e.s (e ∷ old) h.width roomy h.placed
              (λ q. ground (arith, h.placed q (home e.s n), streqnn_iff q e.s));
        filled = omega (arith, length-flatten-home n index e.s (e ∷ old) h.width roomy h.placed);
        reads =
            view-set n index e.s (e ∷ old) h.width roomy h.placed _
              (λ q same. ground (arith, h.reads q))
              (λ q other. ground (arith, h.reads q, streqnn_iff q e.s));
      }

  move_chain-append :
      (n : ℕ) (a b : Chain D) (index : List (Chain D))
      → move_chain n (a ++ b) index ≡ move_chain n a index >>= move_chain n b
  unfolding move_chain
  move_chain-append n [] b index = refl
  move_chain-append n (e ∷ a) b index = simp (>>=-assoc, move_chain-append n a b)

  move_all-flatten :
      (n : ℕ) (cs index : List (Chain D)) → move_all n cs index ≡ move_chain n (flatten cs) index
  unfolding move_all flatten move_chain
  move_all-flatten n [] index = refl
  move_all-flatten n (c ∷ cs) index =
      rw (move_chain-append n c (flatten cs) index, ← fun_ext (move_all-flatten n cs))

  move_chain-Holds :
      (n total : ℕ) (f : Bytes → Option (Entry D)) (es : Chain D) (index : List (Chain D))
      → 0 < n
      → Holds n total f index
      → ((q : Bytes) → count q es ≤ 1)
      → ((q : Bytes) → 0 < count q es → f q ≡ none)
      → (r : List (Chain D)) × (move_chain n es index ≡ ok r)
        × Holds n (total + length es) (λ q. or_else (find q es) (f q)) r
  unfolding move_chain count find or_else
  move_chain-Holds n total f [] index roomy h once apart = (
    index,
    refl,
    record { width = h.width; placed = h.placed; filled = omega arith; reads = h.reads },
  )
  move_chain-Holds n total f (e ∷ es) index roomy h once apart =
      let pushed =
        push-Holds n total f index e roomy h (apart e.s (ground (arith, streqnn_refl e.s))) in
      let (r, run, g) =
        move_chain-Holds n (total + 1) _ es _ roomy pushed (λ q. omega (arith, once q))
          (λ q some_left. ground (arith, once q, apart q)) in
      (
        r,
        rw
            (
              my_hash-sdbm e.s n roomy,
              ◌>>=◌,
              ← home_lem e.s n,
              cell-chain_at index (home e.s n) (omega (arith, home-lt e.s n roomy)),
              ◌>>=◌,
            )
            run,
        record {
          width = g.width;
          placed = g.placed;
          filled = omega arith;
          reads = λ q. ground (arith, g.reads q, once q, apart q, find-count_zero q es);
        },
      )

  -- On a table that is laid out right growth runs into no fault. At the last size it only sets the flag; otherwise
  -- it moves every entry into a larger block, in which every lookup finds what it found.
  pub strhash_grow-Grows :
      (ht : Table D) → IsLaid ht → (r : Table D) × (strhash_grow ht ≡ ok r) × Grows ht r
  unfolding strhash_grow or_else
  strhash_grow-Grows ht v =
      let n = get_table_size ht.index_size in
      elim (Bool-cases (leb n ht.index_size)) [
        | inl e ↦ (
          record ht { size_maxed = true },
          rw e,
          record {
            laid = record { width = v.width; roomy = v.roomy; placed = v.placed };
            filled = refl;
            entries = refl;
            reads = λ q. refl;
            moved = inl (e, refl, refl);
          },
        )
        | inr e ↦
            let (index, run, h) =
              move_chain-Holds n 0 (λ _. none) (flatten ht.ht_index) (replicate n []) (ground arith)
                (fresh-Holds n) (λ q. (flatten-view ht.index_size ht.ht_index q v.placed).1)
                (λ _ _. refl) in
            (
              record ht { block = ht.block + 1; ht_index = index; index_size = n },
              rw (e, move_all-flatten n ht.ht_index (replicate n []), run),
              record {
                laid = record { width = h.width; roomy = ground arith; placed = h.placed };
                filled = omega (arith, h.filled);
                entries = refl;
                reads = λ q.
                    ground
                      (arith, h.reads q, (flatten-view ht.index_size ht.ht_index q v.placed).0);
                moved = inr (e, refl, refl);
              },
            )
      ]
