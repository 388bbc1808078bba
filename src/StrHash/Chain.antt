-- ===== src/StrHash/Chain.antt =====
-- lib/strhash.c: the linked list of one bucket, front entry first.
use gawkextlib.Common.{
  ℕ, ◌+◌, ◌≤◌, ◌≡◌, refl, Option, none, some, List, [], ◌∷◌, ◌++◌, Bytes, length, if◌then◌else◌,
  arith,
}
use gawkextlib.StrHash.Hash.{streqnn}
use gawkextlib.StrHash.Hash.Equal.{streqnn_iff}

-- `strhash_entry` without its link: `data` is the application's pointer (`none` for NULL), `s` the
-- counted string with its length `len`.
pub record Entry {ℓ} (D : Type ℓ) : Type ℓ where
  pub data_ptr : Option D
  pub s : Bytes

abbrev pub Chain {ℓ} : Type ℓ → Type ℓ
Chain D = List (Entry D)

module _ {ℓ} {D : Type ℓ} where
  -- The loop `for (ent = *bucket; ent; ent = ent->next)` with its test.
  unfoldable pub find : Bytes → Chain D → Option (Entry D)
  find s [] = none
  find s (ent ∷ c) = if streqnn s ent.s then some ent else find s c

  -- The chain with the entry that `find` returns taken out of its links.
  unfoldable pub unlink : Bytes → Chain D → Chain D
  unlink s [] = []
  unlink s (ent ∷ c) = if streqnn s ent.s then c else ent ∷ unlink s c

  -- How many entries of the chain hold the string.
  unfoldable pub count : Bytes → Chain D → ℕ
  count s [] = 0
  count s (ent ∷ c) = (if streqnn s ent.s then 1 else 0) + count s c

  pub find-count_zero : (s : Bytes) (c : Chain D) → count s c ≡ 0 → find s c ≡ none
  unfolding count find
  find-count_zero s [] h = refl
  find-count_zero s (e ∷ c) h = ground (arith, find-count_zero s c)

  pub count-find-none : (s : Bytes) (c : Chain D) → find s c ≡ none → count s c ≡ 0
  unfolding count find
  count-find-none s [] h = refl
  count-find-none s (e ∷ c) h = ground (arith, count-find-none s c)

  -- What `find` returns holds the string that was asked for.
  pub find-s : (s : Bytes) (c : Chain D) {e : Entry D} → find s c ≡ some e → s ≡ e.s
  unfolding find
  find-s s [] h = cc
  find-s s (x ∷ c) {e} h = ground (arith, find-s s c {e = e}, streqnn_iff s x.s)

  pub count-append : (s : Bytes) (a b : Chain D) → count s (a ++ b) ≡ count s a + count s b
  unfolding count
  count-append s [] b = omega arith
  count-append s (e ∷ a) b = omega (arith, count-append s a b)

  pub find-append_left : (s : Bytes) (a b : Chain D) → count s b ≡ 0 → find s (a ++ b) ≡ find s a
  unfolding find
  find-append_left s [] b h = find-count_zero s b h
  find-append_left s (e ∷ a) b h = ground (arith, find-append_left s a b)

  pub find-append_right : (s : Bytes) (a b : Chain D) → count s a ≡ 0 → find s (a ++ b) ≡ find s b
  unfolding find count
  find-append_right s [] b h = refl
  find-append_right s (e ∷ a) b h = ground (arith, find-append_right s a b)

  -- Where a string occurs at most once, unlinking it leaves none, and leaves every other.
  pub find-unlink :
      (s q : Bytes) (c : Chain D)
      → count q c ≤ 1
      → find q (unlink s c) ≡ (if streqnn q s then none else find q c)
  unfolding find unlink count
  find-unlink s q [] h = ground arith
  find-unlink s q (e ∷ c) h = ground (
    arith,
    find-unlink s q c,
    find-count_zero q c,
    streqnn_iff s e.s,
    streqnn_iff q e.s,
    streqnn_iff q s,
  )

  pub count-unlink-le : (s q : Bytes) (c : Chain D) → count q (unlink s c) ≤ count q c
  unfolding count unlink
  count-unlink-le s q [] = omega arith
  count-unlink-le s q (e ∷ c) = ground (arith, count-unlink-le s q c)

  pub length-unlink :
      (s : Bytes) (c : Chain D) {e : Entry D}
      → find s c ≡ some e
      → length (unlink s c) + 1 ≡ length c
  unfolding find unlink
  length-unlink s [] h = cc
  length-unlink s (x ∷ c) {e} h = ground (arith, length-unlink s c {e = e})
