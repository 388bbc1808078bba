-- ===== src/StrHash/Hash/Duff.antt =====
-- lib/strhash.c: the unrolled loop of `my_hash` against the sdbm recurrence that it stands for.
use native.Mathlib.Nat.{mod-eq_of_lt}
use gawkextlib.Common.{
  ℕ, zero, suc, ◌+◌, ◌-◌, ◌*◌, ◌/◌, ◌%◌, ◌^◌, ◌≤◌, ◌<◌, ◌≡◌, refl, ◌∙◌, [], ◌∷◌, Bytes, ok, ◌>>=◌,
  length, length-drop, take, drop, arith, lt→ltb,
}
use gawkextlib.StrHash.Hash.{
  word, char_value, hashc, fall_through, rounds, entry_point, duff, my_hash,
}

-- The recurrence of the comment: `h = *s++ + 65599 * h`, for each byte in turn.
unfoldable pub sdbm : ℕ → Bytes → ℕ
sdbm h [] = h
sdbm h (b ∷ s) = sdbm ((char_value b + 65599 * h) % word) s

-- The shifts and the subtraction are the multiplication by 65599.
hashc_lem : (h b : ℕ) → h < word → hashc h b ≡ (char_value b + 65599 * h) % word
unfolding hashc
hashc_lem h b lt = omega arith

mod_small : (h n : ℕ) → h < n → h % n ≡ h
mod_small h n lt = mod-eq_of_lt lt

pub sdbm-lt : (s : Bytes) (h : ℕ) → h < word → sdbm h s < word
unfolding sdbm
sdbm-lt [] h lt = lt
sdbm-lt (b ∷ s) h lt = sdbm-lt s _ (omega arith)

sdbm-take-drop : (k : ℕ) (s : Bytes) (h : ℕ) → sdbm (sdbm h (take k s)) (drop k s) ≡ sdbm h s
unfolding sdbm
sdbm-take-drop zero s h = refl
sdbm-take-drop (suc k) [] h = refl
sdbm-take-drop (suc k) (b ∷ s) h = sdbm-take-drop k s _

fall_through-sdbm :
    (k : ℕ) (s : Bytes) (h : ℕ)
    → h < word
    → k ≤ length s
    → fall_through k (h, s) ≡ ok (sdbm h (take k s), drop k s)
unfolding fall_through sdbm
fall_through-sdbm zero s h lt le = refl
fall_through-sdbm (suc k) [] h lt le = absurd (omega arith)
fall_through-sdbm (suc k) (b ∷ s) h lt le =
    rw (hashc_lem h b lt) (fall_through-sdbm k s _ (omega arith) (omega arith))

rounds-sdbm :
    (n : ℕ) (s : Bytes) (h : ℕ) → h < word → length s ≡ 8 * n → rounds n (h, s) ≡ ok (sdbm h s, [])
unfolding rounds sdbm
rounds-sdbm zero [] h lt e = refl
rounds-sdbm zero (b ∷ s) h lt e = absurd (omega arith)
rounds-sdbm (suc n) s h lt e = rw (fall_through-sdbm 8 s h lt (omega arith)) (
    rounds-sdbm n (drop 8 s) (sdbm h (take 8 s)) (sdbm-lt (take 8 s) h lt)
      (omega (arith, length-drop 8 s))
    ∙ rw (sdbm-take-drop 8 s h))

-- The first jump leaves a multiple of eight bytes.
entry_point_rest :
    (n : ℕ) → 0 < n → (entry_point n ≤ n) × (n - entry_point n ≡ 8 * ((n + 8 - 1) / 2 ^ 3 - 1))
unfolding entry_point
entry_point_rest n h = ground arith

duff-sdbm_pos : (s : Bytes) → 0 < length s → duff s (length s) ≡ ok (sdbm 0 s)
unfolding duff
duff-sdbm_pos s h =
    let k = entry_point (length s) in
    let (le, rest) = entry_point_rest (length s) h in
    rw
      (
        lt→ltb 0 (length s) h,
        fall_through-sdbm k s 0 (omega arith) le,
        ◌>>=◌,
        rounds-sdbm ((length s + 8 - 1) / 2 ^ 3 - 1) (drop k s) (sdbm 0 (take k s))
            (sdbm-lt (take k s) 0 (omega arith)) (length-drop k s ∙ rest),
      )
      (rw (sdbm-take-drop k s 0))

duff-sdbm : (s : Bytes) → duff s (length s) ≡ ok (sdbm 0 s)
duff-sdbm [] = unfold duff sdbm in refl
duff-sdbm (b ∷ s) = duff-sdbm_pos (b ∷ s) (omega arith)

-- For every string the unrolled loop reads exactly its bytes, and gives the sdbm hash of the
-- string as the code and that hash modulo the table's size as the index.
pub my_hash-sdbm :
    (s : Bytes) (hsize : ℕ)
    → 0 < hsize
    → my_hash s (length s) hsize ≡ ok (record { index = sdbm 0 s % hsize; code = sdbm 0 s })
unfolding my_hash
my_hash-sdbm s hsize pos = rw (duff-sdbm s) (ground (arith, mod_small (sdbm 0 s) hsize))
