-- ===== src/StrHash/Hash.antt =====
-- lib/strhash.c: `my_hash` with its unrolled loop, and the string comparison `STREQNN`.
-- `char` is signed and `unsigned long` has 64 bits. A counted string is the list of its bytes.
pub mod Duff
pub mod Equal
use gawkextlib.Common.{
  ℕ, zero, suc, ◌+◌, ◌-◌, ◌*◌, ◌/◌, ◌%◌, ◌^◌, Bool, true, false, ◌&&◌, ◌||◌, [], ◌∷◌, Bytes, Run,
  ok, fault, out_of_bounds, division_by_zero, ◌>>=◌, length, ltb, leb, ◌==◌, if◌then◌else◌,
}

abbrev pub word : ℕ
word = 2 ^ 64

-- `*s++` as it is added to an `unsigned long`: a negative `char` is sign-extended.
unfoldable pub char_value : ℕ → ℕ
char_value b = if ltb b 128 then b else b + word - 256

-- The macro HASHC, on the hash so far and the byte that it reads.
unfoldable pub hashc : ℕ → ℕ → ℕ
hashc h b =
    let htmp = (h * 2 ^ 6) % word in
    (char_value b + htmp + (htmp * 2 ^ 10) % word + (word - h)) % word

-- HASHC on the pair of `h` and the bytes from `s` on; past the end there is no byte to read.
hashc_step : ℕ × Bytes → Run (ℕ × Bytes)
hashc_step (h, []) = fault out_of_bounds
hashc_step (h, b ∷ s) = ok (hashc h b, s)

-- The statements from the label `case k:` down to the end of the loop's body.
unfoldable pub fall_through : ℕ → ℕ × Bytes → Run (ℕ × Bytes)
unfolding hashc_step
fall_through zero st = ok st
fall_through (suc k) st = do st' ← hashc_step st; fall_through k st'

-- The rounds after the first, each from `do {` on, as many as `--loop` leaves.
unfoldable pub rounds : ℕ → ℕ × Bytes → Run (ℕ × Bytes)
rounds zero st = ok st
rounds (suc n) st = do st' ← fall_through 8 st; rounds n st'

-- `len & 7`, where the label `case 0:` stands in front of eight HASHC's.
entry_point : ℕ → ℕ
entry_point len = if len % 8 == 0 then 8 else len % 8

-- The hash before its reduction.
unfoldable pub duff : Bytes → ℕ → Run ℕ
unfolding fall_through rounds entry_point
duff s len =
    if ltb 0 len
    then (do
      st ← fall_through (entry_point len) (0, s)
      st' ← rounds ((len + 8 - 1) / 2 ^ 3 - 1) st
      ok st'.0)
    else ok 0

-- The two results of `my_hash`: the value returned and what it stores through `code`.
pub record HashResult : Type 0 where
  pub index : ℕ
  pub code : ℕ

reduce : ℕ → ℕ → Run HashResult
reduce h hsize =
    if leb hsize h
    then (if hsize == 0
        then fault division_by_zero
        else ok (record { index = h % hsize; code = h }))
    else ok (record { index = h; code = h })

unfoldable pub my_hash : Bytes → ℕ → ℕ → Run HashResult
unfolding duff reduce
my_hash s len hsize = do h ← duff s len; reduce h hsize

-- `memcmp` of the first `n` bytes, as a test for zero.
memcmp : Bytes → Bytes → ℕ → Bool
memcmp a b zero = true
memcmp (x ∷ a) (y ∷ b) (suc n) = x == y && memcmp a b n
memcmp a b (suc n) = false

-- The first bytes agree, and `memcmp` agrees on the others.
same_bytes : Bytes → Bytes → Bool
same_bytes (x ∷ a) (y ∷ b) = x == y && memcmp a b (length a)
same_bytes a b = false

-- The macro STREQNN.
unfoldable pub streqnn : Bytes → Bytes → Bool
unfolding memcmp same_bytes
streqnn a b = length a == length b && (length a == 0 || same_bytes a b)
