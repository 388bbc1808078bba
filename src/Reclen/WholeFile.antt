-- ===== src/Reclen/WholeFile.antt =====
-- reclen/reclen.c: the records of a whole file, one call of `reclen_get_record` after another.
use mathlib.Core.List.{flatten}
use gawkextlib.Common.{
  ℕ, zero, suc, ◌<◌, ◌≤◌, ◌≡◌, refl, ap, ◌∙◌, false, Option, some, List, [], ◌∷◌, ◌++◌, Bytes, Run,
  ok, fault, out_of_fuel, ◌>>=◌, length, take, drop, length-drop, ◌==◌, arith,
}
use gawkextlib.Reclen.Records.{IsValid, reclen_get_record_lem}
use gawkextlib.Reclen.{Reclen, bytes, eof, error, got, System, reclen_get_record}

-- Each record but the last has `n` bytes, and the last has at least one and at most `n`.
abbrev pub AreRecords : ℕ → List Bytes → Type 0
AreRecords n [] = Unit
AreRecords n (r ∷ []) = (0 < length r) × (length r ≤ n)
AreRecords n (r ∷ next ∷ rs) = (length r ≡ n) × AreRecords n (next ∷ rs)

-- The pieces of `n` bytes that a text falls into, with fuel for each piece.
unfoldable pub pieces : ℕ → ℕ → Bytes → List Bytes
pieces zero n cs = []
pieces (suc fuel) n [] = []
pieces (suc fuel) n (c ∷ cs) = take n (c ∷ cs) ∷ pieces fuel n (drop n (c ∷ cs))

take-append-drop : (n : ℕ) (cs : Bytes) → take n cs ++ drop n cs ≡ cs
take-append-drop zero cs = refl
take-append-drop (suc n) [] = refl
take-append-drop (suc n) (c ∷ cs) = ap (◌∷◌ c) (take-append-drop n cs)

pub length-take_lt : (n : ℕ) (cs : Bytes) → length (take n cs) ≤ n
length-take_lt zero cs = omega arith
length-take_lt (suc n) [] = omega arith
length-take_lt (suc n) (c ∷ cs) = omega (arith, length-take_lt n cs)

length-take_full :
    (n c : ℕ) (cs : Bytes) (rest : Bytes) → drop n cs ≡ c ∷ rest → length (take n cs) ≡ n
length-take_full zero c cs rest e = refl
length-take_full (suc n) c [] rest e = cc
length-take_full (suc n) c (d ∷ cs) rest e = ap suc (length-take_full n c cs rest e)

take_nil : (n : ℕ) → take {A = ℕ} n [] ≡ []
take_nil zero = refl
take_nil (suc n) = refl

take_cons : (n c : ℕ) (cs : Bytes) → 0 < n → (length (take n (c ∷ cs)) == 0) ≡ false
take_cons zero c cs h = absurd (omega arith)
take_cons (suc n) c cs h = ground arith

flatten-pieces :
    (fuel n : ℕ) (cs : Bytes) → 0 < n → length cs < fuel → flatten (pieces fuel n cs) ≡ cs
unfolding flatten pieces
flatten-pieces zero n cs pos lt = absurd (omega arith)
flatten-pieces (suc fuel) n [] pos lt = refl
flatten-pieces (suc fuel) n (c ∷ cs) pos lt =
    ap (take n (c ∷ cs) ++◌)
      (flatten-pieces fuel n (drop n (c ∷ cs)) pos (omega (arith, length-drop n (c ∷ cs))))
    ∙ take-append-drop n (c ∷ cs)

pieces-AreRecords : (fuel n : ℕ) (cs : Bytes) → 0 < n → AreRecords n (pieces fuel n cs)
unfolding pieces
pieces-AreRecords zero n cs pos = tt
pieces-AreRecords (suc fuel) n [] pos = tt
pieces-AreRecords (suc fuel) zero (c ∷ cs) pos = absurd (omega arith)
pieces-AreRecords (suc zero) (suc n) (c ∷ cs) pos =
    (omega arith, omega (arith, length-take_lt n cs))
pieces-AreRecords (suc (suc fuel)) (suc n) (c ∷ cs) pos =
    more (drop n cs) refl (λ rest. pieces-AreRecords (suc fuel) (suc n) rest pos)
  where
    more :
        (rest : Bytes)
        → drop n cs ≡ rest
        → ((later : Bytes) → AreRecords (suc n) (pieces (suc fuel) (suc n) later))
        → AreRecords (suc n) ((c ∷ take n cs) ∷ pieces (suc fuel) (suc n) rest)
    more [] e ih = (omega arith, omega (arith, length-take_lt n cs))
    more (d ∷ rest) e ih = (ap suc (length-take_full n d cs rest e), ih (d ∷ rest))

module _ {W : Type 0} (sys : System W) where
  open sys use {read}

  -- gawk's side: it asks for records until there are none.
  unfoldable pub read_all : ℕ → W → Option ℕ → Reclen → ℕ → Run (List Bytes)
  read_all zero w lookup s i = fault out_of_fuel
  read_all (suc fuel) w lookup s i = do
    (w', s', result) ← reclen_get_record sys w lookup s i
    elim result [
      | eof ↦ ok []
      | error e ↦ ok []
      | got r ↦ do rs ← read_all fuel w' lookup s' i; ok (r ∷ rs)
    ]

  module _ (remaining : W → Bytes)
      (reads : (w : W) (fd : Option ℕ) (n : ℕ)
        → (w' : W) × (read w fd n ≡ (w', bytes (take n (remaining w))))
          × (remaining w' ≡ drop n (remaining w))) where
    read_all-pieces :
        (fuel : ℕ) (w : W) (reclen i address : ℕ) (s : Reclen) (cs : Bytes)
        → remaining w ≡ cs
        → (s.iobufs i).opaque ≡ some address
        → 0 < reclen
        → IsValid s.buf
        → length cs < fuel
        → read_all fuel w (some reclen) s i ≡ ok (pieces fuel reclen cs)
    unfolding read_all pieces
    read_all-pieces zero w reclen i address s cs at controlled pos valid lt = absurd (omega arith)
    read_all-pieces (suc fuel) w reclen i address s [] at controlled pos valid lt =
        let (w', run, next) = reads w (s.iobufs i).fd reclen in
        let (b, result, valid', stands) =
          reclen_get_record_lem sys w w' reclen i address s (take reclen (remaining w)) controlled
            pos valid run (length-take_lt reclen (remaining w)) in
        rw (result, at, take_nil reclen) refl
    read_all-pieces (suc fuel) w reclen i address s (c ∷ cs) at controlled pos valid lt =
        let (w', run, next) = reads w (s.iobufs i).fd reclen in
        let (b, result, valid', stands) =
          reclen_get_record_lem sys w w' reclen i address s (take reclen (remaining w)) controlled
            pos valid run (length-take_lt reclen (remaining w)) in
        let rest =
          read_all-pieces fuel w' reclen i address (record s { buf = b }) (drop reclen (c ∷ cs))
            (next ∙ ap (drop reclen) at) controlled pos valid'
            (omega (arith, length-drop reclen (c ∷ cs))) in
        rw (result, at, take_cons reclen c cs pos, rest) refl

    -- Let `read` give the next bytes of a file, as many as are asked for or are left. Where the file
    -- is controlled, RECLEN is a positive number and the data buffer is valid, asking for records
    -- until EOF ends, after at most one call for each byte and one more; the records together are
    -- the file, and each has RECLEN bytes, but for the last, which may have fewer.
    pub read_all-AreRecords :
        (fuel : ℕ) (w : W) (reclen i address : ℕ) (s : Reclen)
        → (s.iobufs i).opaque ≡ some address
        → 0 < reclen
        → IsValid s.buf
        → length (remaining w) < fuel
        → (rs : List Bytes) × (read_all fuel w (some reclen) s i ≡ ok rs)
          × (flatten rs ≡ remaining w)
          × AreRecords reclen rs
    read_all-AreRecords fuel w reclen i address s controlled pos valid lt = (
      pieces fuel reclen (remaining w),
      read_all-pieces fuel w reclen i address s (remaining w) refl controlled pos valid lt,
      flatten-pieces fuel reclen (remaining w) pos lt,
      pieces-AreRecords fuel reclen (remaining w) pos,
    )
