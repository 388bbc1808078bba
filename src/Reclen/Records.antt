-- ===== src/Reclen/Records.antt =====
-- reclen/reclen.c: the records that `reclen_get_record` makes of a file.
use gawkextlib.Common.{
  ℕ, ◌<◌, ◌≤◌, ◌≡◌, refl, ap, true, false, Option, none, some, [], ◌∷◌, ◌++◌, Bytes, ok, length,
  length-append, take, drop, length-drop, ltb, leb, ◌==◌, if◌then◌else◌, Bool-cases, inl, inr,
  arith,
}
use gawkextlib.Reclen.{
  DataBuffer, Reclen, ReadResult, bytes, eof, got, System, adjust, fill, reclen_get_record,
}

-- `len` is the size of the block.
pub record IsValid (buf : DataBuffer) : Type 0 where
  pub unallocated : buf.p ≡ none → buf.len ≡ 0
  pub sized : (block : Bytes) → buf.p ≡ some block → length block ≡ buf.len

take-own : (d rest : Bytes) → take (length d) (d ++ rest) ≡ d
take-own [] rest = refl
take-own (c ∷ d) rest = ap (◌∷◌ c) (take-own d rest)

some_lem : {a b : Bytes} → some a ≡ some b → a ≡ b
some_lem e = cc

module _ {W : Type 0} (sys : System W) where
  open sys use {erealloc, read, length-erealloc}

  -- There is a block of at least `reclen` bytes.
  adjust_lem :
      (reclen : ℕ) (buf : DataBuffer)
      → IsValid buf
      → 0 < reclen
      → (block : Bytes) × ((adjust sys reclen buf).p ≡ some block)
        × (length block ≡ (adjust sys reclen buf).len)
        × (reclen ≤ length block)
  unfolding adjust
  adjust_lem reclen buf h pos = elim (Bool-cases (ltb buf.len reclen)) [
    | inl e ↦
        let len = length-erealloc buf.p reclen in
        (erealloc buf.p reclen, rw e refl, rw e len, omega (arith, len))
    | inr e ↦ kept buf.p refl e
  ]
    where
      kept :
          (p : Option Bytes)
          → buf.p ≡ p
          → ltb buf.len reclen ≡ false
          → (block : Bytes) × ((adjust sys reclen buf).p ≡ some block)
            × (length block ≡ (adjust sys reclen buf).len)
            × (reclen ≤ length block)
      kept none at e = let empty = h.unallocated at in absurd (ground (arith, empty, e))
      kept (some block) at e =
          let len = h.sized block at in (block, rw e at, rw e len, ground (arith, len, e))

  fill_lem :
      (p : Option Bytes) (block d : Bytes)
      → p ≡ some block
      → length d ≤ length block
      → fill sys p d ≡ ok (some (d ++ drop (length d) block))
  unfolding fill
  fill_lem p block d e h = rw (e, fits) refl
    where
      fits : leb (length d) (length block) ≡ true
      fits = ground arith

  -- The buffer `b` has the bytes `d` at its beginning.
  abbrev pub Holds : DataBuffer → Bytes → Type 0
  Holds b d = (block : Bytes) × (b.p ≡ some block) × (take (length d) block ≡ d)

  -- Where the file is controlled, RECLEN is a positive number, the data buffer is valid, and `read`
  -- gives no more bytes than it was asked for, `reclen_get_record` runs into no fault; it returns
  -- the bytes read as the record, or EOF where there are none, they stand at the beginning of
  -- the data buffer, which stays valid, and nothing else changes.
  pub reclen_get_record_lem :
      (w w' : W) (reclen i address : ℕ) (s : Reclen) (d : Bytes)
      → (s.iobufs i).opaque ≡ some address
      → 0 < reclen
      → IsValid s.buf
      → read w (s.iobufs i).fd reclen ≡ (w', bytes d)
      → length d ≤ reclen
      → (b : DataBuffer) × (reclen_get_record sys w (some reclen) s i
          ≡ ok (w', record s { buf = b }, if length d == 0 then eof else got d))
        × IsValid b
        × Holds b d
  unfolding reclen_get_record
  reclen_get_record_lem w w' reclen i address s d controlled pos valid reads le =
      let (block, at, len, room) = adjust_lem reclen s.buf valid pos in
      let filled = fill_lem (adjust sys reclen s.buf).p block d at (omega arith) in
      let positive : (reclen == 0) ≡ false = ground arith in
      let world = ap (λ (r : W × ReadResult). r.0) reads in
      let result = ap (λ (r : W × ReadResult). r.1) reads in
      let block' = d ++ drop (length d) block in
      (
        record (adjust sys reclen s.buf) { p = some block' },
        rw (reclen_get_record, controlled, positive, result, filled, world) refl,
        record {
          unallocated = λ e. cc;
          sized = λ c e. rw (← some_lem e) (
              omega (
                arith,
                length-append d (drop (length d) block),
                length-drop (length d) block,
                len,
              ));
        },
        (block', refl, take-own d (drop (length d) block)),
      )
