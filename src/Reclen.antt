-- ===== src/Reclen.antt =====
-- reclen/reclen.c: records of RECLEN bytes. RECLEN is taken to be a whole number, where a negative
-- one, which the code treats as it treats 0, is 0. Warnings and ERRNO are left out. The structures
-- that the file allocates stand at addresses; the address of one that was freed holds none.
pub mod Records
pub mod WholeFile
pub mod SameName
mod Tests
use gawkextlib.Common.{
  ℕ, zero, suc, ◌+◌, ◌-◌, ◌^◌, ◌≡◌, Bool, true, false, not, Option, none, some, List, [], ◌∷◌, ◌++◌,
  Bytes, Run, ok, fault, null_pointer, use_after_free, out_of_bounds, ◌>>=◌, length, drop, same,
  ltb, leb, ◌==◌, if◌then◌else◌,
}

-- `fixed_buffer_t`, without its link; `iobuf` is the number of the parent.
pub record FixedBuffer : Type 0 where
  pub name : Bytes
  pub iobuf : ℕ

-- `awk_input_buf_t`, as far as the file uses it: `get_record` and `close_func` say whether the
-- pointers are set, and `fd` is `none` for -1.
pub record Iobuf : Type 0 where
  pub name : Bytes
  pub fd : Option ℕ
  pub opaque : Option ℕ
  pub get_record : Bool
  pub close_func : Bool

-- `buf`
pub record DataBuffer : Type 0 where
  pub p : Option Bytes
  pub len : ℕ
  pub refs : ℕ

-- The static variables, with the structures they lead to; `unused` is the next free address.
pub record Reclen : Type 0 where
  pub heap : ℕ → Option FixedBuffer
  pub unused : ℕ
  pub file_list : List ℕ
  pub buf : DataBuffer
  pub iobufs : ℕ → Iobuf

-- The result of `read`: an error, or the bytes read.
pub data ReadResult : Type 0 where
  failed : ℕ → ReadResult
  bytes : Bytes → ReadResult

-- The result of `reclen_get_record`: EOF, EOF with an error code, or the record, which stands at
-- the beginning of the data buffer.
pub data RecordResult : Type 0 where
  eof : RecordResult
  error : ℕ → RecordResult
  got : Bytes → RecordResult

abbrev pub einval : ℕ
einval = 22

-- What the file calls of the C library: `erealloc`, also for `emalloc`, and `read` on a system `W`.
pub record System (W : Type 0) : Type 0 where
  pub erealloc : Option Bytes → ℕ → Bytes
  pub read : W → Option ℕ → ℕ → W × ReadResult
  pub length-erealloc : (p : Option Bytes) (n : ℕ) → length (erealloc p n) ≡ n

abbrev pub update {ℓ} : {A : Type ℓ} → (ℕ → A) → ℕ → A → ℕ → A
update f i v j = if i == j then v else f j

module _ {W : Type 0} (sys : System W) where
  open sys use {erealloc, read}

  -- `adjust buffer size if necessary`
  unfoldable pub adjust : ℕ → DataBuffer → DataBuffer
  adjust reclen buf =
      if ltb buf.len reclen
      then record buf { p = some (erealloc buf.p reclen); len = reclen }
      else buf

  -- What `read` puts into the block.
  unfoldable pub fill : Option Bytes → Bytes → Run (Option Bytes)
  fill none data_read = fault null_pointer
  fill (some block) data_read =
      if leb (length data_read) (length block)
      then ok (some (data_read ++ drop (length data_read) block))
      else fault out_of_bounds

  -- `lookup` is RECLEN, where `sym_lookup_scalar` finds a number.
  unfoldable pub reclen_get_record : W → Option ℕ → Reclen → ℕ → Run (W × Reclen × RecordResult)
  reclen_get_record w lookup s i = elim ((s.iobufs i).opaque) [
    | none ↦ ok (w, s, eof)
    | some address ↦ elim lookup [
      | none ↦ ok (w, s, error einval)
      | some reclen ↦
          if reclen == 0
          then ok (w, s, eof)
          else (let buf = adjust reclen s.buf in
              let w' = (read w (s.iobufs i).fd reclen).0 in
              elim ((read w (s.iobufs i).fd reclen).1) [
                | failed errno ↦ ok (w', record s { buf = buf }, error errno)
                | bytes data_read ↦ do
                  p ← fill buf.p data_read
                  let result = if length data_read == 0 then eof else got data_read
                  ok (w', record s { buf = record buf { p = p } }, result)
              ])
    ]
  ]

  -- The result is the list after the removal and the address that was found.
  unfoldable pub remove_buffer_from_list :
      (ℕ → Option FixedBuffer) → Bytes → List ℕ → Run (List ℕ × Option ℕ)
  remove_buffer_from_list heap name [] = ok ([], none)
  remove_buffer_from_list heap name (item ∷ next) = elim (heap item) [
    | none ↦ fault use_after_free
    | some buffer ↦
        let rest = remove_buffer_from_list heap name next in
        if same buffer.name name
        then ok (next, some item)
        else (do (list, found) ← rest; ok (item ∷ list, found))
  ]

  -- `if (--buf.refs == 0) { … }`
  unfoldable pub release : DataBuffer → DataBuffer
  release buf =
      let refs = if buf.refs == 0 then 2 ^ 64 - 1 else buf.refs - 1 in
      if refs == 0 then record { p = none; len = 0; refs = 0 } else record buf { refs = refs }

  unfoldable pub reclen_close : Reclen → ℕ → Run Reclen
  reclen_close s i = elim ((s.iobufs i).opaque) [
    | none ↦ ok s
    | some address ↦ elim (s.heap address) [
      | none ↦ fault use_after_free
      | some fixed_buffer ↦ do
        (list, found) ← remove_buffer_from_list s.heap fixed_buffer.name s.file_list
        ok (record s {
          heap = update s.heap address none;
          file_list = list;
          buf = release s.buf;
          iobufs = update s.iobufs i (record (s.iobufs i) { fd = none });
        })
    ]
  ]

  unfoldable pub reclen_can_take_file : Option ℕ → Bool
  reclen_can_take_file lookup = elim lookup [
    | none ↦ false
    | some reclen ↦ if reclen == 0 then false else true
  ]

  -- `scalar` says whether RECLEN is a scalar variable.
  unfoldable pub reclen_take_control_of : Bool → Option ℕ → Reclen → ℕ → Reclen × Bool
  reclen_take_control_of scalar lookup s i = if not scalar then (s, false) else elim lookup [
    | none ↦ (s, false)
    | some reclen ↦
        if reclen == 0
        then (s, false)
        else (let buf =
              if s.buf.refs == 0
              then record { p = some (erealloc none reclen); len = reclen; refs = 1 }
              else record (s.buf) { refs = s.buf.refs + 1 } in
            (
              record {
                heap =
                    update s.heap s.unused (some (record { name = (s.iobufs i).name; iobuf = i }));
                unused = s.unused + 1;
                file_list = s.unused ∷ s.file_list;
                buf = buf;
                iobufs = update s.iobufs i (record (s.iobufs i) {
                  opaque = some s.unused;
                  get_record = true;
                  close_func = true;
                });
              },
              true,
            ))
  ]

  -- The result is `true` for 0 and `false` for -1.
  unfoldable pub do_reclen_drop : Reclen → Option Bytes → Run (Reclen × Bool)
  do_reclen_drop s filename = elim filename [
    | none ↦ ok (s, false)
    | some name ↦ do
      (list, found) ← remove_buffer_from_list s.heap name s.file_list
      elim found [
        | none ↦ ok (record s { file_list = list }, false)
        | some address ↦ elim (s.heap address) [
          | none ↦ fault use_after_free
          | some buffer ↦
              let parent = record (s.iobufs buffer.iobuf) { get_record = false } in
              ok (record s { file_list = list; iobufs = update s.iobufs buffer.iobuf parent }, true)
        ]
      ]
  ]
