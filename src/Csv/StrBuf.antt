-- ===== src/Csv/StrBuf.antt =====
-- csv/strbuf.c and csv/strbuf.h: the growing string buffer. `int` lengths are taken not to overflow.
pub mod Append
use gawkextlib.Common.{
  ℕ, ◌+◌, ◌≤◌, ◌<◌, ◌≡◌, Bool, true, false, not, ◌&&◌, ◌||◌, Option, none, some, List, [], ◌∷◌,
  Bytes, Run, ok, fault, null_pointer, use_after_free, out_of_bounds, ◌>>=◌, length, set, take, ltb,
  leb, ◌==◌, if◌then◌else◌,
}

-- The C library's allocator, with what it promises: a block of the size asked for, or NULL
-- (`none`); `realloc` keeps the bytes that were there.
pub record Allocator : Type 0 where
  pub malloc : ℕ → Option Bytes
  pub realloc : Bytes → ℕ → Option Bytes
  pub length-malloc : (n : ℕ) (b : Bytes) → malloc n ≡ some b → length b ≡ n
  pub length-realloc : (a : Bytes) (n : ℕ) (b : Bytes) → realloc a n ≡ some b → length b ≡ n
  pub take-realloc :
      (a : Bytes) (n k : ℕ) (b : Bytes)
      → realloc a n ≡ some b
      → k ≤ length a
      → k ≤ n
      → take k b ≡ take k a

abbrev pub blksize : ℕ
blksize = 256

-- What `str` points to: nothing, a block that was freed, or a block of bytes.
pub data Block : Type 0 where
  null freed : Block
  block : Bytes → Block

-- `strbuf_t`; `len` is the field `length`.
pub record StrBuf : Type 0 where
  pub str : Block
  pub len : ℕ
  pub capacity : ℕ

-- A buffer's bytes so far.
abbrev pub bytes_of : Block → Bytes
bytes_of null = []
bytes_of freed = []
bytes_of (block b) = b

abbrev pub contents : StrBuf → Bytes
contents sb = take sb.len (bytes_of sb.str)

-- `str[i] = c`
write : Block → ℕ → ℕ → Run Block
write null i c = fault null_pointer
write freed i c = fault use_after_free
write (block b) i c = if ltb i (length b) then ok (block (set b i c)) else fault out_of_bounds

unfoldable pub strbuf_start : StrBuf → StrBuf
strbuf_start sb = record sb { len = 0 }

unfoldable pub strbuf_length : StrBuf → ℕ
strbuf_length sb = sb.len

-- `if (sb->str) sb->str[sb->length] = '\0';`
terminate : Block → ℕ → Run Block
unfolding write
terminate null n = ok null
terminate freed n = write freed n 0
terminate (block b) n = write (block b) n 0

-- The pointer returned is the buffer's new `str`.
unfoldable pub strbuf_value : StrBuf → Run StrBuf
unfolding terminate
strbuf_value sb = do b ← terminate sb.str sb.len; ok (record sb { str = b })

-- `free(NULL)` does nothing; a block may be freed once.
unfoldable pub strbuf_free : StrBuf → Run StrBuf
strbuf_free sb = elim sb.str [
  | freed ↦ fault use_after_free
  | null ↦ ok (record { str = null; len = 0; capacity = 0 })
  | block b ↦ ok (record { str = null; len = 0; capacity = 0 })
]

module _ (mem : Allocator) where
  -- The result is 0 for success and 1 for failure, here and below.
  unfoldable pub strbuf_init : StrBuf → StrBuf × ℕ
  strbuf_init sb = elim (mem.malloc blksize) [
    | some b ↦ (record { str = block b; len = 0; capacity = blksize }, 0)
    | none ↦ (record sb { str = null }, 1)
  ]

  -- `realloc` of NULL is `malloc`.
  reallocate : Block → ℕ → Run (Option Bytes)
  reallocate null n = ok (mem.malloc n)
  reallocate freed n = fault use_after_free
  reallocate (block b) n = ok (mem.realloc b n)

  -- `if (sb->length+1 >= sb->capacity) { … }`; the failure frees `str` and returns.
  unfoldable pub make_room : StrBuf → Run (StrBuf × ℕ)
  unfolding reallocate
  make_room sb =
      if leb sb.capacity (sb.len + 1)
      then (do
        newstr ← reallocate sb.str (sb.capacity + blksize)
        elim newstr [
          | none ↦ ok (record sb { str = freed }, 1)
          | some b ↦ ok (record sb { str = block b; capacity = sb.capacity + blksize }, 0)
        ])
      else ok (sb, 0)

  -- `sb->str[sb->length++] = c;`, unless there is no room.
  unfoldable pub put_byte : ℕ → StrBuf × ℕ → Run (StrBuf × ℕ)
  unfolding write
  put_byte c (sb, failed) =
      if failed == 0
      then (do b ← write sb.str sb.len c; ok (record sb { str = b; len = sb.len + 1 }, 0))
      else ok (sb, failed)

  unfoldable pub strbuf_put_char : StrBuf → ℕ → Run (StrBuf × ℕ)
  strbuf_put_char sb c = do r ← make_room sb; put_byte c r

  -- The loop of `strbuf_put_string` at the bytes from `s + pos` on; `first` is `!pos`.
  unfoldable pub put_from : Bool → Bytes → StrBuf → Run (StrBuf × ℕ)
  put_from first [] sb = fault out_of_bounds
  put_from first (c ∷ s) sb = elim (not (c == 0) || first) [
    | false ↦ ok (sb, 0)
    | true ↦ do
      (sb', failed) ← strbuf_put_char sb c
      elim (failed == 0) [ true ↦ put_from false s sb' | false ↦ ok (sb', 1) ]
  ]

  -- `s` is the readable memory at the pointer, the terminator and what follows it included; `none`
  -- is NULL, whose next byte is read through the pointer all the same.
  unfoldable pub strbuf_put_string : StrBuf → Option Bytes → Run (StrBuf × ℕ)
  strbuf_put_string sb none = do
    (sb', failed) ← strbuf_put_char sb 0
    if failed == 0 then fault null_pointer else ok (sb', 1)
  strbuf_put_string sb (some s) = put_from true s sb
