-- ===== src/Csv/StrBuf/Append.antt =====
-- csv/strbuf.c: what the buffer holds after each operation.
use native.Mathlib.Numerals.{add-one}
use gawkextlib.Common.{
  c_string, NoNul, sym, ℕ, suc, ◌+◌, ◌<◌, ◌≡◌, ◌≢◌, refl, ap, ◌∙◌, true, false, none, some, [], ◌∷◌,
  ◌++◌, append_assoc, append-nil, Bytes, ok, fault, use_after_free, out_of_bounds, length,
  length-set, set, take, take-set_end, take-set_le, leb, ◌==◌, arith, Bool-cases, Option-cases, inl,
  inr, ◌⊎◌,
}
use gawkextlib.Csv.StrBuf.{
  Allocator, blksize, freed, block, StrBuf, bytes_of, contents, strbuf_start, strbuf_value,
  strbuf_init, strbuf_put_char, make_room, put_byte, put_from, strbuf_put_string,
}

-- The block has the recorded capacity, and room for a terminator behind the contents.
pub record IsValid (sb : StrBuf) : Type 0 where
  pub allocated : sb.str ≡ block (bytes_of sb.str)
  pub sized : length (bytes_of sb.str) ≡ sb.capacity
  pub terminated : sb.len < sb.capacity

pub strbuf_start-IsValid :
    (sb : StrBuf) → IsValid sb → IsValid (strbuf_start sb) × (contents (strbuf_start sb) ≡ [])
unfolding strbuf_start
strbuf_start-IsValid sb v =
    (record { allocated = v.allocated; sized = v.sized; terminated = omega arith }, refl)

-- On a valid buffer `strbuf_value` writes a terminator behind the contents, which stay.
pub strbuf_value-contents :
    (sb : StrBuf)
    → IsValid sb
    → (r : StrBuf) × (strbuf_value sb ≡ ok r)
      × IsValid r
      × (contents r ≡ contents sb)
      × (take (suc r.len) (bytes_of r.str) ≡ contents sb ++ 0 ∷ [])
unfolding strbuf_value
strbuf_value-contents sb v =
    let b = bytes_of sb.str in
    let full : sb.len < length b = omega (arith, v.sized) in
    (
      record sb { str = block (set b sb.len 0) },
      rw v.allocated (ground arith),
      record {
        allocated = refl;
        sized = length-set b sb.len 0 ∙ v.sized;
        terminated = v.terminated;
      },
      take-set_le b sb.len sb.len 0 (omega arith),
      take-set_end b sb.len 0 full,
    )

module _ (mem : Allocator) where
  -- The byte goes into a block `b` with room for it.
  put_byte_room :
      (c n cap : ℕ) (b : Bytes)
      → n + 1 < cap
      → length b ≡ cap
      → (r : StrBuf) × (put_byte mem c (record { str = block b; len = n; capacity = cap }, 0)
          ≡ ok (r, 0))
        × IsValid r
        × (contents r ≡ take n b ++ c ∷ [])
  unfolding put_byte
  put_byte_room c n cap b room e = (
    record { str = block (set b n c); len = n + 1; capacity = cap },
    ground arith,
    record { allocated = refl; sized = length-set b n c ∙ e; terminated = room },
    rw add-one (take-set_end b n c (omega arith)),
  )

  make_room_roomy :
      (sb : StrBuf) → leb sb.capacity (sb.len + 1) ≡ false → make_room mem sb ≡ ok (sb, 0)
  unfolding make_room
  make_room_roomy sb h = rw h

  make_room_failed :
      (sb : StrBuf) (b : Bytes)
      → leb sb.capacity (sb.len + 1) ≡ true
      → sb.str ≡ block b
      → mem.realloc b (sb.capacity + blksize) ≡ none
      → make_room mem sb ≡ ok (record sb { str = freed }, 1)
  unfolding make_room
  make_room_failed sb b h e failed = ground arith

  make_room_grown :
      (sb : StrBuf) (b b' : Bytes)
      → leb sb.capacity (sb.len + 1) ≡ true
      → sb.str ≡ block b
      → mem.realloc b (sb.capacity + blksize) ≡ some b'
      → make_room mem sb ≡ ok (record sb { str = block b'; capacity = sb.capacity + blksize }, 0)
  unfolding make_room
  make_room_grown sb b b' h e grown = ground arith

  -- A new buffer is empty and valid if the allocation succeeds.
  pub strbuf_init-IsValid :
      (sb : StrBuf) (b : Bytes)
      → mem.malloc blksize ≡ some b
      → IsValid (strbuf_init mem sb).0
        × ((strbuf_init mem sb).1 ≡ 0)
        × (contents (strbuf_init mem sb).0 ≡ [])
  unfolding strbuf_init
  strbuf_init-IsValid sb b h =
      rw (h, strbuf_init)
        (
          record {
            allocated = refl;
            sized = mem.length-malloc blksize b h;
            terminated = omega arith;
          },
          refl,
          refl,
        )

  -- Appending to a valid buffer runs into no fault. Either it returns 0, and the buffer is valid
  -- and holds one character more; or the block had to grow and could not, and then it returns 1
  -- and the buffer points to a freed block.
  pub strbuf_put_char_lem :
      (sb : StrBuf) (c : ℕ)
      → IsValid sb
      → (r : StrBuf) × (((strbuf_put_char mem sb c ≡ ok (r, 0))
            × IsValid r
            × (contents r ≡ contents sb ++ c ∷ []))
          ⊎ ((strbuf_put_char mem sb c ≡ ok (r, 1))
              × (r.str ≡ freed)
              × (mem.realloc (bytes_of sb.str) (sb.capacity + blksize) ≡ none)))
  unfolding strbuf_put_char
  strbuf_put_char_lem sb c v = elim (Bool-cases (leb sb.capacity (sb.len + 1))) [
    | inr roomy ↦
        let b = bytes_of sb.str in
        let (r, run, w, e) = put_byte_room c sb.len sb.capacity b (ground arith) v.sized in
        (
          r,
          inl (
            rw (make_room_roomy sb roomy) (
                ap (λ (x : StrBuf). put_byte mem c (x, 0)) (λ i. record sb { str = v.allocated i })
                ∙ run),
            w,
            e,
          ),
        )
    | inl tight ↦ elim (Option-cases (mem.realloc (bytes_of sb.str) (sb.capacity + blksize))) [
      | inl failed ↦ (
        record sb { str = freed },
        inr (
          rw (make_room_failed sb (bytes_of sb.str) tight v.allocated failed)
              (unfold put_byte in refl),
          refl,
          failed,
        ),
      )
      | inr (b, grown) ↦
          let cap = sb.capacity + blksize in
          let (r, run, w, e) =
            put_byte_room c sb.len cap b (omega (arith, v.terminated))
              (mem.length-realloc (bytes_of sb.str) cap b grown) in
          (
            r,
            inl (
              rw (make_room_grown sb (bytes_of sb.str) b tight v.allocated grown) run,
              w,
              rw
                  (← mem.take-realloc (bytes_of sb.str) cap sb.len b grown (omega (arith, v.sized))
                    (omega (arith, v.terminated)))
                  e,
            ),
          )
    ]
  ]

  -- The allocator never gives NULL.
  pub record Reliable : Type 0 where
    pub malloc_some : mem.malloc blksize ≢ none
    pub realloc_some : (b : Bytes) (n : ℕ) → mem.realloc b n ≢ none

  pub strbuf_put_char-Reliable :
      Reliable
      → (sb : StrBuf) (c : ℕ) → IsValid sb
      → (r : StrBuf) × (strbuf_put_char mem sb c ≡ ok (r, 0))
        × IsValid r
        × (contents r ≡ contents sb ++ c ∷ [])
  strbuf_put_char-Reliable rel sb c v = go (strbuf_put_char_lem sb c v)
    where
      go :
          ((r : StrBuf) × (((strbuf_put_char mem sb c ≡ ok (r, 0))
                × IsValid r
                × (contents r ≡ contents sb ++ c ∷ []))
              ⊎ ((strbuf_put_char mem sb c ≡ ok (r, 1))
                  × (r.str ≡ freed)
                  × (mem.realloc (bytes_of sb.str) (sb.capacity + blksize) ≡ none))))
          → (r : StrBuf) × (strbuf_put_char mem sb c ≡ ok (r, 0))
            × IsValid r
            × (contents r ≡ contents sb ++ c ∷ [])
      go (r, inl (run, w, e)) = (r, run, w, e)
      go (r, inr (run, f, failed)) = absurd (rel.realloc_some _ _ failed)

  -- Once an append has failed, every later one works on the freed block.
  pub strbuf_put_char-freed :
      (sb : StrBuf) (c : ℕ) → sb.str ≡ freed → strbuf_put_char mem sb c ≡ fault use_after_free
  unfolding strbuf_put_char make_room put_byte
  strbuf_put_char-freed sb c h = ground arith

  put_from-c_string :
      Reliable
      → (t behind : Bytes) (sb : StrBuf) → NoNul t
      → IsValid sb
      → (r : StrBuf) × (put_from mem false (c_string t behind) sb ≡ ok (r, 0))
        × IsValid r
        × (contents r ≡ contents sb ++ t)
  unfolding put_from
  put_from-c_string rel [] behind sb n v = (sb, refl, v, sym (append-nil (contents sb)))
  put_from-c_string rel (c ∷ t) behind sb n v =
      let nonzero : (c == 0) ≡ false = ground arith in
      let (r₁, run, v₁, e₁) = strbuf_put_char-Reliable rel sb c v in
      let (r₂, run', v₂, e₂) = put_from-c_string rel t behind r₁ n.1 v₁ in
      (
        r₂,
        rw (nonzero, put_from) (rw run run'),
        v₂,
        rw (e₂, e₁) (append_assoc (contents sb) (c ∷ []) t),
      )

  -- With an allocator that never fails, a C string that is not empty is appended whole.
  pub strbuf_put_string-c_string :
      Reliable
      → (c : ℕ) (t behind : Bytes) (sb : StrBuf) → NoNul (c ∷ t)
      → IsValid sb
      → (r : StrBuf) × (strbuf_put_string mem sb (some (c_string (c ∷ t) behind)) ≡ ok (r, 0))
        × IsValid r
        × (contents r ≡ contents sb ++ c ∷ t)
  unfolding strbuf_put_string put_from
  strbuf_put_string-c_string rel c t behind sb n v =
      let nonzero : (c == 0) ≡ false = ground arith in
      let (r₁, run, v₁, e₁) = strbuf_put_char-Reliable rel sb c v in
      let (r₂, run', v₂, e₂) = put_from-c_string rel t behind r₁ n.1 v₁ in
      (
        r₂,
        rw (nonzero, put_from) (rw run run'),
        v₂,
        rw (e₂, e₁) (append_assoc (contents sb) (c ∷ []) t),
      )

  -- An empty C string puts its terminator, and then reads on behind it: with nothing readable
  -- there that is out of bounds, and otherwise what stands there is appended up to the next NUL.
  pub strbuf_put_string-empty :
      Reliable
      → (t behind : Bytes) (sb : StrBuf) → NoNul t
      → IsValid sb
      → (strbuf_put_string mem sb (some (c_string [] [])) ≡ fault out_of_bounds)
        × (r : StrBuf) × (strbuf_put_string mem sb (some (c_string [] (c_string t behind)))
            ≡ ok (r, 0))
        × (contents r ≡ contents sb ++ 0 ∷ t)
  unfolding strbuf_put_string put_from
  strbuf_put_string-empty rel t behind sb n v =
      let (r₁, run, v₁, e₁) = strbuf_put_char-Reliable rel sb 0 v in
      let (r₂, run', v₂, e₂) = put_from-c_string rel t behind r₁ n v₁ in
      (rw run, r₂, rw run run', rw (e₂, e₁) (append_assoc (contents sb) (0 ∷ []) t))
