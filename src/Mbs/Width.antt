-- ===== src/Mbs/Width.antt =====
-- mbs/mbs.c: what `mbs_wcswidth` counts.
use mathlib.Core.Path.{subst}
use gawkextlib.Common.{
  ℕ, zero, suc, ◌+◌, ◌-◌, ◌≤◌, ◌<◌, ◌≡◌, refl, ap, ◌∙◌, Bool, true, false, ◌&&◌, ◌⊎◌, inl, inr,
  Option, none, some, List, [], ◌∷◌, ◌++◌, Bytes, ok, length, length-append, length-drop,
  length-take_le, take, drop, ◌==◌, arith,
}
use gawkextlib.Mbs.{
  number, Decoded, invalid, incomplete, nul, wide, Multibyte, columns, width_loop, do_mbs_wcswidth,
}

-- A string in pieces: characters with the bytes that encode them, a byte that is the null character,
-- bytes that start none, and bytes that start one which the end of the string cuts off.
pub data Piece : Type 0 where
  encoded : ℕ → Bytes → ℕ → Piece
  null_byte : ℕ → Piece
  stray : ℕ → Piece
  cut_off : ℕ → Piece

abbrev pub piece_bytes : Piece → Bytes
piece_bytes (encoded b bs wc) = b ∷ bs
piece_bytes (null_byte b) = b ∷ []
piece_bytes (stray b) = b ∷ []
piece_bytes (cut_off b) = b ∷ []

abbrev pub all_bytes : List Piece → Bytes
all_bytes [] = []
all_bytes (p ∷ ps) = piece_bytes p ++ all_bytes ps

drop-append : (s t : Bytes) → drop (length s) (s ++ t) ≡ t
drop-append [] t = refl
drop-append (c ∷ s) t = drop-append s t

take-drop : (n : ℕ) (s : Bytes) → take n s ++ drop n s ≡ s
take-drop zero s = refl
take-drop (suc n) [] = refl
take-drop (suc n) (c ∷ s) = ap (λ t. c ∷ t) (take-drop n s)

Decoded-cases :
    (d : Decoded) → (d ≡ invalid) ⊎ (d ≡ incomplete) ⊎ (d ≡ nul) ⊎ ((n wc : ℕ) × (d ≡ wide n wc))
Decoded-cases invalid = inl refl
Decoded-cases incomplete = inr (inl refl)
Decoded-cases nul = inr (inr (inl refl))
Decoded-cases (wide n wc) = inr (inr (inr (n, wc, refl)))

module _ (lib : Multibyte) where
  open lib use {State, initial, mbrtowc, wcwidth}

  -- What the C library makes of the pieces, each in front of the bytes that follow it, from a state
  -- of the conversion on. The state starts anew behind a byte that is no character.
  abbrev pub Decode : State → List Piece → Type 0
  Decode st [] = Unit
  Decode st (encoded b bs wc ∷ ps) =
      (next : State) × (mbrtowc st (b ∷ bs ++ all_bytes ps) ≡ (next, wide (suc (length bs)) wc))
      × Decode next ps
  Decode st (null_byte b ∷ ps) =
      (next : State) × (mbrtowc st (b ∷ all_bytes ps) ≡ (next, nul)) × Decode next ps
  Decode st (stray b ∷ ps) = ((mbrtowc st (b ∷ all_bytes ps)).1 ≡ invalid) × Decode initial ps
  Decode st (cut_off b ∷ ps) = ((mbrtowc st (b ∷ all_bytes ps)).1 ≡ incomplete) × Decode initial ps

  -- The columns of a character: none, where `wcwidth` gives -1.
  abbrev pub width_of : ℕ → ℕ
  width_of wc = elim (wcwidth wc) [ none ↦ 0 | some n ↦ n ]

  -- The columns of all pieces, where a byte that is no character counts as U+FFFD.
  abbrev pub total_width : List Piece → ℕ
  total_width [] = 0
  total_width (encoded b bs wc ∷ ps) = width_of wc + total_width ps
  total_width (null_byte b ∷ ps) = width_of 0 + total_width ps
  total_width (stray b ∷ ps) = width_of 0xFFFD + total_width ps
  total_width (cut_off b ∷ ps) = width_of 0xFFFD + total_width ps

  -- What is taken of `mbrtowc`: a character that it gives stands in one or more of the bytes that it
  -- was given.
  abbrev pub IsLawful : Type 0
  IsLawful =
      (st : State) (s : Bytes) (n wc : ℕ) → (mbrtowc st s).1 ≡ wide n wc → (0 < n) × (n ≤ length s)

  width_loop-Decode :
      (fuel : ℕ) (st : State) (ps : List Piece) (n : ℕ)
      → Decode st ps
      → length (all_bytes ps) ≤ fuel
      → width_loop lib fuel true st (all_bytes ps) n ≡ ok (n + total_width ps)
  unfolding width_loop columns
  width_loop-Decode fuel st [] n d le = ap ok (omega arith)
  width_loop-Decode zero st (encoded b bs wc ∷ ps) n d le = absurd (omega arith)
  width_loop-Decode zero st (null_byte b ∷ ps) n d le = absurd (omega arith)
  width_loop-Decode zero st (stray b ∷ ps) n d le = absurd (omega arith)
  width_loop-Decode zero st (cut_off b ∷ ps) n d le = absurd (omega arith)
  width_loop-Decode (suc fuel) st (encoded b bs wc ∷ ps) n (next, e, d) le =
      let state = ap (λ (r : State × Decoded). r.0) e in
      let result = ap (λ (r : State × Decoded). r.1) e in
      rw (width_loop, result, drop-append bs (all_bytes ps), state)
        (width_loop-Decode fuel next ps (n + width_of wc) d
            (omega (arith, length-append bs (all_bytes ps)))
          ∙ ap ok (omega arith))
  width_loop-Decode (suc fuel) st (null_byte b ∷ ps) n (next, e, d) le =
      let state = ap (λ (r : State × Decoded). r.0) e in
      let result = ap (λ (r : State × Decoded). r.1) e in
      rw (width_loop, result)
        (ap (λ x. width_loop lib fuel true x (all_bytes ps) (n + width_of 0)) state
          ∙ (width_loop-Decode fuel next ps (n + width_of 0) d (omega arith) ∙ ap ok (omega arith)))
  width_loop-Decode (suc fuel) st (stray b ∷ ps) n (e, d) le =
      rw (width_loop, e)
        (width_loop-Decode fuel initial ps (n + width_of 0xFFFD) d (omega arith)
          ∙ ap ok (omega arith))
  width_loop-Decode (suc fuel) st (cut_off b ∷ ps) n (e, d) le =
      rw (width_loop, e)
        (width_loop-Decode fuel initial ps (n + width_of 0xFFFD) d (omega arith)
          ∙ ap ok (omega arith))

  decoded :
      (st : State) (s : Bytes) (d : Decoded)
      → (mbrtowc st s).1 ≡ d
      → mbrtowc st s ≡ ((mbrtowc st s).0, d)
  decoded st s d e = ap (λ x. ((mbrtowc st s).0, x)) e

  -- Each string has such pieces.
  pieces_of :
      (size : ℕ) (st : State) (s : Bytes)
      → IsLawful
      → length s ≤ size
      → (ps : List Piece) × (all_bytes ps ≡ s) × Decode st ps
  pieces_of size st [] lawful le = ([], refl, tt)
  pieces_of zero st (c ∷ s) lawful le = absurd (omega arith)
  pieces_of (suc size) st (c ∷ s) lawful le = elim (Decoded-cases (mbrtowc st (c ∷ s)).1) [
    | inl e ↦
        let (ps, same, d) = pieces_of size initial s lawful (omega arith) in
        (stray c ∷ ps, ap (λ t. c ∷ t) same, (rw same e, d))
    | inr (inl e) ↦
        let (ps, same, d) = pieces_of size initial s lawful (omega arith) in
        (cut_off c ∷ ps, ap (λ t. c ∷ t) same, (rw same e, d))
    | inr (inr (inl e)) ↦
        let next = (mbrtowc st (c ∷ s)).0 in
        let (ps, same, d) = pieces_of size next s lawful (omega arith) in
        (null_byte c ∷ ps, ap (λ t. c ∷ t) same, (next, rw same (decoded st (c ∷ s) nul e), d))
    | inr (inr (inr (n, wc, e))) ↦
        let next = (mbrtowc st (c ∷ s)).0 in
        let (some_bytes, inside) = lawful st (c ∷ s) n wc e in
        let bs = take (n - 1) s in
        let size_of : suc (length bs) ≡ n = omega (arith, length-take_le (n - 1) s (omega arith)) in
        let (ps, same, d) =
          pieces_of size next (drop (n - 1) s) lawful (omega (arith, length-drop (n - 1) s)) in
        let whole : bs ++ all_bytes ps ≡ s = ap (λ t. bs ++ t) same ∙ take-drop (n - 1) s in
        (
          encoded c bs wc ∷ ps,
          ap (λ t. c ∷ t) whole,
          (next, rw (whole, size_of) (decoded st (c ∷ s) (wide n wc) e), d),
        )
  ]

  -- Where `mbrtowc` is lawful, and with fuel for each byte, `mbs_wcswidth` with one argument ends on
  -- every string. The string falls into characters, null characters, bytes that start no character,
  -- and bytes of one that the end cuts off; the result is the columns of the characters, and of one
  -- replacement character for each byte that is none.
  pub do_mbs_wcswidth-pieces :
      (fuel : ℕ) (do_lint : Bool) (s : Bytes) (not_utf : Option ℕ)
      → IsLawful
      → length s ≤ fuel
      → (ps : List Piece) × (all_bytes ps ≡ s)
        × Decode initial ps
        × (do_mbs_wcswidth lib fuel do_lint 1 (some s) not_utf ≡ ok (number (total_width ps)))
  unfolding do_mbs_wcswidth
  do_mbs_wcswidth-pieces fuel do_lint s not_utf lawful le =
      let (ps, same, d) = pieces_of (length s) initial s lawful (omega arith) in
      let run : width_loop lib fuel true initial s 0 ≡ ok (0 + total_width ps) =
        subst (λ t. width_loop lib fuel true initial t 0 ≡ ok (0 + total_width ps)) same
          (width_loop-Decode fuel initial ps 0 d (rw same le)) in
      (ps, same, d, rw (one_argument do_lint, run) (ap (λ (n : ℕ). ok (number n)) (omega arith)))
    where
      one_argument : (lint : Bool) → (lint && 1 == 0) ≡ false
      one_argument true = refl
      one_argument false = refl
