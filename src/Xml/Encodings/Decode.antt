-- ===== src/Xml/Encodings/Decode.antt =====
-- xml/xml_enc_handler.c: which byte sequences are characters, and that the tables are read inside.
use mathlib.Core.Path.{subst}
use gawkextlib.Common.{
  ℕ, zero, suc, ◌+◌, ◌-◌, ◌≤◌, ◌<◌, ◌≡◌, ◌==◌, ◌≢◌, ◌↔◌, refl, sym, ◌∙◌, true, false, ◌⊎◌, inl, inr,
  Option, none, some, List, [], ◌∷◌, Bytes, ok, length, get_elem?, Bool-cases, if◌then◌else◌, arith,
}
use gawkextlib.Xml.Encodings.Bits.{is_set, has_bit-is_set}
use gawkextlib.Xml.Encodings.{
  PrefixMap, Encinfo, covers, fetch, convert_byte, convert_from, convert_to_unicode,
}

-- A sequence of values of an `unsigned char`.
abbrev pub AreBytes : Bytes → Type 0
AreBytes [] = Unit
AreBytes (byte ∷ seq) = (byte < 256) × AreBytes seq

-- The bytes from `min` on that are in reach: as many as `len`, or all for 0.
abbrev pub Covers : PrefixMap → ℕ → Type 0
Covers pfx byte = (pfx.min ≤ byte) × ((pfx.len ≡ 0) ⊎ (byte < pfx.min + pfx.len))

Covers-covers : (pfx : PrefixMap) (byte : ℕ) → Covers pfx byte → covers pfx byte ≡ true
unfolding covers
Covers-covers pfx byte (low, inl all) = ground arith
Covers-covers pfx byte (low, inr high) = ground arith

covers-Covers : (pfx : PrefixMap) (byte : ℕ) → covers pfx byte ≡ true → Covers pfx byte
unfolding covers
covers-Covers pfx byte c = elim (Bool-cases (pfx.len == 0)) [
  | inl e ↦ (ground arith, inl (ground arith))
  | inr e ↦ (ground arith, inr (ground arith))
]

-- How many bytes a prefix map has entries for, from its first byte on.
abbrev pub reach : PrefixMap → ℕ
reach pfx = if pfx.len == 0 then 256 - pfx.min else pfx.len

Covers-inside :
    (pfx : PrefixMap) (byte n : ℕ)
    → pfx.bmap_start + reach pfx ≤ n
    → byte < 256
    → Covers pfx byte
    → pfx.bmap_start + (byte - pfx.min) < n
Covers-inside pfx byte n h low (above, inl all) = ground arith
Covers-inside pfx byte n h low (above, inr below) = ground arith

module _ {M : Type 0} (enc : Encinfo M) where
  -- The entry of the byte map for a byte that a prefix map covers.
  abbrev entry : PrefixMap → ℕ → Option ℕ
  entry pfx byte = get_elem? enc.bytemap (pfx.bmap_start + (byte - pfx.min))

  -- A sequence that starts with the character `v`, of at most so many bytes, from a prefix map on.
  pub data Decodes : ℕ → ℕ → Bytes → ℕ → Type 0 where
    last :
        (n i byte v : ℕ) (seq : Bytes) (pfx : PrefixMap)
        → get_elem? enc.prefixes i ≡ some pfx
        → Covers pfx byte
        → is_set pfx.ispfx byte ≡ false
        → is_set pfx.ischar byte ≡ true
        → entry pfx byte ≡ some v
        → Decodes (suc n) i (byte ∷ seq) v
    prefix :
        (n i byte next v : ℕ) (seq : Bytes) (pfx : PrefixMap)
        → get_elem? enc.prefixes i ≡ some pfx
        → Covers pfx byte
        → is_set pfx.ispfx byte ≡ true
        → entry pfx byte ≡ some next
        → Decodes n next seq v
        → Decodes (suc n) i (byte ∷ seq) v

  fetch-some : {A : Type 0} (l : List A) (i : ℕ) (a : A) → get_elem? l i ≡ some a → fetch l i ≡ ok a
  unfolding fetch
  fetch-some l i a e = rw (fetch, e) refl

  Decodes-convert_from :
      (n i : ℕ) (seq : Bytes) (v : ℕ) → Decodes n i seq v → convert_from enc n i seq ≡ ok (some v)
  unfolding convert_from convert_byte
  Decodes-convert_from zero i seq v d = elim d [ ]
  Decodes-convert_from (suc n) i [] v d = elim d [ ]
  Decodes-convert_from (suc n) i (byte ∷ seq) v (last _ _ _ _ _ pfx p c x y e) =
      rw
        (
          convert_from,
          fetch-some enc.prefixes i pfx p,
          Covers-covers pfx byte c,
          has_bit-is_set pfx.ispfx byte ∙ x,
          has_bit-is_set pfx.ischar byte ∙ y,
          fetch-some enc.bytemap _ _ e,
        )
        refl
  Decodes-convert_from (suc n) i (byte ∷ seq) v (prefix _ _ _ next _ _ pfx p c x e d) =
      rw
        (
          convert_from,
          fetch-some enc.prefixes i pfx p,
          Covers-covers pfx byte c,
          has_bit-is_set pfx.ispfx byte ∙ x,
          fetch-some enc.bytemap _ _ e,
        )
        (Decodes-convert_from n next seq v d)

  -- What a byte comes to, and the entry that it is read from.
  Byte-cases :
      (pfx : PrefixMap) (byte : ℕ)
      → (covers pfx byte ≡ false)
        ⊎ ((covers pfx byte ≡ true) × (is_set pfx.ispfx byte ≡ true))
        ⊎ ((covers pfx byte ≡ true)
            × (is_set pfx.ispfx byte ≡ false)
            × (is_set pfx.ischar byte ≡ true))
        ⊎ ((covers pfx byte ≡ true)
            × (is_set pfx.ispfx byte ≡ false)
            × (is_set pfx.ischar byte ≡ false))
  Byte-cases pfx byte = elim (Bool-cases (covers pfx byte)) [
    | inr c ↦ inl c
    | inl c ↦ elim (Bool-cases (is_set pfx.ispfx byte)) [
      | inl x ↦ inr (inl (c, x))
      | inr x ↦ elim (Bool-cases (is_set pfx.ischar byte)) [
        | inl y ↦ inr (inr (inl (c, x, y)))
        | inr y ↦ inr (inr (inr (c, x, y)))
      ]
    ]
  ]

  -- The part of the byte map that a prefix map uses is in the byte map, and an entry for a prefix is
  -- the number of a prefix map.
  pub record IsWellFormed : Type 0 where
    pub part :
        (i : ℕ) (pfx : PrefixMap)
        → get_elem? enc.prefixes i ≡ some pfx
        → pfx.bmap_start + reach pfx ≤ length enc.bytemap
    pub next_map :
        (i byte next : ℕ) (pfx : PrefixMap)
        → get_elem? enc.prefixes i ≡ some pfx
        → Covers pfx byte
        → is_set pfx.ispfx byte ≡ true
        → entry pfx byte ≡ some next
        → next < length enc.prefixes

  get_elem?-some :
      {A : Type 0} (l : List A) (i : ℕ) → i < length l → (a : A) × (get_elem? l i ≡ some a)
  get_elem?-some [] i h = absurd (omega arith)
  get_elem?-some (x ∷ l) zero h = (x, refl)
  get_elem?-some (x ∷ l) (suc i) h = get_elem?-some l i (omega arith)

  -- A covered byte has an entry.
  entry-some :
      (i byte : ℕ) (pfx : PrefixMap)
      → IsWellFormed
      → get_elem? enc.prefixes i ≡ some pfx
      → byte < 256
      → Covers pfx byte
      → (v : ℕ) × (entry pfx byte ≡ some v)
  entry-some i byte pfx w p low c =
      get_elem?-some enc.bytemap (pfx.bmap_start + (byte - pfx.min))
        (Covers-inside pfx byte (length enc.bytemap) (w.part i pfx p) low c)

  convert_from_total :
      (n i : ℕ) (seq : Bytes)
      → IsWellFormed
      → AreBytes seq
      → i < length enc.prefixes
      → n ≤ length seq
      → ((v : ℕ) × (convert_from enc n i seq ≡ ok (some v)) × Decodes n i seq v)
        ⊎ (convert_from enc n i seq ≡ ok none)
  unfolding convert_from convert_byte
  convert_from_total zero i seq w b h k = inr refl
  convert_from_total (suc n) i [] w b h k = absurd (omega arith)
  convert_from_total (suc n) i (byte ∷ seq) w (small, b) h k =
      let (pfx, p) = get_elem?-some enc.prefixes i h in
      let found = fetch-some enc.prefixes i pfx p in
      elim (Byte-cases pfx byte) [
        | inl c ↦ inr (rw (convert_from, found, c) refl)
        | inr (inl (c, x)) ↦
            let covered = covers-Covers pfx byte c in
            let (next, e) = entry-some i byte pfx w p small covered in
            let low = w.next_map i byte next pfx p covered x e in
            let step = fetch-some enc.bytemap (pfx.bmap_start + (byte - pfx.min)) next e in
            elim (convert_from_total n next seq w b low (omega arith)) [
              | inl (v, run, d) ↦ inl (
                v,
                rw (convert_from, found, c, has_bit-is_set pfx.ispfx byte ∙ x, step) run,
                prefix n i byte next v seq pfx p (covers-Covers pfx byte c) x e d,
              )
              | inr run ↦
                  inr (rw (convert_from, found, c, has_bit-is_set pfx.ispfx byte ∙ x, step) run)
            ]
        | inr (inr (inl (c, x, y))) ↦
            let (v, e) = entry-some i byte pfx w p small (covers-Covers pfx byte c) in
            let step = fetch-some enc.bytemap (pfx.bmap_start + (byte - pfx.min)) v e in
            inl (
              v,
              rw
                  (
                    convert_from,
                    found,
                    c,
                    has_bit-is_set pfx.ispfx byte ∙ x,
                    has_bit-is_set pfx.ischar byte ∙ y,
                    step,
                  )
                  refl,
              last n i byte v seq pfx p (covers-Covers pfx byte c) x y e,
            )
        | inr (inr (inr (c, x, y))) ↦ inr (
            rw
              (
                convert_from,
                found,
                c,
                has_bit-is_set pfx.ispfx byte ∙ x,
                has_bit-is_set pfx.ischar byte ∙ y,
              )
              refl)
      ]

  value_of : (u v : ℕ) → ok (some u) ≡ ok (some v) → u ≡ v
  value_of u v e = cc

  no_value : (v : ℕ) → ok none ≢ ok (some v)
  no_value v e = cc

  -- Where each prefix map's part of the byte map is in it, an entry for a prefix is the number of a
  -- prefix map, there is a first prefix map, and the sequence is of four values of a byte or more, no
  -- table is read outside, and the result is a character just when the bytes start with it.
  pub convert_to_unicode-Decodes :
      (seq : Bytes) (v : ℕ)
      → IsWellFormed
      → AreBytes seq
      → 0 < length enc.prefixes
      → 4 ≤ length seq
      → ((r : Option ℕ) × (convert_to_unicode enc seq ≡ ok r))
        × ((convert_to_unicode enc seq ≡ ok (some v)) ↔ Decodes 4 0 seq v)
  unfolding convert_to_unicode
  convert_to_unicode-Decodes seq v w b h k = elim (convert_from_total 4 0 seq w b h k) [
    | inl (u, run, d) ↦
        let same_value : convert_to_unicode enc seq ≡ ok (some v) → u ≡ v =
          λ e. value_of u v (sym run ∙ e) in
        (
          (some u, run),
          (
            (λ e. subst (λ (x : ℕ). Decodes 4 0 seq x) (same_value e) d),
            (λ c. Decodes-convert_from 4 0 seq v c),
          ),
        )
    | inr run ↦ (
      (none, run),
      ((λ e. absurd (no_value v (sym run ∙ e))), (λ c. Decodes-convert_from 4 0 seq v c)),
    )
  ]
