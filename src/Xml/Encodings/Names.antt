-- ===== src/Xml/Encodings/Names.antt =====
-- xml/xml_enc_handler.c: which encoding a name stands for.
use mathlib.Core.Path.{subst}
use gawkextlib.Common.{
  ℕ, ◌+◌, ◌-◌, ◌≤◌, ◌<◌, ◌≡◌, ◌≢◌, refl, sym, ap, ◌∙◌, true, false, ◌⊎◌, inl, inr, Option, none,
  some, List, [], ◌∷◌, map, Bytes, length, same, same_refl, ltb, leb, ◌&&◌, Bool-cases, arith,
}
use gawkextlib.Xml.Encodings.{
  PrefixMap, Encinfo, upper, find_encoding, XmlEncoding, unknown_encoding,
}

-- `d` is the small letter `c` as a capital, or `c` itself, which is none.
pub data Capital : ℕ → ℕ → Type 0 where
  small_letter : (c d : ℕ) → 97 ≤ c → c ≤ 122 → d + 32 ≡ c → Capital c d
  unchanged : (c : ℕ) → (c < 97) ⊎ (122 < c) → Capital c c

pub data Capitals : Bytes → Bytes → Type 0 where
  no_more : Capitals [] []
  one_more : (c d : ℕ) (s t : Bytes) → Capital c d → Capitals s t → Capitals (c ∷ s) (d ∷ t)

Capital-upper : (c : ℕ) → Capital c (upper c)
unfolding upper
Capital-upper c = elim (Bool-cases (leb 97 c && leb c 122)) [
  | inl small ↦ rw small (small_letter c (c - 32) (ground arith) (ground arith) (ground arith))
  | inr large ↦ rw large (unchanged c (apart large))
]
  where
    apart : (leb 97 c && leb c 122) ≡ false → (c < 97) ⊎ (122 < c)
    apart e = elim (Bool-cases (leb 97 c)) [
      | inl low ↦ inr (ground arith)
      | inr low ↦ inl (ground arith)
    ]

Capitals-upper : (s : Bytes) → Capitals s (map upper s)
Capitals-upper [] = no_more
Capitals-upper (c ∷ s) = one_more c (upper c) s (map upper s) (Capital-upper c) (Capitals-upper s)

same→eq : (s t : Bytes) → same s t ≡ true → s ≡ t
same→eq [] [] h = refl
same→eq [] (d ∷ t) h = cc
same→eq (c ∷ s) [] h = cc
same→eq (c ∷ s) (d ∷ t) h = ground (arith, same→eq s t)

-- The first entry of the registry with a name.
pub data Registered {M : Type 0} (u : Bytes) (enc : Encinfo M)
    : List (Bytes × Encinfo M) → Type 0 where
  here : (rest : List (Bytes × Encinfo M)) → Registered u enc ((u, enc) ∷ rest)
  there :
      (n : Bytes) (e : Encinfo M) (rest : List (Bytes × Encinfo M))
      → n ≢ u
      → Registered u enc rest
      → Registered u enc ((n, e) ∷ rest)

pub data Absent {M : Type 0} (u : Bytes) : List (Bytes × Encinfo M) → Type 0 where
  at_end : Absent u []
  not_here :
      (n : Bytes) (e : Encinfo M) (rest : List (Bytes × Encinfo M))
      → n ≢ u
      → Absent u rest
      → Absent u ((n, e) ∷ rest)

-- What expat is to be told of a name.
pub data Answers {M : Type 0} (encs : List (Bytes × Encinfo M)) (name : Bytes)
    : Option (XmlEncoding M) → Type 0 where
  too_long : 40 < length name → Answers encs name none
  unknown : (u : Bytes) → Capitals name u → Absent u encs → Answers encs name none
  single_bytes :
      (u : Bytes) (enc : Encinfo M)
      → length name ≤ 40
      → Capitals name u
      → Registered u enc encs
      → enc.prefixes ≡ []
      → Answers encs name (some (record { first = enc.firstmap; conversion = none }))
  several_bytes :
      (u : Bytes) (enc : Encinfo M)
      → length name ≤ 40
      → Capitals name u
      → Registered u enc encs
      → enc.prefixes ≢ []
      → Answers encs name (some (record { first = enc.firstmap; conversion = some enc }))

no_maps : (l : List PrefixMap) → ltb 0 (length l) ≡ false → l ≡ []
no_maps [] h = refl
no_maps (x ∷ l) h = absurd (ground arith)

differs : (s t : Bytes) → same s t ≡ false → s ≢ t
differs s t e h = let yes : same s t ≡ true = ap (λ x. same s x) (sym h) ∙ same_refl s in cc

module _ {M : Type 0} where
  find_encoding-cases :
      (encs : List (Bytes × Encinfo M)) (u : Bytes)
      → ((enc : Encinfo M) × (find_encoding u encs ≡ some enc) × Registered u enc encs)
        ⊎ ((find_encoding u encs ≡ none) × Absent u encs)
  unfolding find_encoding
  find_encoding-cases [] u = inr (refl, at_end)
  find_encoding-cases ((n, e) ∷ rest) u = elim (Bool-cases (same n u)) [
    | inl found ↦ inl (
      e,
      rw found refl,
      subst (λ x. Registered u e ((x, e) ∷ rest)) (sym (same→eq n u found)) (here rest),
    )
    | inr other ↦ elim (find_encoding-cases rest u) [
      | inl (enc, run, r) ↦ inl (enc, rw other run, there n e rest (differs n u other) r)
      | inr (run, a) ↦ inr (rw other run, not_here n e rest (differs n u other) a)
    ]
  ]

  -- For every name and every registry, `unknownEncoding` gives the table of the first entry whose name
  -- is the name in capitals, with a conversion just where the entry has prefix maps; a name of more
  -- than 40 bytes, or with no entry, is refused.
  pub unknown_encoding-Answers :
      (encs : List (Bytes × Encinfo M)) (name : Bytes)
      → Answers encs name (unknown_encoding encs name)
  unfolding unknown_encoding
  unknown_encoding-Answers encs name =
      let u = map upper name in
      let capitals = Capitals-upper name in
      elim (Bool-cases (ltb 40 (length name))) [
        | inl long ↦ rw (unknown_encoding, long) (too_long (ground arith))
        | inr short ↦ elim (find_encoding-cases encs u) [
          | inr (run, absent) ↦ rw (unknown_encoding, short, run) (unknown u capitals absent)
          | inl (enc, run, r) ↦ elim (Bool-cases (ltb 0 (length enc.prefixes))) [
            | inl several ↦
                rw (unknown_encoding, short, run, several)
                  (several_bytes u enc (ground arith) capitals r
                    (λ e. let none_there = ap length e in absurd (ground arith)))
            | inr single ↦
                rw (unknown_encoding, short, run, single)
                  (single_bytes u enc (ground arith) capitals r (no_maps enc.prefixes single))
          ]
        ]
      ]
