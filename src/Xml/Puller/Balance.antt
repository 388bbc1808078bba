-- ===== src/Xml/Puller/Balance.antt =====
-- xml/xml_puller.c: each block of memory in use is one that the puller can free.
use gawkextlib.Common.{
  ℕ, ◌+◌, ◌-◌, ◌*◌, ◌≡◌, refl, sym, ap, ◌∙◌, Bool, true, false, not, ◌&&◌, ◌⊎◌, inl, inr, Option,
  none, some, List, [], ◌∷◌, ◌++◌, Bytes, length, ltb, Bool-cases, Option-cases, arith,
}
use gawkextlib.Xml.Puller.Control.{to_list}
use gawkextlib.Xml.Puller.Tokens.{is_empty}
use gawkextlib.Xml.Puller.{
  Attribute, Token, Memory, Puller, Libraries, Converted, done, out_of_memory, iconv_failed,
  converted, request, release_block, is_some, copy_string, mb_len_max, grow_conv_buf, convert_with,
  convert, locate,
}

abbrev pub bit : Bool → ℕ
bit true = 1
bit false = 0

-- The blocks of the attributes' names and values.
abbrev pub attribute_blocks : List Attribute → ℕ
attribute_blocks [] = 0
attribute_blocks (a ∷ rest) = bit (is_some a.name) + bit (is_some a.value) + attribute_blocks rest

-- The blocks that a token points to.
unfoldable pub content_blocks : Token → ℕ
content_blocks tok =
    bit (is_some tok.name)
    + bit (is_some tok.content)
    + bit (is_some tok.pubid)
    + bit (not (is_empty tok.attr))
    + attribute_blocks tok.attr

unfoldable pub token_blocks : List Token → ℕ
token_blocks [] = 0
token_blocks (tok ∷ rest) = 1 + content_blocks tok + token_blocks rest

-- The blocks that the puller has to free, itself and its input buffer among them.
unfoldable pub owned : {C P : Type 0} → Puller C P → ℕ
owned p =
    2
    + token_blocks p.queue
    + token_blocks (to_list p.to_be_freed)
    + p.free_list
    + bit p.conv_buf
    + bit p.cdata_buf
    + bit (is_some p.error)

-- `b` blocks are somebody else's, and there is no message while there is no error.
pub record Balanced {C P : Type 0} (b : ℕ) (p : Puller C P) : Type 0 where
  pub balance : p.memory.live ≡ b + owned p
  pub no_message : (p.status_ok && is_some p.error) ≡ false

pub token_blocks-append :
    (l k : List Token) → token_blocks (l ++ k) ≡ token_blocks l + token_blocks k
unfolding token_blocks
token_blocks-append [] k = ground arith
token_blocks-append (t ∷ l) k = ground (arith, token_blocks-append l k)

abbrev pub made : Converted → ℕ
made (done s) = 1
made out_of_memory = 0
made iconv_failed = 0

pub request-live :
    (grants : ℕ → ℕ → Bool) (size : ℕ) (m : Memory)
    → (request grants size m).0.live ≡ m.live + bit (request grants size m).1
unfolding request
request-live grants size m = ground arith

pub release_block-live : (b : Bool) (m : Memory) → (release_block b m).live ≡ m.live - bit b
unfolding release_block
release_block-live true m = refl
release_block-live false m = ground arith

abbrev pub found : Option Token → ℕ
found none = 0
found (some tok) = 1 + content_blocks tok

pub Converted-cases :
    (c : Converted) → ((s : Bytes) × (c ≡ done s)) ⊎ (c ≡ out_of_memory) ⊎ (c ≡ iconv_failed)
Converted-cases (done s) = inl (s, refl)
Converted-cases out_of_memory = inr (inl refl)
Converted-cases iconv_failed = inr (inr refl)

module _ {C P : Type 0} (lib : Libraries C P) where
  copy_string-Balanced :
      (b : ℕ) (p : Puller C P) (s : Bytes)
      → Balanced b p
      → Balanced (b + made (copy_string lib p s).1) (copy_string lib p s).0
  unfolding copy_string owned
  copy_string-Balanced b p s h =
      let e = h.balance in
      let n = h.no_message in
      let r = request-live lib.grants (length s + 1) p.memory in
      elim (Bool-cases (request lib.grants (length s + 1) p.memory).1) [
        | inl g ↦ rw (copy_string, g) (record { balance = omega (arith, ap bit g); no_message = n })
        | inr g ↦ rw (copy_string, g) (record { balance = omega (arith, ap bit g); no_message = n })
      ]

  grow_conv_buf-Balanced :
      (b : ℕ) (p : Puller C P) (n : ℕ) → Balanced b p → Balanced b (grow_conv_buf lib p n).0
  unfolding grow_conv_buf owned
  grow_conv_buf-Balanced b p n h =
      let e = h.balance in
      let unset = h.no_message in
      let size = n + p.conv_buflen in
      let r = request-live lib.grants size p.memory in
      let f = release_block-live p.conv_buf (request lib.grants size p.memory).0 in
      elim (Bool-cases (ltb p.conv_buflen n)) [
        | inr fits ↦ rw (grow_conv_buf, fits) h
        | inl small ↦ elim (Bool-cases (request lib.grants size p.memory).1) [
          | inl g ↦
              rw (grow_conv_buf, small, g)
                (record { balance = omega (arith, ap bit g); no_message = unset })
          | inr g ↦
              rw (grow_conv_buf, small, g)
                (record { balance = omega (arith, ap bit g); no_message = unset })
        ]
      ]

  -- The fields that no block depends on.
  moved-Balanced :
      (b : ℕ) (p q : Puller C P)
      → q.memory ≡ p.memory
      → owned q ≡ owned p
      → (q.status_ok && is_some q.error) ≡ false
      → Balanced b p
      → Balanced b q
  moved-Balanced b p q m o n h = record {
    balance = ap (λ (x : Memory). x.live) m ∙ h.balance ∙ ap (λ k. b + k) (sym o);
    no_message = n;
  }

  pub none_made : (b : ℕ) (p : Puller C P) → Balanced b p → Balanced (b + 0) p
  none_made b p h = record { balance = omega (arith, h.balance); no_message = h.no_message }

  convert_with-Balanced :
      (b : ℕ) (p : Puller C P) (c : C) (s : Bytes)
      → Balanced b p
      → Balanced (b + made (convert_with lib p c s).1) (convert_with lib p c s).0
  unfolding convert_with owned
  convert_with-Balanced b p c s h =
      let obl = mb_len_max * length s in
      let grown = grow_conv_buf lib p obl in
      let g = grow_conv_buf-Balanced b p obl h in
      let next : Puller C P = record (grown.0) { converter = some (lib.iconv c s obl).0 } in
      let k : Balanced b next = record { balance = g.balance; no_message = g.no_message } in
      elim (Bool-cases (grown.1)) [
        | inr refused ↦ rw (convert_with, refused) (none_made b (grown.0) g)
        | inl room ↦ elim (Option-cases ((lib.iconv c s obl).1)) [
          | inl failed ↦ rw (convert_with, room, failed) (none_made b next k)
          | inr (t, fine) ↦ rw (convert_with, room, fine) (copy_string-Balanced b next t k)
        ]
      ]

  pub convert-Balanced :
      (b : ℕ) (p : Puller C P) (s : Bytes)
      → Balanced b p
      → Balanced (b + made (convert lib p s).1) (convert lib p s).0
  unfolding convert
  convert-Balanced b p s h = elim (Option-cases p.converter) [
    | inl plain ↦
        let run : convert lib p s ≡ copy_string lib p s = ground arith in
        rw run (copy_string-Balanced b p s h)
    | inr (c, has) ↦
        let run : convert lib p s ≡ convert_with lib p c s = ground arith in
        rw run (convert_with-Balanced b p c s h)
  ]

  pub convert-message :
      (p : Puller C P) (s : Bytes)
      → ((convert lib p s).0.status_ok ≡ p.status_ok) × ((convert lib p s).0.error ≡ p.error)
  unfolding convert convert_with copy_string grow_conv_buf
  convert-message p s = (ground arith, ground arith)

  pub locate-Balanced : (b : ℕ) (p : Puller C P) → Balanced b p → Balanced b (locate lib p)
  unfolding locate owned
  locate-Balanced b p h =
      let n = h.no_message in
      moved-Balanced b p (locate lib p) (ground arith) (ground arith) (ground arith) h

  pub locate-message :
      (p : Puller C P) → ((locate lib p).status_ok ≡ p.status_ok) × ((locate lib p).error ≡ p.error)
  unfolding locate
  locate-message p = (ground arith, ground arith)

  converted-made : (c : Converted) → bit (is_some (converted c)) ≡ made c
  converted-made (done s) = refl
  converted-made out_of_memory = refl
  converted-made iconv_failed = refl

  pub put_message :
      (b : ℕ) (p : Puller C P) (c : Converted)
      → Balanced (b + made c) p
      → p.error ≡ none
      → p.status_ok ≡ false
      → Balanced b (record p { error = converted c })
  unfolding owned
  put_message b p c h none_yet wrong =
      let same = converted-made c in
      let before = ap (λ o. bit (is_some o)) none_yet in
      record { balance = omega (arith, h.balance); no_message = ground arith }
