-- ===== src/Xml/Puller/Able.antt =====
-- xml/xml_puller.c: when XML_PullerCreate can make a puller, told from its arguments, the memory and
-- iconv alone, and that the trial of the converter finds just that.
use gawkextlib.Common.{
  ℕ, ◌+◌, ◌≡◌, ◌∙◌, refl, Bool, true, false, inl, inr, ◌&&◌, ◌||◌, not, Option, none, some, List,
  [], ◌∷◌, Bytes, length, ltb, Bool-cases, Option-cases, arith,
}
use gawkextlib.Xml.Puller.Control.{Makers, puller_size, try_converter}
use gawkextlib.Xml.Puller.{
  Kinds, Token, Puller, Libraries, request, release_block, copy_string, grow_conv_buf, convert_with,
  convert, puller_iconv,
}

-- What a new puller is like, without its parser and its memory.
pub record Start : Type 0 where
  pub filedesc : Option ℕ
  pub read_size : ℕ
  pub bufsize : ℕ
  pub queue : List Token
  pub handlers : Kinds
  pub enabled : Kinds
  pub prev_last_row : ℕ
  pub prev_last_col : ℕ
  pub status_ok : Bool
  pub converting : Bool

abbrev pub given {ℓ} : {A : Type ℓ} → Option A → Bool
given none = false
given (some a) = true

abbrev pub start : {C P : Type 0} → Puller C P → Start
start p = record {
  filedesc = p.filedesc;
  read_size = p.input.read_size;
  bufsize = p.input.bufsize;
  queue = p.queue;
  handlers = p.handlers;
  enabled = p.enabled;
  prev_last_row = p.prev_last_row;
  prev_last_col = p.prev_last_col;
  status_ok = p.status_ok;
  converting = given p.converter;
}

-- The descriptor; without one, there is no puller.
abbrev pub number_or_zero : Option ℕ → ℕ
number_or_zero none = 0
number_or_zero (some fd) = fd

-- It reads this file in blocks of this size, from line 1 and column 1 on, and nothing is enabled.
abbrev pub new_puller : ℕ → ℕ → Bool → Start
new_puller fd size converting = record {
  filedesc = some fd;
  read_size = size;
  bufsize = size;
  queue = [];
  handlers = λ k. false;
  enabled = λ k. false;
  prev_last_row = 1;
  prev_last_col = 1;
  status_ok = true;
  converting = converting;
}

module _ {C P : Type 0} (lib : Libraries C P) (make : Makers C P) where
  open lib use {grants, iconv}
  open make use {iconv_open, is_utf8}

  abbrev pub granted_copy : ℕ → Option Bytes → Bool
  granted_copy n none = false
  granted_copy n (some t) = grants n (length t + 1)

  -- The converter takes two spaces: there is memory for 32 bytes, iconv makes a string of them, and
  -- there is memory for the string.
  abbrev pub converts : C → ℕ → Bool
  converts c n = grants n 32 && granted_copy (n + 1) (iconv c (b' ' ∷ b' ' ∷ []) 32).1

  abbrev pub has_converter : Option C → ℕ → Bool
  has_converter none n = false
  has_converter (some c) n = converts c n

  -- The encoding is not given, is UTF-8, or has a converter that works.
  abbrev pub chosen : Option Bytes → ℕ → Bool
  chosen none n = true
  chosen (some name) n = is_utf8 name || has_converter (iconv_open name) n

  -- There is an encoding, and it is not UTF-8.
  abbrev pub needs_converter : Option Bytes → Bool
  needs_converter none = false
  needs_converter (some name) = not (is_utf8 name)

  -- There is a file, the buffer has some length, there is memory for the structure and the buffer,
  -- and the encoding can be had.
  abbrev pub able : Option ℕ → Option Bytes → ℕ → ℕ → Bool
  able none encoding size n = false
  able (some fd) encoding size n =
      ltb 0 size && grants n puller_size && grants (n + 1) size && chosen encoding (n + 2)

  grow_conv_buf_lem :
      (p : Puller C P)
      → p.conv_buflen ≡ 0
      → ((grow_conv_buf lib p 32).1 ≡ grants p.memory.calls 32)
        × ((grow_conv_buf lib p 32).0.memory.calls ≡ p.memory.calls + 1)
  unfolding grow_conv_buf request release_block
  grow_conv_buf_lem p fresh = (ground arith, ground arith)

  puller_iconv-converts :
      (p : Puller C P) (c : C)
      → p.converter ≡ some c
      → p.conv_buflen ≡ 0
      → given (puller_iconv lib p (b' ' ∷ b' ' ∷ [])).1 ≡ converts c p.memory.calls
  unfolding puller_iconv convert convert_with copy_string request
  puller_iconv-converts p c e fresh =
      let (g, n) = grow_conv_buf_lem p fresh in
      let made = (iconv c (b' ' ∷ b' ' ∷ []) 32).1 in
      elim (Bool-cases (grants p.memory.calls 32)) [
        | inr no_room ↦ rw (puller_iconv, convert, e, convert_with, g, no_room) refl
        | inl some_room ↦ elim (Option-cases made) [
          | inl f ↦ rw (puller_iconv, convert, e, convert_with, g, some_room, f) refl
          | inr (t, f) ↦ elim (Bool-cases (grants (p.memory.calls + 1) (length t + 1))) [
            | inl fits ↦
                rw
                  (
                    puller_iconv, convert, e, convert_with, g, some_room, f, copy_string, request,
                    n, fits,
                  )
                  refl
            | inr full ↦
                rw
                  (
                    puller_iconv, convert, e, convert_with, g, some_room, f, copy_string, request,
                    n, full,
                  )
                  refl
          ]
        ]
      ]

  try_converter-given :
      (p : Puller C P)
      → (try_converter lib make p).1 ≡ given (puller_iconv lib p (b' ' ∷ b' ' ∷ [])).1
  unfolding try_converter
  try_converter-given p = elim (Option-cases (puller_iconv lib p (b' ' ∷ b' ' ∷ [])).1) [
    | inl f ↦ rw (try_converter, f) refl
    | inr (t, f) ↦ rw (try_converter, f) refl
  ]

  pub try_converter-converts :
      (p : Puller C P) (c : C)
      → p.converter ≡ some c
      → p.conv_buflen ≡ 0
      → (try_converter lib make p).1 ≡ converts c p.memory.calls
  try_converter-converts p c e fresh = try_converter-given p ∙ puller_iconv-converts p c e fresh

  convert-start : (p : Puller C P) (s : Bytes) → start (convert lib p s).0 ≡ start p
  unfolding convert convert_with copy_string grow_conv_buf
  convert-start p s = ground arith

  pub try_converter-start :
      (p : Puller C P)
      → (try_converter lib make p).1 ≡ true
      → start (try_converter lib make p).0 ≡ start p
  unfolding try_converter puller_iconv
  try_converter-start p fine = ground (arith, convert-start p (b' ' ∷ b' ' ∷ []))
