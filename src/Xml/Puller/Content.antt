-- ===== src/Xml/Puller/Content.antt =====
-- xml/xml_puller.c: the input buffer is a window on the bytes of the document.
use gawkextlib.Common.{
  ℕ, zero, suc, ◌+◌, ◌-◌, ◌*◌, ◌≤◌, ◌≡◌, refl, sym, ap, ◌∙◌, true, inl, inr, some, [], ◌∷◌, ◌++◌,
  append_assoc, Bytes, codes, length, length-take_le, length-drop, take, drop, ltb, Bool-cases,
  arith,
}
use gawkextlib.Xml.Puller.Buffer.{restart_input, advance_input, discard_input, move_input}
use gawkextlib.Xml.Puller.Control.{Makers}
use gawkextlib.Xml.Puller.Frame.{Fixed, internal_error-fixed}
use gawkextlib.Xml.Puller.Next.{Sources, grow_input, keep_input}
use gawkextlib.Xml.Puller.Window.{Loaded, Ready, discarded, loaded_input, kept-AtStart}
use gawkextlib.Xml.Puller.{Input, Puller, Libraries, end_document}

-- The bytes that are saved, and those that are new.
abbrev pub saved_of : Input → Bytes
saved_of i = take i.saved_bytes (drop i.saved_start i.buf)

abbrev pub new_of : Input → Bytes
new_of i = take i.new_bytes (drop i.new_start i.buf)

take-append : (n : ℕ) (xs ys : Bytes) → length xs ≡ n → take n (xs ++ ys) ≡ xs
take-append zero [] ys e = refl
take-append zero (x ∷ xs) ys e = absurd (omega arith)
take-append (suc n) [] ys e = absurd (omega arith)
take-append (suc n) (x ∷ xs) ys e = ap (λ l. x ∷ l) (take-append n xs ys (omega arith))

drop-append : (n : ℕ) (xs ys : Bytes) → length xs ≡ n → drop n (xs ++ ys) ≡ ys
drop-append zero [] ys e = refl
drop-append zero (x ∷ xs) ys e = absurd (omega arith)
drop-append (suc n) [] ys e = absurd (omega arith)
drop-append (suc n) (x ∷ xs) ys e = drop-append n xs ys (omega arith)

take_nil : (n : ℕ) → take {A = ℕ} n [] ≡ []
take_nil zero = refl
take_nil (suc n) = refl

drop_nil : (n : ℕ) → drop {A = ℕ} n [] ≡ []
drop_nil zero = refl
drop_nil (suc n) = refl

drop-drop : (a b n : ℕ) (l : Bytes) → b + a ≡ n → drop a (drop b l) ≡ drop n l
drop-drop a zero n l e = ap (λ k. drop k l) (omega arith)
drop-drop a (suc b) zero l e = absurd (omega arith)
drop-drop a (suc b) (suc n) [] e = drop_nil a
drop-drop a (suc b) (suc n) (c ∷ l) e = drop-drop a b n l (omega arith)

drop-take : (k n m : ℕ) (l : Bytes) → k + m ≡ n → drop k (take n l) ≡ take m (drop k l)
drop-take zero n m l e = ap (λ k. take k l) (omega arith)
drop-take (suc k) zero m l e = absurd (omega arith)
drop-take (suc k) (suc n) m [] e = sym (take_nil m)
drop-take (suc k) (suc n) m (c ∷ l) e = drop-take k n m l (omega arith)

take_split : (a b n : ℕ) (l : Bytes) → a + b ≡ n → take a l ++ take b (drop a l) ≡ take n l
take_split zero b n l e = ap (λ k. take k l) (omega arith)
take_split (suc a) b zero l e = absurd (omega arith)
take_split (suc a) b (suc n) [] e = take_nil b
take_split (suc a) b (suc n) (c ∷ l) e = ap (λ t. c ∷ t) (take_split a b n l (omega arith))

-- The saved and the new bytes follow each other in the buffer.
window_lem :
    (i : Input) (n : ℕ)
    → i.new_start ≡ i.saved_start + i.saved_bytes
    → i.saved_bytes + i.new_bytes ≡ n
    → saved_of i ++ new_of i ≡ take n (drop i.saved_start i.buf)
window_lem i n joined e =
    ap (λ t. saved_of i ++ take i.new_bytes t)
      (sym (drop-drop i.saved_bytes i.saved_start i.new_start i.buf (sym joined)))
    ∙ take_split i.saved_bytes i.new_bytes n (drop i.saved_start i.buf) e

-- Where the buffer is in order and a document ends at `errloc` in the bytes at hand, the new bytes are
-- those behind it, saved ones included, and nothing else.
pub restart_input-new_of :
    (i : Input) (errloc : ℕ)
    → Loaded i
    → i.doc_offset ≤ errloc
    → errloc ≤ i.doc_offset + i.saved_bytes + i.new_bytes
    → new_of (restart_input i errloc) ≡ drop (errloc - i.doc_offset) (saved_of i ++ new_of i)
unfolding restart_input
restart_input-new_of i errloc l low high =
    let k = errloc - i.doc_offset in
    let n = i.saved_bytes + i.new_bytes in
    sym (
      ap (λ t. drop k t) (window_lem i n l.joined refl)
      ∙ drop-take k n (i.new_bytes + i.saved_bytes - k) (drop i.saved_start i.buf) (omega arith)
      ∙ ap (λ t. take (i.new_bytes + i.saved_bytes - k) t)
          (drop-drop k i.saved_start (i.saved_start + k) i.buf refl))

-- With the saved bytes at the start of the buffer.
first_bytes :
    (i : Input) (buf : Bytes)
    → i.saved_start ≡ 0
    → i.new_start ≡ i.saved_bytes
    → take i.saved_bytes (drop i.saved_start buf) ≡ take i.new_start buf
first_bytes i buf at_start joined =
    ap (λ n. take i.saved_bytes (drop n buf)) at_start ∙ ap (λ n. take n buf) (sym joined)

-- A block that was read is the new bytes, and leaves those that are saved.
pub store_block-new_of :
    (i : Input) (block : Bytes)
    → Ready i
    → (saved_of (loaded_input i block) ≡ saved_of i) × (new_of (loaded_input i block) ≡ block)
store_block-new_of i block r =
    let room = r.room in
    let whole = r.whole in
    let before = take i.new_start i.buf in
    let behind = drop (i.new_start + length block) i.buf in
    let size : length before ≡ i.new_start = length-take_le i.new_start i.buf (omega arith) in
    let split : before ++ block ++ behind ≡ before ++ (block ++ behind) =
      append_assoc before block behind in
    (
      first_bytes i (before ++ block ++ behind) r.at_start r.joined
          ∙ ap (λ l. take i.new_start l) split
          ∙ take-append i.new_start before (block ++ behind) size
          ∙ sym (first_bytes i i.buf r.at_start r.joined),
      ap (λ l. take (length block) (drop i.new_start l)) split
          ∙ ap (λ l. take (length block) l) (drop-append i.new_start before (block ++ behind) size)
          ∙ take-append (length block) block behind refl,
    )

move_input-saved_of :
    (i : Input)
    → i.saved_start + i.saved_bytes ≤ length i.buf
    → saved_of (move_input i) ≡ saved_of i
unfolding move_input
move_input-saved_of i inside = elim (Bool-cases (ltb 0 i.saved_start)) [
  | inr e ↦ rw (move_input, e) refl
  | inl e ↦
      let l = drop i.saved_start i.buf in
      rw (move_input, e)
        (take-append i.saved_bytes (take i.saved_bytes l) (drop i.saved_bytes i.buf)
          (length-take_le i.saved_bytes l (omega (arith, length-drop i.saved_start i.buf))))
]

-- What a round keeps, where the parser's place is `last_ok`: the bytes from that place on.
keep_input-saved_of :
    (i : Input) (last_ok : ℕ)
    → Loaded i
    → i.doc_offset ≤ last_ok
    → last_ok ≤ i.doc_offset + (i.saved_bytes + i.new_bytes)
    → saved_of (move_input (discarded (advance_input i) last_ok))
      ≡ drop (last_ok - i.doc_offset) (saved_of i ++ new_of i)
unfolding advance_input
keep_input-saved_of i last_ok l low high =
    let k = last_ok - i.doc_offset in
    let n = i.saved_bytes + i.new_bytes in
    let whole = l.whole in
    let joined = l.joined in
    let inside = l.inside in
    move_input-saved_of (discarded (advance_input i) last_ok) (omega arith)
    ∙ sym (
        ap (λ t. drop k t) (window_lem i n joined refl)
        ∙ drop-take k n (n - k) (drop i.saved_start i.buf) (omega arith)
        ∙ ap (λ t. take (n - k) t) (drop-drop k i.saved_start (i.saved_start + k) i.buf refl))

-- Bytes behind the saved ones do not matter.
take-drop-append :
    (n start : ℕ) (xs ys : Bytes)
    → start + n ≤ length xs
    → take n (drop start (xs ++ ys)) ≡ take n (drop start xs)
take-drop-append zero start xs ys h = refl
take-drop-append (suc n) zero [] ys h = absurd (omega arith)
take-drop-append (suc n) zero (x ∷ xs) ys h =
    ap (λ t. x ∷ t) (take-drop-append n zero xs ys (omega arith))
take-drop-append (suc n) (suc start) [] ys h = absurd (omega arith)
take-drop-append (suc n) (suc start) (x ∷ xs) ys h =
    take-drop-append (suc n) start xs ys (omega arith)

module _ {C P W : Type 0} (lib : Libraries C P) (make : Makers C P) (src : Sources W P) where
  open make use {unset}

  grow_input-saved_of :
      (p : Puller C P)
      → p.input.saved_start + p.input.saved_bytes ≤ length p.input.buf
      → saved_of (grow_input lib make src p).input ≡ saved_of p.input
  unfolding grow_input
  grow_input-saved_of p inside =
      let i = p.input in
      let size = i.bufsize + 2 * (i.new_start + i.read_size - i.bufsize) + 128 in
      let message = codes "XML Puller: out of memory" in
      elim (Bool-cases (ltb i.bufsize (i.new_start + i.read_size))) [
        | inr roomy ↦ rw (grow_input, roomy) refl
        | inl small ↦ elim (Bool-cases (lib.grants p.memory.calls size)) [
          | inl granted ↦
              rw (grow_input, small, granted)
                (take-drop-append i.saved_bytes i.saved_start i.buf (unset (size - length i.buf))
                  inside)
          | inr refused ↦
              rw (grow_input, small, refused)
                (ap (λ (f : Fixed). saved_of f.input) (internal_error-fixed lib _ message))
        ]
      ]

  -- Where the buffer is in order, the parser's place `last_ok` is in the bytes at hand, and there may
  -- be further documents, the end of a round keeps all bytes of the document from that place on, also
  -- where the buffer is moved or grows, or memory fails.
  pub keep_input-window :
      (p : Puller C P) (last_ok : ℕ)
      → Loaded p.input
      → p.enabled end_document ≡ true
      → p.input.doc_offset ≤ last_ok
      → last_ok ≤ p.input.doc_offset + (p.input.saved_bytes + p.input.new_bytes)
      → saved_of (keep_input lib make src p last_ok).input
        ≡ drop (last_ok - p.input.doc_offset) (saved_of p.input ++ new_of p.input)
  unfolding keep_input discard_input advance_input
  keep_input-window p last_ok l several low high =
      let i = p.input in
      let advanced = advance_input i in
      let moved = move_input (discarded advanced last_ok) in
      let found : discard_input advanced last_ok ≡ some (discarded advanced last_ok) =
        ground arith in
      let kept = kept-AtStart i last_ok l low high in
      rw (keep_input, several, found)
        (grow_input-saved_of (record p { input = moved })
            (omega (arith, kept.whole, kept.at_start, kept.fits))
          ∙ keep_input-saved_of i last_ok l low high)
