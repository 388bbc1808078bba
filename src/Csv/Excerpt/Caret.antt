-- ===== src/Csv/Excerpt/Caret.antt =====
-- csv/: where the caret of `error` stands.
use gawkextlib.Common.{
  ℕ, ◌+◌, ◌-◌, ◌≤◌, ◌<◌, ◌≡◌, refl, ◌∙◌, ap, Bool, true, false, Bytes, length, drop, replicate,
  get_elem?, get_elem?-append_left, get_elem?-drop, get_elem?-take, get_elem?-set_ne, length-drop,
  ltb, ltb→lt, if◌then◌else◌, arith, Bool-cases, inl, inr, ◌⊎◌,
}
use gawkextlib.Csv.Excerpt.{
  width, tail, strncpy, last_shown, dots_at_end, dots_at_beginning, error_excerpt,
}
use gawkextlib.Csv.Parser.{Message}

get_elem?-strncpy :
    (s : Bytes) (n i : ℕ) → i < n → i < length s → get_elem? (strncpy s n) i ≡ get_elem? s i
unfolding strncpy
get_elem?-strncpy s n i h k = get_elem?-take n _ i h ∙ get_elem?-append_left s (replicate n 0) i k

get_elem?-dots_at_end : (b : Bytes) (i : ℕ) → i < 62 → get_elem? (dots_at_end b) i ≡ get_elem? b i
unfolding dots_at_end
get_elem?-dots_at_end b i h =
    get_elem?-set_ne _ 62 i b'.' (omega arith)
    ∙ get_elem?-set_ne _ 63 i b'.' (omega arith)
    ∙ get_elem?-set_ne b 64 i b'.' (omega arith)

get_elem?-dots_at_beginning :
    (b : Bytes) (i : ℕ) → 2 < i → get_elem? (dots_at_beginning b) i ≡ get_elem? b i
unfolding dots_at_beginning
get_elem?-dots_at_beginning b i h =
    get_elem?-set_ne _ 2 i b'.' (omega arith)
    ∙ get_elem?-set_ne _ 1 i b'.' (omega arith)
    ∙ get_elem?-set_ne b 0 i b'.' (omega arith)

-- Where the last character shown stands, against the place and the end.
last_shown_bounds :
    (len pos : ℕ)
    → width < len
    → pos ≤ len
    → (width ≤ last_shown len pos)
      × (last_shown len pos ≤ len)
      × (pos ≤ last_shown len pos)
      × ((last_shown len pos ≡ len) ⊎ (pos + tail ≤ last_shown len pos))
      × ((last_shown len pos ≡ width) ⊎ (last_shown len pos ≤ pos + tail))
unfolding last_shown
last_shown_bounds len pos h k = ground arith

-- The dots at either end leave a byte that is not among the places that they take.
get_elem?-dots :
    (at_end at_beginning : Bool) (b : Bytes) (i : ℕ)
    → (at_end ≡ true → i < 62)
    → (at_beginning ≡ true → 2 < i)
    → get_elem?
        (if at_beginning
          then dots_at_beginning (if at_end then dots_at_end b else b)
          else (if at_end then dots_at_end b else b))
        i
      ≡ get_elem? b i
get_elem?-dots true true b i h k =
    get_elem?-dots_at_beginning _ i (k refl) ∙ get_elem?-dots_at_end b i (h refl)
get_elem?-dots true false b i h k = get_elem?-dots_at_end b i (h refl)
get_elem?-dots false true b i h k = get_elem?-dots_at_beginning b i (k refl)
get_elem?-dots false false b i h k = refl

-- For a place in the record, behind at least one character, the caret stands under the character
-- before the place, the last that was read, and the dots never cover that character.
pub error_excerpt_caret :
    (msg : Message) (csv_record : Bytes) (pos : ℕ)
    → 0 < pos
    → pos ≤ length csv_record
    → get_elem?
        (error_excerpt msg csv_record pos).textline
        ((error_excerpt msg csv_record pos).cursor - 1)
      ≡ get_elem? csv_record (pos - 1)
unfolding error_excerpt
error_excerpt_caret msg s pos h k = elim (Bool-cases (ltb width (length s))) [
  | inr short ↦ rw short
  | inl long ↦
      let len = length s in
      let last = last_shown len pos in
      let offset = last - width in
      let b = last_shown_bounds len pos (ground arith) k in
      let i = pos - offset - 1 in
      let copied : get_elem? (strncpy (drop offset s) width) i ≡ get_elem? s (pos - 1) =
        get_elem?-strncpy (drop offset s) width i (omega arith)
          (omega (arith, length-drop offset s))
        ∙ get_elem?-drop offset s i
        ∙ ap (get_elem? s) (omega arith) in
      rw long (
        get_elem?-dots (ltb last len) (ltb 0 offset) (strncpy (drop offset s) width) i
          (λ e. omega (arith, ltb→lt last len e)) (λ e. omega (arith, ltb→lt 0 offset e))
        ∙ copied)
]
