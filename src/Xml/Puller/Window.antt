-- ===== src/Xml/Puller/Window.antt =====
-- xml/xml_puller.c: the part of the input buffer that is in use stays inside the block.
use gawkextlib.Common.{
  ℕ, ◌+◌, ◌-◌, ◌≤◌, ◌<◌, ◌≡◌, refl, min, ◌||◌, none, some, ◌++◌, Bytes, ok, length, length-append,
  length-take_le, length-drop, take, drop, ltb, Bool-cases, ◌⊎◌, inl, inr, arith,
}
use gawkextlib.Xml.Puller.Buffer.{
  restart_input, store_block, forget_input, advance_input, discard_input, move_input,
}
use gawkextlib.Xml.Puller.{Input}

-- While the new bytes are parsed: they stand behind the saved ones, inside the block.
pub record Loaded (i : Input) : Type 0 where
  pub whole : length i.buf ≡ i.bufsize
  pub joined : i.new_start ≡ i.saved_start + i.saved_bytes
  pub inside : i.new_start + i.new_bytes ≤ i.bufsize
  pub roomy : i.read_size ≤ i.bufsize
  pub some_size : 0 < i.read_size

-- Between the rounds: the saved bytes are at the start, and there is room for a read.
pub record Ready (i : Input) : Type 0 where
  pub whole : length i.buf ≡ i.bufsize
  pub joined : i.new_start ≡ i.saved_bytes
  pub at_start : i.saved_start ≡ 0
  pub room : i.new_start + i.read_size ≤ i.bufsize
  pub some_size : 0 < i.read_size

abbrev pub loaded_input : Input → Bytes → Input
loaded_input i block = record i {
  buf = take i.new_start i.buf ++ block ++ drop (i.new_start + length block) i.buf;
  new_bytes = length block;
}

-- A block no longer than was asked for fits.
pub store_block-Loaded :
    (i : Input) (block : Bytes)
    → Ready i
    → length block ≤ min i.read_size (i.bufsize - i.new_start)
    → (store_block i block ≡ ok (loaded_input i block)) × Loaded (loaded_input i block)
unfolding store_block
store_block-Loaded i block r h =
    let whole = r.whole in
    let joined = r.joined in
    let start = r.at_start in
    let room = r.room in
    let some_size = r.some_size in
    let fits : i.new_start + length block ≤ length i.buf = ground arith in
    let size : length (take i.new_start i.buf ++ block ++ drop (i.new_start + length block) i.buf)
        ≡ i.bufsize =
      omega (
        arith,
        length-append (take i.new_start i.buf ++ block) (drop (i.new_start + length block) i.buf),
        length-append (take i.new_start i.buf) block,
        length-take_le i.new_start i.buf (omega arith),
        length-drop (i.new_start + length block) i.buf,
      ) in
    (
      ground arith,
      record {
        whole = size;
        joined = omega arith;
        inside = omega arith;
        roomy = omega arith;
        some_size = some_size;
      },
    )

pub restart_input-Loaded :
    (i : Input) (errloc : ℕ)
    → Loaded i
    → i.doc_offset ≤ errloc
    → errloc ≤ i.doc_offset + i.saved_bytes + i.new_bytes
    → Loaded (restart_input i errloc)
unfolding restart_input
restart_input-Loaded i errloc l h k = ground arith

pub forget_input-Loaded : (i : Input) → Loaded i → Loaded (forget_input i)
unfolding forget_input
forget_input-Loaded i l = ground arith

-- The saved bytes when those before `last_ok` are taken away.
abbrev pub discarded : Input → ℕ → Input
discarded i last_ok = record i {
  saved_start = i.saved_start + (last_ok - i.doc_offset);
  saved_bytes = i.saved_bytes - (last_ok - i.doc_offset);
  doc_offset = last_ok;
}

pub discard_input-cases :
    (i : Input) (last_ok : ℕ)
    → (discard_input i last_ok ≡ none)
      ⊎ ((discard_input i last_ok ≡ some (discarded i last_ok))
          × (i.doc_offset ≤ last_ok)
          × (last_ok ≤ i.doc_offset + i.saved_bytes))
unfolding discard_input
discard_input-cases i last_ok =
    elim (Bool-cases (ltb last_ok i.doc_offset || ltb (i.doc_offset + i.saved_bytes) last_ok)) [
      | inl e ↦ inl (rw e refl)
      | inr e ↦ inr (rw e refl, ground arith, ground arith)
    ]

-- The saved bytes at the start of a block of the same size.
pub record AtStart (i : Input) (size most : ℕ) : Type 0 where
  pub whole : length i.buf ≡ size
  pub sized : i.bufsize ≡ size
  pub at_start : i.saved_start ≡ 0
  pub joined : i.new_start ≡ i.saved_bytes
  pub fits : i.saved_bytes ≤ size
  pub few : i.saved_bytes ≤ most

move_input-AtStart :
    (i : Input)
    → length i.buf ≡ i.bufsize
    → i.new_start ≡ i.saved_start + i.saved_bytes
    → i.new_start ≤ i.bufsize
    → AtStart (move_input i) i.bufsize i.saved_bytes
unfolding move_input
move_input-AtStart i whole joined inside = elim (Bool-cases (ltb 0 i.saved_start)) [
  | inr e ↦
      let zero_start : i.saved_start ≡ 0 = ground arith in
      rw e (record {
        whole = whole;
        sized = refl;
        at_start = zero_start;
        joined = omega arith;
        fits = omega arith;
        few = omega arith;
      })
  | inl e ↦
      let saved = take i.saved_bytes (drop i.saved_start i.buf) in
      let size : length (saved ++ drop i.saved_bytes i.buf) ≡ i.bufsize = omega (
        arith,
        length-append saved (drop i.saved_bytes i.buf),
        length-drop i.saved_start i.buf,
        length-drop i.saved_bytes i.buf,
        length-take_le i.saved_bytes (drop i.saved_start i.buf)
            (omega (arith, length-drop i.saved_start i.buf)),
      ) in
      rw e (record {
        whole = size;
        sized = refl;
        at_start = refl;
        joined = refl;
        fits = omega arith;
        few = omega arith;
      })
]

-- What a round keeps, where the parser's place is in the bytes at hand.
pub kept-AtStart :
    (i : Input) (last_ok : ℕ)
    → Loaded i
    → i.doc_offset ≤ last_ok
    → last_ok ≤ i.doc_offset + (i.saved_bytes + i.new_bytes)
    → AtStart
        (move_input (discarded (advance_input i) last_ok))
        i.bufsize
        (i.saved_bytes + i.new_bytes)
unfolding advance_input
kept-AtStart i last_ok l h k =
    let whole = l.whole in
    let joined = l.joined in
    let inside = l.inside in
    let r =
      move_input-AtStart (discarded (advance_input i) last_ok) whole (omega arith) (omega arith) in
    record {
      whole = r.whole;
      sized = r.sized;
      at_start = r.at_start;
      joined = r.joined;
      fits = r.fits;
      few = omega (arith, r.few);
    }

pub move_input-read_size : (i : Input) → (move_input i).read_size ≡ i.read_size
unfolding move_input
move_input-read_size i = ground arith
