-- ===== src/Xml/Puller/Next.antt =====
-- xml/xml_puller.c: XML_PullerNext, the blocks that it reads and what it keeps of them.
use gawkextlib.Common.{
  ℕ, zero, suc, ◌+◌, ◌-◌, ◌*◌, min, Bool, true, false, not, ◌&&◌, ◌||◌, Option, none, some, List,
  [], ◌∷◌, ◌++◌, Bytes, codes, Run, ok, fault, null_pointer, out_of_fuel, ◌>>=◌, length, take, drop,
  ltb, ◌==◌, if◌then◌else◌,
}
use gawkextlib.Xml.Puller.Buffer.{
  restart_input, store_block, forget_input, advance_input, discard_input, move_input,
}
use gawkextlib.Xml.Puller.Control.{Makers, no_kinds, xml_puller_enable}
use gawkextlib.Xml.Puller.Handlers.{Event, handle_all}
use gawkextlib.Xml.Puller.Tokens.{flush_if_pending, token_insert_no_data, free_token_data}
use gawkextlib.Xml.Puller.{
  Kinds, end_document, Token, Puller, Position, Libraries, current_row, current_col, internal_error,
  set_error,
}

-- What a call of XML_Parse does: the handlers that it calls, and the parser that it leaves, with
-- its place and the index of the current byte in the document.
pub record Parsed (P : Type 0) : Type 0 where
  pub events : List (Event × Position)
  pub after : P
  pub place : Position
  pub byte_index : ℕ
  pub is_ok : Bool

-- The result of `read`: the text of the error, or the bytes read.
pub data ReadResult : Type 0 where
  failed : Bytes → ReadResult
  bytes : Bytes → ReadResult

-- expat's XML_Parse, with the handlers that are set, and the system `W`.
pub record Sources (W P : Type 0) : Type 0 where
  pub xml_parse : P → Kinds → Bool → Bytes → Bool → Parsed P
  pub read : W → ℕ → ℕ → W × ReadResult

abbrev pub has_token : List Token → Bool
has_token [] = false
has_token (tok ∷ rest) = true

module _ {C P W : Type 0} (lib : Libraries C P) (make : Makers C P) (src : Sources W P) where
  open lib use {grants}
  open make use {parser_create, unset}
  open src use {xml_parse, read}

  -- XML_Parse with the handlers; the flag is whether it is not XML_STATUS_ERROR.
  unfoldable pub run_parser : Puller C P → P → Bytes → Bool → Puller C P × Parsed P
  run_parser p x block final =
      let r = xml_parse x p.handlers p.unknown_handler block final in
      (record (handle_all lib p r.events) { parser = some r.after; at = r.place }, r)

  -- `EOF, just finish parsing.`
  unfoldable pub finish_with : Puller C P → P → Puller C P
  finish_with p x =
      let run = run_parser (record p { filedesc = none }) x [] true in
      let flushed = (flush_if_pending lib (run.0)).0 in
      if not ((run.1).is_ok)
      then set_error lib ((run.1).after) flushed
      else if flushed.enabled end_document
      then token_insert_no_data lib flushed end_document
      else flushed

  unfoldable pub finish_parsing : Puller C P → Run (Puller C P)
  finish_parsing p = elim p.parser [ none ↦ fault null_pointer | some x ↦ ok (finish_with p x) ]

  -- `errloc` is no end of a document, or not in the bytes at hand.
  unfoldable pub is_failure : Puller C P → ℕ → Bool
  is_failure p errloc =
      let i = p.input in
      not (p.enabled end_document)
      || not (ltb 0 p.elements && p.opened == p.closed)
      || ltb errloc i.doc_offset
      || ltb (i.doc_offset + i.saved_bytes + i.new_bytes) errloc

  -- The next document gets a new parser; the flag is `false` where there is none.
  unfoldable pub restart : Puller C P → ℕ → Puller C P × Bool
  restart p errloc =
      let marked = token_insert_no_data lib p end_document in
      let placed = record marked {
        input = restart_input marked.input errloc;
        prev_last_row = current_row lib marked;
        prev_last_col = current_col lib marked;
      } in
      elim (parser_create placed.memory.calls) [
        | none ↦ (
          internal_error lib
              (record placed { parser = none; handlers = no_kinds; unknown_handler = false })
              (codes "XML Puller: cannot create new Expat parser"),
          false,
        )
        | some x ↦ (
          xml_puller_enable
              (record placed {
                parser = some x;
                at = record { line = 1; column = 0; byte_count = 0 };
                handlers = no_kinds;
                unknown_handler = false;
                elements = 0;
              })
              placed.enabled,
          true,
        )
      ]

  -- A call of XML_Parse with the new bytes, and what follows it: `again` is the next round. The
  -- number of the result is the parser's place.
  unfoldable pub parse_block :
      (Puller C P → Run (Puller C P × ℕ)) → Puller C P → P → Run (Puller C P × ℕ)
  parse_block again p x =
      let run =
        run_parser p x (take p.input.new_bytes (drop p.input.new_start p.input.buf)) false in
      let errloc = (run.1).byte_index in
      elim ((run.1).is_ok) [
        | true ↦ ok (run.0, errloc)
        | false ↦ elim (is_failure (run.0) errloc) [
          | true ↦ ok (set_error lib ((run.1).after) (flush_if_pending lib (run.0)).0, errloc)
          | false ↦
              let next = restart (run.0) errloc in
              elim (next.1) [ true ↦ again (next.0) | false ↦ ok (next.0, errloc) ]
        ]
      ]

  -- `while (XML_Parse(…) == XML_STATUS_ERROR)`, with fuel for the documents.
  unfoldable pub parse_new : ℕ → Puller C P → Run (Puller C P × ℕ)
  parse_new zero p = fault out_of_fuel
  parse_new (suc fuel) p = elim p.parser [
    | none ↦ fault null_pointer
    | some x ↦ parse_block (λ q. parse_new fuel q) p x
  ]

  -- `Make sure INPUT.buffer is large enough.`
  unfoldable pub grow_input : Puller C P → Puller C P
  grow_input p =
      let i = p.input in
      if ltb i.bufsize (i.new_start + i.read_size)
      then (let size = i.bufsize + 2 * (i.new_start + i.read_size - i.bufsize) + 128 in
          let m = record (p.memory) { calls = p.memory.calls + 1 } in
          if grants p.memory.calls size
          then record p {
            memory = m;
            input = record i { bufsize = size; buf = i.buf ++ unset (size - length i.buf) };
          }
          else internal_error lib (record p { memory = m; input = record i { bufsize = size } })
              (codes "XML Puller: out of memory"))
      else p

  -- The end of a round, where the parser's place is `last_ok`.
  unfoldable pub keep_input : Puller C P → ℕ → Puller C P
  keep_input p last_ok =
      if not (p.enabled end_document)
      then record p { input = forget_input p.input }
      else elim (discard_input (advance_input p.input) last_ok) [
        | none ↦
            internal_error lib (record p { input = advance_input p.input })
              (codes "XML Puller: corrupt parser state detected (document offset out of range)")
        | some i ↦ grow_input (record p { input = move_input i })
      ]

  -- A round of the loop that reads a block; `fuel` bounds the documents in it.
  unfoldable pub read_round : ℕ → W → Puller C P → ℕ → Run (W × Puller C P)
  read_round fuel w p fd =
      let i = p.input in
      let r = read w fd (min i.read_size (i.bufsize - i.new_start)) in
      elim (r.1) [
        | failed text ↦ ok (r.0, record (internal_error lib p (take 255 text)) { filedesc = none })
        | bytes block ↦ if length block == 0 then (do p' ← finish_parsing p; ok (r.0, p')) else (do
          i' ← store_block i block
          (parsed, last_ok) ← parse_new fuel (record p { input = i' })
          ok (r.0, if parsed.status_ok then keep_input parsed last_ok else parsed))
      ]

  -- The loop of XML_PullerNext, with fuel for its rounds. A failure of `read`, the end of the file
  -- and an error leave it by the conditions in front of the next round.
  unfoldable pub read_blocks : ℕ → ℕ → W → Puller C P → Run (W × Puller C P)
  read_blocks zero documents w p = fault out_of_fuel
  read_blocks (suc fuel) documents w p = elim (has_token p.queue || not p.status_ok) [
    | true ↦ ok (w, p)
    | false ↦ elim p.filedesc [
      | none ↦ ok (w, p)
      | some fd ↦ do (w', p') ← read_round documents w p fd; read_blocks fuel documents w' p'
    ]
  ]

  -- The first token of the queue.
  unfoldable pub deliver : Puller C P → Puller C P × Option Token
  deliver p = elim p.queue [
    | [] ↦ (p, none)
    | tok ∷ rest ↦ (record p { queue = rest; to_be_freed = some tok }, some tok)
  ]

  unfoldable pub free_delivered : Puller C P → Puller C P
  free_delivered p = elim p.to_be_freed [
    | none ↦ p
    | some tok ↦ record (free_token_data lib p tok) { to_be_freed = none }
  ]

  unfoldable pub xml_puller_next : ℕ → ℕ → W → Puller C P → Run (W × Puller C P × Option Token)
  xml_puller_next fuel documents w p = do
    (w', p') ← read_blocks fuel documents w (free_delivered p)
    let d = deliver p'
    ok (w', d.0, d.1)

  -- XML_PullerNext_m, whose caller has to free the token.
  unfoldable pub xml_puller_next_m : ℕ → ℕ → W → Puller C P → Run (W × Puller C P × Option Token)
  xml_puller_next_m fuel documents w p = do
    (w', p', tok) ← xml_puller_next fuel documents w p
    ok (w', record p' { to_be_freed = none }, tok)
