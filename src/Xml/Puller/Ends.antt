-- ===== src/Xml/Puller/Ends.antt =====
-- xml/xml_puller.c: XML_PullerNext ends, whatever expat and the file do within their laws.
use mathlib.Core.Path.{subst}
use gawkextlib.Common.{
  ℕ, zero, suc, ◌+◌, ◌-◌, ◌*◌, ◌≤◌, ◌<◌, ◌≡◌, refl, sym, ap, ◌∙◌, Bool, true, false, ◌⊎◌, inl, inr,
  Option, none, some, [], ◌++◌, Bytes, Run, ok, fault, null_pointer, length, length-append, ltb,
  Bool-cases, arith,
}
use gawkextlib.Xml.Puller.Buffer.{forget_input, advance_input, move_input}
use gawkextlib.Xml.Puller.Control.{Makers}
use gawkextlib.Xml.Puller.Frame.{
  Fixed, all_starts, set_error-fixed, token_insert_no_data-fixed, flush_if_pending-fixed,
}
use gawkextlib.Xml.Puller.Next.{
  Parsed, bytes, Sources, run_parser, finish_with, finish_parsing, parse_new, keep_input,
  grow_input,
}
use gawkextlib.Xml.Puller.Progress.{
  Parsing, Parses, Restarted, block_of, run_parser-fixed, internal_error-status,
}
use gawkextlib.Xml.Puller.Step.{call_of, run_parser-call, parse_step, parse_new-some}
use gawkextlib.Xml.Puller.Tokens.{flush_if_pending, token_insert_no_data}
use gawkextlib.Xml.Puller.Window.{
  Ready, discarded, discard_input-cases, AtStart, kept-AtStart, move_input-read_size,
}
use gawkextlib.Xml.Puller.{Kinds, end_document, Puller, Libraries, set_error}

module _ {C P W : Type 0} (lib : Libraries C P) (make : Makers C P) (src : Sources W P) where
  open make use {parser_create, unset}
  open src use {xml_parse, read}

  -- What is taken of expat: where a new parser reports an error behind the start of an element, its
  -- place is behind the start of the document. What is taken of `read`: it gives no more bytes than
  -- it was asked for, and what it gives is no longer left.
  pub record IsLawful (left : W → ℕ) : Type 0 where
    pub moves_on :
        (n : ℕ) (x : P) (handlers : Kinds) (unknown : Bool) (block : Bytes)
        → parser_create n ≡ some x
        → (xml_parse x handlers unknown block false).is_ok ≡ false
        → 0 < all_starts lib (xml_parse x handlers unknown block false).events
        → 0 < (xml_parse x handlers unknown block false).byte_index
    pub reads :
        (w : W) (fd n : ℕ) (block : Bytes)
        → (read w fd n).1 ≡ bytes block
        → (length block ≤ n) × (left (read w fd n).0 + length block ≡ left w)
    pub length-unset : (n : ℕ) → length (unset n) ≡ n

  abbrev pub Ended : ℕ → Puller C P → Type 0
  Ended fuel p =
      (q : Puller C P) × (k : ℕ) × (parse_new lib make src fuel p ≡ ok (q, k))
      × Parses lib make src (p.input.saved_bytes + p.input.new_bytes) q

  module _ (left : W → ℕ) (lawful : IsLawful left) where
    parse_fresh :
        (fuel : ℕ) (p : Puller C P)
        → Restarted lib make src p
        → p.input.new_bytes < fuel
        → Ended fuel p
    parse_fresh zero p r lt = absurd (omega arith)
    parse_fresh (suc fuel) p r lt =
        let (no_elements, no_saved, at_zero) = r.new_document in
        elim (parse_step lib make src p r.parser r.loaded) [
          | inl (q, k, run, parses) ↦
              (q, k, parse_new-some lib make src fuel p r.parser r.has_parser ∙ run _, parses)
          | inr (q, run, restarted, wrong, started, low, high, fewer) ↦
              let (zero_elements, none_saved, zero_offset) = restarted.new_document in
              let call = run_parser-call lib make src p r.parser in
              let some_starts : 0 < all_starts lib (call_of lib make src p r.parser).events =
                omega arith in
              let moved : 0 < (call_of lib make src p r.parser).byte_index =
                subst (λ (c : Parsed P). 0 < c.byte_index) (sym call)
                  (lawful.moves_on r.request_number r.parser p.handlers p.unknown_handler
                    (block_of lib make src p.input) r.created
                    (subst (λ (c : Parsed P). c.is_ok ≡ false) call wrong)
                    (subst (λ (c : Parsed P). 0 < all_starts lib c.events) call some_starts)) in
              let (last, k, ended, parses) = parse_fresh fuel q restarted (omega arith) in
              (
                last,
                k,
                parse_new-some lib make src fuel p r.parser r.has_parser ∙ run _ ∙ ended,
                record { alive = parses.alive; few = omega (arith, parses.few) },
              )
        ]

    pub parse_new_total :
        (fuel : ℕ) (p : Puller C P)
        → Parsing lib make src p
        → p.input.saved_bytes + p.input.new_bytes + 1 < fuel
        → Ended fuel p
    parse_new_total zero p h lt = absurd (omega arith)
    parse_new_total (suc fuel) p h lt = elim (parse_step lib make src p h.parser h.loaded) [
      | inl (q, k, run, parses) ↦
          (q, k, parse_new-some lib make src fuel p h.parser h.has_parser ∙ run _, parses)
      | inr (q, run, restarted, wrong, started, low, high, fewer) ↦
          let (zero_elements, none_saved, zero_offset) = restarted.new_document in
          let (last, k, ended, parses) = parse_fresh fuel q restarted (omega arith) in
          (
            last,
            k,
            parse_new-some lib make src fuel p h.parser h.has_parser ∙ run _ ∙ ended,
            record { alive = parses.alive; few = omega (arith, parses.few) },
          )
    ]

    -- In front of a round: the buffer is ready, there is a parser, and no more than `most` bytes are
    -- left, saved or not read.
    pub record Open (most : ℕ) (w : W) (p : Puller C P) : Type 0 where
      pub ready : Ready p.input
      pub parser : P
      pub has_parser : p.parser ≡ some parser
      pub few : p.input.saved_bytes + left w ≤ most

    -- Between two calls: an error, no file, or a puller that can read on.
    abbrev pub Between : ℕ → W → Puller C P → Type 0
    Between most w p = (p.status_ok ≡ false) ⊎ (p.filedesc ≡ none) ⊎ Open most w p

    grow_input-Between :
        (most : ℕ) (w : W) (p : Puller C P) (x : P)
        → AtStart p.input p.input.bufsize p.input.saved_bytes
        → 0 < p.input.read_size
        → p.parser ≡ some x
        → p.input.saved_bytes + left w ≤ most
        → Between most w (grow_input lib make src p)
    unfolding grow_input
    grow_input-Between most w p x a pos has few =
        let i = p.input in
        let size = i.bufsize + 2 * (i.new_start + i.read_size - i.bufsize) + 128 in
        let whole = a.whole in
        let long : length (i.buf ++ unset (size - length i.buf)) ≡ size = omega (
          arith,
          length-append i.buf (unset (size - length i.buf)),
          lawful.length-unset (size - length i.buf),
        ) in
        elim (Bool-cases (ltb i.bufsize (i.new_start + i.read_size))) [
          | inr roomy ↦ rw roomy (
              inr (
                inr (record {
                  ready = record {
                    whole = whole;
                    joined = a.joined;
                    at_start = a.at_start;
                    room = ground arith;
                    some_size = pos;
                  };
                  parser = x;
                  has_parser = has;
                  few = few;
                })))
          | inl small ↦ elim (Bool-cases (lib.grants p.memory.calls size)) [
            | inl granted ↦
                rw (small, granted)
                  (inr (
                    inr (record {
                      ready = record {
                        whole = long;
                        joined = a.joined;
                        at_start = a.at_start;
                        room = omega arith;
                        some_size = pos;
                      };
                      parser = x;
                      has_parser = has;
                      few = few;
                    })))
            | inr refused ↦ rw (small, refused) (inl (internal_error-status lib make src _ _))
          ]
        ]

    pub keep_input-Between :
        (most : ℕ) (w : W) (p : Puller C P) (last_ok : ℕ)
        → Parsing lib make src p
        → p.input.saved_bytes + p.input.new_bytes + left w ≤ most
        → Between most w (keep_input lib make src p last_ok)
    unfolding keep_input forget_input advance_input
    keep_input-Between most w p last_ok h few =
        let i = p.input in
        let l = h.loaded in
        let advanced = advance_input i in
        elim (Bool-cases (p.enabled end_document)) [
          | inr single ↦ rw single (
              inr (
                inr (record {
                  ready = record {
                    whole = l.whole;
                    joined = refl;
                    at_start = refl;
                    room = omega (arith, l.roomy);
                    some_size = l.some_size;
                  };
                  parser = h.parser;
                  has_parser = h.has_parser;
                  few = omega arith;
                })))
          | inl several ↦ elim (discard_input-cases advanced last_ok) [
            | inl outside ↦ rw (several, outside) (inl (internal_error-status lib make src _ _))
            | inr (kept, low, high) ↦
                let r = kept-AtStart i last_ok l low high in
                let moved = move_input (discarded advanced last_ok) in
                let same = move_input-read_size (discarded advanced last_ok) in
                rw (several, kept)
                  (grow_input-Between most w (record p { input = moved }) h.parser
                    (record {
                      whole = r.whole ∙ sym r.sized;
                      sized = refl;
                      at_start = r.at_start;
                      joined = r.joined;
                      fits = omega (arith, r.fits, r.sized);
                      few = omega arith;
                    })
                    (omega (arith, same, l.some_size)) h.has_parser (omega (arith, r.few)))
          ]
        ]

    pub finish_with-filedesc :
        (p : Puller C P) (x : P) → (finish_with lib make src p x).filedesc ≡ none
    unfolding finish_with
    finish_with-filedesc p x =
        let run = run_parser lib make src (record p { filedesc = none }) x [] true in
        let flushed = (flush_if_pending lib (run.0)).0 in
        let before : flushed.filedesc ≡ none =
          ap (λ (f : Fixed). f.filedesc)
            (flush_if_pending-fixed lib (run.0)
              ∙ run_parser-fixed lib make src (record p { filedesc = none }) x [] true) in
        let wrong : (set_error lib ((run.1).after) flushed).filedesc ≡ flushed.filedesc =
          ap (λ (f : Fixed). f.filedesc) (set_error-fixed lib ((run.1).after) flushed) in
        let ended : (token_insert_no_data lib flushed end_document).filedesc ≡ flushed.filedesc =
          ap (λ (f : Fixed). f.filedesc) (token_insert_no_data-fixed lib flushed end_document) in
        ground arith

    pub finish_parsing-some :
        (p : Puller C P) (x : P)
        → p.parser ≡ some x
        → finish_parsing lib make src p ≡ ok (finish_with lib make src p x)
    unfolding finish_parsing
    finish_parsing-some p x has =
        ap
          (λ (o : Option P). elim o as (λ y. Run (Puller C P)) [
            | none ↦ fault null_pointer
            | some y ↦ ok (finish_with lib make src p y)
          ])
          has
