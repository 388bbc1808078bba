-- ===== src/Xml/Puller/Progress.antt =====
-- xml/xml_puller.c: the loops of XML_PullerNext end, and stay inside the input buffer.
use gawkextlib.Common.{
  ℕ, ◌+◌, ◌-◌, ◌≤◌, ◌≡◌, ◌≢◌, refl, ap, Bool, true, false, ◌⊎◌, inl, inr, none, some, Bytes, codes,
  take, drop, Option-cases, arith,
}
use gawkextlib.Xml.Puller.Buffer.{restart_input}
use gawkextlib.Xml.Puller.Control.{Makers, no_kinds, xml_puller_enable}
use gawkextlib.Xml.Puller.Frame.{
  Fixed, fixed, all_starts, handle_all-fixed, token_insert_no_data-fixed, internal_error-fixed,
}
use gawkextlib.Xml.Puller.Next.{Sources, run_parser, restart}
use gawkextlib.Xml.Puller.Tokens.{token_insert_no_data}
use gawkextlib.Xml.Puller.Window.{Loaded, restart_input-Loaded}
use gawkextlib.Xml.Puller.{
  end_document, Input, Puller, Libraries, internal_error, set_error, current_row, current_col,
  locate, copy_string, grow_conv_buf, convert_with, convert,
}

module _ {C P W : Type 0} (lib : Libraries C P) (make : Makers C P) (src : Sources W P) where
  open make use {parser_create}
  open src use {xml_parse, read}

  pub true_not_false : true ≢ false
  true_not_false e = cc

  convert-status : (p : Puller C P) (s : Bytes) → (convert lib p s).0.status_ok ≡ p.status_ok
  unfolding convert convert_with copy_string grow_conv_buf
  convert-status p s = ground arith

  pub internal_error-status :
      (p : Puller C P) (m : Bytes) → (internal_error lib p m).status_ok ≡ false
  unfolding internal_error locate
  internal_error-status p m = ground (arith, convert-status (record p { status_ok = false }) m)

  locate-status : (p : Puller C P) → (locate lib p).status_ok ≡ p.status_ok
  unfolding locate
  locate-status p = ground arith

  pub set_error-status : (x : P) (p : Puller C P) → (set_error lib x p).status_ok ≡ false
  unfolding set_error
  set_error-status x p =
      let located = locate lib (record p { status_ok = false }) in
      ground (
        arith,
        convert-status located (take 255 (lib.error_text x)),
        locate-status (record p { status_ok = false }),
      )

  -- A puller whose parser is at work on the new bytes.
  pub record Parsing (p : Puller C P) : Type 0 where
    pub parser : P
    pub has_parser : p.parser ≡ some parser
    pub loaded : Loaded p.input

  -- What `parse_new` leaves: an error, or new bytes that were parsed, and no more than there were.
  pub record Parses (most : ℕ) (q : Puller C P) : Type 0 where
    pub alive : q.status_ok ≡ true → Parsing q
    pub few : q.input.saved_bytes + q.input.new_bytes ≤ most

  -- One round of the inner loop ends it, or restarts it behind the end of a document.
  pub record Restarted (q : Puller C P) : Type 0 where
    pub request_number : ℕ
    pub parser : P
    pub created : parser_create request_number ≡ some parser
    pub has_parser : q.parser ≡ some parser
    pub loaded : Loaded q.input
    pub new_document : (q.elements ≡ 0) × (q.input.saved_bytes ≡ 0) × (q.input.doc_offset ≡ 0)

  abbrev pub block_of : Input → Bytes
  block_of i = take i.new_bytes (drop i.new_start i.buf)

  pub run_parser-fixed :
      (p : Puller C P) (x : P) (block : Bytes) (final : Bool)
      → fixed (run_parser lib make src p x block final).0 ≡ record (fixed p) {
        elements =
            p.elements
            + all_starts lib (xml_parse x p.handlers p.unknown_handler block final).events;
      }
  unfolding run_parser
  run_parser-fixed p x block final =
      handle_all-fixed lib p (xml_parse x p.handlers p.unknown_handler block final).events

  -- After a restart at `errloc`: an error, or a new parser at a new document.
  abbrev RestartsAt : Puller C P → ℕ → Type 0
  RestartsAt p errloc =
      let left = p.input.new_bytes + p.input.saved_bytes - (errloc - p.input.doc_offset) in
      let q = restart lib make src p errloc in
      ((q.1 ≡ false)
        × (q.0.status_ok ≡ false)
        × (q.0.input.saved_bytes + q.0.input.new_bytes ≡ left))
      ⊎ ((q.1 ≡ true) × Restarted q.0 × (q.0.input.new_bytes ≡ left))

  pub restart_lem :
      (p : Puller C P) (errloc : ℕ)
      → Loaded p.input
      → p.input.doc_offset ≤ errloc
      → errloc ≤ p.input.doc_offset + p.input.saved_bytes + p.input.new_bytes
      → RestartsAt p errloc
  unfolding restart restart_input xml_puller_enable
  restart_lem p errloc l h k =
      let marked = token_insert_no_data lib p end_document in
      let same : marked.input ≡ p.input =
        ap (λ (f : Fixed). f.input) (token_insert_no_data-fixed lib p end_document) in
      let placed = record marked {
        input = restart_input marked.input errloc;
        prev_last_row = current_row lib marked;
        prev_last_col = current_col lib marked;
      } in
      let loaded : Loaded (restart_input marked.input errloc) =
        rw same (restart_input-Loaded p.input errloc l h k) in
      elim (Option-cases (parser_create marked.memory.calls)) [
        | inl e ↦
            let bad = record placed {
              parser = none;
              handlers = no_kinds;
              unknown_handler = false;
            } in
            let message = codes "XML Puller: cannot create new Expat parser" in
            let kept : (internal_error lib bad message).input ≡ restart_input marked.input errloc =
              ap (λ (f : Fixed). f.input) (internal_error-fixed lib bad message) in
            rw (restart, e)
              (inl (refl, internal_error-status bad message, rw (kept, same) (omega arith)))
        | inr (y, e) ↦
            rw (restart, e)
              (inr (
                refl,
                record {
                  request_number = marked.memory.calls;
                  parser = y;
                  created = e;
                  has_parser = refl;
                  loaded = loaded;
                  new_document = (refl, refl, refl);
                },
                rw same refl,
              ))
      ]
