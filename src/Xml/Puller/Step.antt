-- ===== src/Xml/Puller/Step.antt =====
-- xml/xml_puller.c: one round of the loop over the documents in a block.
use mathlib.Core.Path.{subst}
use gawkextlib.Common.{
  ℕ, suc, ◌+◌, ◌-◌, ◌≤◌, ◌<◌, ◌≡◌, refl, sym, ap, ◌∙◌, false, ◌⊎◌, inl, inr, Option, none, some,
  Run, ok, fault, null_pointer, Bool-cases, arith,
}
use gawkextlib.Xml.Puller.Control.{Makers}
use gawkextlib.Xml.Puller.Frame.{Fixed, fixed, all_starts, set_error-fixed, flush_if_pending-fixed}
use gawkextlib.Xml.Puller.Next.{
  Parsed, Sources, run_parser, is_failure, restart, parse_block, parse_new,
}
use gawkextlib.Xml.Puller.Tokens.{flush_if_pending}
use gawkextlib.Xml.Puller.Window.{Loaded}
use gawkextlib.Xml.Puller.{Input, Puller, Libraries, set_error}
use gawkextlib.Xml.Puller.Progress.{
  Parses, Restarted, block_of, restart_lem, run_parser-fixed, set_error-status, true_not_false,
}

module _ {C P W : Type 0} (lib : Libraries C P) (make : Makers C P) (src : Sources W P) where
  open make use {parser_create}
  open src use {xml_parse, read}

  -- The call of XML_Parse with the new bytes.
  abbrev pub call_of : Puller C P → P → Parsed P
  call_of p x = (run_parser lib make src p x (block_of lib make src p.input) false).1

  pub run_parser-call :
      (p : Puller C P) (x : P)
      → call_of p x ≡ xml_parse x p.handlers p.unknown_handler (block_of lib make src p.input) false
  unfolding run_parser
  run_parser-call p x = refl

  run_parser-parser :
      (p : Puller C P) (x : P)
      → (run_parser lib make src p x (block_of lib make src p.input) false).0.parser
        ≡ some (call_of p x).after
  unfolding run_parser
  run_parser-parser p x = refl

  call-fixed :
      (p : Puller C P) (x : P)
      → fixed (run_parser lib make src p x (block_of lib make src p.input) false).0
        ≡ record (fixed p) { elements = p.elements + all_starts lib (call_of p x).events }
  unfolding run_parser
  call-fixed p x = run_parser-fixed lib make src p x (block_of lib make src p.input) false

  abbrev pub Stops : Puller C P → P → ℕ → Type 0
  Stops p x most =
      (q : Puller C P) × (k : ℕ) × ((again : Puller C P → Run (Puller C P × ℕ))
        → parse_block lib make src again p x ≡ ok (q, k))
      × Parses lib make src most q

  abbrev pub Continues : Puller C P → P → Type 0
  Continues p x =
      let r = call_of p x in
      let i = p.input in
      (q : Puller C P) × ((again : Puller C P → Run (Puller C P × ℕ))
        → parse_block lib make src again p x ≡ again q)
      × Restarted lib make src q
      × (r.is_ok ≡ false)
      × (0 < p.elements + all_starts lib r.events)
      × (i.doc_offset ≤ r.byte_index)
      × (r.byte_index ≤ i.doc_offset + i.saved_bytes + i.new_bytes)
      × (q.input.new_bytes ≡ i.new_bytes + i.saved_bytes - (r.byte_index - i.doc_offset))

  -- What `is_failure` lets through.
  is_failure-false :
      (p : Puller C P) (errloc : ℕ)
      → is_failure lib make src p errloc ≡ false
      → (0 < p.elements)
        × (p.input.doc_offset ≤ errloc)
        × (errloc ≤ p.input.doc_offset + p.input.saved_bytes + p.input.new_bytes)
  unfolding is_failure
  is_failure-false p errloc e = (ground arith, ground arith, ground arith)

  pub parse_step :
      (p : Puller C P) (x : P)
      → Loaded p.input
      → Stops p x (p.input.saved_bytes + p.input.new_bytes) ⊎ Continues p x
  unfolding parse_block
  parse_step p x l =
      let run = run_parser lib make src p x (block_of lib make src p.input) false in
      let r = call_of p x in
      let frame = call-fixed p x in
      let same : run.0.input ≡ p.input = ap (λ (f : Fixed). f.input) frame in
      let counted : run.0.elements ≡ p.elements + all_starts lib r.events =
        ap (λ (f : Fixed). f.elements) frame in
      elim (Bool-cases r.is_ok) [
        | inl fine ↦ inl (
          run.0,
          r.byte_index,
          λ again. rw (parse_block, fine) refl,
          record {
            alive = λ e. record {
              parser = r.after;
              has_parser = run_parser-parser p x;
              loaded = rw same l;
            };
            few = rw same (omega arith);
          },
        )
        | inr wrong ↦ elim (Bool-cases (is_failure lib make src run.0 r.byte_index)) [
          | inl bad ↦
              let flushed = (flush_if_pending lib run.0).0 in
              let kept : (set_error lib r.after flushed).input ≡ p.input =
                ap (λ (f : Fixed). f.input)
                  (set_error-fixed lib r.after flushed ∙ flush_if_pending-fixed lib run.0)
                ∙ same in
              inl (
                set_error lib r.after flushed,
                r.byte_index,
                λ again. rw (parse_block, wrong, bad) refl,
                record {
                  alive = λ e. absurd (
                      true_not_false lib make src
                        (sym e ∙ set_error-status lib make src r.after flushed));
                  few = rw kept (omega arith);
                },
              )
          | inr more ↦
              let (some_elements, low, high) = is_failure-false run.0 r.byte_index more in
              elim (restart_lem lib make src run.0 r.byte_index (rw same l) low high) [
                | inl (over, st, left) ↦ inl (
                  (restart lib make src run.0 r.byte_index).0,
                  r.byte_index,
                  λ again. rw (parse_block, wrong, more, over) refl,
                  record {
                    alive = λ e. absurd (true_not_false lib make src (sym e ∙ st));
                    few = rw left (rw same (omega arith));
                  },
                )
                | inr (goes_on, restarted, left) ↦ inr (
                  (restart lib make src run.0 r.byte_index).0,
                  λ again. rw (parse_block, wrong, more, goes_on) refl,
                  restarted,
                  wrong,
                  rw (← counted) some_elements,
                  subst (λ (i : Input). i.doc_offset ≤ r.byte_index) same low,
                  subst (λ (i : Input). r.byte_index ≤ i.doc_offset + i.saved_bytes + i.new_bytes)
                      same high,
                  left ∙ rw same refl,
                )
              ]
        ]
      ]

  pub parse_new-none :
      (fuel : ℕ) (p : Puller C P)
      → p.parser ≡ none
      → parse_new lib make src (suc fuel) p ≡ fault null_pointer
  unfolding parse_new
  parse_new-none fuel p has =
      ap
        (λ (o : Option P). elim o as (λ y. Run (Puller C P × ℕ)) [
          | none ↦ fault null_pointer
          | some y ↦ parse_block lib make src (λ q. parse_new lib make src fuel q) p y
        ])
        has

  pub parse_new-some :
      (fuel : ℕ) (p : Puller C P) (x : P)
      → p.parser ≡ some x
      → parse_new lib make src (suc fuel) p
        ≡ parse_block lib make src (λ q. parse_new lib make src fuel q) p x
  unfolding parse_new
  parse_new-some fuel p x has =
      ap
        (λ (o : Option P). elim o as (λ y. Run (Puller C P × ℕ)) [
          | none ↦ fault null_pointer
          | some y ↦ parse_block lib make src (λ q. parse_new lib make src fuel q) p y
        ])
        has
