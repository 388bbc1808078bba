-- ===== src/Xml/Puller/Loop.antt =====
-- xml/xml_puller.c: XML_PullerNext loses no block of memory.
use gawkextlib.Common.{
  ℕ, zero, suc, ◌+◌, ◌-◌, ◌*◌, ◌≡◌, refl, ap, ◌∙◌, Bool, true, false, ◌&&◌, ◌⊎◌, inl, inr, none,
  List, [], ◌∷◌, Bytes, Run, Gives, take, drop, ltb, if◌then◌else◌, Bool-cases, Option-cases,
}
use gawkextlib.Xml.Puller.Balance.{owned, Balanced}
use gawkextlib.Xml.Puller.Reports.{internal_error-Balanced, set_error-Balanced}
use gawkextlib.Xml.Puller.Control.{Makers, xml_puller_enable}
use gawkextlib.Xml.Puller.AllEvents.{handle_all-Balanced}
use gawkextlib.Xml.Puller.Buffer.{advance_input, discard_input}
use gawkextlib.Xml.Puller.Frame.{
  Fixed, handle_all-fixed, flush_if_pending-fixed, set_error-fixed, internal_error-fixed,
  token_insert_no_data-fixed,
}
use gawkextlib.Xml.Puller.Handled.{token_insert_no_data-Balanced}
use gawkextlib.Xml.Puller.Handlers.{Event, handle_all}
use gawkextlib.Xml.Puller.Leaks.{flush_if_pending-Balanced}
use gawkextlib.Xml.Puller.Next.{
  Sources, run_parser, is_failure, restart, finish_with, parse_block, parse_new, keep_input,
  grow_input,
}
use gawkextlib.Xml.Puller.Step.{parse_new-none, parse_new-some}
use gawkextlib.Xml.Puller.Tokens.{flush_if_pending, token_insert_no_data}
use gawkextlib.Xml.Puller.{
  Kind, end_document, Token, Puller, Position, Libraries, is_some, internal_error, set_error,
}

pub queue-cases :
    (l : List Token) → (l ≡ []) ⊎ ((tok : Token) × (rest : List Token) × (l ≡ tok ∷ rest))
queue-cases [] = inl refl
queue-cases (tok ∷ rest) = inr (tok, rest, refl)

module _ {C P W : Type 0} (lib : Libraries C P) (make : Makers C P) (src : Sources W P) where
  open make use {parser_create}
  open src use {xml_parse, read}

  -- Nothing is to be freed in front of the next token.
  pub record Held (b : ℕ) (p : Puller C P) : Type 0 where
    pub kept : Balanced b p
    pub nothing : p.to_be_freed ≡ none

  fixed-Held :
      (b : ℕ) (p q : Puller C P)
      → Held b p
      → q.to_be_freed ≡ p.to_be_freed
      → Balanced b q
      → Held b q
  fixed-Held b p q h e g = record { kept = g; nothing = e ∙ h.nothing }

  handle_all-Held :
      (b : ℕ) (p : Puller C P) (events : List (Event × Position))
      → Held b p
      → Held b (handle_all lib p events)
  handle_all-Held b p events h =
      fixed-Held b p (handle_all lib p events) h
        (ap (λ (f : Fixed). f.to_be_freed) (handle_all-fixed lib p events))
        (handle_all-Balanced lib b p events h.kept)

  flush_if_pending-Held : (b : ℕ) (p : Puller C P) → Held b p → Held b (flush_if_pending lib p).0
  flush_if_pending-Held b p h =
      fixed-Held b p (flush_if_pending lib p).0 h
        (ap (λ (f : Fixed). f.to_be_freed) (flush_if_pending-fixed lib p))
        (flush_if_pending-Balanced lib b p h.kept)

  set_error-Held : (b : ℕ) (x : P) (p : Puller C P) → Held b p → Held b (set_error lib x p)
  set_error-Held b x p h =
      fixed-Held b p (set_error lib x p) h
        (ap (λ (f : Fixed). f.to_be_freed) (set_error-fixed lib x p))
        (set_error-Balanced lib b x p h.kept)

  pub internal_error-Held :
      (b : ℕ) (p : Puller C P) (m : Bytes) → Held b p → Held b (internal_error lib p m)
  internal_error-Held b p m h =
      fixed-Held b p (internal_error lib p m) h
        (ap (λ (f : Fixed). f.to_be_freed) (internal_error-fixed lib p m))
        (internal_error-Balanced lib b p m h.kept)

  token_insert_no_data-Held :
      (b : ℕ) (p : Puller C P) (k : Kind) → Held b p → Held b (token_insert_no_data lib p k)
  token_insert_no_data-Held b p k h =
      fixed-Held b p (token_insert_no_data lib p k) h
        (ap (λ (f : Fixed). f.to_be_freed) (token_insert_no_data-fixed lib p k))
        (token_insert_no_data-Balanced lib b p k h.kept)

  -- The fields that `Held` reads.
  pub held :
      {b : ℕ} {p : Puller C P}
      → p.memory.live ≡ b + owned p
      → (p.status_ok && is_some p.error) ≡ false
      → p.to_be_freed ≡ none
      → Held b p
  held e n t = record { kept = record { balance = e; no_message = n }; nothing = t }

  run_parser-Held :
      (b : ℕ) (p : Puller C P) (x : P) (block : Bytes) (final : Bool)
      → Held b p
      → Held b (run_parser lib make src p x block final).0
  unfolding run_parser owned
  run_parser-Held b p x block final h =
      let r = xml_parse x p.handlers p.unknown_handler block final in
      let g = handle_all-Held b p r.events h in held g.kept.balance g.kept.no_message g.nothing

  pub finish_with-Held :
      (b : ℕ) (p : Puller C P) (x : P) → Held b p → Held b (finish_with lib make src p x)
  unfolding finish_with owned
  finish_with-Held b p x h =
      let closed : Puller C P = record p { filedesc = none } in
      let run = run_parser lib make src closed x [] true in
      let flushed = (flush_if_pending lib (run.0)).0 in
      let f =
        flush_if_pending-Held b (run.0)
          (run_parser-Held b closed x [] true (held h.kept.balance h.kept.no_message h.nothing)) in
      elim (Bool-cases (run.1).is_ok) [
        | inr wrong ↦ rw (finish_with, wrong) (set_error-Held b (run.1).after flushed f)
        | inl fine ↦ elim (Bool-cases (flushed.enabled end_document)) [
          | inl e ↦ rw (finish_with, fine, e) (token_insert_no_data-Held b flushed end_document f)
          | inr e ↦ rw (finish_with, fine, e) f
        ]
      ]

  restart-Held :
      (b : ℕ) (p : Puller C P) (errloc : ℕ) → Held b p → Held b (restart lib make src p errloc).0
  unfolding restart owned xml_puller_enable
  restart-Held b p errloc h =
      let marked = token_insert_no_data lib p end_document in
      let g = token_insert_no_data-Held b p end_document h in
      elim (Option-cases (parser_create marked.memory.calls)) [
        | inl e ↦
            rw (restart, e)
              (internal_error-Held b _ _ (held g.kept.balance g.kept.no_message g.nothing))
        | inr (y, e) ↦ rw (restart, e) (held g.kept.balance g.kept.no_message g.nothing)
      ]

  parse_block-Held :
      (b : ℕ) (again : Puller C P → Run (Puller C P × ℕ)) (p : Puller C P) (x : P)
      → Held b p
      → ((q : Puller C P) → Held b q → Gives (λ r. Held b r.0) (again q))
      → Gives (λ r. Held b r.0) (parse_block lib make src again p x)
  unfolding parse_block
  parse_block-Held b again p x h more =
      let block = take p.input.new_bytes (drop p.input.new_start p.input.buf) in
      let run = run_parser lib make src p x block false in
      let g = run_parser-Held b p x block false h in
      let errloc = (run.1).byte_index in
      elim (Bool-cases (run.1).is_ok) [
        | inl fine ↦ rw (parse_block, fine) g
        | inr wrong ↦ elim (Bool-cases (is_failure lib make src (run.0) errloc)) [
          | inl bad ↦
              rw (parse_block, wrong, bad)
                (set_error-Held b (run.1).after (flush_if_pending lib (run.0)).0
                  (flush_if_pending-Held b (run.0) g))
          | inr document ↦
              let next = restart lib make src (run.0) errloc in
              let k = restart-Held b (run.0) errloc g in
              elim (Bool-cases (next.1)) [
                | inl e ↦ rw (parse_block, wrong, document, e) (more (next.0) k)
                | inr e ↦ rw (parse_block, wrong, document, e) k
              ]
        ]
      ]

  pub either :
      {b : ℕ} {p q : Puller C P} (c : Bool) → Held b p → Held b q → Held b (if c then p else q)
  either true h k = h
  either false h k = k

  pub parse_new-Held :
      (b fuel : ℕ) (p : Puller C P)
      → Held b p
      → Gives (λ r. Held b r.0) (parse_new lib make src fuel p)
  unfolding parse_new
  parse_new-Held b zero p h = tt
  parse_new-Held b (suc fuel) p h = elim (Option-cases p.parser) [
    | inl e ↦ rw (parse_new-none lib make src fuel p e) tt
    | inr (x, e) ↦ rw (parse_new-some lib make src fuel p x e) (
        parse_block-Held b (λ q. parse_new lib make src fuel q) p x h
          (λ q g. parse_new-Held b fuel q g))
  ]

  grow_input-Held : (b : ℕ) (p : Puller C P) → Held b p → Held b (grow_input lib make src p)
  unfolding grow_input owned
  grow_input-Held b p h =
      let i = p.input in
      let size = i.bufsize + 2 * (i.new_start + i.read_size - i.bufsize) + 128 in
      elim (Bool-cases (ltb i.bufsize (i.new_start + i.read_size))) [
        | inr roomy ↦ rw (grow_input, roomy) h
        | inl small ↦ elim (Bool-cases (lib.grants p.memory.calls size)) [
          | inl granted ↦
              rw (grow_input, small, granted) (held h.kept.balance h.kept.no_message h.nothing)
          | inr refused ↦
              rw (grow_input, small, refused)
                (internal_error-Held b _ _ (held h.kept.balance h.kept.no_message h.nothing))
        ]
      ]

  pub keep_input-Held :
      (b : ℕ) (p : Puller C P) (last_ok : ℕ) → Held b p → Held b (keep_input lib make src p last_ok)
  unfolding keep_input owned
  keep_input-Held b p last_ok h =
      let advanced = advance_input p.input in
      elim (Bool-cases (p.enabled end_document)) [
        | inr single ↦ rw (keep_input, single) (held h.kept.balance h.kept.no_message h.nothing)
        | inl several ↦ elim (Option-cases (discard_input advanced last_ok)) [
          | inl e ↦
              rw (keep_input, several, e)
                (internal_error-Held b _ _ (held h.kept.balance h.kept.no_message h.nothing))
          | inr (i, e) ↦
              rw (keep_input, several, e)
                (grow_input-Held b _ (held h.kept.balance h.kept.no_message h.nothing))
        ]
      ]
