-- ===== src/Xml/Puller/Refine.antt =====
-- xml/xml_puller.c: the handlers put the tokens of a document's events to the queue.
use gawkextlib.Common.{
  ℕ, ◌≡◌, refl, sym, ap, ◌∙◌, Bool, true, false, not, ◌&&◌, ◌⊎◌, inl, inr, none, some, List, [],
  ◌∷◌, ◌++◌, map, append-nil, append_assoc, length, ◌==◌, if◌then◌else◌, Bool-cases, arith,
}
use gawkextlib.Xml.Puller.Calm.{
  pending, Calm, Puts, flush_if_pending_lem, token_insert_no_data-Puts, end_element_handler-Puts,
  comment_handler-Puts,
}
use gawkextlib.Xml.Puller.CalmHandlers.{
  proc_inst_handler-Puts, decl_handler-Puts, start_doct_handler-Puts, start_element_handler-Puts,
}
use gawkextlib.Xml.Puller.Handlers.{
  Event, start_element_event, end_element_event, chardata_event, start_cdata_event, end_cdata_event,
  end_doct_event, proc_inst_event, comment_event, decl_event, start_doct_event, unparsed_event,
  handle, handle_all,
}
use gawkextlib.Xml.Puller.Merge.{
  is_text, event_token, merges, attach, merge, collect, collect-merge,
}
use gawkextlib.Xml.Puller.Text.{adds, Adds, add_pending-Adds}
use gawkextlib.Xml.Puller.Tokens.{same_kind, new_token, flush_if_pending}
use gawkextlib.Xml.Puller.{
  chardata, start_cdata, end_cdata, end_doct, unparsed, Token, Position, Puller, Libraries,
  current_row, current_col,
}

-- Expat calls the handlers of text with some text.
abbrev pub has_text : Event → Bool
has_text (chardata_event s) = not (length s == 0)
has_text (unparsed_event s) = not (length s == 0)
has_text (start_element_event n a) = true
has_text (end_element_event n) = true
has_text start_cdata_event = true
has_text end_cdata_event = true
has_text end_doct_event = true
has_text (proc_inst_event t d) = true
has_text (comment_event s) = true
has_text (decl_event v e n) = true
has_text (start_doct_event n s i k) = true

abbrev pub all_have_text : List (Event × Position) → Bool
all_have_text [] = true
all_have_text ((e, at) ∷ rest) = has_text e && all_have_text rest

-- What a token does to the queue and what is pending.
abbrev puts : List Token → List Token → Token → List Token × List Token
puts queue waiting tok =
    if is_text tok.kind then adds queue waiting tok else ((queue ++ waiting) ++ tok ∷ [], [])

-- The tokens that are still to come.
abbrev flow : List Token → List Token → List Token
flow [] toks = merge toks
flow (t ∷ rest) toks = collect t toks

other_kind : (t tok : Token) → is_text tok.kind ≡ false → merges t tok ≡ false
other_kind t tok h = ground arith

attach-other :
    (tok : Token) (toks : List Token) → is_text tok.kind ≡ false → attach tok toks ≡ tok ∷ toks
attach-other tok [] h = refl
attach-other tok (u ∷ toks) h = rw h refl

puts-flow :
    (queue waiting : List Token) (tok : Token) (toks : List Token)
    → (waiting ≡ []) ⊎ ((t : Token) × (waiting ≡ t ∷ []))
    → (puts queue waiting tok).0 ++ flow (puts queue waiting tok).1 toks
      ≡ queue ++ flow waiting (tok ∷ toks)
puts-flow queue waiting tok toks (inl none_yet) =
    rw none_yet (elim (Bool-cases (is_text tok.kind)) [
      | inl text ↦ rw text (ap (λ l. queue ++ l) (collect-merge tok toks))
      | inr other ↦
          rw (other, attach-other tok (merge toks) other)
            (rw (append-nil queue) (append_assoc queue (tok ∷ []) (merge toks)))
    ])
puts-flow queue waiting tok toks (inr (t, one)) = rw one (elim (Bool-cases (is_text tok.kind)) [
  | inl text ↦ elim (Bool-cases (same_kind t.kind tok.kind)) [
    | inl same ↦ let merged : merges t tok ≡ true = ground arith in rw (merged, text, same) refl
    | inr apart ↦
        let kept : merges t tok ≡ false = ground arith in
        rw (kept, text, apart) (append_assoc queue (t ∷ []) (collect tok toks))
  ]
  | inr other ↦
      let kept : merges t tok ≡ false = other_kind t tok other in
      rw (other, kept, collect-merge tok toks, attach-other tok (merge toks) other)
        (append_assoc (queue ++ t ∷ []) (tok ∷ []) (merge toks)
          ∙ append_assoc queue (t ∷ []) (tok ∷ merge toks))
])

pending-cases :
    {C P : Type 0} (p : Puller C P) → (pending p ≡ []) ⊎ ((t : Token) × (pending p ≡ t ∷ []))
unfolding pending
pending-cases p = elim (Bool-cases (length p.cdata == 0)) [
  | inl e ↦ inl (rw (pending, e) refl)
  | inr e ↦ inr (
    record (new_token p.cdata_kind) {
      content = some p.cdata;
      row = p.row;
      col = p.col;
      len = p.len;
    },
    rw (pending, e) refl,
  )
]

module _ {C P : Type 0} (lib : Libraries C P)
    (granted : (n size : ℕ) → lib.grants n size ≡ true) where
  -- What a handler leaves.
  record Follows (p : Puller C P) (tok : Token) (q : Puller C P) : Type 0 where
    calm : Calm lib granted q
    same_row : q.prev_last_row ≡ p.prev_last_row
    same_col : q.prev_last_col ≡ p.prev_last_col
    put : (q.queue, pending q) ≡ puts p.queue (pending p) tok

  Puts-Follows :
      (p q : Puller C P) (tok : Token)
      → Calm lib granted p
      → is_text tok.kind ≡ false
      → Puts lib granted p tok q
      → Follows p tok q
  unfolding pending
  Puts-Follows p q tok calm other (m, f, o, c, n, e) =
      let fine = calm.fine in
      let plain = calm.plain in
      record {
        calm = record { fine = ground arith; plain = ground arith };
        same_row = ground arith;
        same_col = ground arith;
        put = ground arith;
      }

  Adds-Follows :
      (p q : Puller C P) (tok : Token)
      → is_text tok.kind ≡ true
      → Adds lib granted p tok q
      → Follows p tok q
  Adds-Follows p q tok text a = record {
    calm = a.calm;
    same_row = a.same_row;
    same_col = a.same_col;
    put = rw text a.added;
  }

  flow_nil : (p : Puller C P) → flow (pending p) [] ≡ pending p
  flow_nil p = elim (pending-cases p) [ inl e ↦ rw e refl | inr (t, e) ↦ rw e refl ]

  -- The token of an event that the parser is at.
  abbrev token_at : Puller C P → Event → Token
  token_at p e = event_token p.prev_last_row p.prev_last_col (e, p.at)

  handle-Follows :
      (p : Puller C P) (e : Event)
      → Calm lib granted p
      → has_text e ≡ true
      → Follows p (token_at p e) (handle lib p e)
  unfolding handle current_row current_col
  handle-Follows p (start_element_event n a) c h =
      Puts-Follows p _ _ c refl (start_element_handler-Puts lib granted p n a c)
  handle-Follows p (end_element_event n) c h =
      Puts-Follows p _ _ c refl (end_element_handler-Puts lib granted p n c)
  handle-Follows p (chardata_event s) c h =
      Adds-Follows p _ _ refl (add_pending-Adds lib granted p chardata s c (ground arith))
  handle-Follows p start_cdata_event c h =
      Puts-Follows p _ _ c refl (token_insert_no_data-Puts lib granted p start_cdata c)
  handle-Follows p end_cdata_event c h =
      Puts-Follows p _ _ c refl (token_insert_no_data-Puts lib granted p end_cdata c)
  handle-Follows p end_doct_event c h =
      Puts-Follows p _ _ c refl (token_insert_no_data-Puts lib granted p end_doct c)
  handle-Follows p (proc_inst_event t d) c h =
      Puts-Follows p _ _ c refl (proc_inst_handler-Puts lib granted p t d c)
  handle-Follows p (comment_event s) c h =
      Puts-Follows p _ _ c refl (comment_handler-Puts lib granted p s c)
  handle-Follows p (decl_event v e n) c h =
      Puts-Follows p _ _ c refl (decl_handler-Puts lib granted p v e n c)
  handle-Follows p (start_doct_event n s i k) c h =
      Puts-Follows p _ _ c refl (start_doct_handler-Puts lib granted p n s i k c)
  handle-Follows p (unparsed_event s) c h =
      Adds-Follows p _ _ refl (add_pending-Adds lib granted p unparsed s c (ground arith))

  handle_all-flow :
      (p : Puller C P) (events : List (Event × Position))
      → Calm lib granted p
      → all_have_text events ≡ true
      → (flush_if_pending lib (handle_all lib p events)).0.queue
        ≡ p.queue ++ flow (pending p) (map (event_token p.prev_last_row p.prev_last_col) events)
  unfolding handle_all pending
  handle_all-flow p [] c h =
      let (m, f, flushed) = flush_if_pending_lem lib granted p c in
      ap (λ (r : Puller C P × Bool). r.0.queue) flushed ∙ ap (λ l. p.queue ++ l) (sym (flow_nil p))
  handle_all-flow p ((e, at) ∷ events) c h =
      let moved : Puller C P = record p { at = at } in
      let step =
        handle-Follows moved e (record { fine = c.fine; plain = c.plain }) (ground arith) in
      let rest = handle_all-flow (handle lib moved e) events step.calm (ground arith) in
      let toks = map (event_token p.prev_last_row p.prev_last_col) events in
      let same : map
            (event_token (handle lib moved e).prev_last_row (handle lib moved e).prev_last_col)
            events
          ≡ toks =
        rw (step.same_row, step.same_col) refl in
      rest
      ∙ ap (λ l. (handle lib moved e).queue ++ flow (pending (handle lib moved e)) l) same
      ∙ ap (λ (r : List Token × List Token). r.0 ++ flow r.1 toks) step.put
      ∙ puts-flow p.queue (pending p) (token_at moved e) toks (pending-cases p)

  -- Where there is no error, memory is granted, no converter is set, nothing is pending, and each
  -- event of text has some text, the tokens that a run of handlers and a flush put to the queue are
  -- those of the events, each at its place in the document, where pieces of text of one kind that
  -- follow each other make one token.
  pub handle_all-merge :
      (p : Puller C P) (events : List (Event × Position))
      → p.status_ok ≡ true
      → p.converter ≡ none
      → p.cdata ≡ []
      → all_have_text events ≡ true
      → (flush_if_pending lib (handle_all lib p events)).0.queue
        ≡ p.queue ++ merge (map (event_token p.prev_last_row p.prev_last_col) events)
  unfolding pending
  handle_all-merge p events fine plain empty h =
      let nothing : pending p ≡ [] = rw (pending, empty) refl in
      handle_all-flow p events (record { fine = fine; plain = plain }) h
      ∙ ap (λ l. p.queue ++ flow l (map (event_token p.prev_last_row p.prev_last_col) events))
          nothing
