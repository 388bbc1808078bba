-- ===== src/Xml/Puller/AllEvents.antt =====
-- xml/xml_puller.c: no event makes the puller lose a block of memory.
use gawkextlib.Common.{
  ℕ, ◌+◌, ◌*◌, ◌≡◌, refl, ap, not, inl, inr, some, List, [], ◌∷◌, Bytes, codes, length, Bool-cases,
  arith,
}
use gawkextlib.Xml.Puller.Balance.{
  bit, attribute_blocks, content_blocks, owned, Balanced, found, request-live,
}
use gawkextlib.Xml.Puller.Reports.{internal_error-Balanced, puller_iconv-Balanced}
use gawkextlib.Xml.Puller.Handled.{token_insert_no_data-Balanced, add_pending-Balanced}
use gawkextlib.Xml.Puller.Leaks.{
  token_release-Balanced, token_enqueue-Balanced, free_token_data-Balanced, puller_iconv-outcome,
  token_get-outcome,
}
use gawkextlib.Xml.Puller.Handlers.{
  Event, start_element_event, end_element_event, chardata_event, start_cdata_event, end_cdata_event,
  end_doct_event, proc_inst_event, comment_event, decl_event, start_doct_event, unparsed_event,
  convert_attributes, fill_attributes, start_element_handler, handle, handle_all,
}
use gawkextlib.Xml.Puller.Tokens.{placed_token, is_empty, token_get}
use gawkextlib.Xml.Puller.{
  start_element, chardata, start_cdata, end_cdata, end_doct, unparsed, Token, Puller, Position,
  Libraries, attribute_size, request, is_some, internal_error, puller_iconv,
}
use gawkextlib.Xml.Puller.Events.{
  comment_handler-Balanced, decl_handler-Balanced, end_element_handler-Balanced,
  proc_inst_handler-Balanced, recount, start_doct_handler-Balanced,
}

module _ {C P : Type 0} (lib : Libraries C P) where
  convert_attributes-Balanced :
      (b : ℕ) (p : Puller C P) (attrs : List (Bytes × Bytes))
      → Balanced b p
      → Balanced
          (b + attribute_blocks (convert_attributes lib p attrs).1)
          (convert_attributes lib p attrs).0
  unfolding convert_attributes
  convert_attributes-Balanced b p [] h = recount lib b (b + 0) p (omega arith) h
  convert_attributes-Balanced b p ((n, v) ∷ rest) h =
      let name = puller_iconv lib p n in
      let value = puller_iconv lib (name.0) v in
      let g = puller_iconv-Balanced lib b p n h in
      let k = puller_iconv-Balanced lib (b + bit (is_some name.1)) (name.0) v g in
      recount lib _ _ _ (omega arith) (
        convert_attributes-Balanced (b + bit (is_some name.1) + bit (is_some value.1)) (value.0)
          rest k)

  fill_attributes-Balanced :
      (b : ℕ) (p : Puller C P) (tok : Token) (attrs : List (Bytes × Bytes))
      → tok.attr ≡ []
      → Balanced (b + found (some tok)) p
      → Balanced b (fill_attributes lib p tok attrs)
  unfolding fill_attributes owned content_blocks convert_attributes
  fill_attributes-Balanced b p tok [] none_yet h = token_enqueue-Balanced lib b p tok h
  fill_attributes-Balanced b p tok ((n, v) ∷ rest) none_yet h =
      let attrs = (n, v) ∷ rest in
      let r = request lib.grants (length attrs * attribute_size) p.memory in
      let live = request-live lib.grants (length attrs * attribute_size) p.memory in
      let q : Puller C P = record p { memory = r.0 } in
      let message = codes "XML Puller: out of memory" in
      let more = convert_attributes lib q attrs in
      let filled = record tok { attr = more.1 } in
      let no_attributes : attribute_blocks tok.attr ≡ 0 = ap attribute_blocks none_yet in
      let no_block : bit (not (is_empty tok.attr)) ≡ 0 =
        ap (λ l. bit (not (is_empty l))) none_yet in
      elim (Bool-cases (r.1)) [
        | inr refused ↦
            rw (fill_attributes, refused)
              (free_token_data-Balanced lib b (internal_error lib q message) tok (
                internal_error-Balanced lib (b + found (some tok)) q message (record {
                  balance = omega (arith, h.balance, ap bit refused);
                  no_message = h.no_message;
                })))
        | inl granted ↦
            let c = convert_attributes-Balanced (b + found (some tok) + 1) q attrs (record {
              balance = omega (arith, h.balance, ap bit granted);
              no_message = h.no_message;
            }) in
            let whole : Balanced (b + found (some filled)) (more.0) =
              recount lib _ (b + found (some filled)) (more.0) (omega arith) c in
            elim (Bool-cases (more.2)) [
              | inl fine ↦
                  rw (fill_attributes, granted, fine)
                    (token_enqueue-Balanced lib b (more.0) filled whole)
              | inr failed ↦
                  rw (fill_attributes, granted, failed)
                    (free_token_data-Balanced lib b (more.0) filled whole)
            ]
      ]

  start_element_handler-Balanced :
      (b : ℕ) (p : Puller C P) (n : Bytes) (attrs : List (Bytes × Bytes))
      → Balanced b p
      → Balanced b (start_element_handler lib p n attrs)
  unfolding start_element_handler content_blocks owned
  start_element_handler-Balanced b p n attrs h =
      let counted : Puller C P = record p { opened = p.opened + 1; elements = p.elements + 1 } in
      let got = (token_get lib counted start_element).0 in
      elim (token_get-outcome lib b counted start_element
        (record { balance = h.balance; no_message = h.no_message })) [
          | inl (e, g) ↦ rw (start_element_handler, e) g
          | inr (e, g) ↦ elim (puller_iconv-outcome lib (b + 1) got n g) [
            | inl (f, k) ↦
                rw (start_element_handler, e, f)
                  (token_release-Balanced lib b (puller_iconv lib got n).0 k)
            | inr (t, f, k) ↦
                rw (start_element_handler, e, f)
                  (fill_attributes-Balanced b (puller_iconv lib got n).0
                    (record (placed_token lib got start_element) { name = some t }) attrs refl
                    (recount lib (b + 1 + 1) (b + 2) _ (omega arith) k))
          ]
        ]

  handle-Balanced :
      (b : ℕ) (p : Puller C P) (e : Event) → Balanced b p → Balanced b (handle lib p e)
  unfolding handle
  handle-Balanced b p (start_element_event n a) h = start_element_handler-Balanced b p n a h
  handle-Balanced b p (end_element_event n) h = end_element_handler-Balanced lib b p n h
  handle-Balanced b p (chardata_event s) h = add_pending-Balanced lib b p chardata s h
  handle-Balanced b p start_cdata_event h = token_insert_no_data-Balanced lib b p start_cdata h
  handle-Balanced b p end_cdata_event h = token_insert_no_data-Balanced lib b p end_cdata h
  handle-Balanced b p end_doct_event h = token_insert_no_data-Balanced lib b p end_doct h
  handle-Balanced b p (proc_inst_event t d) h = proc_inst_handler-Balanced lib b p t d h
  handle-Balanced b p (comment_event s) h = comment_handler-Balanced lib b p s h
  handle-Balanced b p (decl_event v e n) h = decl_handler-Balanced lib b p v e n h
  handle-Balanced b p (start_doct_event n s i k) h = start_doct_handler-Balanced lib b p n s i k h
  handle-Balanced b p (unparsed_event s) h = add_pending-Balanced lib b p unparsed s h

  -- Where all but `b` blocks of memory are the puller's, that is so after any run of handlers, whatever
  -- expat reports, and wherever memory or the converter fails.
  pub handle_all-Balanced :
      (b : ℕ) (p : Puller C P) (events : List (Event × Position))
      → Balanced b p
      → Balanced b (handle_all lib p events)
  unfolding handle_all owned
  handle_all-Balanced b p [] h = h
  handle_all-Balanced b p ((e, at) ∷ events) h =
      let moved : Puller C P = record p { at = at } in
      handle_all-Balanced b (handle lib moved e) events
        (handle-Balanced b moved e (record { balance = h.balance; no_message = h.no_message }))
