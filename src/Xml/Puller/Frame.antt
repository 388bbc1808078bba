-- ===== src/Xml/Puller/Frame.antt =====
-- xml/xml_puller.c: what the handlers leave alone.
use native.Mathlib.Nat.{add-zero}
use gawkextlib.Common.{
  ℕ, ◌+◌, ◌*◌, ◌≡◌, refl, ◌∙◌, false, Option, none, some, List, [], ◌∷◌, Bytes, length, take, codes,
  Option-cases, inl, inr, arith,
}
use gawkextlib.Xml.Puller.{
  Kind, Kinds, start_element, end_element, chardata, start_cdata, end_cdata, proc_inst, comment,
  decl, start_doct, end_doct, unparsed, Token, Input, Puller, Position, Libraries, token_size,
  attribute_size, request, copy_string, grow_conv_buf, convert_with, convert, locate,
  internal_error, set_error, puller_iconv,
}
use gawkextlib.Xml.Puller.Tokens.{
  token_get_internal, token_release, token_enqueue, free_token_data, flush_pending,
  flush_if_pending, token_get, token_insert_no_data, place_pending, grow_cdata, append_pending,
  add_pending,
}
use gawkextlib.Xml.Puller.Handlers.{
  Event, start_element_event, end_element_event, chardata_event, start_cdata_event, end_cdata_event,
  end_doct_event, proc_inst_event, comment_event, decl_event, start_doct_event, unparsed_event,
  optional_iconv, convert_attributes, fill_attributes, start_element_handler, end_element_handler,
  proc_inst_handler, comment_handler, decl_handler, start_doct_handler, handle, handle_all,
}

-- The fields that only XML_PullerNext and the handlers of elements change.
pub record Fixed : Type 0 where
  pub input : Input
  pub filedesc : Option ℕ
  pub enabled : Kinds
  pub elements : ℕ
  pub to_be_freed : Option Token

module _ {C P : Type 0} where
  abbrev pub fixed : Puller C P → Fixed
  fixed p = record {
    input = p.input;
    filedesc = p.filedesc;
    enabled = p.enabled;
    elements = p.elements;
    to_be_freed = p.to_be_freed;
  }

  module _ (lib : Libraries C P) where
    convert-fixed : (p : Puller C P) (s : Bytes) → fixed (convert lib p s).0 ≡ fixed p
    unfolding convert convert_with copy_string grow_conv_buf
    convert-fixed p s = ground arith

    pub internal_error-fixed :
        (p : Puller C P) (m : Bytes) → fixed (internal_error lib p m) ≡ fixed p
    unfolding internal_error locate
    internal_error-fixed p m = ground (arith, convert-fixed (record p { status_ok = false }) m)

    pub set_error-fixed : (x : P) (p : Puller C P) → fixed (set_error lib x p) ≡ fixed p
    unfolding set_error locate
    set_error-fixed x p = ground (
      arith,
      convert-fixed (locate lib (record p { status_ok = false })) (take 255 (lib.error_text x)),
    )

    pub puller_iconv-fixed : (p : Puller C P) (s : Bytes) → fixed (puller_iconv lib p s).0 ≡ fixed p
    unfolding puller_iconv
    puller_iconv-fixed p s = ground (
      arith,
      convert-fixed p s,
      internal_error-fixed (convert lib p s).0 (codes "XML Puller: out of memory"),
      internal_error-fixed (convert lib p s).0 (codes "XML Puller: iconv failed"),
    )

    token_get_internal-fixed :
        (p : Puller C P) (k : Kind) → fixed (token_get_internal lib p k).0 ≡ fixed p
    unfolding token_get_internal
    token_get_internal-fixed p k = ground (
      arith,
      internal_error-fixed (record p { memory = (request lib.grants token_size p.memory).0 })
          (codes "XML Puller: out of memory"),
    )

    flush_pending-fixed : (p : Puller C P) → fixed (flush_pending lib p).0 ≡ fixed p
    unfolding flush_pending token_release token_enqueue
    flush_pending-fixed p = ground (
      arith,
      token_get_internal-fixed p p.cdata_kind,
      puller_iconv-fixed (token_get_internal lib p p.cdata_kind).0 p.cdata,
    )

    pub flush_if_pending-fixed : (p : Puller C P) → fixed (flush_if_pending lib p).0 ≡ fixed p
    unfolding flush_if_pending
    flush_if_pending-fixed p = ground (arith, flush_pending-fixed p)

    token_get-fixed : (p : Puller C P) (k : Kind) → fixed (token_get lib p k).0 ≡ fixed p
    unfolding token_get
    token_get-fixed p k =
        ground
          (arith, flush_if_pending-fixed p, token_get_internal-fixed (flush_if_pending lib p).0 k)

    pub token_insert_no_data-fixed :
        (p : Puller C P) (k : Kind) → fixed (token_insert_no_data lib p k) ≡ fixed p
    unfolding token_insert_no_data token_enqueue
    token_insert_no_data-fixed p k = ground (arith, token_get-fixed p k)

    append_pending-fixed :
        (p : Puller C P) (k : Kind) (s : Bytes) → fixed (append_pending lib p k s) ≡ fixed p
    unfolding append_pending grow_cdata place_pending
    append_pending-fixed p k s = ground (
      arith,
      internal_error-fixed
          (record (place_pending lib p k) {
            memory = record (p.memory) { calls = p.memory.calls + 1 };
            cdata = [];
          })
          (codes "XML Puller: out of memory"),
    )

    add_pending-fixed :
        (p : Puller C P) (k : Kind) (s : Bytes) → fixed (add_pending lib p k s) ≡ fixed p
    unfolding add_pending
    add_pending-fixed p k s = ground (
      arith,
      append_pending-fixed p k s,
      flush_if_pending-fixed p,
      append_pending-fixed (flush_if_pending lib p).0 k s,
    )

    optional_iconv-fixed :
        (p : Puller C P) (o : Option Bytes) → fixed (optional_iconv lib p o).0 ≡ fixed p
    unfolding optional_iconv
    optional_iconv-fixed p none = refl
    optional_iconv-fixed p (some s) = ground (arith, puller_iconv-fixed p s)

    convert_attributes-fixed :
        (p : Puller C P) (attrs : List (Bytes × Bytes))
        → fixed (convert_attributes lib p attrs).0 ≡ fixed p
    unfolding convert_attributes
    convert_attributes-fixed p [] = refl
    convert_attributes-fixed p ((n, v) ∷ rest) =
        let name = (puller_iconv lib p n).0 in
        let value = (puller_iconv lib name v).0 in
        convert_attributes-fixed value rest ∙ puller_iconv-fixed name v ∙ puller_iconv-fixed p n

    fill_attributes-fixed :
        (p : Puller C P) (tok : Token) (attrs : List (Bytes × Bytes))
        → fixed (fill_attributes lib p tok attrs) ≡ fixed p
    unfolding fill_attributes free_token_data token_release token_enqueue
    fill_attributes-fixed p tok [] = refl
    fill_attributes-fixed p tok (a ∷ rest) =
        let m = (request lib.grants (length (a ∷ rest) * attribute_size) p.memory).0 in
        ground (
          arith,
          internal_error-fixed (record p { memory = m }) (codes "XML Puller: out of memory"),
          convert_attributes-fixed (record p { memory = m }) (a ∷ rest),
        )

    -- How many elements an event starts.
    abbrev pub starts : Event → ℕ
    starts (start_element_event n a) = 1
    starts (end_element_event n) = 0
    starts (chardata_event s) = 0
    starts start_cdata_event = 0
    starts end_cdata_event = 0
    starts end_doct_event = 0
    starts (proc_inst_event t d) = 0
    starts (comment_event s) = 0
    starts (decl_event v e n) = 0
    starts (start_doct_event n s i k) = 0
    starts (unparsed_event s) = 0

    start_element_handler-fixed :
        (p : Puller C P) (n : Bytes) (a : List (Bytes × Bytes))
        → fixed (start_element_handler lib p n a) ≡ record (fixed p) { elements = p.elements + 1 }
    unfolding start_element_handler token_release
    start_element_handler-fixed p n a =
        let counted = record p { opened = p.opened + 1; elements = p.elements + 1 } in
        let got = token_get lib counted start_element in
        let named = puller_iconv lib (got.0) n in
        let before = puller_iconv-fixed (got.0) n ∙ token_get-fixed counted start_element in
        elim (Option-cases (got.1)) [
          | inl e ↦ rw (start_element_handler, e) (token_get-fixed counted start_element)
          | inr (tok, e) ↦ elim (Option-cases (named.1)) [
            | inl f ↦ rw (start_element_handler, e, f) before
            | inr (t, f) ↦
                rw (start_element_handler, e, f)
                  (fill_attributes-fixed (named.0) (record tok { name = some t }) a ∙ before)
          ]
        ]

    -- Handlers that put one converted string into their token.
    end_element_handler-fixed :
        (p : Puller C P) (n : Bytes) → fixed (end_element_handler lib p n) ≡ fixed p
    unfolding end_element_handler token_release token_enqueue
    end_element_handler-fixed p n =
        let counted = record p { closed = p.closed + 1 } in
        ground (
          arith,
          token_get-fixed counted end_element,
          puller_iconv-fixed (token_get lib counted end_element).0 n,
        )

    comment_handler-fixed : (p : Puller C P) (s : Bytes) → fixed (comment_handler lib p s) ≡ fixed p
    unfolding comment_handler token_release token_enqueue
    comment_handler-fixed p s =
        ground (arith, token_get-fixed p comment, puller_iconv-fixed (token_get lib p comment).0 s)

    proc_inst_handler-fixed :
        (p : Puller C P) (t d : Bytes) → fixed (proc_inst_handler lib p t d) ≡ fixed p
    unfolding proc_inst_handler token_release token_enqueue free_token_data
    proc_inst_handler-fixed p t d =
        let named = (puller_iconv lib (token_get lib p proc_inst).0 t).0 in
        ground (
          arith,
          token_get-fixed p proc_inst,
          puller_iconv-fixed (token_get lib p proc_inst).0 t,
          puller_iconv-fixed named d,
        )

    decl_handler-fixed :
        (p : Puller C P) (v e : Option Bytes) (n : Option ℕ)
        → fixed (decl_handler lib p v e n) ≡ fixed p
    unfolding decl_handler token_release token_enqueue free_token_data
    decl_handler-fixed p v e n =
        let named = (optional_iconv lib (token_get lib p decl).0 v).0 in
        ground (
          arith,
          token_get-fixed p decl,
          optional_iconv-fixed (token_get lib p decl).0 v,
          optional_iconv-fixed named e,
        )

    start_doct_handler-fixed :
        (p : Puller C P) (n : Bytes) (s i : Option Bytes) (k : ℕ)
        → fixed (start_doct_handler lib p n s i k) ≡ fixed p
    unfolding start_doct_handler token_release token_enqueue free_token_data
    start_doct_handler-fixed p n s i k =
        let got = (token_get lib p start_doct).0 in
        let named = (puller_iconv lib got n).0 in
        let placed = (optional_iconv lib named s).0 in
        ground (
          arith,
          token_get-fixed p start_doct,
          puller_iconv-fixed got n,
          optional_iconv-fixed named s,
          optional_iconv-fixed placed i,
        )

    no_start : {x y : Fixed} → x ≡ y → x ≡ record y { elements = y.elements + 0 }
    no_start h = rw add-zero h

    pub handle-fixed :
        (p : Puller C P) (e : Event)
        → fixed (handle lib p e) ≡ record (fixed p) { elements = p.elements + starts e }
    unfolding handle
    handle-fixed p (start_element_event n a) = start_element_handler-fixed p n a
    handle-fixed p (end_element_event n) = no_start (end_element_handler-fixed p n)
    handle-fixed p (chardata_event s) = no_start (add_pending-fixed p chardata s)
    handle-fixed p start_cdata_event = no_start (token_insert_no_data-fixed p start_cdata)
    handle-fixed p end_cdata_event = no_start (token_insert_no_data-fixed p end_cdata)
    handle-fixed p end_doct_event = no_start (token_insert_no_data-fixed p end_doct)
    handle-fixed p (proc_inst_event t d) = no_start (proc_inst_handler-fixed p t d)
    handle-fixed p (comment_event s) = no_start (comment_handler-fixed p s)
    handle-fixed p (decl_event v e n) = no_start (decl_handler-fixed p v e n)
    handle-fixed p (start_doct_event n s i k) = no_start (start_doct_handler-fixed p n s i k)
    handle-fixed p (unparsed_event s) = no_start (add_pending-fixed p unparsed s)

    abbrev pub all_starts : List (Event × Position) → ℕ
    all_starts [] = 0
    all_starts ((e, at) ∷ events) = starts e + all_starts events

    pub handle_all-fixed :
        (p : Puller C P) (events : List (Event × Position))
        → fixed (handle_all lib p events)
          ≡ record (fixed p) { elements = p.elements + all_starts events }
    unfolding handle_all
    handle_all-fixed p [] = ground arith
    handle_all-fixed p ((e, at) ∷ events) =
        let moved = record p { at = at } in
        ground (arith, handle_all-fixed (handle lib moved e) events, handle-fixed moved e)
