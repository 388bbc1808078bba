-- ===== src/Xml/Puller/Handlers.antt =====
-- xml/xml_puller.c: the handlers that expat calls, as one function on the events of a parse.
use gawkextlib.Common.{
  ℕ, ◌+◌, ◌*◌, Bool, true, false, not, ◌&&◌, Option, none, some, List, [], ◌∷◌, Bytes, codes,
  length, if◌then◌else◌,
}
use gawkextlib.Xml.Puller.{
  start_element, chardata, start_cdata, end_cdata, proc_inst, comment, decl, start_doct, end_doct,
  unparsed, end_element, Attribute, Token, Puller, Position, Libraries, attribute_size, request,
  is_some, internal_error, puller_iconv,
}
use gawkextlib.Xml.Puller.Tokens.{
  token_get, token_release, token_enqueue, free_token_data, token_insert_no_data, add_pending,
}

-- A call of a handler, with what expat passes to it.
pub data Event : Type 0 where
  start_element_event : Bytes → List (Bytes × Bytes) → Event
  end_element_event : Bytes → Event
  chardata_event : Bytes → Event
  start_cdata_event end_cdata_event end_doct_event : Event
  proc_inst_event : Bytes → Bytes → Event
  comment_event : Bytes → Event
  decl_event : Option Bytes → Option Bytes → Option ℕ → Event
  start_doct_event : Bytes → Option Bytes → Option Bytes → ℕ → Event
  unparsed_event : Bytes → Event

module _ {C P : Type 0} (lib : Libraries C P) where
  open lib use {grants}

  -- A string that may be NULL: the flag is `false` where it was there and could not be converted.
  unfoldable pub optional_iconv : Puller C P → Option Bytes → Puller C P × Option Bytes × Bool
  optional_iconv p none = (p, none, true)
  optional_iconv p (some s) =
      let r = puller_iconv lib p s in
      elim (r.1) [ none ↦ (r.0, none, false) | some t ↦ (r.0, some t, true) ]

  -- The loop over the attributes; the flag is `!failed`.
  unfoldable pub convert_attributes :
      Puller C P → List (Bytes × Bytes) → Puller C P × List Attribute × Bool
  convert_attributes p [] = (p, [], true)
  convert_attributes p ((n, v) ∷ rest) =
      let name = puller_iconv lib p n in
      let value = puller_iconv lib (name.0) v in
      let more = convert_attributes (value.0) rest in
      (
        more.0,
        record { name = name.1; value = value.1 } ∷ more.1,
        is_some (name.1) && is_some (value.1) && more.2,
      )

  -- The part of `start_element_handler` behind the name.
  unfoldable pub fill_attributes : Puller C P → Token → List (Bytes × Bytes) → Puller C P
  fill_attributes p tok [] = token_enqueue lib p tok
  fill_attributes p tok (a ∷ rest) =
      let r = request grants (length (a ∷ rest) * attribute_size) p.memory in
      if not (r.1)
      then free_token_data lib
          (internal_error lib (record p { memory = r.0 }) (codes "XML Puller: out of memory")) tok
      else (let converted = convert_attributes (record p { memory = r.0 }) (a ∷ rest) in
          let filled = record tok { attr = converted.1 } in
          if converted.2
          then token_enqueue lib (converted.0) filled
          else free_token_data lib (converted.0) filled)

  unfoldable pub start_element_handler : Puller C P → Bytes → List (Bytes × Bytes) → Puller C P
  start_element_handler p name attr =
      let counted = record p { opened = p.opened + 1; elements = p.elements + 1 } in
      let got = token_get lib counted start_element in
      elim (got.1) [
        | none ↦ got.0
        | some tok ↦
            let r = puller_iconv lib (got.0) name in
            elim (r.1) [
              | none ↦ token_release lib (r.0)
              | some s ↦ fill_attributes (r.0) (record tok { name = some s }) attr
            ]
      ]

  unfoldable pub end_element_handler : Puller C P → Bytes → Puller C P
  end_element_handler p name =
      let got = token_get lib (record p { closed = p.closed + 1 }) end_element in
      elim (got.1) [
        | none ↦ got.0
        | some tok ↦
            let r = puller_iconv lib (got.0) name in
            elim (r.1) [
              | none ↦ token_release lib (r.0)
              | some s ↦ token_enqueue lib (r.0) (record tok { name = some s })
            ]
      ]

  unfoldable pub proc_inst_handler : Puller C P → Bytes → Bytes → Puller C P
  proc_inst_handler p target content =
      let got = token_get lib p proc_inst in
      elim (got.1) [
        | none ↦ got.0
        | some tok ↦
            let r = puller_iconv lib (got.0) target in
            elim (r.1) [
              | none ↦ token_release lib (r.0)
              | some s ↦
                  let named = record tok { name = some s } in
                  let t = puller_iconv lib (r.0) content in
                  elim (t.1) [
                    | none ↦ free_token_data lib (t.0) named
                    | some d ↦ token_enqueue lib (t.0) (record named { content = some d })
                  ]
            ]
      ]

  unfoldable pub comment_handler : Puller C P → Bytes → Puller C P
  comment_handler p content =
      let got = token_get lib p comment in
      elim (got.1) [
        | none ↦ got.0
        | some tok ↦
            let r = puller_iconv lib (got.0) content in
            elim (r.1) [
              | none ↦ token_release lib (r.0)
              | some s ↦ token_enqueue lib (r.0) (record tok { content = some s })
            ]
      ]

  unfoldable pub decl_handler : Puller C P → Option Bytes → Option Bytes → Option ℕ → Puller C P
  decl_handler p version encoding standalone =
      let got = token_get lib p decl in
      elim (got.1) [
        | none ↦ got.0
        | some tok ↦
            let v = optional_iconv (got.0) version in
            let named = record tok { name = v.1 } in
            if not (v.2)
            then token_release lib (v.0)
            else (let e = optional_iconv (v.0) encoding in
                if not (e.2)
                then free_token_data lib (e.0) named
                else token_enqueue lib (e.0) (record named { content = e.1; number = standalone }))
      ]

  unfoldable pub start_doct_handler :
      Puller C P → Bytes → Option Bytes → Option Bytes → ℕ → Puller C P
  start_doct_handler p doctype_name sysid pubid has_internal_subset =
      let got = token_get lib p start_doct in
      elim (got.1) [
        | none ↦ got.0
        | some tok ↦
            let r = puller_iconv lib (got.0) doctype_name in
            elim (r.1) [
              | none ↦ token_release lib (r.0)
              | some s ↦
                  let named = record tok { name = some s } in
                  let sys = optional_iconv (r.0) sysid in
                  if not (sys.2)
                  then free_token_data lib (sys.0) named
                  else (let placed = record named { content = sys.1 } in
                      let pub_id = optional_iconv (sys.0) pubid in
                      if not (pub_id.2)
                      then free_token_data lib (pub_id.0) placed
                      else token_enqueue lib (pub_id.0)
                          (record placed { pubid = pub_id.1; number = some has_internal_subset }))
            ]
      ]

  abbrev pub chardata_handler : Puller C P → Bytes → Puller C P
  chardata_handler p s = add_pending lib p chardata s

  abbrev pub start_cdata_handler : Puller C P → Puller C P
  start_cdata_handler p = token_insert_no_data lib p start_cdata

  abbrev pub end_cdata_handler : Puller C P → Puller C P
  end_cdata_handler p = token_insert_no_data lib p end_cdata

  abbrev pub end_doct_handler : Puller C P → Puller C P
  end_doct_handler p = token_insert_no_data lib p end_doct

  abbrev pub unparsed_handler : Puller C P → Bytes → Puller C P
  unparsed_handler p s = add_pending lib p unparsed s

  -- The handler that the event is for.
  unfoldable pub handle : Puller C P → Event → Puller C P
  handle p (start_element_event name attr) = start_element_handler p name attr
  handle p (end_element_event name) = end_element_handler p name
  handle p (chardata_event s) = chardata_handler p s
  handle p start_cdata_event = start_cdata_handler p
  handle p end_cdata_event = end_cdata_handler p
  handle p end_doct_event = end_doct_handler p
  handle p (proc_inst_event target content) = proc_inst_handler p target content
  handle p (comment_event content) = comment_handler p content
  handle p (decl_event v e n) = decl_handler p v e n
  handle p (start_doct_event n sysid pubid subset) = start_doct_handler p n sysid pubid subset
  handle p (unparsed_event s) = unparsed_handler p s

  unfoldable pub handle_all : Puller C P → List (Event × Position) → Puller C P
  handle_all p [] = p
  handle_all p ((e, at) ∷ events) = handle_all (handle (record p { at = at }) e) events
