-- ===== src/Xml/Puller/Tokens.antt =====
-- xml/xml_puller.c: tokens, their list, and the character data that is pending.
use gawkextlib.Common.{
  ℕ, zero, suc, ◌+◌, Bool, true, false, not, Option, none, some, List, [], ◌∷◌, ◌++◌, Bytes, codes,
  length, ltb, ◌==◌, if◌then◌else◌,
}
use gawkextlib.Xml.Puller.{
  Kind, start_element, chardata, start_cdata, end_cdata, proc_inst, comment, decl, start_doct,
  end_doct, unparsed, end_document, end_element, Attribute, Token, Memory, Puller, Libraries,
  token_size, request, release_block, is_some, current_row, current_col, internal_error,
  puller_iconv,
}

-- The numbers of the kinds.
abbrev pub kind_number : Kind → ℕ
kind_number start_element = 1
kind_number end_element = 2
kind_number chardata = 4
kind_number start_cdata = 8
kind_number end_cdata = 16
kind_number proc_inst = 32
kind_number comment = 64
kind_number decl = 128
kind_number start_doct = 256
kind_number end_doct = 512
kind_number unparsed = 1024
kind_number end_document = 2048

abbrev pub same_kind : Kind → Kind → Bool
same_kind k l = kind_number k == kind_number l

abbrev pub new_token : Kind → Token
new_token kind = record {
  kind = kind;
  name = none;
  content = none;
  pubid = none;
  number = none;
  attr = [];
  row = 0;
  col = 0;
  len = 0;
}

-- `free` of each name and value.
unfoldable pub release_attributes : List Attribute → Memory → Memory
release_attributes [] m = m
release_attributes (a ∷ rest) m =
    release_attributes rest (release_block (is_some a.value) (release_block (is_some a.name) m))

abbrev pub is_empty : List Attribute → Bool
is_empty [] = true
is_empty (a ∷ rest) = false

-- For the other kinds `attr` is empty, and for a start of an element `content` and `pubid` are none.
unfoldable pub free_token_contents : Token → Memory → Memory
free_token_contents tok m =
    let named = release_block (is_some tok.name) m in
    let attributes = release_attributes tok.attr named in
    let block = release_block (not (is_empty tok.attr)) attributes in
    release_block (is_some tok.pubid) (release_block (is_some tok.content) block)

module _ {C P : Type 0} (lib : Libraries C P) where
  open lib use {grants}

  unfoldable pub token_get_internal : Puller C P → Kind → Puller C P × Option Token
  token_get_internal p kind = if not p.status_ok then (p, none) else elim p.free_list [
    | suc n ↦ (record p { free_list = n }, some (new_token kind))
    | zero ↦
        let r = request grants token_size p.memory in
        if r.1 then (record p { memory = r.0 }, some (new_token kind)) else (
          internal_error lib (record p { memory = r.0 }) (codes "XML Puller: out of memory"),
          none,
        )
  ]

  unfoldable pub token_release : Puller C P → Puller C P
  token_release p = record p { free_list = p.free_list + 1 }

  unfoldable pub token_enqueue : Puller C P → Token → Puller C P
  token_enqueue p tok = record p { queue = p.queue ++ tok ∷ [] }

  unfoldable pub free_token_data : Puller C P → Token → Puller C P
  free_token_data p tok = token_release (record p { memory = free_token_contents tok p.memory })

  -- The flag is `true` for 0 and `false` for -1.
  unfoldable pub flush_pending : Puller C P → Puller C P × Bool
  flush_pending p =
      let got = token_get_internal p p.cdata_kind in
      elim (got.1) [
        | none ↦ (record (got.0) { cdata = [] }, false)
        | some tok ↦
            let placed = record tok { row = p.row; col = p.col; len = p.len } in
            let r = puller_iconv lib (got.0) p.cdata in
            let cleared = record (r.0) { cdata = [] } in
            elim (r.1) [
              | none ↦
                  (token_release (record cleared { row = p.row; col = p.col; len = p.len }), false)
              | some s ↦ (token_enqueue cleared (record placed { content = some s }), true)
            ]
      ]

  -- `if (puller->cdata_len > 0) { if (flush_pending(puller) < 0) … }`
  unfoldable pub flush_if_pending : Puller C P → Puller C P × Bool
  flush_if_pending p = if length p.cdata == 0 then (p, true) else flush_pending p

  -- A token at the parser's place.
  abbrev pub placed_token : Puller C P → Kind → Token
  placed_token p kind = record (new_token kind) {
    row = current_row lib p;
    col = current_col lib p;
    len = p.at.byte_count;
  }

  unfoldable pub token_get : Puller C P → Kind → Puller C P × Option Token
  token_get p kind =
      let flushed = flush_if_pending p in
      if not (flushed.1)
      then (flushed.0, none)
      else (let got = token_get_internal (flushed.0) kind in
          elim (got.1) [
            | none ↦ (got.0, none)
            | some tok ↦ (
              got.0,
              some (record tok {
                row = current_row lib (got.0);
                col = current_col lib (got.0);
                len = got.0.at.byte_count;
              }),
            )
          ])

  unfoldable pub token_insert_no_data : Puller C P → Kind → Puller C P
  token_insert_no_data p kind =
      let got = token_get p kind in
      elim (got.1) [ none ↦ got.0 | some tok ↦ token_enqueue (got.0) tok ]

  -- Where the pending data are, and how long the events are that they came in.
  unfoldable pub place_pending : Puller C P → Kind → Puller C P
  place_pending p kind =
      if length p.cdata == 0
      then record p {
        cdata_kind = kind;
        row = current_row lib p;
        col = current_col lib p;
        len = p.at.byte_count;
      }
      else record p { len = p.len + p.at.byte_count }

  -- The buffer for `n` more bytes: `realloc` of NULL is a new block.
  unfoldable pub grow_cdata : Puller C P → ℕ → Puller C P × Bool
  grow_cdata p n =
      let used = length p.cdata in
      if ltb p.cdata_bufsize (used + n)
      then (let m = p.memory in
          let granted = grants m.calls (p.cdata_bufsize + used + n) in
          let live = if p.cdata_buf then m.live else m.live + 1 in
          if granted
          then (
            record p {
              memory = record { live = live; calls = m.calls + 1 };
              cdata_buf = true;
              cdata_bufsize = p.cdata_bufsize + used + n;
            },
            true,
          )
          else (
            internal_error lib (record p { memory = record m { calls = m.calls + 1 }; cdata = [] })
                (codes "XML Puller: out of memory"),
            false,
          ))
      else (p, true)

  unfoldable pub append_pending : Puller C P → Kind → Bytes → Puller C P
  append_pending p kind s =
      let grown = grow_cdata (place_pending p kind) (length s) in
      if grown.1 then record (grown.0) { cdata = (grown.0).cdata ++ s } else grown.0

  unfoldable pub add_pending : Puller C P → Kind → Bytes → Puller C P
  add_pending p kind s =
      if not p.status_ok
      then p
      else (let flushed = if same_kind p.cdata_kind kind then (p, true) else flush_if_pending p in
          if flushed.1 then append_pending (flushed.0) kind s else flushed.0)
