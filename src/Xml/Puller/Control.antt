-- ===== src/Xml/Puller/Control.antt =====
-- xml/xml_puller.c: making and freeing a puller, and the kinds of token that it delivers.
use gawkextlib.Common.{
  ℕ, zero, suc, Bool, true, false, not, ◌&&◌, ◌||◌, Option, none, some, List, [], ◌∷◌, Bytes, Run,
  ok, fault, null_pointer, ltb, if◌then◌else◌,
}
use gawkextlib.Xml.Puller.{
  Kinds, start_element, end_element, chardata, start_cdata, end_cdata, proc_inst, comment, decl,
  start_doct, end_doct, unparsed, end_document, Token, Memory, Puller, Libraries, request,
  release_block, is_some, puller_iconv,
}
use gawkextlib.Xml.Puller.Tokens.{free_token_contents}

-- What a new parser, and `iconv_open`, may be; `none` is failure. The number is that of the memory
-- requests so far. `is_utf8` is the test by `strcasecmp`, and `unset` is what stands in a new block.
pub record Makers (C P : Type 0) : Type 0 where
  pub parser_create : ℕ → Option P
  pub iconv_open : Bytes → Option C
  pub is_utf8 : Bytes → Bool
  pub unset : ℕ → Bytes

abbrev pub no_kinds : Kinds
no_kinds k = false

-- `sizeof(*puller)`
abbrev pub puller_size : ℕ
puller_size = 304

-- The handlers that are set; there is none for the end of a document.
unfoldable pub xml_puller_enable : {C P : Type 0} → Puller C P → Kinds → Puller C P
xml_puller_enable p mask = record p {
  handlers = λ k. p.handlers k || mask k;
  enabled = λ k. p.enabled k || mask k;
}

-- The calls that take a handler away: those for the document type set the default handler.
unfoldable pub uninstall : Kinds → Kinds → Kinds
uninstall handlers mask start_element = handlers start_element && not (mask start_element)
uninstall handlers mask end_element = handlers end_element && not (mask end_element)
uninstall handlers mask chardata = handlers chardata && not (mask chardata)
uninstall handlers mask start_cdata = handlers start_cdata && not (mask start_cdata)
uninstall handlers mask end_cdata = handlers end_cdata && not (mask end_cdata)
uninstall handlers mask proc_inst = handlers proc_inst && not (mask proc_inst)
uninstall handlers mask comment = handlers comment && not (mask comment)
uninstall handlers mask decl = handlers decl && not (mask decl)
uninstall handlers mask start_doct = handlers start_doct
uninstall handlers mask end_doct = handlers end_doct
uninstall handlers mask unparsed =
    handlers unparsed && not (mask start_doct || mask end_doct || mask unparsed)
uninstall handlers mask end_document = handlers end_document

unfoldable pub xml_puller_disable : {C P : Type 0} → Puller C P → Kinds → Puller C P
xml_puller_disable p mask =
    let p' =
      if mask chardata
      then record p {
        memory = release_block p.cdata_buf p.memory;
        cdata = [];
        cdata_buf = false;
        cdata_bufsize = 0;
      }
      else p in
    record p' { handlers = uninstall p.handlers mask; enabled = λ k. p.enabled k && not (mask k) }

-- `free_token_list`, for a list whose tokens have their contents.
unfoldable pub free_token_list : List Token → Memory → Memory
free_token_list [] m = m
free_token_list (tok ∷ rest) m =
    free_token_list rest (release_block true (free_token_contents tok m))

-- `free_token_list` for `n` tokens without contents.
unfoldable pub free_blocks : ℕ → Memory → Memory
free_blocks zero m = m
free_blocks (suc n) m = free_blocks n (release_block true m)

abbrev pub to_list : Option Token → List Token
to_list none = []
to_list (some tok) = tok ∷ []

-- XML_PullerFree; expat and iconv keep their own memory.
unfoldable pub xml_puller_free : {C P : Type 0} → Puller C P → Memory
xml_puller_free p =
    let m₁ = release_block true p.memory in
    let m₂ = free_token_list (to_list p.to_be_freed) m₁ in
    let m₃ = free_token_list p.queue m₂ in
    let m₄ = free_blocks p.free_list m₃ in
    let m₅ = release_block p.conv_buf (release_block p.cdata_buf m₄) in
    release_block true (release_block (is_some p.error) m₅)

module _ {C P : Type 0} (lib : Libraries C P) (make : Makers C P) where
  open lib use {grants}
  open make use {parser_create, iconv_open, is_utf8, unset}

  -- The fields when the structure has been cleared and set. `cdata_kind` says nothing while no data
  -- are pending.
  unfoldable pub fresh_puller : ℕ → ℕ → Memory → Puller C P
  fresh_puller filedesc buffer_length m = record {
    filedesc = some filedesc;
    input = record {
      read_size = buffer_length;
      buf = unset buffer_length;
      bufsize = buffer_length;
      doc_offset = 0;
      saved_start = 0;
      saved_bytes = 0;
      new_start = 0;
      new_bytes = 0;
    };
    converter = none;
    conv_buf = false;
    conv_buflen = 0;
    parser = none;
    at = record { line = 1; column = 0; byte_count = 0 };
    handlers = no_kinds;
    unknown_handler = false;
    queue = [];
    to_be_freed = none;
    free_list = 0;
    cdata = [];
    cdata_buf = false;
    cdata_bufsize = 0;
    cdata_kind = chardata;
    prev_last_row = 1;
    prev_last_col = 1;
    status_ok = true;
    row = 0;
    col = 0;
    len = 0;
    error = none;
    enabled = no_kinds;
    opened = 0;
    closed = 0;
    elements = 0;
    memory = m;
  }

  -- `free(puller->input.buf); free(puller);`
  unfoldable pub give_up : Puller C P → Memory × Option (Puller C P)
  give_up p = (release_block true (release_block true p.memory), none)

  -- The conversion of two spaces, whose result is freed; the flag says whether it worked.
  unfoldable pub try_converter : Puller C P → Puller C P × Bool
  try_converter p =
      let r = puller_iconv lib p (b' ' ∷ b' ' ∷ []) in
      elim (r.1) [
        | none ↦ (r.0, false)
        | some tmp ↦ (record (r.0) { memory = release_block true (r.0).memory }, true)
      ]

  -- The end of XML_PullerCreate: `iconv_close` is called also where there is no converter.
  unfoldable pub attach_parser : Puller C P → Run (Memory × Option (Puller C P))
  attach_parser p = elim (parser_create p.memory.calls) [
    | some x ↦ ok (p.memory, some (record p { parser = some x; unknown_handler = true }))
    | none ↦ elim p.converter [ none ↦ fault null_pointer | some c ↦ ok (give_up p) ]
  ]

  -- The converter from UTF-8 to the encoding, and the parser.
  unfoldable pub choose_encoding : Puller C P → Option Bytes → Run (Memory × Option (Puller C P))
  choose_encoding p none = attach_parser p
  choose_encoding p (some name) = if is_utf8 name then attach_parser p else elim (iconv_open name) [
    | none ↦ ok (give_up p)
    | some c ↦
        let tried = try_converter (record p { converter = some c }) in
        if tried.1 then attach_parser (tried.0) else ok (give_up (tried.0))
  ]

  -- The file descriptor is `none` where it is negative. With no puller, the memory is what is left.
  unfoldable pub xml_puller_create :
      Option ℕ → Option Bytes → ℕ → Memory → Run (Memory × Option (Puller C P))
  xml_puller_create filedesc encoding buffer_length m = elim filedesc [
    | none ↦ ok (m, none)
    | some fd ↦
        if ltb buffer_length 1
        then ok (m, none)
        else (let a = request grants puller_size m in
            if not (a.1)
            then ok (a.0, none)
            else (let b = request grants buffer_length (a.0) in
                if not (b.1)
                then ok (release_block true (b.0), none)
                else choose_encoding (fresh_puller fd buffer_length (b.0)) encoding))
  ]
