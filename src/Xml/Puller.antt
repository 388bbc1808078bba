-- ===== src/Xml/Puller.antt =====
-- xml/xml_puller.c and xml/xml_puller.h: the state of the puller, its memory, and `XML_PullerIconv`
-- with the error reports. Expat and iconv are other libraries, so that their states `P` and `C` and
-- what they do are parameters. A pointer to a string is the string, with `none` for NULL; memory
-- counts the blocks that are in use. Sizes are taken not to overflow.
pub mod Tokens
pub mod Handlers
pub mod Frame
pub mod Control
pub mod Buffer
pub mod Next
pub mod Window
pub mod Progress
pub mod Step
pub mod Ends
pub mod Rounds
pub mod Merge
pub mod Calm
pub mod CalmHandlers
pub mod Text
pub mod Refine
pub mod Balance
pub mod Reports
pub mod Leaks
pub mod Handled
pub mod Events
pub mod AllEvents
pub mod Lifetime
pub mod Loop
pub mod Delivery
pub mod Able
pub mod Made
pub mod Content
use gawkextlib.Common.{
  ℕ, ◌+◌, ◌-◌, ◌*◌, Bool, true, false, not, ◌&&◌, Option, none, some, List, [], ◌∷◌, Bytes, codes,
  length, take, ltb, leb, ◌==◌, if◌then◌else◌,
}

-- XML_PullerTokenKindType; a mask is the set of its kinds.
pub data Kind : Type 0 where
  start_element end_element chardata start_cdata end_cdata proc_inst : Kind
  comment decl start_doct end_doct unparsed end_document : Kind

abbrev pub Kinds : Type 0
Kinds = Kind → Bool

-- `struct XML_PullerAttributeInfo`
pub record Attribute : Type 0 where
  pub name : Option Bytes
  pub value : Option Bytes

-- `struct XML_PullerTokenDataType` without its link; `content` is the field `data`. A number is
-- `none` for -1. `attr` is empty where the pointer is NULL.
pub record Token : Type 0 where
  pub kind : Kind
  pub name : Option Bytes
  pub content : Option Bytes
  pub pubid : Option Bytes
  pub number : Option ℕ
  pub attr : List Attribute
  pub row : ℕ
  pub col : ℕ
  pub len : ℕ

-- The blocks in use, and the number of requests so far.
pub record Memory : Type 0 where
  pub live : ℕ
  pub calls : ℕ

-- `puller->input`: `buf` is the whole block.
pub record Input : Type 0 where
  pub read_size : ℕ
  pub buf : Bytes
  pub bufsize : ℕ
  pub doc_offset : ℕ
  pub saved_start : ℕ
  pub saved_bytes : ℕ
  pub new_start : ℕ
  pub new_bytes : ℕ

-- Where the parser is in its document: the line, from 1 on, the column, from 0 on, and the length
-- of the current event.
pub record Position : Type 0 where
  pub line : ℕ
  pub column : ℕ
  pub byte_count : ℕ

-- `struct XML_PullerDataType`. `queue` is the list from `tok_head` to `tok_tail`, and `free_list`
-- the number of tokens on the list of that name, whose fields are set anew when they are used.
-- `conv_buf` and `cdata_buf` say whether there is a block; `cdata` is what is pending in it. `depth`
-- is `opened - closed`. `at` is what the parser reports of its place. `handlers` are those that the parser has, and `unknown_handler` says whether
-- it has that of unknown encodings. `filedesc` is `none` for -1.
pub record Puller (C P : Type 0) : Type 0 where
  pub filedesc : Option ℕ
  pub input : Input
  pub converter : Option C
  pub conv_buf : Bool
  pub conv_buflen : ℕ
  pub parser : Option P
  pub at : Position
  pub handlers : Kinds
  pub unknown_handler : Bool
  pub queue : List Token
  pub to_be_freed : Option Token
  pub free_list : ℕ
  pub cdata : Bytes
  pub cdata_buf : Bool
  pub cdata_bufsize : ℕ
  pub cdata_kind : Kind
  pub prev_last_row : ℕ
  pub prev_last_col : ℕ
  pub status_ok : Bool
  pub row : ℕ
  pub col : ℕ
  pub len : ℕ
  pub error : Option Bytes
  pub enabled : Kinds
  pub opened : ℕ
  pub closed : ℕ
  pub elements : ℕ
  pub memory : Memory

-- MB_LEN_MAX
abbrev pub mb_len_max : ℕ
mb_len_max = 16

-- What the file calls: the memory handling suite, which grants the request with this number for
-- this size or does not; `iconv` with room for so many bytes, `none` where it fails or leaves
-- input; and the text of expat's error.
pub record Libraries (C P : Type 0) : Type 0 where
  pub grants : ℕ → ℕ → Bool
  pub iconv : C → Bytes → ℕ → C × Option Bytes
  pub error_text : P → Bytes

-- `malloc`
unfoldable pub request : (ℕ → ℕ → Bool) → ℕ → Memory → Memory × Bool
request grants size m =
    if grants m.calls size
    then (record { live = m.live + 1; calls = m.calls + 1 }, true)
    else (record m { calls = m.calls + 1 }, false)

-- `free` of a pointer that may be NULL.
unfoldable pub release_block : Bool → Memory → Memory
release_block allocated m = if allocated then record m { live = m.live - 1 } else m

abbrev pub is_some : Option Bytes → Bool
is_some none = false
is_some (some s) = true

-- What a conversion comes to: a new string, or one of two errors.
pub data Converted : Type 0 where
  done : Bytes → Converted
  out_of_memory iconv_failed : Converted

abbrev pub converted : Converted → Option Bytes
converted (done s) = some s
converted out_of_memory = none
converted iconv_failed = none

-- The sizes of the structures on an LP64 machine.
abbrev pub token_size : ℕ
token_size = 72

abbrev pub attribute_size : ℕ
attribute_size = 32

module _ {C P : Type 0} (lib : Libraries C P) where
  open lib use {grants, iconv, error_text}

  -- `set_row_col`
  unfoldable pub current_row : Puller C P → ℕ
  current_row p = p.prev_last_row + p.at.line - 1

  unfoldable pub current_col : Puller C P → ℕ
  current_col p = if p.at.line == 1 then p.prev_last_col + p.at.column else p.at.column + 1

  -- `malloc(length+1)` and the copy.
  unfoldable pub copy_string : Puller C P → Bytes → Puller C P × Converted
  copy_string p source =
      let r = request grants (length source + 1) p.memory in
      if r.1
      then (record p { memory = r.0 }, done source)
      else (record p { memory = r.0 }, out_of_memory)

  -- The new `conv_buf`: the old one is freed when there is a new one.
  unfoldable pub grow_conv_buf : Puller C P → ℕ → Puller C P × Bool
  grow_conv_buf p obl =
      if ltb p.conv_buflen obl
      then (let r = request grants (obl + p.conv_buflen) p.memory in
          if r.1
          then (
            record p {
              memory = release_block p.conv_buf r.0;
              conv_buf = true;
              conv_buflen = p.conv_buflen + obl;
            },
            true,
          )
          else (record p { memory = r.0 }, false))
      else (p, true)

  -- The conversion by a converter `c`.
  unfoldable pub convert_with : Puller C P → C → Bytes → Puller C P × Converted
  convert_with p c source =
      let obl = mb_len_max * length source in
      let grown = grow_conv_buf p obl in
      if not grown.1
      then (grown.0, out_of_memory)
      else (let p' = record (grown.0) { converter = some (iconv c source obl).0 } in
          elim ((iconv c source obl).1) [ none ↦ (p', iconv_failed) | some t ↦ copy_string p' t ])

  -- XML_PullerIconv without its calls of `internal_error`, which its callers here make.
  unfoldable pub convert : Puller C P → Bytes → Puller C P × Converted
  convert p source = elim p.converter [
    | none ↦ copy_string p source
    | some c ↦ convert_with p c source
  ]

  -- Where the error is: where the parser is, or at the end of the last document.
  unfoldable pub locate : Puller C P → Puller C P
  locate p = elim p.parser [
    | none ↦ record p { row = p.prev_last_row; col = p.prev_last_col; len = 0 }
    | some x ↦ record p { row = current_row p; col = current_col p; len = p.at.byte_count }
  ]

  -- The first error counts. The message is converted with the status set, so that an error in
  -- doing so is not reported.
  unfoldable pub internal_error : Puller C P → Bytes → Puller C P
  internal_error p message =
      if p.status_ok
      then (let r = convert (record p { status_ok = false }) message in
          locate (record (r.0) { error = converted (r.1) }))
      else p

  -- XML_PullerSetError, for a parser `x`.
  unfoldable pub set_error : P → Puller C P → Puller C P
  set_error x p =
      if p.status_ok
      then (let r = convert (locate (record p { status_ok = false })) (take 255 (error_text x)) in
          record (r.0) { error = converted (r.1) })
      else p

  unfoldable pub puller_iconv : Puller C P → Bytes → Puller C P × Option Bytes
  puller_iconv p source =
      let r = convert p source in
      elim (r.1) [
        | done t ↦ (r.0, some t)
        | out_of_memory ↦ (internal_error (r.0) (codes "XML Puller: out of memory"), none)
        | iconv_failed ↦ (internal_error (r.0) (codes "XML Puller: iconv failed"), none)
      ]
