-- ===== src/Xml/Puller/Buffer.antt =====
-- xml/xml_puller.c: the input buffer of XML_PullerNext.
use gawkextlib.Common.{
  ℕ, ◌+◌, ◌-◌, ◌||◌, Option, none, some, ◌++◌, Bytes, Run, ok, fault, out_of_bounds, length, take,
  drop, ltb, leb, if◌then◌else◌,
}
use gawkextlib.Xml.Puller.{Input}

-- The input behind the end of a document.
unfoldable pub restart_input : Input → ℕ → Input
restart_input i errloc =
    let start = i.saved_start + (errloc - i.doc_offset) in
    record i {
      new_start = start;
      new_bytes = i.new_bytes + i.saved_bytes - (errloc - i.doc_offset);
      saved_start = start;
      saved_bytes = 0;
      doc_offset = 0;
    }

-- The new bytes go behind those that are saved.
unfoldable pub store_block : Input → Bytes → Run Input
store_block i block =
    if leb (i.new_start + length block) (length i.buf)
    then ok (record i {
      buf = take i.new_start i.buf ++ block ++ drop (i.new_start + length block) i.buf;
      new_bytes = length block;
    })
    else fault out_of_bounds

-- `No need to save any data`
unfoldable pub forget_input : Input → Input
forget_input i = record i {
  doc_offset = i.doc_offset + i.saved_bytes + i.new_bytes;
  saved_start = 0;
  saved_bytes = 0;
  new_start = 0;
  new_bytes = 0;
}

-- `Update input buffer to reflect that the new data has been parsed.`
unfoldable pub advance_input : Input → Input
advance_input i = record i {
  saved_bytes = i.saved_bytes + i.new_bytes;
  new_start = i.new_start + i.new_bytes;
  new_bytes = 0;
}

-- `Delete parsed data from start of buffer.` The parser's place is `last_ok`; `none` is a place
-- that is not in the saved bytes.
unfoldable pub discard_input : Input → ℕ → Option Input
discard_input i last_ok =
    if ltb last_ok i.doc_offset || ltb (i.doc_offset + i.saved_bytes) last_ok
    then none
    else some (record i {
      saved_start = i.saved_start + (last_ok - i.doc_offset);
      saved_bytes = i.saved_bytes - (last_ok - i.doc_offset);
      doc_offset = last_ok;
    })

-- `Move saved data to start of buffer.`
unfoldable pub move_input : Input → Input
move_input i =
    if ltb 0 i.saved_start
    then record i {
      buf = take i.saved_bytes (drop i.saved_start i.buf) ++ drop i.saved_bytes i.buf;
      saved_start = 0;
      new_start = i.saved_bytes;
    }
    else i
