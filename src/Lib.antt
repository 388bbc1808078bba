-- ===== src/Lib.antt =====
-- gawkextlib: extensions of the awk interpreter gawk, each a shared library in C, and the string
-- hash table that several of them share. This library models the code that carries the logic of
-- their own, and proves what it does.
--
-- Parts, and the files that model them:
-- - lib/strhash.c, lib/gawkextlib.h: StrHash. `Hash` is `my_hash` (the unrolled loop, with its
--   entry in the middle) and STREQNN, `Sizes` is `get_table_size`, `Chain` is the linked list of a
--   bucket, and `Table` has `strhash_create`, `strhash_grow`, `strhash_get`, `strhash_delete` and
--   `strhash_destroy`. A block of buckets carries the number of its allocation, so that a pointer
--   into a block that was freed is a fault of its own.
-- - csv/strbuf.c: Csv.StrBuf, the growing string buffer over an allocator that may fail.
-- - csv/csv_parser.c: Csv.Parser, `csv_parse` as a loop over the parser's states, generic in its
--   handlers and in the state they share. `Parser/Machine` is the same automaton as a list of
--   actions, and `Parser/Fields` the list of fields that these actions build: the abstract view.
--   `Parser/Simulation` carries one proof from it to any handlers.
-- - csv/csv_split.c, csv/csv_convert.c: Csv.Split and Csv.Convert, two sets of handlers and the
--   functions that run the parser with them. The static variables of a file are the fields of one
--   record. `Csv.Excerpt` is the part of a record that `error` shows, which the files repeat.
-- - csv/csv_input.c, csv/awk_fieldwidth_info.c: Csv.Input, the third set of handlers, which reads a
--   file, and Csv.FieldWidth, the places of the fields in a record.
-- - csv/csv.c: Csv.Functions, what awk programs and gawk call, and Csv.Variables.
-- - lib/varinit.c: VarInit, over gawk's symbol table as an interface.
-- - mbs/mbs.c: Mbs, the four functions on multibyte strings. awk's numbers and arrays, `mbrtowc` and
--   `wcwidth` are parameters.
-- - reclen/reclen.c: Reclen, records of a fixed length. The structures of the open files stand at
--   addresses, in a heap where one that was freed leaves nothing, since a search of the list and
--   `iobuf->opaque` reach the same structure.
-- - errno/errno.c: Errno, the two tables as lists of entries that the build makes.
-- - xml/xml_puller.c, xml/xml_puller.h: Xml.Puller, the puller that makes tokens of the events that
--   expat reports. `Tokens` has the queue, the free list and the pending text, `Handlers` what expat
--   calls, `Buffer` and `Next` XML_PullerNext, and `Control` the making and freeing. A call of
--   XML_Parse is a parameter that gives the list of the handlers' calls. `Merge` is the abstract view
--   of the tokens, which `Refine` compares. `Window` and `Content` are about the input buffer, `Ends`
--   and `Rounds` about the loop, and the files from `Balance` to `Delivery` about the memory, where
--   blocks are counted: those in use, and those that the puller points to. `Able` and `Made` are
--   about XML_PullerCreate.
-- - xml/xml_enc_handler.c, xml/encoding.h: Xml.Encodings, the conversion of encodings that expat does
--   not know. `Bits` reads the bit vectors bit by bit, `Decode` says which bytes are a character, and
--   `Names` which encoding a name stands for.
-- `Common` has the outcomes of C code (`Run`: a value, or a fault such as a read out of bounds), the
-- lists, and the Boolean tests; `Gawk` has gawk's own API, which stands in another repository, as an
-- interface whose operations are parameters and whose laws are those gawk documents.
--
-- Fuel: `csv_parse` reads one character in a round and ends behind the last, so that a text needs a
-- fuel of more than `length text + 1`; `mbs_wcswidth` takes at least one byte in a round, so that
-- the number of bytes is enough; `xml_puller_next` has a fuel for the blocks that it reads, for which
-- two more than the bytes of the file are enough, and one for the documents in a block, for which
-- two more than the bytes at hand are. The theorems state these bounds. Every other loop is structural.
-- Integers: the hash is reduced modulo `2 ^ 64` at each step as on an LP64 machine; a character is
-- signed there when it enters the hash. Lengths of buffers are taken not to overflow an `int`.
-- Memory: `emalloc` and `ezalloc` end the process when they fail, so that the hash table's
-- allocations succeed; `malloc` and `realloc` of the string buffer are parameters, and may fail.
--
-- Not modelled: the bindings, which pass awk values to a library and back (gd, haru, json, lmdb,
-- mpfr, pgsql, redis), system calls (abort, nl_langinfo, select), the builds and scripts,
-- and for now aregex and the gawk side of xml, see PROJECT.json.
pub mod Common
pub mod Gawk
pub mod Csv
pub mod Errno
pub mod Mbs
pub mod Reclen
pub mod StrHash
pub mod VarInit
pub mod Xml
