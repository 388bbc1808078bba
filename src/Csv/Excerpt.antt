-- ===== src/Csv/Excerpt.antt =====
-- csv/csv_convert.c, csv/csv_split.c and csv/csv_input.c: the function `error` of the three files,
-- which shows the part of the record around the place of the error, and a caret below that place.
pub mod Caret
use native.Mathlib.Nat.{add_comm, add_assoc}
use gawkextlib.Common.{
  ℕ, ◌+◌, ◌-◌, ◌≤◌, ◌<◌, ◌≡◌, refl, ◌∙◌, Bool, true, false, Option, List, [], ◌∷◌, ◌++◌, Bytes,
  length, length-set, set, take, drop, replicate, get_elem?, get_elem?-append_left, get_elem?-drop,
  get_elem?-take, get_elem?-set_ne, length-drop, length-take_le, ltb, if◌then◌else◌, arith,
  Bool-cases, inl, inr,
}
use gawkextlib.Csv.Parser.{Message}

abbrev pub width : ℕ
width = 65

abbrev pub tail : ℕ
tail = 10

-- What `nonfatal` is given: the message, the text line, and the column of the caret.
pub record Diagnostic : Type 0 where
  pub msg : Message
  pub textline : Bytes
  pub cursor : ℕ

-- `strncpy(buffer, s, n)`, filled up with NULs.
strncpy : Bytes → ℕ → Bytes
strncpy s n = take n (s ++ replicate n 0)

-- `last`, for a record that is too long.
last_shown : ℕ → ℕ → ℕ
last_shown len pos =
    let last = if ltb (pos + tail) len then pos + tail else len in
    if ltb last width then width else last

-- The two loops that put three dots at the end and at the beginning of the buffer.
dots_at_end : Bytes → Bytes
dots_at_end buffer = set (set (set buffer (width - 1) b'.') (width - 2) b'.') (width - 3) b'.'

dots_at_beginning : Bytes → Bytes
dots_at_beginning buffer = set (set (set buffer 0 b'.') 1 b'.') 2 b'.'

unfoldable pub error_excerpt : Message → Bytes → ℕ → Diagnostic
unfolding strncpy last_shown dots_at_end dots_at_beginning
error_excerpt msg csv_record pos =
    let len = length csv_record in
    if ltb width len
    then (let last = last_shown len pos in
        let offset = last - width in
        let buffer = strncpy (drop offset csv_record) width in
        let buffer' = if ltb last len then dots_at_end buffer else buffer in
        let buffer″ = if ltb 0 offset then dots_at_beginning buffer' else buffer' in
        record { msg = msg; textline = buffer″; cursor = pos - offset })
    else record { msg = msg; textline = csv_record; cursor = pos }
