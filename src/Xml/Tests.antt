-- ===== src/Xml/Tests.antt =====
-- xml/xml_puller.c: runs of the puller on small inputs.
use gawkextlib.Common.{
  ℕ, zero, suc, ◌+◌, ◌-◌, ◌≡◌, ◌≤◌, refl, Bool, true, false, not, inr, Option, some, List, [], ◌∷◌,
  ◌++◌, map, Bytes, codes, ok, length, length-replicate, replicate, take, drop, ◌==◌, if◌then◌else◌,
  arith,
}
use gawkextlib.Xml.Puller.Buffer.{restart_input}
use gawkextlib.Xml.Puller.Content.{saved_of, new_of, restart_input-new_of, keep_input-window}
use gawkextlib.Xml.Puller.Balance.{token_blocks, owned, Balanced}
use gawkextlib.Xml.Puller.Control.{Makers, xml_puller_free, xml_puller_create, fresh_puller}
use gawkextlib.Xml.Puller.Ends.{IsLawful, Between}
use gawkextlib.Xml.Puller.AllEvents.{handle_all-Balanced}
use gawkextlib.Xml.Puller.Handlers.{
  Event, start_element_event, end_element_event, chardata_event, handle_all,
}
use gawkextlib.Xml.Puller.Delivery.{xml_puller_next-free}
use gawkextlib.Xml.Puller.Able.{new_puller}
use gawkextlib.Xml.Puller.Made.{xml_puller_create-Made, Creates}
use gawkextlib.Xml.Puller.Merge.{event_token, merge}
use gawkextlib.Xml.Puller.Next.{keep_input, Parsed, bytes, Sources, xml_puller_next}
use gawkextlib.Xml.Puller.Refine.{handle_all-merge}
use gawkextlib.Xml.Puller.Rounds.{xml_puller_next_total}
use gawkextlib.Xml.Puller.Tokens.{flush_if_pending}
use gawkextlib.Xml.Puller.Window.{Loaded}
use gawkextlib.Xml.Puller.{Kinds, Input, Token, Position, Puller, Libraries}

abbrev libraries : Libraries ℕ ℕ
libraries = record {
  grants = λ n size. true;
  iconv = λ c s room. (c, some s);
  error_text = λ x. codes "no element found";
}

abbrev makers : Makers ℕ ℕ
makers = record {
  parser_create = λ n. some 0;
  iconv_open = λ name. some 0;
  is_utf8 = λ name. false;
  unset = λ n. replicate n (b' ');
}

abbrev place : Position
place = record { line = 2; column = 4; byte_count = 3 }

-- A parser that takes each block for an element with that text, and a block of three bytes for the
-- end of a document with more behind it.
abbrev parse : ℕ → Kinds → Bool → Bytes → Bool → Parsed ℕ
parse x handlers unknown block final = record {
  events =
      if length block == 0
      then []
      else (start_element_event block [], place) ∷ (chardata_event block, place) ∷ [];
  after = x + length block;
  place = place;
  byte_index = x + length block;
  is_ok = not (length block == 3);
}

-- A file is the bytes that are left of it.
abbrev sources : Sources Bytes ℕ
sources = record { xml_parse = parse; read = λ w fd n. (drop n w, bytes (take n w)) }

length-take_min : (n : ℕ) (w : Bytes) → length (take n w) ≤ n
length-take_min zero w = omega arith
length-take_min (suc n) [] = omega arith
length-take_min (suc n) (c ∷ w) = omega (arith, length-take_min n w)

length-cut : (n : ℕ) (w : Bytes) → length (drop n w) + length (take n w) ≡ length w
length-cut zero w = ground arith
length-cut (suc n) [] = refl
length-cut (suc n) (c ∷ w) = omega (arith, length-cut n w)

bytes-injective : (a b : Bytes) → bytes a ≡ bytes b → a ≡ b
bytes-injective a b e = cc

lawful : IsLawful libraries makers sources length
lawful = record {
  moves_on = λ n x handlers unknown block e wrong started. ground arith;
  reads = λ w fd n block e.
      let same = bytes-injective (take n w) block e in
      rw (← same) (length-take_min n w, length-cut n w);
  length-unset = λ n. length-replicate n (b' ');
}

abbrev fresh : Puller ℕ ℕ
fresh = record (fresh_puller libraries makers 0 8 (record { live = 2; calls = 2 })) {
  parser = some 0;
  unknown_handler = true;
}

abbrev document : Bytes
document = codes "<document>"

fresh-Between : Between libraries makers sources length lawful 10 document fresh
unfolding fresh_puller
fresh-Between = inr (
    inr (record {
      ready = record {
        whole = refl;
        joined = refl;
        at_start = refl;
        room = ground arith;
        some_size = ground arith;
      };
      parser = 0;
      has_parser = refl;
      few = ground arith;
    }))

fresh-Balanced : Balanced 0 fresh
unfolding fresh_puller owned token_blocks
fresh-Balanced = record { balance = refl; no_message = refl }

xml_puller_next_total_example :
    (w : Bytes) × (q : Puller ℕ ℕ) × (tok : Option Token) × (xml_puller_next libraries makers
        sources 12 12 document fresh
      ≡ ok (w, q, tok))
    × Between libraries makers sources length lawful 10 w q
xml_puller_next_total_example =
    xml_puller_next_total libraries makers sources length lawful 10 12 12 document fresh
      fresh-Between (ground arith) (ground arith)

xml_puller_next-free_example :
    (w : Bytes) × (q : Puller ℕ ℕ) × (tok : Option Token) × (xml_puller_next libraries makers
        sources 12 12 document fresh
      ≡ ok (w, q, tok))
    × Balanced 0 q
    × ((xml_puller_free q).live ≡ 0)
xml_puller_next-free_example =
    xml_puller_next-free libraries makers sources length lawful 0 10 12 12 document fresh
      fresh-Between (ground arith) (ground arith) fresh-Balanced

xml_puller_create-Made_example :
    Creates libraries makers sources length lawful 5 document (new_puller 0 8 true) true (
      xml_puller_create libraries makers
        (some 0)
        (some (codes "latin1"))
        8
        (record { live = 5; calls = 0 }))
xml_puller_create-Made_example =
    xml_puller_create-Made libraries makers sources length lawful (some 0) (some (codes "latin1")) 8
      (record { live = 5; calls = 0 }) document (λ n. (0, refl))

abbrev some_events : List (Event × Position)
some_events =
    (start_element_event (codes "b") ((codes "id", codes "7") ∷ []), place)
    ∷ (chardata_event (codes "he"), place)
    ∷ (chardata_event (codes "llo"), place)
    ∷ (end_element_event (codes "b"), place)
    ∷ []

handle_all-Balanced_example : Balanced 0 (handle_all libraries fresh some_events)
handle_all-Balanced_example = handle_all-Balanced libraries 0 fresh some_events fresh-Balanced

handle_all-merge_example :
    (flush_if_pending libraries (handle_all libraries fresh some_events)).0.queue
    ≡ [] ++ merge (map (event_token 1 1) some_events)
unfolding fresh_puller
handle_all-merge_example =
    handle_all-merge libraries (λ n size. refl) fresh some_events refl refl refl refl

-- The two pieces of text are one token.
merged_text : length (merge (map (event_token 1 1) some_events)) ≡ 3
merged_text = refl

abbrev window : Input
window = record {
  read_size = 4;
  buf = codes "0123456789";
  bufsize = 10;
  doc_offset = 5;
  saved_start = 1;
  saved_bytes = 3;
  new_start = 4;
  new_bytes = 4;
}

window-Loaded : Loaded window
window-Loaded = record {
  whole = refl;
  joined = refl;
  inside = ground arith;
  roomy = ground arith;
  some_size = ground arith;
}

restart_input-new_of_example :
    new_of (restart_input window 9)
    ≡ drop (9 - window.doc_offset) (saved_of window ++ new_of window)
restart_input-new_of_example =
    restart_input-new_of window 9 window-Loaded (ground arith) (ground arith)

abbrev windowed : Puller ℕ ℕ
windowed = record fresh { input = window; enabled = λ k. true }

keep_input-window_example :
    saved_of (keep_input libraries makers sources windowed 7).input
    ≡ drop (7 - window.doc_offset) (saved_of window ++ new_of window)
keep_input-window_example =
    keep_input-window libraries makers sources windowed 7 window-Loaded refl (ground arith)
      (ground arith)

-- From the place 7 on, the bytes at 3 to 7 in the buffer are kept.
kept_bytes : drop 2 (saved_of window ++ new_of window) ≡ codes "34567"
kept_bytes = refl
