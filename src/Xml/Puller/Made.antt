-- ===== src/Xml/Puller/Made.antt =====
-- xml/xml_puller.c: XML_PullerCreate makes a puller where it can, and that is ready for
-- XML_PullerNext.
use mathlib.Core.Path.{subst}
use gawkextlib.Common.{
  ℕ, ◌+◌, ◌≡◌, ◌∙◌, ◌<◌, refl, ap, sym, Bool, not, true, false, inl, inr, Option, none, some, [],
  ◌∷◌, Bytes, Run, ok, ltb, Bool-cases, Option-cases, arith,
}
use gawkextlib.Xml.Puller.Able.{
  Start, start, new_puller, needs_converter, number_or_zero, try_converter-converts,
  try_converter-start, chosen, able,
}
use gawkextlib.Xml.Puller.Balance.{
  bit, token_blocks, owned, Balanced, request-live, release_block-live,
}
use gawkextlib.Xml.Puller.Control.{
  Makers, puller_size, give_up, try_converter, attach_parser, choose_encoding, xml_puller_create,
  fresh_puller,
}
use gawkextlib.Xml.Puller.Ends.{IsLawful, Open}
use gawkextlib.Xml.Puller.Frame.{Fixed, puller_iconv-fixed}
use gawkextlib.Xml.Puller.Leaks.{puller_iconv-outcome}
use gawkextlib.Xml.Puller.Next.{Sources}
use gawkextlib.Xml.Puller.Window.{Ready}
use gawkextlib.Xml.Puller.{Memory, Puller, Libraries, request, release_block, puller_iconv}

module _ {C P W : Type 0} (lib : Libraries C P) (make : Makers C P) (src : Sources W P)
    (left : W → ℕ) (lawful : IsLawful lib make src left) where
  open lib use {grants}
  open make use {parser_create, iconv_open, is_utf8}

  -- What is true of the puller while it is made.
  pub record Fresh (b : ℕ) (p : Puller C P) : Type 0 where
    balanced : Balanced b p
    ready : Ready p.input
    nothing_saved : p.input.saved_bytes ≡ 0

  -- With the flag, there is a puller, it has these fields, it is ready, and the memory is the
  -- puller's; without it, there is none.
  abbrev pub Made : ℕ → W → Start → Bool → Memory × Option (Puller C P) → Type 0
  Made b w fields true r =
      (p : Puller C P) × (r ≡ (p.memory, some p))
      × (start p ≡ fields)
      × (p.unknown_handler ≡ true)
      × Balanced b p
      × Open lib make src left lawful (left w) w p
  Made b w fields false r = r.1 ≡ none

  abbrev pub Creates : ℕ → W → Start → Bool → Run (Memory × Option (Puller C P)) → Type 0
  Creates b w fields able run =
      (r : Memory × Option (Puller C P)) × (run ≡ ok r) × Made b w fields able r

  attach_parser-Made :
      (b : ℕ) (w : W) (fields : Start) (p : Puller C P) (x : P)
      → start p ≡ fields
      → parser_create p.memory.calls ≡ some x
      → Fresh b p
      → Creates b w fields true (attach_parser lib make p)
  unfolding attach_parser owned
  attach_parser-Made b w fields p x new e h = (
    (p.memory, some (record p { parser = some x; unknown_handler = true })),
    rw (attach_parser, e) refl,
    (
      record p { parser = some x; unknown_handler = true },
      refl,
      new,
      refl,
      record { balance = h.balanced.balance; no_message = h.balanced.no_message },
      record {
        ready = h.ready;
        parser = x;
        has_parser = refl;
        few = omega (arith, h.nothing_saved);
      },
    ),
  )

  try_converter-Fresh :
      (b : ℕ) (p : Puller C P)
      → Fresh b p
      → (try_converter lib make p).1 ≡ true
      → Fresh b (try_converter lib make p).0
  unfolding try_converter owned
  try_converter-Fresh b p h e =
      let spaces = b' ' ∷ b' ' ∷ [] in
      let r = puller_iconv lib p spaces in
      let same : (r.0).input ≡ p.input =
        ap (λ (f : Fixed). f.input) (puller_iconv-fixed lib p spaces) in
      elim (puller_iconv-outcome lib b p spaces h.balanced) [
        | inl (f, k) ↦
            let failed : (try_converter lib make p).1 ≡ false = rw (try_converter, f) refl in
            absurd (ground arith)
        | inr (t, f, k) ↦
            let live = release_block-live true (r.0).memory in
            rw (try_converter, f)
              (record {
                balanced = record { balance = omega (arith, k.balance); no_message = k.no_message };
                ready = rw same h.ready;
                nothing_saved = rw same h.nothing_saved;
              })
      ]

  fresh_puller-Fresh :
      (fd size : ℕ) (m : Memory) (b : ℕ)
      → 0 < size
      → m.live ≡ b + 2
      → Fresh b (fresh_puller lib make fd size m)
  unfolding fresh_puller owned token_blocks
  fresh_puller-Fresh fd size m b pos live = record {
    balanced = record { balance = omega arith; no_message = refl };
    ready = record {
      whole = lawful.length-unset size;
      joined = refl;
      at_start = refl;
      room = omega arith;
      some_size = pos;
    };
    nothing_saved = refl;
  }

  choose_encoding-Made :
      (b : ℕ) (w : W) (fd size : ℕ) (p : Puller C P) (encoding : Option Bytes)
      → ((n : ℕ) → (x : P) × (parser_create n ≡ some x))
      → Fresh b p
      → p.conv_buflen ≡ 0
      → start p ≡ new_puller fd size false
      → Creates b w
          (new_puller fd size (needs_converter lib make encoding))
          (chosen lib make encoding p.memory.calls)
          (choose_encoding lib make p encoding)
  unfolding choose_encoding owned give_up
  choose_encoding-Made b w fd size p none parsers h z new =
      let (x, e) = parsers p.memory.calls in
      attach_parser-Made b w (new_puller fd size false) p x new e h
  choose_encoding-Made b w fd size p (some name) parsers h z new =
      let (x, e) = parsers p.memory.calls in
      elim (Bool-cases (is_utf8 name)) [
        | inl utf8 ↦
            rw (choose_encoding, utf8)
              (attach_parser-Made b w (new_puller fd size false) p x new e h)
        | inr other ↦ elim (Option-cases (iconv_open name)) [
          | inl f ↦ rw (choose_encoding, other, f) (give_up lib make p, refl, refl)
          | inr (c, f) ↦
              let converting : Puller C P = record p { converter = some c } in
              let tried = try_converter lib make converting in
              let same = try_converter-converts lib make converting c refl z in
              let fresh : Fresh b converting = record {
                balanced = record {
                  balance = h.balanced.balance;
                  no_message = h.balanced.no_message;
                };
                ready = h.ready;
                nothing_saved = h.nothing_saved;
              } in
              let fields = new_puller fd size (not (is_utf8 name)) in
              let run = choose_encoding lib make p (some name) in
              let chosen_name : chosen lib make (some name) p.memory.calls ≡ tried.1 =
                rw (other, f) (sym same) in
              elim (Bool-cases (tried.1)) [
                | inl fine ↦
                    let (y, g) = parsers (tried.0).memory.calls in
                    let same_fields : start (tried.0) ≡ new_puller fd size true =
                      try_converter-start lib make converting fine
                      ∙ ap (λ (x : Start). record x { converting = true }) new in
                    subst (λ able. Creates b w fields able run) (sym (chosen_name ∙ fine))
                      (rw (choose_encoding, other, f, fine)
                        (attach_parser-Made b w (new_puller fd size true) (tried.0) y same_fields g
                          (try_converter-Fresh b converting fresh fine)))
                | inr failed ↦
                    subst (λ able. Creates b w fields able run) (sym (chosen_name ∙ failed))
                      (rw (choose_encoding, other, f, failed)
                        (give_up lib make (tried.0), refl, refl))
              ]
        ]
      ]

  request_lem :
      (size : ℕ) (m : Memory)
      → ((request grants size m).1 ≡ grants m.calls size)
        × ((request grants size m).0.calls ≡ m.calls + 1)
  unfolding request
  request_lem size m = (ground arith, ground arith)

  -- Where expat always gives a parser, and with a file that is lawful, XML_PullerCreate returns. It
  -- gives a puller just where there is a file, the buffer is not empty, the memory for the structure
  -- and the buffer is had, and the encoding is not given, is UTF-8, or has a converter that converts
  -- two spaces in the memory that is had. The puller then reads that file in blocks of that size, has
  -- a converter just for an encoding that is not UTF-8, has the handler of unknown encodings and no
  -- other, no token and no error, is ready for XML_PullerNext, and owns the blocks that were taken.
  pub xml_puller_create-Made :
      (filedesc : Option ℕ) (encoding : Option Bytes) (size : ℕ) (m : Memory) (w : W)
      → ((n : ℕ) → (x : P) × (parser_create n ≡ some x))
      → Creates m.live w
          (new_puller (number_or_zero filedesc) size (needs_converter lib make encoding))
          (able lib make filedesc encoding size m.calls)
          (xml_puller_create lib make filedesc encoding size m)
  unfolding xml_puller_create fresh_puller
  xml_puller_create-Made none encoding size m w parsers = ((m, none), refl, refl)
  xml_puller_create-Made (some fd) encoding size m w parsers = elim (Bool-cases (ltb size 1)) [
    | inl small ↦
        let empty : ltb 0 size ≡ false = ground arith in
        rw (xml_puller_create, small, empty) ((m, none), refl, refl)
    | inr some_size ↦
        let filled : ltb 0 size ≡ true = ground arith in
        let first = request grants puller_size m in
        let second = request grants size (first.0) in
        let one = request-live grants puller_size m in
        let two = request-live grants size (first.0) in
        let (g, n) = request_lem puller_size m in
        let (g', n') = request_lem size (first.0) in
        elim (Bool-cases (first.1)) [
          | inr e ↦
              rw (xml_puller_create, some_size, e, filled, sym g ∙ e) ((first.0, none), refl, refl)
          | inl e ↦ elim (Bool-cases (second.1)) [
            | inr f ↦
                let refused : grants (m.calls + 1) size ≡ false =
                  ap (λ k. grants k size) (sym n) ∙ (sym g' ∙ f) in
                rw (xml_puller_create, some_size, e, f, filled, sym g ∙ e, refused)
                  ((release_block true (second.0), none), refl, refl)
            | inl f ↦
                let p = fresh_puller lib make fd size (second.0) in
                let h =
                  fresh_puller-Fresh fd size (second.0) m.live (ground arith)
                    (omega (arith, ap bit e, ap bit f)) in
                let had : grants (m.calls + 1) size ≡ true =
                  ap (λ k. grants k size) (sym n) ∙ (sym g' ∙ f) in
                let requests : (second.0).calls ≡ m.calls + 2 = omega (arith, n, n') in
                rw (xml_puller_create, some_size, e, f, filled, sym g ∙ e, had, sym requests)
                  (choose_encoding-Made m.live w fd size p encoding parsers h refl refl)
          ]
        ]
  ]
