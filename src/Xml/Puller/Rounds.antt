-- ===== src/Xml/Puller/Rounds.antt =====
-- xml/xml_puller.c: the loop of XML_PullerNext that reads blocks ends, and leaves a puller that can
-- be called again.
use gawkextlib.Common.{
  ℕ, zero, suc, ◌+◌, ◌-◌, ◌<◌, ◌≡◌, refl, ap, ◌∙◌, min, true, false, not, ◌||◌, ◌⊎◌, inl, inr,
  Option, none, some, Bytes, Run, ok, ◌>>=◌, length, take, ◌==◌, Bool-cases, Option-cases, arith,
}
use gawkextlib.Xml.Puller.Control.{Makers}
use gawkextlib.Xml.Puller.Ends.{
  IsLawful, Open, Between, parse_new_total, keep_input-Between, finish_parsing-some,
  finish_with-filedesc,
}
use gawkextlib.Xml.Puller.Next.{
  ReadResult, failed, bytes, Sources, finish_with, keep_input, read_round, has_token, read_blocks,
  deliver, free_delivered, xml_puller_next,
}
use gawkextlib.Xml.Puller.Tokens.{free_token_data, token_release}
use gawkextlib.Xml.Puller.Window.{loaded_input, store_block-Loaded}
use gawkextlib.Xml.Puller.{Token, Puller, Libraries, internal_error}

pub ReadResult-cases :
    (r : ReadResult) → ((t : Bytes) × (r ≡ failed t)) ⊎ ((b : Bytes) × (r ≡ bytes b))
ReadResult-cases (failed t) = inl (t, refl)
ReadResult-cases (bytes b) = inr (b, refl)

module _ {C P W : Type 0} (lib : Libraries C P) (make : Makers C P) (src : Sources W P) where
  -- A round of the loop with a file, and without one.
  pub read_blocks_closed :
      (fuel documents : ℕ) (w : W) (p : Puller C P)
      → p.filedesc ≡ none
      → read_blocks lib make src (suc fuel) documents w p ≡ ok (w, p)
  unfolding read_blocks
  read_blocks_closed fuel documents w p closed =
      elim (Bool-cases (has_token p.queue || not p.status_ok)) [
        | inl e ↦ rw (read_blocks, e) refl
        | inr e ↦
            rw (read_blocks, e)
              (ap
                (λ (o : Option ℕ). elim o as (λ y. Run (W × Puller C P)) [
                  | none ↦ ok (w, p)
                  | some fd ↦
                      read_round lib make src documents w p fd
                      >>= (λ r. read_blocks lib make src fuel documents (r.0) (r.1))
                ])
                closed)
      ]

  pub read_blocks_open :
      (fuel documents : ℕ) (w : W) (p : Puller C P) (fd : ℕ)
      → (has_token p.queue || not p.status_ok) ≡ false
      → p.filedesc ≡ some fd
      → read_blocks lib make src (suc fuel) documents w p
        ≡ read_round lib make src documents w p fd
          >>= (λ r. read_blocks lib make src fuel documents (r.0) (r.1))
  unfolding read_blocks
  read_blocks_open fuel documents w p fd e has =
      rw (read_blocks, e)
        (ap
          (λ (o : Option ℕ). elim o as (λ y. Run (W × Puller C P)) [
            | none ↦ ok (w, p)
            | some n ↦
                read_round lib make src documents w p n
                >>= (λ r. read_blocks lib make src fuel documents (r.0) (r.1))
          ])
          has)

module _ {C P W : Type 0} (lib : Libraries C P) (make : Makers C P) (src : Sources W P)
    (left : W → ℕ) (lawful : IsLawful lib make src left) where
  open src use {read}

  -- What a round comes to: an error, the end of the file, or the next round, with less to read.
  abbrev Round : ℕ → W → W × Puller C P → Type 0
  Round most w r =
      (r.1.status_ok ≡ false)
      ⊎ (r.1.filedesc ≡ none)
      ⊎ (Open lib make src left lawful most r.0 r.1 × (left r.0 < left w))

  read_round_total :
      (most documents : ℕ) (w : W) (p : Puller C P) (fd : ℕ)
      → Open lib make src left lawful most w p
      → most + 1 < documents
      → (r : W × Puller C P) × (read_round lib make src documents w p fd ≡ ok r) × Round most w r
  unfolding read_round
  read_round_total most documents w p fd o enough =
      let i = p.input in
      let n = min i.read_size (i.bufsize - i.new_start) in
      let got = read w fd n in
      elim (ReadResult-cases (got.1)) [
        | inl (text, e) ↦ (
          (got.0, record (internal_error lib p (take 255 text)) { filedesc = none }),
          rw (read_round, e) refl,
          inr (inl refl),
        )
        | inr (block, e) ↦
            let (short, rest) = lawful.reads w fd n block e in
            elim (Bool-cases (length block == 0)) [
              | inl empty ↦ (
                (got.0, finish_with lib make src p o.parser),
                rw
                    (
                      read_round,
                      e,
                      empty,
                      finish_parsing-some lib make src left lawful p o.parser o.has_parser,
                    )
                    refl,
                inr (inl (finish_with-filedesc lib make src left lawful p o.parser)),
              )
              | inr nonempty ↦
                  let (stored, loaded) = store_block-Loaded i block o.ready short in
                  let loaded_puller : Puller C P = record p { input = loaded_input i block } in
                  let few = o.few in
                  let (q, k, run, parses) =
                    parse_new_total lib make src left lawful documents loaded_puller
                      (record { parser = o.parser; has_parser = o.has_parser; loaded = loaded })
                      (omega arith) in
                  elim (Bool-cases q.status_ok) [
                    | inr wrong ↦ (
                      (got.0, q),
                      rw (read_round, e, nonempty, stored, run, wrong) refl,
                      inl wrong,
                    )
                    | inl fine ↦ (
                      (got.0, keep_input lib make src q k),
                      rw (read_round, e, nonempty, stored, run, fine) refl,
                      elim (keep_input-Between lib make src left lawful most (got.0) q k
                          (parses.alive fine) (omega (arith, parses.few))) [
                            | inl wrong ↦ inl wrong
                            | inr (inl closed) ↦ inr (inl closed)
                            | inr (inr ready) ↦ inr (inr (ready, ground arith))
                          ],
                    )
                  ]
            ]
      ]

  read_blocks_stops :
      (documents fuel : ℕ) (w : W) (p : Puller C P)
      → (p.status_ok ≡ false) ⊎ (p.filedesc ≡ none)
      → 0 < fuel
      → read_blocks lib make src fuel documents w p ≡ ok (w, p)
  unfolding read_blocks
  read_blocks_stops documents zero w p h more = absurd (omega arith)
  read_blocks_stops documents (suc fuel) w p (inl wrong) more =
      let leaves : (has_token p.queue || not p.status_ok) ≡ true = ground arith in
      rw (read_blocks, leaves) refl
  read_blocks_stops documents (suc fuel) w p (inr closed) more =
      read_blocks_closed lib make src fuel documents w p closed

  read_blocks_total :
      (most documents fuel : ℕ) (w : W) (p : Puller C P)
      → Between lib make src left lawful most w p
      → most + 1 < documents
      → left w + 1 < fuel
      → (r : W × Puller C P) × (read_blocks lib make src fuel documents w p ≡ ok r)
        × Between lib make src left lawful most r.0 r.1
  unfolding read_blocks
  read_blocks_total most documents zero w p b enough more = absurd (omega arith)
  read_blocks_total most documents (suc fuel) w p (inl wrong) enough more =
      ((w, p), read_blocks_stops documents (suc fuel) w p (inl wrong) (omega arith), inl wrong)
  read_blocks_total most documents (suc fuel) w p (inr (inl closed)) enough more = (
    (w, p),
    read_blocks_stops documents (suc fuel) w p (inr closed) (omega arith),
    inr (inl closed),
  )
  read_blocks_total most documents (suc fuel) w p (inr (inr o)) enough more =
      elim (Bool-cases (has_token p.queue || not p.status_ok)) [
        | inl e ↦ ((w, p), rw (read_blocks, e) refl, inr (inr o))
        | inr e ↦ elim (Option-cases p.filedesc) [
          | inl closed ↦ (
            (w, p),
            read_blocks_stops documents (suc fuel) w p (inr closed) (omega arith),
            inr (inl closed),
          )
          | inr (fd, has) ↦
              let (r, run, after) = read_round_total most documents w p fd o enough in
              let step : read_blocks lib make src (suc fuel) documents w p
                  ≡ read_blocks lib make src fuel documents r.0 r.1 =
                read_blocks_open lib make src fuel documents w p fd e has
                ∙ ap (λ m. m >>= (λ s. read_blocks lib make src fuel documents (s.0) (s.1))) run in
              elim after [
                | inl wrong ↦ (
                  r,
                  step ∙ read_blocks_stops documents fuel (r.0) (r.1) (inl wrong) (omega arith),
                  inl wrong,
                )
                | inr (inl closed) ↦ (
                  r,
                  step ∙ read_blocks_stops documents fuel (r.0) (r.1) (inr closed) (omega arith),
                  inr (inl closed),
                )
                | inr (inr (again, fewer)) ↦
                    let (last, ended, b) =
                      read_blocks_total most documents fuel (r.0) (r.1) (inr (inr again)) enough
                        (omega arith) in
                    (last, step ∙ ended, b)
              ]
        ]
      ]

  -- What `Between` reads of the puller.
  same-Between :
      (most : ℕ) (w : W) (p q : Puller C P)
      → q.status_ok ≡ p.status_ok
      → q.filedesc ≡ p.filedesc
      → q.input ≡ p.input
      → q.parser ≡ p.parser
      → Between lib make src left lawful most w p
      → Between lib make src left lawful most w q
  same-Between most w p q status file input parser (inl wrong) = inl (status ∙ wrong)
  same-Between most w p q status file input parser (inr (inl closed)) = inr (inl (file ∙ closed))
  same-Between most w p q status file input parser (inr (inr o)) = inr (
      inr (record {
        ready = rw input o.ready;
        parser = o.parser;
        has_parser = parser ∙ o.has_parser;
        few = rw input o.few;
      }))

  free_delivered-Between :
      (most : ℕ) (w : W) (p : Puller C P)
      → Between lib make src left lawful most w p
      → Between lib make src left lawful most w (free_delivered lib make src p)
  unfolding free_delivered free_token_data token_release
  free_delivered-Between most w p b =
      same-Between most w p (free_delivered lib make src p) (ground arith) (ground arith)
        (ground arith) (ground arith) b

  deliver-Between :
      (most : ℕ) (w : W) (p : Puller C P)
      → Between lib make src left lawful most w p
      → Between lib make src left lawful most w (deliver lib make src p).0
  unfolding deliver
  deliver-Between most w p b =
      same-Between most w p (deliver lib make src p).0 (ground arith) (ground arith) (ground arith)
        (ground arith) b

  -- From a state between two calls, with enough fuel, and with a parser and a file that are lawful, a
  -- call of XML_PullerNext ends with a result, whatever they give: it never writes outside the input
  -- buffer, and never calls a parser that is not there. What it leaves is such a state again.
  pub xml_puller_next_total :
      (most documents fuel : ℕ) (w : W) (p : Puller C P)
      → Between lib make src left lawful most w p
      → most + 1 < documents
      → left w + 1 < fuel
      → (w' : W) × (q : Puller C P) × (tok : Option Token) × (xml_puller_next lib make src fuel
            documents w p
          ≡ ok (w', q, tok))
        × Between lib make src left lawful most w' q
  unfolding xml_puller_next
  xml_puller_next_total most documents fuel w p b enough more =
      let start = free_delivered lib make src p in
      let (r, run, after) =
        read_blocks_total most documents fuel w start (free_delivered-Between most w p b) enough
          more in
      let d = deliver lib make src (r.1) in
      (r.0, d.0, d.1, rw (xml_puller_next, run) refl, deliver-Between most (r.0) (r.1) after)
