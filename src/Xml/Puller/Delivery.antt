-- ===== src/Xml/Puller/Delivery.antt =====
-- xml/xml_puller.c: XML_PullerNext as a whole loses no block of memory.
use gawkextlib.Common.{
  ℕ, zero, suc, ◌+◌, ◌-◌, ◌≡◌, ◌<◌, refl, ap, min, not, ◌||◌, inl, inr, Option, none, some, Bytes,
  ok, fault, Gives, Gives->>=, Gives-ok, null_pointer, length, take, leb, ◌==◌, Bool-cases,
  Option-cases, arith,
}
use gawkextlib.Xml.Puller.Balance.{token_blocks, owned, Balanced}
use gawkextlib.Xml.Puller.Control.{Makers, to_list, xml_puller_free}
use gawkextlib.Xml.Puller.Ends.{IsLawful, Between}
use gawkextlib.Xml.Puller.Lifetime.{xml_puller_free-live}
use gawkextlib.Xml.Puller.Buffer.{store_block}
use gawkextlib.Xml.Puller.Leaks.{free_token_contents-live}
use gawkextlib.Xml.Puller.Next.{
  Sources, finish_with, finish_parsing, parse_new, read_round, read_blocks, has_token, deliver,
  free_delivered, xml_puller_next,
}
use gawkextlib.Xml.Puller.Rounds.{
  ReadResult-cases, xml_puller_next_total, read_blocks_closed, read_blocks_open,
}
use gawkextlib.Xml.Puller.Tokens.{free_token_data, token_release}
use gawkextlib.Xml.Puller.{Token, Puller, Libraries}
use gawkextlib.Xml.Puller.Loop.{
  Held, either, finish_with-Held, held, internal_error-Held, keep_input-Held, parse_new-Held,
  queue-cases,
}

module _ {C P W : Type 0} (lib : Libraries C P) (make : Makers C P) (src : Sources W P) where
  open make use {parser_create}
  open src use {xml_parse, read}

  finish_parsing-Held :
      (b : ℕ) (p : Puller C P)
      → Held lib make src b p
      → Gives (Held lib make src b) (finish_parsing lib make src p)
  unfolding finish_parsing
  finish_parsing-Held b p h = elim (Option-cases p.parser) [
    | inl e ↦
        let run : finish_parsing lib make src p ≡ fault null_pointer = ground arith in rw run tt
    | inr (x, e) ↦
        let run : finish_parsing lib make src p ≡ ok (finish_with lib make src p x) =
          ground arith in
        rw run (finish_with-Held lib make src b p x h)
  ]

  store_block-Held :
      (b : ℕ) (p : Puller C P) (block : Bytes)
      → Held lib make src b p
      → Gives (λ i. Held lib make src b (record p { input = i })) (store_block p.input block)
  unfolding store_block owned
  store_block-Held b p block h =
      elim (Bool-cases (leb (p.input.new_start + length block) (length p.input.buf))) [
        | inl e ↦ rw (store_block, e) (held lib make src h.kept.balance h.kept.no_message h.nothing)
        | inr e ↦ rw (store_block, e) tt
      ]

  read_round-Held :
      (b fuel : ℕ) (w : W) (p : Puller C P) (fd : ℕ)
      → Held lib make src b p
      → Gives (λ r. Held lib make src b r.1) (read_round lib make src fuel w p fd)
  unfolding read_round owned
  read_round-Held b fuel w p fd h =
      let i = p.input in
      let got = read w fd (min i.read_size (i.bufsize - i.new_start)) in
      elim (ReadResult-cases (got.1)) [
        | inl (text, e) ↦
            let k = internal_error-Held lib make src b p (take 255 text) h in
            rw (read_round, e) (held lib make src k.kept.balance k.kept.no_message k.nothing)
        | inr (block, e) ↦ elim (Bool-cases (length block == 0)) [
          | inl empty ↦
              rw (read_round, e, empty)
                (Gives->>= (Held lib make src b) (λ r. Held lib make src b r.1)
                  (finish_parsing lib make src p) (λ q. ok (got.0, q)) (finish_parsing-Held b p h)
                  (λ q g. g))
          | inr nonempty ↦
              rw (read_round, e, nonempty)
                (Gives->>= (λ i'. Held lib make src b (record p { input = i' }))
                  (λ r. Held lib make src b r.1) (store_block i block) _
                  (store_block-Held b p block h)
                  (λ i' g.
                    Gives->>= (λ r. Held lib make src b r.0) (λ r. Held lib make src b r.1)
                      (parse_new lib make src fuel (record p { input = i' })) _
                      (parse_new-Held lib make src b fuel (record p { input = i' }) g)
                      (λ r k.
                        either lib make src (r.0.status_ok)
                          (keep_input-Held lib make src b (r.0) (r.1) k) k)))
        ]
      ]

  read_blocks-Held :
      (b fuel documents : ℕ) (w : W) (p : Puller C P)
      → Held lib make src b p
      → Gives (λ r. Held lib make src b r.1) (read_blocks lib make src fuel documents w p)
  unfolding read_blocks
  read_blocks-Held b zero documents w p h = tt
  read_blocks-Held b (suc fuel) documents w p h =
      elim (Bool-cases (has_token p.queue || not p.status_ok)) [
        | inl e ↦ rw (read_blocks, e) h
        | inr e ↦ elim (Option-cases p.filedesc) [
          | inl closed ↦ rw (read_blocks_closed lib make src fuel documents w p closed) h
          | inr (fd, has) ↦ rw (read_blocks_open lib make src fuel documents w p fd e has) (
              Gives->>= (λ r. Held lib make src b r.1) (λ r. Held lib make src b r.1)
                (read_round lib make src documents w p fd) _ (read_round-Held b documents w p fd h)
                (λ r g. read_blocks-Held b fuel documents (r.0) (r.1) g))
        ]
      ]

  free_delivered-Held :
      (b : ℕ) (p : Puller C P) → Balanced b p → Held lib make src b (free_delivered lib make src p)
  unfolding free_delivered free_token_data token_release owned token_blocks
  free_delivered-Held b p h = elim (Option-cases p.to_be_freed) [
    | inl e ↦
        let run : free_delivered lib make src p ≡ p = ground arith in
        rw run (record { kept = h; nothing = e })
    | inr (tok, e) ↦
        let run : free_delivered lib make src p
            ≡ record (free_token_data lib p tok) { to_be_freed = none } =
          ground arith in
        let before = ap (λ o. token_blocks (to_list o)) e in
        let live = free_token_contents-live tok p.memory in
        rw run (record {
          kept = record { balance = omega (arith, h.balance); no_message = h.no_message };
          nothing = refl;
        })
  ]

  deliver-Balanced :
      (b : ℕ) (p : Puller C P) → Held lib make src b p → Balanced b (deliver lib make src p).0
  unfolding deliver owned token_blocks
  deliver-Balanced b p h = elim (queue-cases p.queue) [
    | inl e ↦ let run : (deliver lib make src p).0 ≡ p = ground arith in rw run h.kept
    | inr (tok, rest, e) ↦
        let run : (deliver lib make src p).0 ≡ record p { queue = rest; to_be_freed = some tok } =
          ground arith in
        let before = ap token_blocks e in
        let none_before = ap (λ o. token_blocks (to_list o)) h.nothing in
        rw run (record { balance = omega (arith, h.kept.balance); no_message = h.kept.no_message })
  ]

  xml_puller_next-Balanced :
      (b fuel documents : ℕ) (w : W) (p : Puller C P)
      → Balanced b p
      → Gives (λ r. Balanced b r.1) (xml_puller_next lib make src fuel documents w p)
  unfolding xml_puller_next
  xml_puller_next-Balanced b fuel documents w p h =
      Gives->>= (λ r. Held lib make src b r.1) (λ r. Balanced b r.1)
        (read_blocks lib make src fuel documents w (free_delivered lib make src p)) _
        (read_blocks-Held b fuel documents w (free_delivered lib make src p)
          (free_delivered-Held b p h))
        (λ r g. deliver-Balanced b (r.1) g)

  -- From a state between two calls, in which all but `b` blocks of memory are the puller's, with enough
  -- fuel, and with a parser and a file that are lawful, a call of XML_PullerNext returns, and in what
  -- it leaves, XML_PullerFree gives back each block but those `b`, whatever fails on the way.
  pub xml_puller_next-free :
      (left : W → ℕ) (lawful : IsLawful lib make src left) (b most documents fuel : ℕ) (w : W)
      (p : Puller C P)
      → Between lib make src left lawful most w p
      → most + 1 < documents
      → left w + 1 < fuel
      → Balanced b p
      → (w' : W) × (q : Puller C P) × (tok : Option Token) × (xml_puller_next lib make src fuel
            documents w p
          ≡ ok (w', q, tok))
        × Balanced b q
        × ((xml_puller_free q).live ≡ b)
  xml_puller_next-free left lawful b most documents fuel w p between enough more h =
      let (w', q, tok, run, after) =
        xml_puller_next_total lib make src left lawful most documents fuel w p between enough
          more in
      let k : Balanced b q =
        Gives-ok (λ r. Balanced b r.1) (xml_puller_next lib make src fuel documents w p)
          (w', q, tok) run (xml_puller_next-Balanced b fuel documents w p h) in
      (w', q, tok, run, k, xml_puller_free-live b q k)
