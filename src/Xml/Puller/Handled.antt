-- ===== src/Xml/Puller/Handled.antt =====
-- xml/xml_puller.c: no event that expat reports makes the puller lose a block of memory.
use gawkextlib.Common.{
  ℕ, ◌+◌, ◌≡◌, ap, inl, inr, [], Bytes, codes, length, ltb, ◌==◌, Bool-cases, arith,
}
use gawkextlib.Xml.Puller.Balance.{bit, content_blocks, owned, Balanced}
use gawkextlib.Xml.Puller.Reports.{internal_error-Balanced}
use gawkextlib.Xml.Puller.Leaks.{
  token_enqueue-Balanced, flush_if_pending-Balanced, token_get-outcome,
}
use gawkextlib.Xml.Puller.Tokens.{
  same_kind, placed_token, flush_if_pending, token_get, token_insert_no_data, place_pending,
  grow_cdata, append_pending, add_pending,
}
use gawkextlib.Xml.Puller.{Kind, Puller, Libraries}

module _ {C P : Type 0} (lib : Libraries C P) where
  pub token_insert_no_data-Balanced :
      (b : ℕ) (p : Puller C P) (k : Kind) → Balanced b p → Balanced b (token_insert_no_data lib p k)
  unfolding token_insert_no_data content_blocks
  token_insert_no_data-Balanced b p k h =
      let got = (token_get lib p k).0 in
      elim (token_get-outcome lib b p k h) [
        | inl (e, g) ↦ rw (token_insert_no_data, e) g
        | inr (e, g) ↦
            rw (token_insert_no_data, e)
              (token_enqueue-Balanced lib b got (placed_token lib got k) g)
      ]

  grow_cdata-Balanced :
      (b : ℕ) (p : Puller C P) (n : ℕ) → Balanced b p → Balanced b (grow_cdata lib p n).0
  unfolding grow_cdata owned
  grow_cdata-Balanced b p n h =
      let m = p.memory in
      let size = p.cdata_bufsize + length p.cdata + n in
      let balance = h.balance in
      elim (Bool-cases (ltb p.cdata_bufsize (length p.cdata + n))) [
        | inr fits ↦ rw (grow_cdata, fits) h
        | inl small ↦ elim (Bool-cases (lib.grants m.calls size)) [
          | inr g ↦
              rw (grow_cdata, small, g)
                (internal_error-Balanced lib b
                  (record p { memory = record m { calls = m.calls + 1 }; cdata = [] })
                  (codes "XML Puller: out of memory")
                  (record { balance = balance; no_message = h.no_message }))
          | inl g ↦ elim (Bool-cases p.cdata_buf) [
            | inl had ↦
                rw (grow_cdata, small, g, had)
                  (record { balance = omega (arith, ap bit had); no_message = h.no_message })
            | inr had ↦
                rw (grow_cdata, small, g, had)
                  (record { balance = omega (arith, ap bit had); no_message = h.no_message })
          ]
        ]
      ]

  append_pending-Balanced :
      (b : ℕ) (p : Puller C P) (k : Kind) (s : Bytes)
      → Balanced b p
      → Balanced b (append_pending lib p k s)
  unfolding append_pending place_pending owned
  append_pending-Balanced b p k s h =
      let placed = place_pending lib p k in
      let unset = h.no_message in
      let moved : Balanced b placed = elim (Bool-cases (length p.cdata == 0)) [
        | inl e ↦ rw (place_pending, e) (record { balance = h.balance; no_message = unset })
        | inr e ↦ rw (place_pending, e) (record { balance = h.balance; no_message = unset })
      ] in
      let g = grow_cdata-Balanced b placed (length s) moved in
      elim (Bool-cases (grow_cdata lib placed (length s)).1) [
        | inl e ↦ rw (append_pending, e) (record { balance = g.balance; no_message = g.no_message })
        | inr e ↦ rw (append_pending, e) g
      ]

  pub add_pending-Balanced :
      (b : ℕ) (p : Puller C P) (k : Kind) (s : Bytes)
      → Balanced b p
      → Balanced b (add_pending lib p k s)
  unfolding add_pending
  add_pending-Balanced b p k s h =
      let flushed = flush_if_pending lib p in
      let f = flush_if_pending-Balanced lib b p h in
      elim (Bool-cases p.status_ok) [
        | inr wrong ↦ let run : add_pending lib p k s ≡ p = ground arith in rw run h
        | inl fine ↦ elim (Bool-cases (same_kind p.cdata_kind k)) [
          | inl same ↦
              let run : add_pending lib p k s ≡ append_pending lib p k s = ground arith in
              rw run (append_pending-Balanced b p k s h)
          | inr other ↦ elim (Bool-cases (flushed.1)) [
            | inl e ↦
                let run : add_pending lib p k s ≡ append_pending lib (flushed.0) k s =
                  ground arith in
                rw run (append_pending-Balanced b (flushed.0) k s f)
            | inr e ↦ let run : add_pending lib p k s ≡ flushed.0 = ground arith in rw run f
          ]
        ]
      ]
