-- ===== src/Xml/Puller/Events.antt =====
-- xml/xml_puller.c: the handlers of elements, comments and declarations lose no block of memory.
use gawkextlib.Common.{
  ℕ, ◌+◌, ◌≡◌, refl, ap, true, false, ◌⊎◌, inl, inr, Option, none, some, Bytes, arith,
}
use gawkextlib.Xml.Puller.Balance.{bit, content_blocks, owned, Balanced, found}
use gawkextlib.Xml.Puller.Leaks.{
  token_release-Balanced, token_enqueue-Balanced, free_token_data-Balanced, puller_iconv-outcome,
  token_get-outcome,
}
use gawkextlib.Xml.Puller.Handlers.{
  optional_iconv, end_element_handler, proc_inst_handler, comment_handler, decl_handler,
  start_doct_handler,
}
use gawkextlib.Xml.Puller.Tokens.{placed_token, token_get}
use gawkextlib.Xml.Puller.{
  end_element, proc_inst, comment, decl, start_doct, Puller, Libraries, is_some, puller_iconv,
}

module _ {C P : Type 0} (lib : Libraries C P) where
  -- Blocks that are counted in another order.
  pub recount : (b n : ℕ) (p : Puller C P) → b ≡ n → Balanced b p → Balanced n p
  recount b n p e h = rw (← e) h

  pub end_element_handler-Balanced :
      (b : ℕ) (p : Puller C P) (n : Bytes) → Balanced b p → Balanced b (end_element_handler lib p n)
  unfolding end_element_handler content_blocks owned
  end_element_handler-Balanced b p n h =
      let counted : Puller C P = record p { closed = p.closed + 1 } in
      let got = (token_get lib counted end_element).0 in
      elim (token_get-outcome lib b counted end_element
        (record { balance = h.balance; no_message = h.no_message })) [
          | inl (e, g) ↦ rw (end_element_handler, e) g
          | inr (e, g) ↦ elim (puller_iconv-outcome lib (b + 1) got n g) [
            | inl (f, k) ↦
                rw (end_element_handler, e, f)
                  (token_release-Balanced lib b (puller_iconv lib got n).0 k)
            | inr (t, f, k) ↦
                rw (end_element_handler, e, f)
                  (token_enqueue-Balanced lib b (puller_iconv lib got n).0
                    (record (placed_token lib got end_element) { name = some t })
                    (recount (b + 1 + 1) (b + 2) _ (omega arith) k))
          ]
        ]

  pub comment_handler-Balanced :
      (b : ℕ) (p : Puller C P) (s : Bytes) → Balanced b p → Balanced b (comment_handler lib p s)
  unfolding comment_handler content_blocks
  comment_handler-Balanced b p s h =
      let got = (token_get lib p comment).0 in
      elim (token_get-outcome lib b p comment h) [
        | inl (e, g) ↦ rw (comment_handler, e) g
        | inr (e, g) ↦ elim (puller_iconv-outcome lib (b + 1) got s g) [
          | inl (f, k) ↦
              rw (comment_handler, e, f) (token_release-Balanced lib b (puller_iconv lib got s).0 k)
          | inr (t, f, k) ↦
              rw (comment_handler, e, f)
                (token_enqueue-Balanced lib b (puller_iconv lib got s).0
                  (record (placed_token lib got comment) { content = some t })
                  (recount (b + 1 + 1) (b + 2) _ (omega arith) k))
        ]
      ]

  pub proc_inst_handler-Balanced :
      (b : ℕ) (p : Puller C P) (t s : Bytes)
      → Balanced b p
      → Balanced b (proc_inst_handler lib p t s)
  unfolding proc_inst_handler content_blocks
  proc_inst_handler-Balanced b p t s h =
      let got = (token_get lib p proc_inst).0 in
      let named = (puller_iconv lib got t).0 in
      elim (token_get-outcome lib b p proc_inst h) [
        | inl (e, g) ↦ rw (proc_inst_handler, e) g
        | inr (e, g) ↦ elim (puller_iconv-outcome lib (b + 1) got t g) [
          | inl (f, k) ↦ rw (proc_inst_handler, e, f) (token_release-Balanced lib b named k)
          | inr (n, f, k) ↦ elim (puller_iconv-outcome lib (b + 1 + 1) named s k) [
            | inl (i, j) ↦
                rw (proc_inst_handler, e, f, i)
                  (free_token_data-Balanced lib b (puller_iconv lib named s).0
                    (record (placed_token lib got proc_inst) { name = some n })
                    (recount (b + 1 + 1) (b + 2) _ (omega arith) j))
            | inr (d, i, j) ↦
                rw (proc_inst_handler, e, f, i)
                  (token_enqueue-Balanced lib b (puller_iconv lib named s).0
                    (record (placed_token lib got proc_inst) { name = some n; content = some d })
                    (recount (b + 1 + 1 + 1) (b + 3) _ (omega arith) j))
          ]
        ]
      ]

  -- The flag is `true` where the string is there or was NULL.
  optional_iconv-outcome :
      (b : ℕ) (p : Puller C P) (o : Option Bytes)
      → Balanced b p
      → Balanced (b + bit (is_some (optional_iconv lib p o).1)) (optional_iconv lib p o).0
        × (((optional_iconv lib p o).2 ≡ true)
            ⊎ (((optional_iconv lib p o).2 ≡ false) × ((optional_iconv lib p o).1 ≡ none)))
  unfolding optional_iconv
  optional_iconv-outcome b p none h = (recount b (b + 0) p (omega arith) h, inl refl)
  optional_iconv-outcome b p (some s) h = elim (puller_iconv-outcome lib b p s h) [
    | inl (e, g) ↦
        rw (optional_iconv, e)
          (recount b (b + 0) (puller_iconv lib p s).0 (omega arith) g, inr (refl, refl))
    | inr (t, e, g) ↦ rw (optional_iconv, e) (g, inl refl)
  ]

  pub decl_handler-Balanced :
      (b : ℕ) (p : Puller C P) (v e : Option Bytes) (n : Option ℕ)
      → Balanced b p
      → Balanced b (decl_handler lib p v e n)
  unfolding decl_handler content_blocks
  decl_handler-Balanced b p v e n h =
      let got = (token_get lib p decl).0 in
      let version = optional_iconv lib got v in
      let encoding = optional_iconv lib (version.0) e in
      let named = record (placed_token lib got decl) { name = version.1 } in
      elim (token_get-outcome lib b p decl h) [
        | inl (x, g) ↦ rw (decl_handler, x) g
        | inr (x, g) ↦
            let (k, flag) = optional_iconv-outcome (b + 1) got v g in
            let (j, second) =
              optional_iconv-outcome (b + 1 + bit (is_some version.1)) (version.0) e k in
            elim flag [
              | inr (failed, missing) ↦
                  rw (decl_handler, x, failed)
                    (token_release-Balanced lib b (version.0)
                      (recount _ (b + 1) _ (omega (arith, ap (λ o. bit (is_some o)) missing)) k))
              | inl fine ↦ elim second [
                | inr (failed, missing) ↦
                    rw (decl_handler, x, fine, failed)
                      (free_token_data-Balanced lib b (encoding.0) named (
                        recount _ (b + found (some named)) _
                          (omega (arith, ap (λ o. bit (is_some o)) missing)) j))
                | inl fine_too ↦
                    let whole = record named { content = encoding.1; number = n } in
                    rw (decl_handler, x, fine, fine_too)
                      (token_enqueue-Balanced lib b (encoding.0) whole
                        (recount _ (b + found (some whole)) _ (omega arith) j))
              ]
            ]
      ]

  pub start_doct_handler-Balanced :
      (b : ℕ) (p : Puller C P) (n : Bytes) (s i : Option Bytes) (k : ℕ)
      → Balanced b p
      → Balanced b (start_doct_handler lib p n s i k)
  unfolding start_doct_handler content_blocks
  start_doct_handler-Balanced b p n s i k h =
      let got = (token_get lib p start_doct).0 in
      let doctype = puller_iconv lib got n in
      let sys = optional_iconv lib (doctype.0) s in
      let pub_id = optional_iconv lib (sys.0) i in
      elim (token_get-outcome lib b p start_doct h) [
        | inl (x, g) ↦ rw (start_doct_handler, x) g
        | inr (x, g) ↦ elim (puller_iconv-outcome lib (b + 1) got n g) [
          | inl (y, a) ↦ rw (start_doct_handler, x, y) (token_release-Balanced lib b (doctype.0) a)
          | inr (t, y, a) ↦
              let (c, flag) = optional_iconv-outcome (b + 1 + 1) (doctype.0) s a in
              let (d, second) =
                optional_iconv-outcome (b + 1 + 1 + bit (is_some sys.1)) (sys.0) i c in
              let named = record (placed_token lib got start_doct) { name = some t } in
              let placed = record named { content = sys.1 } in
              elim flag [
                | inr (failed, missing) ↦
                    rw (start_doct_handler, x, y, failed)
                      (free_token_data-Balanced lib b (sys.0) named (
                        recount _ (b + found (some named)) _
                          (omega (arith, ap (λ o. bit (is_some o)) missing)) c))
                | inl fine ↦ elim second [
                  | inr (failed, missing) ↦
                      rw (start_doct_handler, x, y, fine, failed)
                        (free_token_data-Balanced lib b (pub_id.0) placed (
                          recount _ (b + found (some placed)) _
                            (omega (arith, ap (λ o. bit (is_some o)) missing)) d))
                  | inl fine_too ↦
                      let whole = record placed { pubid = pub_id.1; number = some k } in
                      rw (start_doct_handler, x, y, fine, fine_too)
                        (token_enqueue-Balanced lib b (pub_id.0) whole
                          (recount _ (b + found (some whole)) _ (omega arith) d))
                ]
              ]
        ]
      ]
