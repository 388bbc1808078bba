-- ===== src/Xml/Puller/Reports.antt =====
-- xml/xml_puller.c: error reports, conversions and new tokens keep the account of the memory.
use mathlib.Core.Path.{subst}
use gawkextlib.Common.{
  ℕ, ◌+◌, ◌≡◌, refl, ap, ◌∙◌, true, false, inl, inr, none, some, Bytes, codes, take, Bool-cases,
  Option-cases, ℕ-cases, arith,
}
use gawkextlib.Xml.Puller.Tokens.{new_token, token_get_internal}
use gawkextlib.Xml.Puller.{
  Kind, Puller, Libraries, Converted, converted, request, is_some, token_size, convert, locate,
  internal_error, set_error, puller_iconv,
}
use gawkextlib.Xml.Puller.Balance.{
  Balanced, Converted-cases, bit, content_blocks, convert-Balanced, convert-message, found,
  locate-Balanced, locate-message, made, none_made, owned, put_message, request-live,
}

module _ {C P : Type 0} (lib : Libraries C P) where
  -- While there is no error there is no message.
  no_error : (b : ℕ) (p : Puller C P) → Balanced b p → p.status_ok ≡ true → p.error ≡ none
  no_error b p h fine = elim (Option-cases p.error) [
    | inl e ↦ e
    | inr (m, e) ↦ let n = h.no_message in absurd (ground arith)
  ]

  pub internal_error-Balanced :
      (b : ℕ) (p : Puller C P) (m : Bytes) → Balanced b p → Balanced b (internal_error lib p m)
  unfolding internal_error owned
  internal_error-Balanced b p m h = elim (Bool-cases p.status_ok) [
    | inr wrong ↦ let run : internal_error lib p m ≡ p = ground arith in rw run h
    | inl fine ↦
        let stopped : Puller C P = record p { status_ok = false } in
        let r = convert lib stopped m in
        let kept = convert-message lib stopped m in
        let run : internal_error lib p m ≡ locate lib (record (r.0) { error = converted (r.1) }) =
          ground arith in
        let c =
          convert-Balanced lib b stopped m (record { balance = h.balance; no_message = refl }) in
        rw run (
          locate-Balanced lib b (record (r.0) { error = converted (r.1) })
            (put_message lib b (r.0) (r.1) c (kept.1 ∙ no_error b p h fine) kept.0))
  ]

  pub set_error-Balanced :
      (b : ℕ) (x : P) (p : Puller C P) → Balanced b p → Balanced b (set_error lib x p)
  unfolding set_error owned
  set_error-Balanced b x p h = elim (Bool-cases p.status_ok) [
    | inr wrong ↦ let run : set_error lib x p ≡ p = ground arith in rw run h
    | inl fine ↦
        let stopped = locate lib (record p { status_ok = false }) in
        let r = convert lib stopped (take 255 (lib.error_text x)) in
        let kept = convert-message lib stopped (take 255 (lib.error_text x)) in
        let before : (stopped.status_ok ≡ false) × (stopped.error ≡ p.error) =
          locate-message lib (record p { status_ok = false }) in
        let run : set_error lib x p ≡ record (r.0) { error = converted (r.1) } = ground arith in
        let c = convert-Balanced lib b stopped (take 255 (lib.error_text x)) (
          locate-Balanced lib b (record p { status_ok = false })
            (record { balance = h.balance; no_message = refl })) in
        rw run (
          put_message lib b (r.0) (r.1) c (kept.1 ∙ before.1 ∙ no_error b p h fine)
            (kept.0 ∙ before.0))
  ]

  pub puller_iconv-Balanced :
      (b : ℕ) (p : Puller C P) (s : Bytes)
      → Balanced b p
      → Balanced (b + bit (is_some (puller_iconv lib p s).1)) (puller_iconv lib p s).0
  unfolding puller_iconv
  puller_iconv-Balanced b p s h =
      let q = (convert lib p s).0 in
      let c = convert-Balanced lib b p s h in
      let memory = codes "XML Puller: out of memory" in
      let conversion = codes "XML Puller: iconv failed" in
      elim (Converted-cases (convert lib p s).1) [
        | inl (t, e) ↦
            let run : puller_iconv lib p s ≡ (q, some t) = ground arith in
            rw run (subst (λ (r : Converted). Balanced (b + made r) q) e c)
        | inr (inl e) ↦
            let run : puller_iconv lib p s ≡ (internal_error lib q memory, none) = ground arith in
            rw run (
              internal_error-Balanced (b + 0) q memory
                (subst (λ (r : Converted). Balanced (b + made r) q) e c))
        | inr (inr e) ↦
            let run : puller_iconv lib p s ≡ (internal_error lib q conversion, none) =
              ground arith in
            rw run (
              internal_error-Balanced (b + 0) q conversion
                (subst (λ (r : Converted). Balanced (b + made r) q) e c))
      ]

  pub token_get_internal-Balanced :
      (b : ℕ) (p : Puller C P) (k : Kind)
      → Balanced b p
      → Balanced (b + found (token_get_internal lib p k).1) (token_get_internal lib p k).0
  unfolding token_get_internal owned content_blocks
  token_get_internal-Balanced b p k h = elim (Bool-cases p.status_ok) [
    | inr wrong ↦
        let run : token_get_internal lib p k ≡ (p, none) = ground arith in
        rw run (none_made lib b p h)
    | inl fine ↦ elim (ℕ-cases p.free_list) [
      | inr (n, e) ↦
          let run : token_get_internal lib p k ≡ (record p { free_list = n }, some (new_token k)) =
            ground arith in
          let balance = h.balance in
          rw run (record { balance = omega arith; no_message = h.no_message })
      | inl e ↦
          let r = request lib.grants token_size p.memory in
          let live = request-live lib.grants token_size p.memory in
          let q : Puller C P = record p { memory = r.0 } in
          let message = codes "XML Puller: out of memory" in
          let balance = h.balance in
          elim (Bool-cases (r.1)) [
            | inl g ↦
                let run : token_get_internal lib p k ≡ (q, some (new_token k)) = ground arith in
                rw run (record { balance = omega (arith, ap bit g); no_message = h.no_message })
            | inr g ↦
                let run : token_get_internal lib p k ≡ (internal_error lib q message, none) =
                  ground arith in
                rw run (
                  internal_error-Balanced (b + 0) q message
                    (record { balance = omega (arith, ap bit g); no_message = h.no_message }))
          ]
    ]
  ]
