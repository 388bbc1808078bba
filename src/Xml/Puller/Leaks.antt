-- ===== src/Xml/Puller/Leaks.antt =====
-- xml/xml_puller.c: the handlers lose no block of memory.
use mathlib.Core.Path.{subst}
use gawkextlib.Common.{
  ℕ, ◌+◌, ◌-◌, ◌≡◌, refl, not, ◌⊎◌, inl, inr, Option, none, some, List, [], ◌∷◌, Bytes, length,
  ◌==◌, Bool-cases, Option-cases, arith,
}
use gawkextlib.Xml.Puller.Balance.{
  bit, attribute_blocks, content_blocks, token_blocks, owned, Balanced, token_blocks-append, found,
  release_block-live,
}
use gawkextlib.Xml.Puller.Reports.{puller_iconv-Balanced, token_get_internal-Balanced}
use gawkextlib.Xml.Puller.Tokens.{
  new_token, placed_token, is_empty, token_get_internal, token_release, token_enqueue,
  free_token_data, free_token_contents, release_attributes, flush_pending, flush_if_pending,
  token_get,
}
use gawkextlib.Xml.Puller.{
  Kind, Attribute, Token, Memory, Puller, Libraries, release_block, is_some, puller_iconv,
}

release_attributes-live :
    (attrs : List Attribute) (m : Memory)
    → (release_attributes attrs m).live ≡ m.live - attribute_blocks attrs
unfolding release_attributes
release_attributes-live [] m = ground arith
release_attributes-live (a ∷ rest) m =
    let named = release_block (is_some a.name) m in
    omega (
      arith,
      release_attributes-live rest (release_block (is_some a.value) named),
      release_block-live (is_some a.value) named,
      release_block-live (is_some a.name) m,
    )

pub free_token_contents-live :
    (tok : Token) (m : Memory) → (free_token_contents tok m).live ≡ m.live - content_blocks tok
unfolding free_token_contents content_blocks
free_token_contents-live tok m =
    let named = release_block (is_some tok.name) m in
    let attributes = release_attributes tok.attr named in
    let block = release_block (not (is_empty tok.attr)) attributes in
    let content = release_block (is_some tok.content) block in
    omega (
      arith,
      release_block-live (is_some tok.name) m,
      release_attributes-live tok.attr named,
      release_block-live (not (is_empty tok.attr)) attributes,
      release_block-live (is_some tok.content) block,
      release_block-live (is_some tok.pubid) content,
    )

module _ {C P : Type 0} (lib : Libraries C P) where
  pub token_release-Balanced :
      (b : ℕ) (p : Puller C P) → Balanced (b + 1) p → Balanced b (token_release lib p)
  unfolding token_release owned
  token_release-Balanced b p h = record {
    balance = omega (arith, h.balance);
    no_message = h.no_message;
  }

  pub token_enqueue-Balanced :
      (b : ℕ) (p : Puller C P) (tok : Token)
      → Balanced (b + found (some tok)) p
      → Balanced b (token_enqueue lib p tok)
  unfolding token_enqueue owned token_blocks
  token_enqueue-Balanced b p tok h = record {
    balance = omega (arith, h.balance, token_blocks-append p.queue (tok ∷ []));
    no_message = h.no_message;
  }

  pub free_token_data-Balanced :
      (b : ℕ) (p : Puller C P) (tok : Token)
      → Balanced (b + found (some tok)) p
      → Balanced b (free_token_data lib p tok)
  unfolding free_token_data token_release owned
  free_token_data-Balanced b p tok h = record {
    balance = omega (arith, h.balance, free_token_contents-live tok p.memory);
    no_message = h.no_message;
  }

  token_get_internal-cases :
      (p : Puller C P) (k : Kind)
      → ((token_get_internal lib p k).1 ≡ none)
        ⊎ ((token_get_internal lib p k).1 ≡ some (new_token k))
  unfolding token_get_internal
  token_get_internal-cases p k = ground arith

  token_get_internal-outcome :
      (b : ℕ) (p : Puller C P) (k : Kind)
      → Balanced b p
      → (((token_get_internal lib p k).1 ≡ none) × Balanced b (token_get_internal lib p k).0)
        ⊎ (((token_get_internal lib p k).1 ≡ some (new_token k))
            × Balanced (b + 1) (token_get_internal lib p k).0)
  unfolding content_blocks
  token_get_internal-outcome b p k h =
      let q = (token_get_internal lib p k).0 in
      let g = token_get_internal-Balanced lib b p k h in
      elim (token_get_internal-cases p k) [
        | inl e ↦
            let r = subst (λ (o : Option Token). Balanced (b + found o) q) e g in
            inl (e, record { balance = omega (arith, r.balance); no_message = r.no_message })
        | inr e ↦ inr (e, subst (λ (o : Option Token). Balanced (b + found o) q) e g)
      ]

  pub puller_iconv-outcome :
      (b : ℕ) (p : Puller C P) (s : Bytes)
      → Balanced b p
      → (((puller_iconv lib p s).1 ≡ none) × Balanced b (puller_iconv lib p s).0)
        ⊎ ((t : Bytes) × ((puller_iconv lib p s).1 ≡ some t)
            × Balanced (b + 1) (puller_iconv lib p s).0)
  puller_iconv-outcome b p s h =
      let q = (puller_iconv lib p s).0 in
      let g = puller_iconv-Balanced lib b p s h in
      elim (Option-cases (puller_iconv lib p s).1) [
        | inl e ↦
            let r = subst (λ (o : Option Bytes). Balanced (b + bit (is_some o)) q) e g in
            inl (e, record { balance = omega (arith, r.balance); no_message = r.no_message })
        | inr (t, e) ↦
            inr (t, e, subst (λ (o : Option Bytes). Balanced (b + bit (is_some o)) q) e g)
      ]

  flush_pending-Balanced :
      (b : ℕ) (p : Puller C P) → Balanced b p → Balanced b (flush_pending lib p).0
  unfolding flush_pending owned content_blocks
  flush_pending-Balanced b p h =
      let got = token_get_internal lib p p.cdata_kind in
      let r = puller_iconv lib (got.0) p.cdata in
      elim (token_get_internal-outcome b p p.cdata_kind h) [
        | inl (e, g) ↦
            rw (flush_pending, e) (record { balance = g.balance; no_message = g.no_message })
        | inr (e, g) ↦ elim (puller_iconv-outcome (b + 1) (got.0) p.cdata g) [
          | inl (f, k) ↦
              rw (flush_pending, e, f)
                (token_release-Balanced b
                  (record (r.0) { cdata = []; row = p.row; col = p.col; len = p.len })
                  (record { balance = k.balance; no_message = k.no_message }))
          | inr (t, f, k) ↦
              rw (flush_pending, e, f)
                (token_enqueue-Balanced b (record (r.0) { cdata = [] })
                  (record (new_token p.cdata_kind) {
                    content = some t;
                    row = p.row;
                    col = p.col;
                    len = p.len;
                  })
                  (record { balance = omega (arith, k.balance); no_message = k.no_message }))
        ]
      ]

  pub flush_if_pending-Balanced :
      (b : ℕ) (p : Puller C P) → Balanced b p → Balanced b (flush_if_pending lib p).0
  unfolding flush_if_pending
  flush_if_pending-Balanced b p h = elim (Bool-cases (length p.cdata == 0)) [
    | inl e ↦ rw (flush_if_pending, e) h
    | inr e ↦ rw (flush_if_pending, e) (flush_pending-Balanced b p h)
  ]

  pub token_get-outcome :
      (b : ℕ) (p : Puller C P) (k : Kind)
      → Balanced b p
      → (((token_get lib p k).1 ≡ none) × Balanced b (token_get lib p k).0)
        ⊎ (((token_get lib p k).1 ≡ some (placed_token lib (token_get lib p k).0 k))
            × Balanced (b + 1) (token_get lib p k).0)
  unfolding token_get
  token_get-outcome b p k h =
      let flushed = flush_if_pending lib p in
      let f = flush_if_pending-Balanced b p h in
      elim (Bool-cases (flushed.1)) [
        | inr failed ↦ rw (token_get, failed) (inl (refl, f))
        | inl fine ↦ elim (token_get_internal-outcome b (flushed.0) k f) [
          | inl (e, g) ↦ rw (token_get, fine, e) (inl (refl, g))
          | inr (e, g) ↦ rw (token_get, fine, e) (inr (refl, g))
        ]
      ]
