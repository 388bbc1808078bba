-- ===== src/Xml/Puller/Lifetime.antt =====
-- xml/xml_puller.c: from XML_PullerCreate to XML_PullerFree each block of memory is accounted for.
use gawkextlib.Common.{ℕ, zero, suc, ◌-◌, ◌≡◌, true, inl, inr, List, [], ◌∷◌, Bool-cases, arith}
use gawkextlib.Xml.Puller.Balance.{token_blocks, owned, Balanced, release_block-live}
use gawkextlib.Xml.Puller.Control.{
  xml_puller_enable, xml_puller_disable, free_token_list, free_blocks, to_list, xml_puller_free,
}
use gawkextlib.Xml.Puller.Leaks.{free_token_contents-live}
use gawkextlib.Xml.Puller.Tokens.{free_token_contents}
use gawkextlib.Xml.Puller.{Kinds, chardata, Token, Memory, Puller, release_block, is_some}

free_token_list-live :
    (l : List Token) (m : Memory) → (free_token_list l m).live ≡ m.live - token_blocks l
unfolding free_token_list token_blocks
free_token_list-live [] m = ground arith
free_token_list-live (tok ∷ rest) m =
    let contents = free_token_contents tok m in
    omega (
      arith,
      free_token_list-live rest (release_block true contents),
      release_block-live true contents,
      free_token_contents-live tok m,
    )

free_blocks-live : (n : ℕ) (m : Memory) → (free_blocks n m).live ≡ m.live - n
unfolding free_blocks
free_blocks-live zero m = ground arith
free_blocks-live (suc n) m =
    omega (arith, free_blocks-live n (release_block true m), release_block-live true m)

module _ {C P : Type 0} where
  -- XML_PullerFree gives back all that the puller has, and nothing else.
  pub xml_puller_free-live : (b : ℕ) (p : Puller C P) → Balanced b p → (xml_puller_free p).live ≡ b
  unfolding xml_puller_free owned
  xml_puller_free-live b p h =
      let m₁ = release_block true p.memory in
      let m₂ = free_token_list (to_list p.to_be_freed) m₁ in
      let m₃ = free_token_list p.queue m₂ in
      let m₄ = free_blocks p.free_list m₃ in
      let m₅ = release_block p.cdata_buf m₄ in
      let m₆ = release_block p.conv_buf m₅ in
      let m₇ = release_block (is_some p.error) m₆ in
      omega (
        arith,
        h.balance,
        release_block-live true p.memory,
        free_token_list-live (to_list p.to_be_freed) m₁,
        free_token_list-live p.queue m₂,
        free_blocks-live p.free_list m₃,
        release_block-live p.cdata_buf m₄,
        release_block-live p.conv_buf m₅,
        release_block-live (is_some p.error) m₆,
        release_block-live true m₇,
      )

  xml_puller_enable-Balanced :
      (b : ℕ) (p : Puller C P) (mask : Kinds) → Balanced b p → Balanced b (xml_puller_enable p mask)
  unfolding xml_puller_enable owned
  xml_puller_enable-Balanced b p mask h = record { balance = h.balance; no_message = h.no_message }

  -- The buffer of the character data is freed when they are no longer wanted.
  pub xml_puller_disable-Balanced :
      (b : ℕ) (p : Puller C P) (mask : Kinds)
      → Balanced b p
      → Balanced b (xml_puller_disable p mask)
  unfolding xml_puller_disable owned
  xml_puller_disable-Balanced b p mask h =
      let live = release_block-live p.cdata_buf p.memory in
      elim (Bool-cases (mask chardata)) [
        | inl e ↦
            rw (xml_puller_disable, e)
              (record { balance = omega (arith, h.balance); no_message = h.no_message })
        | inr e ↦
            rw (xml_puller_disable, e) (record { balance = h.balance; no_message = h.no_message })
      ]
