-- ===== src/Xml/Puller/CalmHandlers.antt =====
-- xml/xml_puller.c: the handlers with several strings, where memory is granted.
use gawkextlib.Common.{
  ℕ, ◌+◌, ◌*◌, ◌≡◌, refl, true, Option, none, some, List, [], ◌∷◌, ◌++◌, Bytes, length, arith,
}
use gawkextlib.Xml.Puller.Handlers.{
  optional_iconv, convert_attributes, fill_attributes, start_element_handler, proc_inst_handler,
  decl_handler, start_doct_handler,
}
use gawkextlib.Xml.Puller.Merge.{attributes}
use gawkextlib.Xml.Puller.Tokens.{placed_token, token_enqueue}
use gawkextlib.Xml.Puller.{
  attribute_size, start_element, proc_inst, decl, start_doct, Token, Memory, Puller, Libraries,
  current_row, current_col,
}
use gawkextlib.Xml.Puller.Calm.{
  Calm, Puts, got_puller, next_memory, pending, puller_iconv_lem, request_lem, token_get_lem,
}

module _ {C P : Type 0} (lib : Libraries C P)
    (granted : (n size : ℕ) → lib.grants n size ≡ true) where
  pub proc_inst_handler-Puts :
      (p : Puller C P) (t s : Bytes)
      → Calm lib granted p
      → Puts lib granted p
          (record (placed_token lib p proc_inst) { name = some t; content = some s })
          (proc_inst_handler lib p t s)
  unfolding proc_inst_handler token_enqueue
  proc_inst_handler-Puts p t s calm =
      let (m, f, got) = token_get_lem lib granted p proc_inst calm in
      (
        next_memory lib granted (next_memory lib granted m),
        f,
        p.opened,
        p.closed,
        p.elements,
        ground (
          arith,
          got,
          puller_iconv_lem lib granted (got_puller lib granted p m f) t calm.plain,
          puller_iconv_lem lib granted (got_puller lib granted p (next_memory lib granted m) f) s
              calm.plain,
        ),
      )

  optional_iconv_lem :
      (p : Puller C P) (o : Option Bytes)
      → p.converter ≡ none
      → (m : Memory) × (optional_iconv lib p o ≡ (record p { memory = m }, o, true))
  unfolding optional_iconv
  optional_iconv_lem p none plain = (p.memory, refl)
  optional_iconv_lem p (some s) plain =
      (next_memory lib granted p.memory, ground (arith, puller_iconv_lem lib granted p s plain))

  pub decl_handler-Puts :
      (p : Puller C P) (v e : Option Bytes) (n : Option ℕ)
      → Calm lib granted p
      → Puts lib granted p
          (record (placed_token lib p decl) { name = v; content = e; number = n })
          (decl_handler lib p v e n)
  unfolding decl_handler token_enqueue
  decl_handler-Puts p v e n calm =
      let (m, f, got) = token_get_lem lib granted p decl calm in
      let (m₁, version) = optional_iconv_lem (got_puller lib granted p m f) v calm.plain in
      let (m₂, encoding) = optional_iconv_lem (got_puller lib granted p m₁ f) e calm.plain in
      (m₂, f, p.opened, p.closed, p.elements, ground (arith, got, version, encoding))

  pub start_doct_handler-Puts :
      (p : Puller C P) (n : Bytes) (s i : Option Bytes) (k : ℕ)
      → Calm lib granted p
      → Puts lib granted p
          (record (placed_token lib p start_doct) {
            name = some n;
            content = s;
            pubid = i;
            number = some k;
          })
          (start_doct_handler lib p n s i k)
  unfolding start_doct_handler token_enqueue
  start_doct_handler-Puts p n s i k calm =
      let (m, f, got) = token_get_lem lib granted p start_doct calm in
      let named = puller_iconv_lem lib granted (got_puller lib granted p m f) n calm.plain in
      let (m₁, sysid) =
        optional_iconv_lem (got_puller lib granted p (next_memory lib granted m) f) s calm.plain in
      let (m₂, pubid) = optional_iconv_lem (got_puller lib granted p m₁ f) i calm.plain in
      (m₂, f, p.opened, p.closed, p.elements, ground (arith, got, named, sysid, pubid))

  convert_attributes_lem :
      (p : Puller C P) (attrs : List (Bytes × Bytes))
      → p.converter ≡ none
      → (m : Memory) × (convert_attributes lib p attrs
          ≡ (record p { memory = m }, attributes attrs, true))
  unfolding convert_attributes
  convert_attributes_lem p [] plain = (p.memory, refl)
  convert_attributes_lem p ((n, v) ∷ rest) plain =
      let name = puller_iconv_lem lib granted p n plain in
      let value =
        puller_iconv_lem lib granted (record p { memory = next_memory lib granted p.memory }) v
          plain in
      let (m, more) =
        convert_attributes_lem
          (record p { memory = next_memory lib granted (next_memory lib granted p.memory) }) rest
          plain in
      (m, ground (arith, name, value, more))

  fill_attributes_lem :
      (p : Puller C P) (tok : Token) (attrs : List (Bytes × Bytes))
      → p.converter ≡ none
      → tok.attr ≡ []
      → (m : Memory) × (fill_attributes lib p tok attrs ≡ record p {
        memory = m;
        queue = p.queue ++ (record tok { attr = attributes attrs }) ∷ [];
      })
  unfolding fill_attributes token_enqueue
  fill_attributes_lem p tok [] plain none_yet = (p.memory, ground arith)
  fill_attributes_lem p tok (a ∷ rest) plain none_yet =
      let block = request_lem lib granted (length (a ∷ rest) * attribute_size) p.memory in
      let (m, filled) =
        convert_attributes_lem (record p { memory = next_memory lib granted p.memory }) (a ∷ rest)
          plain in
      (m, ground (arith, block, filled))

  pub start_element_handler-Puts :
      (p : Puller C P) (n : Bytes) (attrs : List (Bytes × Bytes))
      → Calm lib granted p
      → Puts lib granted p
          (record (placed_token lib p start_element) { name = some n; attr = attributes attrs })
          (start_element_handler lib p n attrs)
  unfolding start_element_handler pending current_row current_col
  start_element_handler-Puts p n attrs calm =
      let counted : Puller C P = record p { opened = p.opened + 1; elements = p.elements + 1 } in
      let (m, f, got) =
        token_get_lem lib granted counted start_element
          (record { fine = calm.fine; plain = calm.plain }) in
      let named = puller_iconv_lem lib granted (got_puller lib granted counted m f) n calm.plain in
      let (k, filled) =
        fill_attributes_lem (got_puller lib granted counted (next_memory lib granted m) f)
          (record (placed_token lib p start_element) { name = some n }) attrs calm.plain refl in
      (k, f, p.opened + 1, p.closed, p.elements + 1, ground (arith, got, named, filled))
