-- ===== src/Xml/Puller/Calm.antt =====
-- xml/xml_puller.c: the handlers where memory is granted and there is no converter.
use gawkextlib.Common.{
  ℕ, ◌+◌, ◌≡◌, refl, true, inl, inr, none, some, List, [], ◌∷◌, ◌++◌, append-nil, Bytes, length,
  ◌==◌, if◌then◌else◌, Bool-cases, ℕ-cases, arith,
}
use gawkextlib.Xml.Puller.Handlers.{end_element_handler, comment_handler}
use gawkextlib.Xml.Puller.Tokens.{
  new_token, placed_token, token_get_internal, token_enqueue, flush_pending, flush_if_pending,
  token_get, token_insert_no_data,
}
use gawkextlib.Xml.Puller.{
  Kind, end_element, comment, Token, Memory, Puller, Libraries, token_size, request, current_row,
  current_col, copy_string, convert, done, puller_iconv,
}

pub empty_lem : (s : Bytes) → (length s == 0) ≡ true → s ≡ []
empty_lem [] h = refl
empty_lem (c ∷ s) h = absurd (ground arith)

-- The token of the data that are pending.
unfoldable pub pending : {C P : Type 0} → Puller C P → List Token
pending p =
    if length p.cdata == 0
    then []
    else record (new_token p.cdata_kind) {
      content = some p.cdata;
      row = p.row;
      col = p.col;
      len = p.len;
    }
      ∷ []

module _ {C P : Type 0} (lib : Libraries C P)
    (granted : (n size : ℕ) → lib.grants n size ≡ true) where
  -- Nothing has failed, and strings are copied as they are.
  pub record Calm (p : Puller C P) : Type 0 where
    pub fine : p.status_ok ≡ true
    pub plain : p.converter ≡ none

  pub request_lem :
      (size : ℕ) (m : Memory)
      → request lib.grants size m ≡ (record { live = m.live + 1; calls = m.calls + 1 }, true)
  unfolding request
  request_lem size m = rw (request, granted m.calls size) refl

  abbrev pub next_memory : Memory → Memory
  next_memory m = record { live = m.live + 1; calls = m.calls + 1 }

  convert_lem :
      (p : Puller C P) (s : Bytes)
      → p.converter ≡ none
      → convert lib p s ≡ (record p { memory = next_memory p.memory }, done s)
  unfolding convert copy_string
  convert_lem p s plain = ground (arith, request_lem (length s + 1) p.memory)

  pub puller_iconv_lem :
      (p : Puller C P) (s : Bytes)
      → p.converter ≡ none
      → puller_iconv lib p s ≡ (record p { memory = next_memory p.memory }, some s)
  unfolding puller_iconv
  puller_iconv_lem p s plain = ground (arith, convert_lem p s plain)

  token_get_internal_lem :
      (p : Puller C P) (kind : Kind)
      → p.status_ok ≡ true
      → (m : Memory) × (f : ℕ) × (token_get_internal lib p kind
          ≡ (record p { memory = m; free_list = f }, some (new_token kind)))
  unfolding token_get_internal
  token_get_internal_lem p kind fine = elim (ℕ-cases p.free_list) [
    | inl e ↦ (
      (request lib.grants token_size p.memory).0,
      p.free_list,
      ground (arith, request_lem token_size p.memory),
    )
    | inr (n, e) ↦ (p.memory, n, ground arith)
  ]

  pub flush_if_pending_lem :
      (p : Puller C P)
      → Calm p
      → (m : Memory) × (f : ℕ) × (flush_if_pending lib p ≡ (
        record p { memory = m; free_list = f; cdata = []; queue = p.queue ++ pending p },
        true,
      ))
  unfolding flush_if_pending flush_pending pending token_enqueue
  flush_if_pending_lem p calm = elim (Bool-cases (length p.cdata == 0)) [
    | inl e ↦ (p.memory, p.free_list, ground (arith, append-nil p.queue, empty_lem p.cdata e))
    | inr e ↦
        let (m, f, got) = token_get_internal_lem p p.cdata_kind calm.fine in
        let next : Puller C P = record p { memory = m; free_list = f } in
        (next_memory m, f, ground (arith, puller_iconv_lem next p.cdata calm.plain))
  ]

  pub token_get_lem :
      (p : Puller C P) (kind : Kind)
      → Calm p
      → (m : Memory) × (f : ℕ) × (token_get lib p kind ≡ (
        record p { memory = m; free_list = f; cdata = []; queue = p.queue ++ pending p },
        some (placed_token lib p kind),
      ))
  unfolding token_get current_row current_col
  token_get_lem p kind calm =
      let (m, f, flushed) = flush_if_pending_lem p calm in
      let next : Puller C P = record p {
        memory = m;
        free_list = f;
        cdata = [];
        queue = p.queue ++ pending p;
      } in
      let (n, g, got) = token_get_internal_lem next kind calm.fine in
      (n, g, ground (arith, flushed, got))

  -- What an event that is no text comes to: the pending data and a token are put to the queue.
  abbrev pub Puts : Puller C P → Token → Puller C P → Type 0
  Puts p tok q =
      (m : Memory) × (f o c n : ℕ) × (q ≡ record p {
        memory = m;
        free_list = f;
        cdata = [];
        queue = (p.queue ++ pending p) ++ tok ∷ [];
        opened = o;
        closed = c;
        elements = n;
      })

  pub token_insert_no_data-Puts :
      (p : Puller C P) (kind : Kind)
      → Calm p
      → Puts p (placed_token lib p kind) (token_insert_no_data lib p kind)
  unfolding token_insert_no_data token_enqueue
  token_insert_no_data-Puts p kind calm =
      let (m, f, got) = token_get_lem p kind calm in
      (m, f, p.opened, p.closed, p.elements, ground (arith, got))

  pub end_element_handler-Puts :
      (p : Puller C P) (n : Bytes)
      → Calm p
      → Puts p
          (record (placed_token lib p end_element) { name = some n })
          (end_element_handler lib p n)
  unfolding end_element_handler token_enqueue pending current_row current_col
  end_element_handler-Puts p n calm =
      let counted : Puller C P = record p { closed = p.closed + 1 } in
      let (m, f, got) =
        token_get_lem counted end_element (record { fine = calm.fine; plain = calm.plain }) in
      let next : Puller C P = record counted {
        memory = m;
        free_list = f;
        cdata = [];
        queue = p.queue ++ pending p;
      } in
      (
        next_memory m,
        f,
        p.opened,
        p.closed + 1,
        p.elements,
        ground (arith, got, puller_iconv_lem next n calm.plain),
      )

  -- The state behind `token_get`.
  abbrev pub got_puller : Puller C P → Memory → ℕ → Puller C P
  got_puller p m f = record p {
    memory = m;
    free_list = f;
    cdata = [];
    queue = p.queue ++ pending p;
  }

  pub comment_handler-Puts :
      (p : Puller C P) (s : Bytes)
      → Calm p
      → Puts p (record (placed_token lib p comment) { content = some s }) (comment_handler lib p s)
  unfolding comment_handler token_enqueue
  comment_handler-Puts p s calm =
      let (m, f, got) = token_get_lem p comment calm in
      (
        next_memory m,
        f,
        p.opened,
        p.closed,
        p.elements,
        ground (arith, got, puller_iconv_lem (got_puller p m f) s calm.plain),
      )
