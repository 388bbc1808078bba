-- ===== src/Xml/Puller/Text.antt =====
-- xml/xml_puller.c: the text that is pending, where memory is granted and there is no converter.
use gawkextlib.Common.{
  ℕ, ◌+◌, ◌≡◌, refl, sym, ap, ◌∙◌, Bool, true, false, ◌||◌, inl, inr, some, List, [], ◌∷◌, ◌++◌,
  append-nil, Bytes, length, length-append, ltb, ◌==◌, if◌then◌else◌, Bool-cases, arith,
}
use gawkextlib.Xml.Puller.Calm.{pending, Calm, empty_lem, flush_if_pending_lem}
use gawkextlib.Xml.Puller.Merge.{join}
use gawkextlib.Xml.Puller.Tokens.{
  same_kind, placed_token, place_pending, grow_cdata, append_pending, add_pending,
}
use gawkextlib.Xml.Puller.{Kind, Token, Memory, Puller, Libraries, current_row, current_col}

-- What text does to the queue and the pending token.
abbrev pub adds : List Token → List Token → Token → List Token × List Token
adds queue [] tok = (queue, tok ∷ [])
adds queue (t ∷ rest) tok =
    if same_kind t.kind tok.kind then (queue, join t tok ∷ []) else (queue ++ t ∷ rest, tok ∷ [])

module _ {C P : Type 0} (lib : Libraries C P)
    (granted : (n size : ℕ) → lib.grants n size ≡ true) where
  grow_cdata_lem :
      (p : Puller C P) (n : ℕ)
      → (m : Memory) × (b : Bool) × (z : ℕ) × (grow_cdata lib p n
          ≡ (record p { memory = m; cdata_buf = b; cdata_bufsize = z }, true))
  unfolding grow_cdata
  grow_cdata_lem p n = elim (Bool-cases (ltb p.cdata_bufsize (length p.cdata + n))) [
    | inl e ↦ (
      record {
        live = if p.cdata_buf then p.memory.live else p.memory.live + 1;
        calls = p.memory.calls + 1;
      },
      true,
      p.cdata_bufsize + length p.cdata + n,
      ground (arith, granted p.memory.calls (p.cdata_bufsize + length p.cdata + n)),
    )
    | inr e ↦ (p.memory, p.cdata_buf, p.cdata_bufsize, ground arith)
  ]

  append_pending_lem :
      (p : Puller C P) (kind : Kind) (s : Bytes)
      → (m : Memory) × (b : Bool) × (z : ℕ) × (append_pending lib p kind s
          ≡ record (place_pending lib p kind) {
            memory = m;
            cdata_buf = b;
            cdata_bufsize = z;
            cdata = p.cdata ++ s;
          })
  unfolding append_pending place_pending
  append_pending_lem p kind s =
      let (m, b, z, grown) = grow_cdata_lem (place_pending lib p kind) (length s) in
      (m, b, z, ground (arith, grown))

  -- What `add_pending` leaves.
  pub record Adds (p : Puller C P) (tok : Token) (q : Puller C P) : Type 0 where
    pub calm : Calm lib granted q
    pub same_row : q.prev_last_row ≡ p.prev_last_row
    pub same_col : q.prev_last_col ≡ p.prev_last_col
    pub added : (q.queue, pending q) ≡ adds p.queue (pending p) tok

  abbrev text_token : Puller C P → Kind → Bytes → Token
  text_token p kind s = record (placed_token lib p kind) { content = some s }

  append_pending-Calm :
      (p : Puller C P) (kind : Kind) (s : Bytes)
      → Calm lib granted p
      → Calm lib granted (append_pending lib p kind s)
  unfolding place_pending
  append_pending-Calm p kind s calm =
      let (m, b, z, e) = append_pending_lem p kind s in
      let fine = calm.fine in
      let plain = calm.plain in record { fine = ground (arith, e); plain = ground (arith, e) }

  append_pending-row :
      (p : Puller C P) (kind : Kind) (s : Bytes)
      → (append_pending lib p kind s).prev_last_row ≡ p.prev_last_row
  unfolding place_pending
  append_pending-row p kind s = let (m, b, z, e) = append_pending_lem p kind s in ground (arith, e)

  append_pending-col :
      (p : Puller C P) (kind : Kind) (s : Bytes)
      → (append_pending lib p kind s).prev_last_col ≡ p.prev_last_col
  unfolding place_pending
  append_pending-col p kind s = let (m, b, z, e) = append_pending_lem p kind s in ground (arith, e)

  -- The text goes to what is pending, if that is of its kind.
  append_pending-Adds :
      (p : Puller C P) (kind : Kind) (s : Bytes)
      → Calm lib granted p
      → (length s == 0) ≡ false
      → (same_kind p.cdata_kind kind || length p.cdata == 0) ≡ true
      → Adds p (text_token p kind s) (append_pending lib p kind s)
  unfolding place_pending pending
  append_pending-Adds p kind s calm nonempty fits =
      let (m, b, z, e) = append_pending_lem p kind s in
      record {
        calm = append_pending-Calm p kind s calm;
        same_row = append_pending-row p kind s;
        same_col = append_pending-col p kind s;
        added = elim (Bool-cases (length p.cdata == 0)) [
          | inl empty ↦ ground (arith, e, empty_lem p.cdata empty)
          | inr full ↦ ground (arith, e, length-append p.cdata s)
        ];
      }

  -- Text of another kind follows what was pending.
  adds-apart :
      (p : Puller C P) (tok : Token)
      → same_kind p.cdata_kind tok.kind ≡ false
      → adds p.queue (pending p) tok ≡ (p.queue ++ pending p, tok ∷ [])
  unfolding pending
  adds-apart p tok other = elim (Bool-cases (length p.cdata == 0)) [
    | inl e ↦ rw (pending, e) (ap (λ l. (l, tok ∷ [])) (sym (append-nil p.queue)))
    | inr e ↦ rw (pending, e, other) refl
  ]

  pub add_pending-Adds :
      (p : Puller C P) (kind : Kind) (s : Bytes)
      → Calm lib granted p
      → (length s == 0) ≡ false
      → Adds p (text_token p kind s) (add_pending lib p kind s)
  unfolding add_pending current_row current_col pending
  add_pending-Adds p kind s calm nonempty = elim (Bool-cases (same_kind p.cdata_kind kind)) [
    | inl same ↦
        let a = append_pending-Adds p kind s calm nonempty (ground arith) in
        let run : add_pending lib p kind s ≡ append_pending lib p kind s =
          ground (arith, calm.fine) in
        rw run a
    | inr other ↦
        let (m, f, flushed) = flush_if_pending_lem lib granted p calm in
        let q : Puller C P = record p {
          memory = m;
          free_list = f;
          cdata = [];
          queue = p.queue ++ pending p;
        } in
        let a =
          append_pending-Adds q kind s (record { fine = calm.fine; plain = calm.plain }) nonempty
            (ground arith) in
        let run : add_pending lib p kind s ≡ append_pending lib q kind s =
          ground (arith, flushed, calm.fine) in
        rw run (record {
          calm = a.calm;
          same_row = a.same_row;
          same_col = a.same_col;
          added = a.added ∙ sym (adds-apart p (text_token p kind s) other);
        })
  ]
