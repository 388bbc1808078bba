-- ===== src/Xml/Puller/Merge.antt =====
-- xml/xml_puller.c: the tokens that a document's events come to, said of the whole list of them.
use gawkextlib.Common.{
  ℕ, ◌+◌, ◌-◌, ◌≡◌, refl, ap, ◌∙◌, Bool, true, false, ◌&&◌, ◌||◌, inl, inr, Option, none, some,
  List, [], ◌∷◌, ◌++◌, append_assoc, Bytes, ◌==◌, if◌then◌else◌, Bool-cases, arith,
}
use gawkextlib.Xml.Puller.Handlers.{
  Event, start_element_event, end_element_event, chardata_event, start_cdata_event, end_cdata_event,
  end_doct_event, proc_inst_event, comment_event, decl_event, start_doct_event, unparsed_event,
}
use gawkextlib.Xml.Puller.Tokens.{same_kind, new_token}
use gawkextlib.Xml.Puller.{
  Kind, start_element, end_element, chardata, start_cdata, end_cdata, proc_inst, comment, decl,
  start_doct, end_doct, unparsed, Attribute, Token, Position,
}

-- The kinds whose data come in pieces.
abbrev pub is_text : Kind → Bool
is_text k = same_kind k chardata || same_kind k unparsed

abbrev pub attributes : List (Bytes × Bytes) → List Attribute
attributes [] = []
attributes ((n, v) ∷ rest) = record { name = some n; value = some v } ∷ attributes rest

-- The token of an event, without its place.
abbrev pub contents : Event → Token
contents (start_element_event n attr) = record (new_token start_element) {
  name = some n;
  attr = attributes attr;
}
contents (end_element_event n) = record (new_token end_element) { name = some n }
contents (chardata_event s) = record (new_token chardata) { content = some s }
contents start_cdata_event = new_token start_cdata
contents end_cdata_event = new_token end_cdata
contents end_doct_event = new_token end_doct
contents (proc_inst_event target s) = record (new_token proc_inst) {
  name = some target;
  content = some s;
}
contents (comment_event s) = record (new_token comment) { content = some s }
contents (decl_event version encoding standalone) = record (new_token decl) {
  name = version;
  content = encoding;
  number = standalone;
}
contents (start_doct_event n sysid pubid subset) = record (new_token start_doct) {
  name = some n;
  content = sysid;
  pubid = pubid;
  number = some subset;
}
contents (unparsed_event s) = record (new_token unparsed) { content = some s }

-- The token of an event in a document that starts at `row` and `col`.
abbrev pub event_token : ℕ → ℕ → Event × Position → Token
event_token row col (e, at) = record (contents e) {
  row = row + at.line - 1;
  col = if at.line == 1 then col + at.column else at.column + 1;
  len = at.byte_count;
}

abbrev pub joined : Option Bytes → Option Bytes → Option Bytes
joined none o = none
joined (some s) none = none
joined (some s) (some t) = some (s ++ t)

-- Two pieces of text that follow each other, at the place of the first.
abbrev pub join : Token → Token → Token
join t u = record t { content = joined t.content u.content; len = t.len + u.len }

abbrev pub merges : Token → Token → Bool
merges t u = is_text t.kind && same_kind t.kind u.kind

abbrev pub attach : Token → List Token → List Token
attach t [] = t ∷ []
attach t (u ∷ rest) = if merges t u then join t u ∷ rest else t ∷ u ∷ rest

-- Text of a kind that follows text of the same kind is put to it.
abbrev pub merge : List Token → List Token
merge [] = []
merge (t ∷ rest) = attach t (merge rest)

-- The tokens one by one, where `pending` waits for what follows it.
abbrev pub collect : Token → List Token → List Token
collect pending [] = pending ∷ []
collect pending (t ∷ rest) =
    let joins = collect (join pending t) rest in
    let apart = pending ∷ collect t rest in if merges pending t then joins else apart

joined_assoc : (x y z : Option Bytes) → joined (joined x y) z ≡ joined x (joined y z)
joined_assoc none y z = refl
joined_assoc (some x) none z = refl
joined_assoc (some x) (some y) none = refl
joined_assoc (some x) (some y) (some z) = ap some (append_assoc x y z)

join_assoc : (t u v : Token) → join (join t u) v ≡ join t (join u v)
join_assoc t u v = rw joined_assoc (ground arith)

attach-join :
    (t u : Token) (rest : List Token)
    → merges t u ≡ true
    → attach (join t u) rest ≡ attach t (attach u rest)
attach-join t u [] h = rw h refl
attach-join t u (v ∷ rest) h = elim (Bool-cases (merges u v)) [
  | inl e ↦
      let outer : merges t v ≡ true = ground arith in
      let inner : merges t (join u v) ≡ true = h in
      rw (e, outer, inner) (ap (λ l. l ∷ rest) (join_assoc t u v))
  | inr e ↦ let outer : merges t v ≡ false = ground arith in rw (e, outer, h) refl
]

attach-apart :
    (t u : Token) (rest : List Token)
    → merges t u ≡ false
    → t ∷ attach u rest ≡ attach t (attach u rest)
attach-apart t u [] h = rw h refl
attach-apart t u (v ∷ rest) h = elim (Bool-cases (merges u v)) [
  | inl e ↦ let apart : merges t (join u v) ≡ false = h in rw (e, apart) refl
  | inr e ↦ rw (e, h) refl
]

pub collect-merge :
    (pending : Token) (rest : List Token) → collect pending rest ≡ merge (pending ∷ rest)
collect-merge pending [] = refl
collect-merge pending (t ∷ rest) = elim (Bool-cases (merges pending t)) [
  | inl e ↦ rw e (collect-merge (join pending t) rest ∙ attach-join pending t (merge rest) e)
  | inr e ↦
      rw e (ap (λ l. pending ∷ l) (collect-merge t rest) ∙ attach-apart pending t (merge rest) e)
]
