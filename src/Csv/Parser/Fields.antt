-- ===== src/Csv/Parser/Fields.antt =====
-- csv/csv_parser.c: the record that a list of handler calls builds, and the order of those calls.
use gawkextlib.Common.{
  ℕ, ◌≡◌, refl, Bool, true, false, List, [], ◌∷◌, ◌++◌, Bytes, if◌then◌else◌, arith,
}
use gawkextlib.Csv.Parser.Machine.{
  Action, begin, end, put, report, move, last_actions, actions_from, actions,
}
use gawkextlib.Csv.Parser.{
  State, before_field, in_quoted_field, after_quote, in_unquoted_field, after_field, after_delim,
}

-- The completed fields, the field in the making, and whether there is one.
pub record Fields : Type 0 where
  pub completed : List Bytes
  pub current : Bytes
  pub is_open : Bool

abbrev pub no_fields : Fields
no_fields = record { completed = []; current = []; is_open = false }

abbrev pub apply : Action → Fields → Fields
apply begin o = record o { current = []; is_open = true }
apply end o = record o { completed = o.completed ++ o.current ∷ []; is_open = false }
apply (put c) o = record o { current = o.current ++ c ∷ [] }
apply (report m) o = o

unfoldable pub collect : List Action → Fields → Fields
collect [] o = o
collect (a ∷ acts) o = collect acts (apply a o)

pub collect-append :
    (xs ys : List Action) (o : Fields) → collect (xs ++ ys) o ≡ collect ys (collect xs o)
unfolding collect
collect-append [] ys o = refl
collect-append (a ∷ xs) ys o = collect-append xs ys (apply a o)

-- A field is begun outside a field, and filled and ended inside one; `b` says which holds first,
-- and `b'` which holds last.
abbrev pub Brackets : Bool → List Action → Bool → Type 0
Brackets b [] b' = b ≡ b'
Brackets b (begin ∷ acts) b' = (b ≡ false) × Brackets true acts b'
Brackets b (end ∷ acts) b' = (b ≡ true) × Brackets false acts b'
Brackets b (put c ∷ acts) b' = (b ≡ true) × Brackets true acts b'
Brackets b (report m ∷ acts) b' = Brackets b acts b'

pub Brackets-append :
    (xs ys : List Action) (a b c : Bool)
    → Brackets a xs b
    → Brackets b ys c
    → Brackets a (xs ++ ys) c
Brackets-append [] ys a b c h k = ground arith
Brackets-append (begin ∷ xs) ys a b c h k = (h.0, Brackets-append xs ys true b c h.1 k)
Brackets-append (end ∷ xs) ys a b c h k = (h.0, Brackets-append xs ys false b c h.1 k)
Brackets-append (put d ∷ xs) ys a b c h k = (h.0, Brackets-append xs ys true b c h.1 k)
Brackets-append (report m ∷ xs) ys a b c h k = Brackets-append xs ys a b c h k

pub if_Brackets :
    (s : Bool) (xs ys : List Action) (a b : Bool)
    → Brackets a xs b
    → Brackets a ys b
    → Brackets a (if s then xs else ys) b
if_Brackets true xs ys a b h k = h
if_Brackets false xs ys a b h k = k

abbrev pub inside : State → Bool
inside before_field = false
inside in_quoted_field = true
inside after_quote = true
inside in_unquoted_field = true
inside after_field = false
inside after_delim = false

pub move-Brackets :
    (d q : ℕ) (st : State) (c : ℕ)
    → Brackets (inside st) (move d q st c).actions (inside (move d q st c).state)
unfolding move
move-Brackets d q before_field c = ground arith
move-Brackets d q in_quoted_field c = ground arith
move-Brackets d q after_quote c = ground arith
move-Brackets d q in_unquoted_field c = ground arith
move-Brackets d q after_field c = ground arith
move-Brackets d q after_delim c = ground arith

pub last_actions-Brackets : (st : State) → Brackets (inside st) (last_actions st) false
unfolding last_actions
last_actions-Brackets before_field = ground arith
last_actions-Brackets in_quoted_field = ground arith
last_actions-Brackets after_quote = ground arith
last_actions-Brackets in_unquoted_field = ground arith
last_actions-Brackets after_field = ground arith
last_actions-Brackets after_delim = ground arith

pub actions_from-Brackets :
    (d q : ℕ) (st : State) (cs : Bytes) → Brackets (inside st) (actions_from d q st cs) false
unfolding actions_from
actions_from-Brackets d q st [] = last_actions-Brackets st
actions_from-Brackets d q st (c ∷ cs) =
    let m = move d q st c in
    Brackets-append m.actions _ (inside st) (inside m.state) false (move-Brackets d q st c) (
      if_Brackets m.stop _ _ (inside m.state) false (last_actions-Brackets m.state)
        (actions_from-Brackets d q m.state cs))

-- For every text the calls are well ordered: they begin and end each field in turn, put characters
-- only into a field that is begun, and leave no field open at the end of the record.
pub actions-Brackets : (d q : ℕ) (cs : Bytes) → Brackets false (actions d q cs) false
actions-Brackets d q cs = actions_from-Brackets d q before_field cs

-- The fields of a text.
unfoldable pub fields_of : ℕ → ℕ → Bytes → List Bytes
unfolding collect
fields_of d q cs = (collect (actions d q cs) no_fields).completed

collect-is_open :
    (acts : List Action) (b : Bool) (o : Fields)
    → Brackets o.is_open acts b
    → (collect acts o).is_open ≡ b
unfolding collect
collect-is_open [] b o h = h
collect-is_open (begin ∷ acts) b o h = collect-is_open acts b (apply begin o) h.1
collect-is_open (end ∷ acts) b o h = collect-is_open acts b (apply end o) h.1
collect-is_open (put c ∷ acts) b o h = collect-is_open acts b (apply (put c) o) (rw h.0 h.1)
collect-is_open (report m ∷ acts) b o h = collect-is_open acts b o h

-- At the end of a text no field is open.
pub collect-actions : (d q : ℕ) (cs : Bytes) → (collect (actions d q cs) no_fields).is_open ≡ false
collect-actions d q cs = collect-is_open (actions d q cs) false no_fields (actions-Brackets d q cs)
