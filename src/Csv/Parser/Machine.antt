-- ===== src/Csv/Parser/Machine.antt =====
-- csv/csv_parser.c: the handler calls that a text causes, as a list, apart from any handlers.
use mathlib.Core.Path.{fun_ext}
use gawkextlib.Common.{
  ℕ, ◌≡◌, refl, Bool, true, false, List, [], ◌∷◌, ◌++◌, Bytes, Run, ok, ◌>>=◌, >>=-assoc, sym, ◌==◌,
  if◌then◌else◌, arith,
}
use gawkextlib.Csv.Parser.{
  Message, unexpected_character, unexpected_quote, missing_closing_quote, csv_lf, csv_null,
  CsvParser, State, before_field, in_quoted_field, after_quote, in_unquoted_field, after_field,
  after_delim, step, finish,
}

-- One call of a handler.
pub data Action : Type 0 where
  begin end : Action
  put : ℕ → Action
  report : Message → Action

-- What one character does: the next state, whether it ends the record, and the calls.
pub record Move : Type 0 where
  pub state : State
  pub stop : Bool
  pub actions : List Action

abbrev go_on : State → List Action → Move
go_on st acts = record { state = st; stop = false; actions = acts }

abbrev stop_at : State → List Action → Move
stop_at st acts = record { state = st; stop = true; actions = acts }

module _ (delim quote : ℕ) where
  move_before : State → ℕ → Move
  move_before st c =
      if c == delim
      then go_on after_delim (begin ∷ end ∷ [])
      else if c == csv_lf
      then stop_at st []
      else if c == quote
      then go_on in_quoted_field (begin ∷ [])
      else go_on in_unquoted_field (begin ∷ put c ∷ [])

  unfoldable pub move : State → ℕ → Move
  unfolding move_before
  move before_field c = move_before before_field c
  move after_delim c = move_before after_delim c
  move in_quoted_field c =
      if c == quote then go_on after_quote [] else go_on in_quoted_field (put c ∷ [])
  move after_quote c =
      if c == quote
      then go_on in_quoted_field (put c ∷ [])
      else if c == delim
      then go_on after_delim (end ∷ [])
      else if c == csv_lf
      then stop_at after_field (end ∷ [])
      else go_on in_unquoted_field (report unexpected_character ∷ put quote ∷ put c ∷ [])
  move in_unquoted_field c =
      if c == delim
      then go_on after_delim (end ∷ [])
      else if c == csv_lf
      then stop_at after_field (end ∷ [])
      else if c == quote
      then go_on in_unquoted_field (report unexpected_quote ∷ put c ∷ [])
      else go_on in_unquoted_field (put c ∷ [])
  move after_field c = go_on after_field []

unfoldable pub last_actions : State → List Action
last_actions before_field = []
last_actions after_field = []
last_actions in_quoted_field = report missing_closing_quote ∷ end ∷ []
last_actions after_quote = end ∷ []
last_actions in_unquoted_field = end ∷ []
last_actions after_delim = begin ∷ end ∷ []

-- All the calls on a text without NUL.
unfoldable pub actions_from : ℕ → ℕ → State → Bytes → List Action
actions_from delim quote st [] = last_actions st
actions_from delim quote st (c ∷ cs) =
    let m = move delim quote st c in
    let rest = actions_from delim quote m.state cs in
    m.actions ++ (if m.stop then last_actions m.state else rest)

abbrev pub actions : ℕ → ℕ → Bytes → List Action
actions delim quote = actions_from delim quote before_field

module _ {ℓ} {S : Type ℓ} (p : CsvParser S) where
  abbrev pub perform : Action → S → Run S
  perform begin = p.begin_field
  perform end = p.end_field
  perform (put c) = p.put_char c
  perform (report m) = p.error m

  unfoldable pub exec : List Action → S → Run S
  exec [] s = ok s
  exec (a ∷ acts) s = perform a s >>= exec acts

  pub exec-append : (xs ys : List Action) (s : S) → exec (xs ++ ys) s ≡ exec xs s >>= exec ys
  unfolding exec
  exec-append [] ys s = refl
  exec-append (a ∷ xs) ys s =
      rw (fun_ext (λ s'. exec-append xs ys s')) (sym (>>=-assoc (perform a s) (exec xs) (exec ys)))

  -- The switch performs the calls of the move.
  pub step-exec :
      (st : State) (c : ℕ) (s : S)
      → step p st c s
        ≡ exec (move p.delim_char p.quote_char st c).actions s >>= λ s'. ok (
          (move p.delim_char p.quote_char st c).state,
          if (move p.delim_char p.quote_char st c).stop then csv_null else c,
          s',
        )
  unfolding step move exec
  step-exec before_field c s = ground arith
  step-exec in_quoted_field c s = ground arith
  step-exec after_quote c s = ground arith
  step-exec in_unquoted_field c s = ground arith
  step-exec after_field c s = ground arith
  step-exec after_delim c s = ground arith

  pub finish-exec : (st : State) (s : S) → finish p st s ≡ exec (last_actions st) s
  unfolding finish exec last_actions
  finish-exec before_field s = refl
  finish-exec after_field s = refl
  finish-exec in_quoted_field s = ground arith
  finish-exec after_quote s = ground arith
  finish-exec in_unquoted_field s = ground arith
  finish-exec after_delim s = ground arith
