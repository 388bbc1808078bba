-- ===== src/Csv/Parser.antt =====
-- csv/csv_parser.c and csv/csv_parser.h: the record parser over its handlers, which act on a state
-- `S`, the static variables of the file that supplies them. A handler may run into a fault.
pub mod Machine
pub mod Fields
pub mod Simulation
pub mod RoundTrip
pub mod Order
use gawkextlib.Common.{
  ℕ, zero, suc, Bool, true, false, ◌&&◌, ◌||◌, not, Run, ok, fault, out_of_fuel, ◌>>=◌, ◌==◌,
  if◌then◌else◌,
}

-- The texts that `csv_parse` hands to `error`.
pub data Message : Type 0 where
  unexpected_character unexpected_quote missing_closing_quote : Message

-- CSV_LF and CSV_NULL.
abbrev pub csv_lf : ℕ
csv_lf = 0x0a

abbrev pub csv_null : ℕ
csv_null = 0x00

-- `csv_parser_t`: two characters, the option flags and the handlers.
pub record CsvParser {ℓ} (S : Type ℓ) : Type ℓ where
  pub delim_char : ℕ
  pub quote_char : ℕ
  pub options : ℕ
  pub next_char : S → Run (S × ℕ)
  pub begin_field : S → Run S
  pub end_field : S → Run S
  pub mark_field : S → Run S
  pub backspace_field : S → Run S
  pub put_char : ℕ → S → Run S
  pub error : Message → S → Run S

-- The parser states.
pub data State : Type 0 where
  before_field in_quoted_field after_quote in_unquoted_field after_field after_delim : State

module _ {ℓ} {S : Type ℓ} (p : CsvParser S) where
  -- `case AFTER_DELIM: case BEFORE_FIELD:`; the result is the new `state`, `c` and handlers' state.
  step_before : State → ℕ → S → Run (State × ℕ × S)
  step_before state c s =
      if c == p.delim_char
      then (do s₁ ← p.begin_field s; s₂ ← p.end_field s₁; ok (after_delim, c, s₂))
      else if c == csv_lf
      then ok (state, csv_null, s)
      else if c == p.quote_char
      then (do s₁ ← p.begin_field s; ok (in_quoted_field, c, s₁))
      else (do s₁ ← p.begin_field s; s₂ ← p.put_char c s₁; ok (in_unquoted_field, c, s₂))

  -- `case IN_QUOTED_FIELD:`
  step_quoted : ℕ → S → Run (State × ℕ × S)
  step_quoted c s =
      if c == p.quote_char
      then ok (after_quote, c, s)
      else (do s₁ ← p.put_char c s; ok (in_quoted_field, c, s₁))

  -- `case AFTER_QUOTE:`
  step_after_quote : ℕ → S → Run (State × ℕ × S)
  step_after_quote c s =
      if c == p.quote_char
      then (do s₁ ← p.put_char c s; ok (in_quoted_field, c, s₁))
      else if c == p.delim_char
      then (do s₁ ← p.end_field s; ok (after_delim, c, s₁))
      else if c == csv_lf
      then (do s₁ ← p.end_field s; ok (after_field, csv_null, s₁))
      else (do
        s₁ ← p.error unexpected_character s
        s₂ ← p.put_char p.quote_char s₁
        s₃ ← p.put_char c s₂
        ok (in_unquoted_field, c, s₃))

  -- `case IN_UNQUOTED_FIELD:`
  step_unquoted : ℕ → S → Run (State × ℕ × S)
  step_unquoted c s =
      if c == p.delim_char
      then (do s₁ ← p.end_field s; ok (after_delim, c, s₁))
      else if c == csv_lf
      then (do s₁ ← p.end_field s; ok (after_field, csv_null, s₁))
      else if c == p.quote_char
      then (do s₁ ← p.error unexpected_quote s; s₂ ← p.put_char c s₁; ok (in_unquoted_field, c, s₂))
      else (do s₁ ← p.put_char c s; ok (in_unquoted_field, c, s₁))

  -- The switch of the loop.
  unfoldable pub step : State → ℕ → S → Run (State × ℕ × S)
  unfolding step_before step_quoted step_after_quote step_unquoted
  step before_field c s = step_before before_field c s
  step after_delim c s = step_before after_delim c s
  step in_quoted_field c s = step_quoted c s
  step after_quote c s = step_after_quote c s
  step in_unquoted_field c s = step_unquoted c s
  step after_field c s = ok (after_field, c, s)

  -- The switch behind the loop; a missing quote falls through to the end of the field.
  unfoldable pub finish : State → S → Run S
  finish before_field s = ok s
  finish after_field s = ok s
  finish in_quoted_field s = do s₁ ← p.error missing_closing_quote s; p.end_field s₁
  finish after_quote s = p.end_field s
  finish in_unquoted_field s = p.end_field s
  finish after_delim s = do s₁ ← p.begin_field s; p.end_field s₁

  -- `if (c) c = p->next_char();`
  unfoldable pub advance : ℕ → S → Run (S × ℕ)
  advance c s = if c == csv_null then ok (s, csv_null) else p.next_char s

  -- `while (c) { … }` and what follows it, with fuel for the rounds.
  unfoldable pub parse_loop : ℕ → State → ℕ → S → Run S
  parse_loop zero state c s = fault out_of_fuel
  parse_loop (suc fuel) state c s = elim (c == csv_null) [
    | true ↦ finish state s
    | false ↦ do
      (state', c', s₁) ← step state c s
      (s₂, c″) ← advance c' s₁
      parse_loop fuel state' c″ s₂
  ]

  unfoldable pub csv_parse : ℕ → S → Run S
  csv_parse fuel s = do (s₁, c) ← p.next_char s; parse_loop fuel before_field c s₁
