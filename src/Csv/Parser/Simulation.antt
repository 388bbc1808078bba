-- ===== src/Csv/Parser/Simulation.antt =====
-- csv/csv_parser.c: what a set of handlers must do for `csv_parse` to deliver the fields of its text.
use gawkextlib.Common.{
  NoNul, ℕ, zero, suc, ◌+◌, ◌<◌, ◌≡◌, refl, Bool, true, false, Option, none, some, List, [], ◌∷◌,
  Bytes, Run, ok, ◌>>=◌, length, ◌==◌, if◌then◌else◌, arith, Bool-cases, inl, inr,
}
use gawkextlib.Csv.Parser.Fields.{
  Fields, no_fields, apply, collect, collect-append, Brackets, inside, move-Brackets,
  last_actions-Brackets,
}
use gawkextlib.Csv.Parser.Machine.{
  Action, begin, end, put, report, move, last_actions, actions_from, actions, perform, exec,
  step-exec, finish-exec,
}
use gawkextlib.Csv.Parser.{
  csv_null, CsvParser, State, before_field, finish, advance, parse_loop, csv_parse,
}

-- When a call may come.
abbrev pub Allowed : Action → Fields → Type 0
Allowed begin o = o.is_open ≡ false
Allowed end o = o.is_open ≡ true
Allowed (put c) o = o.is_open ≡ true
Allowed (report m) o = Unit

-- `R rest o s` relates the text to come (`none` once its end was read) and the fields so far to the
-- handlers' state. The handlers keep it and run into no fault.
pub record Simulates {ℓ κ} {S : Type ℓ} (p : CsvParser S) (R : Option Bytes → Fields → S → Type κ)
    : Type (ℓ ⊔ κ) where
  pub next :
      (c : ℕ) (cs : Bytes) (o : Fields) (s : S)
      → NoNul (c ∷ cs)
      → R (some (c ∷ cs)) o s
      → (s' : S) × (p.next_char s ≡ ok (s', c)) × R (some cs) o s'
  pub last :
      (o : Fields) (s : S)
      → R (some []) o s
      → (s' : S) × (p.next_char s ≡ ok (s', csv_null)) × R none o s'
  pub act :
      (a : Action) (rest : Option Bytes) (o : Fields) (s : S)
      → Allowed a o
      → R rest o s
      → (s' : S) × (perform p a s ≡ ok s') × R rest (apply a o) s'

module _ {ℓ κ} {S : Type ℓ} (p : CsvParser S) (R : Option Bytes → Fields → S → Type κ)
    (sim : Simulates p R) where
  exec-simulates :
      (acts : List Action) (b : Bool) (rest : Option Bytes) (o : Fields) (s : S)
      → Brackets o.is_open acts b
      → R rest o s
      → (s' : S) × (exec p acts s ≡ ok s')
        × R rest (collect acts o) s'
        × ((collect acts o).is_open ≡ b)
  unfolding exec collect
  exec-simulates [] b rest o s h r = (s, refl, r, h)
  exec-simulates (begin ∷ acts) b rest o s h r =
      let (s₁, run, r₁) = sim.act begin rest o s h.0 r in
      let (s₂, run', r₂, e) = exec-simulates acts b rest (apply begin o) s₁ h.1 r₁ in
      (s₂, rw run run', r₂, e)
  exec-simulates (end ∷ acts) b rest o s h r =
      let (s₁, run, r₁) = sim.act end rest o s h.0 r in
      let (s₂, run', r₂, e) = exec-simulates acts b rest (apply end o) s₁ h.1 r₁ in
      (s₂, rw run run', r₂, e)
  exec-simulates (put c ∷ acts) b rest o s h r =
      let (s₁, run, r₁) = sim.act (put c) rest o s h.0 r in
      let (s₂, run', r₂, e) = exec-simulates acts b rest (apply (put c) o) s₁ (rw h.0 h.1) r₁ in
      (s₂, rw run run', r₂, e)
  exec-simulates (report m ∷ acts) b rest o s h r =
      let (s₁, run, r₁) = sim.act (report m) rest o s tt r in
      let (s₂, run', r₂, e) = exec-simulates acts b rest (apply (report m) o) s₁ h r₁ in
      (s₂, rw run run', r₂, e)

  finish-simulates :
      (st : State) (rest : Option Bytes) (o : Fields) (s : S)
      → o.is_open ≡ inside st
      → R rest o s
      → (s' : S) × (finish p st s ≡ ok s') × R rest (collect (last_actions st) o) s'
  finish-simulates st rest o s b r =
      let (s', run, r', e) =
        exec-simulates (last_actions st) false rest o s (rw b (last_actions-Brackets st)) r in
      (s', rw (finish-exec p st s) run, r')

  -- What the loop leaves.
  abbrev Outcome : Run S → Fields → Type (ℓ ⊔ κ)
  Outcome m o = (s' : S) × (rest : Option Bytes) × (m ≡ ok s') × R rest o s'

  parse_loop_end :
      (fuel : ℕ) (st : State) (rest : Option Bytes) (o : Fields) (s : S)
      → 0 < fuel
      → o.is_open ≡ inside st
      → R rest o s
      → Outcome (parse_loop p fuel st csv_null s) (collect (last_actions st) o)
  unfolding parse_loop
  parse_loop_end zero st rest o s f b r = absurd (omega arith)
  parse_loop_end (suc fuel) st rest o s f b r =
      let (s', run, r') = finish-simulates st rest o s b r in (s', rest, run, r')

  -- One round, after the calls of its character.
  parse_loop_round :
      (fuel : ℕ) (st : State) (c : ℕ) (s s₁ : S)
      → 0 < c
      → exec p (move p.delim_char p.quote_char st c).actions s ≡ ok s₁
      → parse_loop p (suc fuel) st c s
        ≡ advance p (if (move p.delim_char p.quote_char st c).stop then csv_null else c) s₁ >>= λ r.
            parse_loop p fuel (move p.delim_char p.quote_char st c).state r.1 r.0
  unfolding parse_loop
  parse_loop_round fuel st c s s₁ pos run =
      let nonzero : (c == csv_null) ≡ false = ground arith in
      rw (nonzero, parse_loop) (rw (step-exec p st c s, run))

  -- The rest of a record whose character `c` stopped it, or did not.
  parse_loop-stopped :
      (fuel : ℕ) (st : State) (c : ℕ) (cs : Bytes) (o : Fields) (s : S)
      → 0 < fuel
      → 0 < c
      → (move p.delim_char p.quote_char st c).stop ≡ true
      → o.is_open ≡ inside st
      → R (some cs) o s
      → Outcome
          (parse_loop p (suc fuel) st c s)
          (collect (actions_from p.delim_char p.quote_char st (c ∷ cs)) o)
  unfolding actions_from
  parse_loop-stopped fuel st c cs o s f pos stop b r =
      let m = move p.delim_char p.quote_char st c in
      let (s₁, run, r₁, e) =
        exec-simulates m.actions (inside m.state) (some cs) o s
          (rw b (move-Brackets p.delim_char p.quote_char st c)) r in
      let (s₂, rest, run', r₂) = parse_loop_end fuel m.state (some cs) _ s₁ f e r₁ in
      (
        s₂,
        rest,
        rw (parse_loop_round fuel st c s s₁ pos run, stop) (unfold advance in run'),
        rw (stop, collect-append m.actions) r₂,
      )

  advance-next_char : (c : ℕ) (s : S) → 0 < c → advance p c s ≡ p.next_char s
  unfolding advance
  advance-next_char c s pos = let nonzero : (c == csv_null) ≡ false = ground arith in rw nonzero

  -- The last character, where it does not stop the record.
  parse_loop-last :
      (fuel : ℕ) (st : State) (c : ℕ) (o : Fields) (s : S)
      → 0 < fuel
      → 0 < c
      → (move p.delim_char p.quote_char st c).stop ≡ false
      → o.is_open ≡ inside st
      → R (some []) o s
      → Outcome
          (parse_loop p (suc fuel) st c s)
          (collect (actions_from p.delim_char p.quote_char st (c ∷ [])) o)
  unfolding actions_from
  parse_loop-last fuel st c o s f pos stop b r =
      let m = move p.delim_char p.quote_char st c in
      let (s₁, run, r₁, e) =
        exec-simulates m.actions (inside m.state) (some []) o s
          (rw b (move-Brackets p.delim_char p.quote_char st c)) r in
      let (s₂, read, r₂) = sim.last _ s₁ r₁ in
      let (s₃, rest, run', r₃) = parse_loop_end fuel m.state none _ s₂ f e r₂ in
      (
        s₃,
        rest,
        rw (parse_loop_round fuel st c s s₁ pos run, stop)
            (rw (advance-next_char c s₁ pos, read) run'),
        rw (stop, collect-append m.actions) r₃,
      )

  parse_loop-simulates :
      (fuel : ℕ) (st : State) (c : ℕ) (cs : Bytes) (o : Fields) (s : S)
      → length cs + 1 < fuel
      → NoNul (c ∷ cs)
      → o.is_open ≡ inside st
      → R (some cs) o s
      → Outcome
          (parse_loop p fuel st c s)
          (collect (actions_from p.delim_char p.quote_char st (c ∷ cs)) o)
  unfolding actions_from
  parse_loop-simulates zero st c cs o s f n b r = absurd (omega arith)
  parse_loop-simulates (suc fuel) st c [] o s f n b r =
      elim (Bool-cases (move p.delim_char p.quote_char st c).stop) [
        | inl stop ↦ parse_loop-stopped fuel st c [] o s (omega arith) n.0 stop b r
        | inr more ↦ parse_loop-last fuel st c o s (omega arith) n.0 more b r
      ]
  parse_loop-simulates (suc fuel) st c (d ∷ cs) o s f n b r =
      elim (Bool-cases (move p.delim_char p.quote_char st c).stop) [
        | inl stop ↦ parse_loop-stopped fuel st c (d ∷ cs) o s (omega arith) n.0 stop b r
        | inr more ↦
            let m = move p.delim_char p.quote_char st c in
            let (s₁, run, r₁, e) =
              exec-simulates m.actions (inside m.state) (some (d ∷ cs)) o s
                (rw b (move-Brackets p.delim_char p.quote_char st c)) r in
            let (s₂, read, r₂) = sim.next d cs _ s₁ n.1 r₁ in
            let (s₃, rest, run', r₃) =
              parse_loop-simulates fuel m.state d cs (collect m.actions o) s₂ (omega arith) n.1 e
                r₂ in
            (
              s₃,
              rest,
              rw (parse_loop_round fuel st c s s₁ n.0 run, more)
                  (rw (advance-next_char c s₁ n.0, read) run'),
              rw (more, collect-append m.actions) r₃,
            )
      ]

  -- With handlers that keep such a relation and enough fuel, `csv_parse` on a text without NUL
  -- runs into no fault, and leaves the handlers' state related to the fields of that text.
  pub csv_parse-simulates :
      (fuel : ℕ) (cs : Bytes) (s : S)
      → length cs + 1 < fuel
      → NoNul cs
      → R (some cs) no_fields s
      → (s' : S) × (rest : Option Bytes) × (csv_parse p fuel s ≡ ok s')
        × R rest (collect (actions p.delim_char p.quote_char cs) no_fields) s'
  unfolding csv_parse actions_from
  csv_parse-simulates fuel [] s f n r =
      let (s₁, read, r₁) = sim.last no_fields s r in
      let (s₂, rest, run, r₂) =
        parse_loop_end fuel before_field none no_fields s₁ (omega arith) refl r₁ in
      (s₂, rest, rw read run, r₂)
  csv_parse-simulates fuel (c ∷ cs) s f n r =
      let (s₁, read, r₁) = sim.next c cs no_fields s n r in
      let (s₂, rest, run, r₂) =
        parse_loop-simulates fuel before_field c cs no_fields s₁ (omega arith) n refl r₁ in
      (s₂, rest, rw read run, r₂)
