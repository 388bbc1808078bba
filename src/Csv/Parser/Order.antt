-- ===== src/Csv/Parser/Order.antt =====
-- csv/csv_parser.c: the order in which `csv_parse` calls its handlers.
use mathlib.Core.Path.{subst}
use gawkextlib.Common.{
  ℕ, ◌+◌, ◌<◌, ◌≡◌, refl, ◌∙◌, ap, sym, Bool, false, Option, none, some, List, [], ◌∷◌, ◌++◌, Bytes,
  NoNul, Run, ok, length, arith,
}
use gawkextlib.Csv.Parser.Fields.{
  Fields, no_fields, apply, collect, collect-append, collect-actions, Brackets, Brackets-append,
  fields_of,
}
use gawkextlib.Csv.Parser.Machine.{Action, begin, end, put, report, perform}
use gawkextlib.Csv.Parser.Simulation.{Allowed, Simulates, csv_parse-simulates}
use gawkextlib.Csv.Parser.{csv_null, CsvParser, csv_parse}

-- Handlers that read from a list and keep a log of their calls.
pub record Recorder : Type 0 where
  pub to_read : Bytes
  pub log : List Action

logged : Action → Recorder → Run Recorder
logged a s = ok (record s { log = s.log ++ a ∷ [] })

read_next : Recorder → Run (Recorder × ℕ)
read_next s = elim s.to_read [ [] ↦ ok (s, csv_null) | c ∷ cs ↦ ok (record s { to_read = cs }, c) ]

pub recorder : ℕ → ℕ → CsvParser Recorder
unfolding logged read_next
recorder delim quote = record {
  delim_char = delim;
  quote_char = quote;
  options = 0;
  next_char = read_next;
  begin_field = logged begin;
  end_field = logged end;
  mark_field = λ s. ok s;
  backspace_field = λ s. ok s;
  put_char = λ c. logged (put c);
  error = λ m. logged (report m);
}

record Records (rest : Option Bytes) (o : Fields) (s : Recorder) : Type 0 where
  unread : (cs : Bytes) → rest ≡ some cs → s.to_read ≡ cs
  built : collect s.log no_fields ≡ o
  ordered : Brackets false s.log o.is_open

-- The calls that may come keep the order.
Allowed-Brackets :
    (a : Action) (o : Fields) → Allowed a o → Brackets o.is_open (a ∷ []) (apply a o).is_open
Allowed-Brackets begin o h = (h, refl)
Allowed-Brackets end o h = (h, refl)
Allowed-Brackets (put c) o h = (h, sym h)
Allowed-Brackets (report m) o h = refl

perform_logged :
    (d q : ℕ) (a : Action) (s : Recorder)
    → perform (recorder d q) a s ≡ ok (record s { log = s.log ++ a ∷ [] })
unfolding recorder
perform_logged d q begin s = refl
perform_logged d q end s = refl
perform_logged d q (put c) s = refl
perform_logged d q (report m) s = refl

collect_one : (a : Action) (o : Fields) → collect (a ∷ []) o ≡ apply a o
unfolding collect
collect_one a o = refl

record_act :
    (d q : ℕ) (a : Action) (rest : Option Bytes) (o : Fields) (s : Recorder)
    → Allowed a o
    → Records rest o s
    → (s' : Recorder) × (perform (recorder d q) a s ≡ ok s') × Records rest (apply a o) s'
record_act d q a rest o s h r = (
  record s { log = s.log ++ a ∷ [] },
  perform_logged d q a s,
  record {
    unread = r.unread;
    built =
        collect-append s.log (a ∷ []) no_fields ∙ ap (collect (a ∷ [])) r.built ∙ collect_one a o;
    ordered =
        Brackets-append s.log (a ∷ []) false o.is_open (apply a o).is_open r.ordered
          (Allowed-Brackets a o h);
  },
)

record_next :
    (d q c : ℕ) (cs : Bytes) (o : Fields) (s : Recorder)
    → Records (some (c ∷ cs)) o s
    → (s' : Recorder) × ((recorder d q).next_char s ≡ ok (s', c)) × Records (some cs) o s'
unfolding recorder
record_next d q c cs o s r = (
  record s { to_read = cs },
  ground (arith, r.unread (c ∷ cs) refl),
  record { unread = λ ds e. cc; built = r.built; ordered = r.ordered },
)

record_last :
    (d q : ℕ) (o : Fields) (s : Recorder)
    → Records (some []) o s
    → (s' : Recorder) × ((recorder d q).next_char s ≡ ok (s', csv_null)) × Records none o s'
unfolding recorder
record_last d q o s r = (
  s,
  ground (arith, r.unread [] refl),
  record { unread = λ ds e. cc; built = r.built; ordered = r.ordered },
)

recorder-Simulates : (d q : ℕ) → Simulates (recorder d q) Records
recorder-Simulates d q = record {
  next = λ c cs o s n r. record_next d q c cs o s r;
  last = record_last d q;
  act = record_act d q;
}

-- For every text without NUL, and with enough fuel, `csv_parse` ends; the calls of its handlers
-- begin and end each field in turn, put characters only into a field that is begun, leave no field
-- open, and build the fields of the text.
pub csv_parse-Brackets :
    (d q fuel : ℕ) (cs : Bytes)
    → length cs + 1 < fuel
    → NoNul cs
    → (r : Recorder) × (csv_parse (recorder d q) fuel (record { to_read = cs; log = [] }) ≡ ok r)
      × Brackets false r.log false
      × ((collect r.log no_fields).completed ≡ fields_of d q cs)
unfolding fields_of recorder
csv_parse-Brackets d q fuel cs enough no_nul =
    let (r, rest, run, h) =
      csv_parse-simulates (recorder d q) Records (recorder-Simulates d q) fuel cs
        (record { to_read = cs; log = [] }) enough no_nul
        (record { unread = λ ds e. cc; built = unfold collect in refl; ordered = refl }) in
    (
      r,
      run,
      subst (λ (b : Bool). Brackets false r.log b) (collect-actions d q cs) h.ordered,
      ap (λ (o : Fields). o.completed) h.built,
    )
