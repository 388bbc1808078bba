-- ===== src/Csv/Functions/Arguments.antt =====
-- csv/csv.c: `csvsplit` with its arguments.
use gawkextlib.Common.{ℕ, Option, none, some, [], ◌∷◌, Bytes, leb, if◌then◌else◌}
use gawkextlib.Csv.StrBuf.{StrBuf}

-- The characters that are in force: those of the arguments, or the comma and the double quote.
unfoldable pub char_in_force : ℕ → ℕ → ℕ → Option Bytes → ℕ
char_in_force k nargs defval none = defval
char_in_force k nargs defval (some []) = defval
char_in_force k nargs defval (some (c ∷ s)) = if leb nargs k then defval else c
