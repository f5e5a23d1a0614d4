-- ===== src/Clock.antt =====
-- Instants and durations of Go's time package, in nanoseconds from the Unix epoch on (the program
-- never handles an instant before it), and the whole seconds that the database keeps.
use servora.Prelude.{ℕ, ◌*◌, ◌/◌}

abbrev pub second : ℕ
second = 1000000000

abbrev pub minute : ℕ
minute = 60000000000

abbrev pub hour : ℕ
hour = 3600000000000

-- t.Unix()
abbrev pub unix : ℕ → ℕ
unix t = t / 1000000000

-- time.Unix(s, 0)
abbrev pub from_unix : ℕ → ℕ
from_unix s = s * 1000000000
