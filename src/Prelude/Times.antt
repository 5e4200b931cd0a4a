-- ===== src/Prelude/Times.antt =====
-- Python's `datetime` and `timedelta`, in whole microseconds. A time is the number of microseconds
-- since a fixed origin, and every duration of the program is positive.
use Prim.Native.Nat.{ℕ, ◌*◌}

abbrev pub seconds : ℕ → ℕ
seconds n = n * 1000000

abbrev pub minutes : ℕ → ℕ
minutes n = n * 60000000

abbrev pub hours : ℕ → ℕ
hours n = n * 3600000000
