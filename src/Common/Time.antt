-- ===== src/Common/Time.antt =====
-- Points in time: nanoseconds since the epoch, and the whole seconds that the program stores.
use Prim.Native.Nat.{ℕ, ◌/◌}

abbrev pub second : ℕ
second = 1000000000

-- `t.Unix()`
abbrev pub unix : ℕ → ℕ
unix t = t / second
