-- ===== src/Prelude/Decimal.antt =====
-- Python's Decimal division on the grid: rounded half to even, as the default context rounds.
use Prim.Native.Nat.{ℕ, ◌+◌, ◌*◌, ◌/◌, ◌%◌}
use sentry.Prelude.Tests.{ltb, if◌then◌else◌}

unfoldable pub quotient : ℕ → ℕ → ℕ
quotient a n =
    if ltb (a % n * 2) n then a / n else if ltb n (a % n * 2) then a / n + 1 else a / n + a / n % 2
