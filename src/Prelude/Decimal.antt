-- ===== src/Prelude/Decimal.antt =====
-- The decimal digits that printf's %u writes.
use Prim.Native.Nat.{ℕ, zero, suc, ◌+◌, ◌/◌, ◌%◌}
use mathlib.Core.List.{[], ◌∷◌, ◌++◌}
use xdebug.Prelude.Tests.{ltb, if◌then◌else◌}
use xdebug.Prelude.Text.{Bytes}

unfoldable pub digits : ℕ → ℕ → Bytes
digits zero n = []
digits (suc fuel) n =
    let rest = digits fuel (n / 10) in
    if ltb n 10 then (b'0' + n) ∷ [] else rest ++ ((b'0' + n % 10) ∷ [])

-- %u
unfoldable pub decimal : ℕ → Bytes
unfolding digits
decimal n = digits (suc n) n
