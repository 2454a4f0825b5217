-- ===== src/Common/Decimal.antt =====
-- The decimal text of a natural number, as `{}` prints a `usize`.
pub mod Reading
use Prim.Native.String.{String, ◌++◌, slice}
use Prim.Native.Nat.{ℕ, zero, suc, ◌/◌, ◌%◌, ◌+◌}
use mathlib.Core.Path.{◌≡◌, refl}
use reveries_network.Common.Tests.{ltb, if◌then◌else◌}

digit : ℕ → String
digit d = slice "0123456789" d (d + 1)

-- the digits of `n` before `tail`; there are no more digits than `fuel`
digits_before : ℕ → ℕ → String → String
digits_before zero n tail = tail
digits_before (suc fuel) n tail =
    let rest = digits_before fuel (n / 10) (digit (n % 10) ++ tail) in
    if ltb n 10 then digit n ++ tail else rest

unfoldable pub decimal : ℕ → String
unfolding digits_before digit
decimal n = digits_before (n + 1) n ""

decimal_120 : decimal 120 ≡ "120"
unfolding decimal
decimal_120 = refl
