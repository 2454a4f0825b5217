-- ===== src/Common/Ascii.antt =====
-- Rust's `eq_ignore_ascii_case` on texts.
use Prim.Native.Nat.{ℕ, ◌+◌}
use Prim.Native.Char.{Char, code}
use Prim.Native.String.{String, [], ◌∷◌}
use mathlib.Core.Bool.{Bool, true, false, ◌&&◌}
use mathlib.Core.Path.{◌≡◌, refl}
use reveries_network.Common.Tests.{nat_beq, leb, if◌then◌else◌}

abbrev pub lowercase : Char → ℕ
lowercase c = if leb 65 (code c) && leb (code c) 90 then code c + 32 else code c

unfoldable pub eq_ignore_ascii_case : String → String → Bool
eq_ignore_ascii_case [] [] = true
eq_ignore_ascii_case [] (d ∷ t) = false
eq_ignore_ascii_case (c ∷ s) [] = false
eq_ignore_ascii_case (c ∷ s) (d ∷ t) =
    nat_beq (lowercase c) (lowercase d) && eq_ignore_ascii_case s t

mixed_case : eq_ignore_ascii_case "aB_z" "Ab_Z" ≡ true
unfolding eq_ignore_ascii_case
mixed_case = refl
