-- ===== src/Common/Decimal/Reading.antt =====
-- Numbers are read back from their decimal text.
use Prim.Native.Char.{Char, code}
use Prim.Native.String.{String, ◌++◌}
use Prim.Native.Nat.{ℕ, zero, suc, ◌+◌, ◌*◌, ◌-◌, ◌<◌, ◌/◌, ◌%◌}
use mathlib.Core.Path.{◌≡◌, refl, sym, ap, ◌∙◌}
use Prim.Native.String.append
use mathlib.Core.Logic.{inl, inr, ◌≢◌}
use mathlib.Core.Bool.{true, ◌&&◌}
use mathlib.Core.Option.{Option, none, some}
use native.Mathlib.Omega.{arith}
use reveries_network.Common.Tests.{leb, ltb, Bool-cases, if◌then◌else◌}
use reveries_network.Common.Decimal.{digit, digits_before, decimal}

-- the digits of a number after those that make `acc`
unfoldable pub digits : String → ℕ → Option ℕ
digits String.[] acc = some acc
digits (String.◌∷◌ c s) acc =
    let rest = digits s (acc * 10 + (code c - 48)) in
    if leb 48 (code c) && leb (code c) 57 then rest else none

digits-char :
    (c : Char) (d : ℕ) (tail : String) (acc : ℕ)
    → code c ≡ 48 + d
    → d < 10
    → digits ((String.◌∷◌ c String.[]) ++ tail) acc ≡ digits tail (acc * 10 + d)
unfolding digits
digits-char c d tail acc e h =
    let above : leb 48 (code c) ≡ true = ground arith in
    let below : leb (code c) 57 ≡ true = ground arith in
    rw (append.cons c String.[] tail, append.nil tail, above, below)
      (ap (λ m. digits tail (acc * 10 + m)) (omega arith))

digits-digit :
    (d : ℕ) (tail : String) (acc : ℕ)
    → d < 10
    → digits (digit d ++ tail) acc ≡ digits tail (acc * 10 + d)
unfolding digit
digits-digit zero tail acc h = digits-char "0" 0 tail acc refl (omega arith)
digits-digit (suc zero) tail acc h = digits-char "1" 1 tail acc refl (omega arith)
digits-digit (suc (suc zero)) tail acc h = digits-char "2" 2 tail acc refl (omega arith)
digits-digit (suc (suc (suc zero))) tail acc h = digits-char "3" 3 tail acc refl (omega arith)
digits-digit (suc (suc (suc (suc zero)))) tail acc h = digits-char "4" 4 tail acc refl (omega arith)
digits-digit (suc (suc (suc (suc (suc zero))))) tail acc h =
    digits-char "5" 5 tail acc refl (omega arith)
digits-digit (suc (suc (suc (suc (suc (suc zero)))))) tail acc h =
    digits-char "6" 6 tail acc refl (omega arith)
digits-digit (suc (suc (suc (suc (suc (suc (suc zero))))))) tail acc h =
    digits-char "7" 7 tail acc refl (omega arith)
digits-digit (suc (suc (suc (suc (suc (suc (suc (suc zero)))))))) tail acc h =
    digits-char "8" 8 tail acc refl (omega arith)
digits-digit (suc (suc (suc (suc (suc (suc (suc (suc (suc zero))))))))) tail acc h =
    digits-char "9" 9 tail acc refl (omega arith)
digits-digit (suc (suc (suc (suc (suc (suc (suc (suc (suc (suc d)))))))))) tail acc h =
    absurd (omega arith)

digits-digits_before :
    (fuel n : ℕ) (tail : String) → n < fuel → digits (digits_before fuel n tail) 0 ≡ digits tail n
unfolding digits_before
digits-digits_before zero n tail h = absurd (omega arith)
digits-digits_before (suc fuel) n tail h = elim (Bool-cases (ltb n 10)) [
  | inl small ↦ rw small (digits-digit n tail 0 (ground arith) ∙ ap (digits tail) (omega arith))
  | inr large ↦ rw large (
      digits-digits_before fuel (n / 10) (digit (n % 10) ++ tail) (ground arith)
      ∙ digits-digit (n % 10) tail (n / 10) (omega arith)
      ∙ ap (digits tail) (omega arith))
]

-- Every number is read back from its decimal text.
pub digits-decimal : (n : ℕ) → digits (decimal n) 0 ≡ some n
unfolding decimal digits
digits-decimal n = digits-digits_before (n + 1) n "" (omega arith)

pub decimal-ne-nil : (n : ℕ) → decimal n ≢ String.[]
unfolding decimal digits_before digit digits
decimal-ne-nil zero h = cc
decimal-ne-nil (suc n) h =
    let read : some 0 ≡ some (suc n) = ap (λ s. digits s 0) (sym h) ∙ digits-decimal (suc n) in
    ground arith
