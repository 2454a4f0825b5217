-- ===== src/Common/Equality.antt =====
-- The interface of key types, Rust's `Eq`, and its instances.
use Prim.Native.Nat.{ℕ}
use Prim.Native.String.{String}
use mathlib.Core.Path.{◌≡◌, refl}
use mathlib.Core.Logic.{◌↔◌}
use mathlib.Core.Bool.{Bool, true, false, ◌&&◌}
use mathlib.Core.List.{List, [], ◌∷◌}
use native.Mathlib.Omega.{arith}
use text.Mathlib.Text.{◌==◌ as str_beq}
use text.Mathlib.TextEquality.{eq_iff}
use reveries_network.Common.Tests.{nat_beq, nat_beq_iff}

-- A test that decides equality.
pub record Eq {κ} (Key : Type κ) : Type κ where
  pub beq : Key → Key → Bool
  pub beq_iff : (k j : Key) → (beq k j ≡ true) ↔ (k ≡ j)

instance abbrev pub string_eq : Eq String
string_eq = record { beq_iff = eq_iff; beq = str_beq }

instance abbrev pub nat_eq : Eq ℕ
nat_eq = record { beq_iff = nat_beq_iff; beq = nat_beq }

abbrev pub ◌==◌ {κ} : {A : Type κ} ⦃e : Eq A⦄ → A → A → Bool
◌==◌ ⦃e⦄ k j = e.beq k j

infix 50 ◌==◌
pub ==_iff {κ} : {A : Type κ} ⦃e : Eq A⦄ (k j : A) → ((k == j) ≡ true) ↔ (k ≡ j)
==_iff ⦃e⦄ = e.beq_iff

pub ==_refl {κ} : {A : Type κ} ⦃e : Eq A⦄ (k : A) → (k == k) ≡ true
==_refl k = (==_iff k k).1 refl

module _ {ℓ} {A : Type ℓ} ⦃e : Eq A⦄ where
  abbrev pub list_beq : List A → List A → Bool
  list_beq [] [] = true
  list_beq (x ∷ xs) (y ∷ ys) = (x == y) && list_beq xs ys
  list_beq _ _ = false

  pub list_beq_iff : (xs ys : List A) → (list_beq xs ys ≡ true) ↔ (xs ≡ ys)
  list_beq_iff [] [] = ground arith
  list_beq_iff [] (y ∷ ys) = ground arith
  list_beq_iff (x ∷ xs) [] = ground arith
  list_beq_iff (x ∷ xs) (y ∷ ys) = ground (arith, e.beq_iff x y, list_beq_iff xs ys)
