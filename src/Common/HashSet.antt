-- ===== src/Common/HashSet.antt =====
-- `HashSet` as a list without repetitions.
use reveries_network.Common.Tests.{if◌then◌else◌, Bool-cases}
use reveries_network.Common.Equality.{Eq, ◌==◌}
use mathlib.Core.Path.{◌≡◌}
use mathlib.Core.Logic.{inl, inr}
use mathlib.Core.Bool.{Bool, false, ◌||◌}
use mathlib.Core.List.{List, [], ◌∷◌}
use native.Mathlib.Omega.{arith}

abbrev pub HashSet {ℓ} : Type ℓ → Type ℓ
HashSet A = List A

module _ {ℓ} {A : Type ℓ} ⦃e : Eq A⦄ where
  unfoldable pub contains : A → HashSet A → Bool
  contains a [] = false
  contains a (x ∷ xs) = x == a || contains a xs

  unfoldable pub insert : A → HashSet A → HashSet A
  unfolding contains
  insert a xs = if contains a xs then xs else a ∷ xs

  unfoldable pub remove : A → HashSet A → HashSet A
  remove a [] = []
  remove a (x ∷ xs) = let rest = remove a xs in if x == a then rest else x ∷ rest

  pub contains-insert :
      (a b : A) (xs : HashSet A) → contains b (insert a xs) ≡ (a == b || contains b xs)
  unfolding contains insert
  contains-insert a b xs = elim (Bool-cases (contains a xs)) [
    | inl old ↦ ground (arith, e.beq_iff a b)
    | inr new ↦ ground arith
  ]

  pub contains-remove :
      (a b : A) (xs : HashSet A)
      → contains b (remove a xs) ≡ (if a == b then false else contains b xs)
  unfolding contains remove
  contains-remove a b [] = ground arith
  contains-remove a b (x ∷ xs) =
      ground (arith, e.beq_iff a b, e.beq_iff x a, e.beq_iff x b, contains-remove a b xs)

pub ruleset set_laws = (contains-insert, contains-remove)
