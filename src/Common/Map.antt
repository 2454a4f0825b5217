-- ===== src/Common/Map.antt =====
-- `HashMap` as an association list: one entry for each key, in the order of first insertion.
use reveries_network.Common.Tests.{if◌then◌else◌, Bool-cases}
use reveries_network.Common.Lists.{All}
use reveries_network.Common.Equality.{Eq, ◌==◌}
use mathlib.Core.Path.{◌≡◌, refl, subst}
use mathlib.Core.Logic.{inl, inr}
use mathlib.Core.List.{List, [], ◌∷◌}
use mathlib.Core.Option.{Option, none, some}
use native.Mathlib.Omega.{arith}

abbrev pub HashMap {ℓ κ} : Type ℓ → Type κ → Type (ℓ ⊔ κ)
HashMap K V = List (K × V)

module _ {ℓ κ} {K : Type ℓ} {V : Type κ} ⦃e : Eq K⦄ where
  unfoldable pub get : K → HashMap K V → Option V
  get k [] = none
  get k ((j, v) ∷ m) = if j == k then some v else get k m

  unfoldable pub insert : K → V → HashMap K V → HashMap K V
  insert k v [] = (k, v) ∷ []
  insert k v ((j, w) ∷ m) = if j == k then (k, v) ∷ m else (j, w) ∷ insert k v m

  unfoldable pub remove : K → HashMap K V → HashMap K V
  remove k [] = []
  remove k ((j, v) ∷ m) = let rest = remove k m in if j == k then rest else (j, v) ∷ rest

  pub get-insert :
      (k j : K) (v : V) (m : HashMap K V)
      → get j (insert k v m) ≡ (if k == j then some v else get j m)
  unfolding get insert
  get-insert k j v [] = refl
  get-insert k j v ((i, w) ∷ m) =
      ground (arith, e.beq_iff k j, e.beq_iff i k, e.beq_iff i j, get-insert k j v m)

  pub get-remove :
      (k j : K) (m : HashMap K V) → get j (remove k m) ≡ (if k == j then none else get j m)
  unfolding get remove
  get-remove k j [] = ground arith
  get-remove k j ((i, w) ∷ m) =
      ground (arith, e.beq_iff k j, e.beq_iff i k, e.beq_iff i j, get-remove k j m)

  pub insert-All {μ} :
      (P : K × V → Type μ) (k : K) (v : V) (m : HashMap K V)
      → ((j : K) → j ≡ k → P (j, v))
      → All P m
      → All P (insert k v m)
  unfolding insert
  insert-All P k v [] h a = (h k refl, tt)
  insert-All P k v ((j, w) ∷ m) h a = elim (Bool-cases (j == k)) [
    | inl same ↦ rw same (h k refl, a.1)
    | inr other ↦ rw other (a.0, insert-All P k v m h a.1)
  ]

  pub remove-All {μ} : (P : K × V → Type μ) (k : K) (m : HashMap K V) → All P m → All P (remove k m)
  unfolding remove
  remove-All P k [] a = tt
  remove-All P k ((j, w) ∷ m) a = elim (Bool-cases (j == k)) [
    | inl same ↦ rw same (remove-All P k m a.1)
    | inr other ↦ rw other (a.0, remove-All P k m a.1)
  ]

  pub get-All {μ} :
      (P : K × V → Type μ) (k : K) (v : V) (m : HashMap K V) → All P m → get k m ≡ some v → P (k, v)
  unfolding get
  get-All P k v [] a h = cc
  get-All P k v ((j, w) ∷ m) a h = elim (Bool-cases (j == k)) [
    | inl same ↦
        let at : j ≡ k = (e.beq_iff j k).0 same in
        let is : w ≡ v = ground arith in subst (λ (t : K × V). P t) (λ i. (at i, is i)) a.0
    | inr other ↦ get-All P k v m a.1 (ground arith)
  ]

  pub get-nil : (k : K) → get k [] ≡ none
  unfolding get
  get-nil k = refl

module _ {ℓ κ} {K : Type ℓ} {V : Type κ} ⦃e : Eq K⦄ where
  -- One entry for each key.
  abbrev pub IsDistinct : HashMap K V → Type κ
  IsDistinct [] = Unit
  IsDistinct ((k, v) ∷ m) = (get k m ≡ none) × IsDistinct m

  pub insert-IsDistinct :
      (k : K) (v : V) (m : HashMap K V) → IsDistinct m → IsDistinct (insert k v m)
  unfolding insert
  insert-IsDistinct k v [] d = (get-nil k, tt)
  insert-IsDistinct k v ((j, w) ∷ m) d = elim (Bool-cases (j == k)) [
    | inl same ↦ rw same (ground (arith, e.beq_iff j k), d.1)
    | inr other ↦ rw other (
      ground (arith, get-insert k j v m, e.beq_iff j k, e.beq_iff k j),
      insert-IsDistinct k v m d.1,
    )
  ]

  pub remove-IsDistinct : (k : K) (m : HashMap K V) → IsDistinct m → IsDistinct (remove k m)
  unfolding remove
  remove-IsDistinct k [] d = tt
  remove-IsDistinct k ((j, w) ∷ m) d = elim (Bool-cases (j == k)) [
    | inl same ↦ rw same (remove-IsDistinct k m d.1)
    | inr other ↦ rw other (ground (arith, get-remove k j m), remove-IsDistinct k m d.1)
  ]

  get_below :
      (k : K) (v : V) (l m : HashMap K V)
      → get k m ≡ none
      → All (λ (t : K × V). get t.0 m ≡ some t.1) l
      → All (λ (t : K × V). get t.0 ((k, v) ∷ m) ≡ some t.1) l
  unfolding get
  get_below k v [] m fresh a = tt
  get_below k v ((j, w) ∷ l) m fresh a =
      (ground (arith, e.beq_iff k j), get_below k v l m fresh a.1)

  -- Every entry of a map with distinct keys is what its key is mapped to.
  pub IsDistinct-get :
      (m : HashMap K V) → IsDistinct m → All (λ (t : K × V). get t.0 m ≡ some t.1) m
  unfolding get
  IsDistinct-get [] d = tt
  IsDistinct-get ((k, v) ∷ m) d =
      (ground (arith, e.beq_iff k k), get_below k v m m d.0 (IsDistinct-get m d.1))

pub ruleset map_laws = (get-insert, get-remove, get-nil)
