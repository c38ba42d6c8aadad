-- ===== src/Prelude/Elems.antt =====
-- Membership and association lists over number keys: addresses and identifiers are numbers here.
use Prim.Native.Nat.{ℕ}
use mathlib.Core.Path.{◌≡◌, refl}
use mathlib.Core.Logic.{◌⊎◌, inl, inr}
use mathlib.Core.Bool.{Bool, true, false, ◌||◌}
use mathlib.Core.Option.{Option, none, some}
use mathlib.Core.List.{List, [], ◌∷◌, ◌++◌, map}
use native.Mathlib.Omega.{arith}
use derusting.Prelude.Tests.{◌==◌, if◌then◌else◌, Bool-cases}

unfoldable pub elem : ℕ → List ℕ → Bool
elem a [] = false
elem a (x ∷ xs) = a == x || elem a xs

-- The keys of the entries, in their order.
abbrev pub keys {ℓ} : {V : Type ℓ} → List (ℕ × V) → List ℕ
keys = map (λ e. e.0)

unfoldable pub lookup {ℓ} : {V : Type ℓ} → ℕ → List (ℕ × V) → Option V
lookup k [] = none
lookup k ((j, v) ∷ l) = if k == j then some v else lookup k l

abbrev pub is_nil {ℓ} : {A : Type ℓ} → List A → Bool
is_nil [] = true
is_nil (x ∷ xs) = false

pub elem-append : (a : ℕ) (xs ys : List ℕ) → elem a (xs ++ ys) ≡ (elem a xs || elem a ys)
unfolding elem
elem-append a [] ys = refl
elem-append a (x ∷ xs) ys = ground (arith, elem-append a xs ys)

-- A key is among the keys exactly when its lookup finds a value.
elem-keys {ℓ} :
    {V : Type ℓ} (k : ℕ) (l : List (ℕ × V))
    → ((elem k (keys l) ≡ true) × ((v : V) × (lookup k l ≡ some v)))
      ⊎ ((elem k (keys l) ≡ false) × (lookup k l ≡ none))
unfolding elem lookup
elem-keys k [] = inr (refl, refl)
elem-keys k ((j, v) ∷ l) = elim (elem-keys k l) [
  | inl (e, (w, f)) ↦ inl (ground arith, (if k == j then v else w, ground arith))
  | inr (e, f) ↦ elim (Bool-cases (k == j)) [
    | inl t ↦ inl (ground arith, (v, ground arith))
    | inr t ↦ inr (ground arith, ground arith)
  ]
]
