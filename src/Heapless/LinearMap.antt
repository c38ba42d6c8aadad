-- ===== src/Heapless/LinearMap.antt =====
-- `heapless::LinearMap` with number keys, as src/kinds.rs uses it for the address book.
use derusting.Prelude.{
  ℕ, ◌≡◌, ◌≤◌, Bool, Option, none, some, List, [], length, ◌==◌, if◌then◌else◌, lookup, is_nil,
}

-- What `retain` leaves of one key's value.
abbrev pub kept {ℓ} : {V : Type ℓ} → (ℕ → V → Bool) → ℕ → Option V → Option V
kept p k none = none
kept p k (some v) = if p k v then some v else none

pub record LinearMap (V M : Type 0) : Type 0 where
  pub capacity : ℕ
  pub new : M
  -- `none` is the documented error of a full map, which leaves the map as it was.
  pub insert : ℕ → V → M → Option M
  pub retain : (ℕ → V → Bool) → M → M
  pub is_empty : M → Bool
  -- The entries in the order of `iter` and `keys`.
  pub iter : M → List (ℕ × V)
  pub iter-new : iter new ≡ []
  pub is_empty-iter : (m : M) → is_empty m ≡ is_nil (iter m)
  pub iter-insert :
      (k j : ℕ) (v : V) (m m' : M)
      → insert k v m ≡ some m'
      → lookup j (iter m') ≡ (if j == k then some v else lookup j (iter m))
  pub insert_full :
      (k : ℕ) (v : V) (m : M)
      → insert k v m ≡ none
      → (lookup k (iter m) ≡ none) × (capacity ≤ length (iter m))
  pub iter-retain :
      (p : ℕ → V → Bool) (j : ℕ) (m : M)
      → lookup j (iter (retain p m)) ≡ kept p j (lookup j (iter m))
