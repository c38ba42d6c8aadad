-- ===== src/Heapless/IndexSet.antt =====
-- `heapless::index_set::FnvIndexSet` of identifiers, as src/tasks/messages.rs uses it for the jobs.
use derusting.Prelude.{
  ℕ, ◌≡◌, ◌≤◌, Bool, Option, none, some, List, [], length, not, ◌&&◌, ◌||◌, ◌==◌, elem,
}

pub record IndexSet (S : Type 0) : Type 0 where
  pub capacity : ℕ
  pub new : S
  -- `none` is the documented error of a full set, which leaves the set as it was.
  pub insert : ℕ → S → Option S
  pub remove : ℕ → S → S
  -- The members in the order of `iter`.
  pub iter : S → List ℕ
  pub iter-new : iter new ≡ []
  pub iter-insert :
      (a b : ℕ) (s s' : S) → insert a s ≡ some s' → elem b (iter s') ≡ (b == a || elem b (iter s))
  pub insert_full :
      (a : ℕ) (s : S)
      → insert a s ≡ none
      → (elem a (iter s) ≡ Bool.false) × (capacity ≤ length (iter s))
  pub iter-remove :
      (a b : ℕ) (s : S) → elem b (iter (remove a s)) ≡ (not (b == a) && elem b (iter s))
