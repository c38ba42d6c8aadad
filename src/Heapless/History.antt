-- ===== src/Heapless/History.antt =====
-- `heapless::HistoryBuf` of identifiers: the last `capacity` values that were written.
use derusting.Prelude.{ℕ, ◌≡◌, Bool, List, [], ◌∷◌, take, elem}

pub record History (H : Type 0) : Type 0 where
  pub capacity : ℕ
  pub new : H
  pub write : ℕ → H → H
  pub contains : H → ℕ → Bool
  -- The values held, the newest first.
  pub recent : H → List ℕ
  pub recent-new : recent new ≡ []
  pub recent-write : (a : ℕ) (h : H) → recent (write a h) ≡ take capacity (a ∷ recent h)
  pub contains-recent : (h : H) (a : ℕ) → contains h a ≡ elem a (recent h)
