-- ===== src/Heapless/Channel.antt =====
-- `embassy_sync::channel::Channel`: a bounded first-in first-out queue. A task that waits in
-- `receive` is resumed when `try_receive` has a value.
use derusting.Prelude.{ℕ, ◌≡◌, ◌≤◌, ◌<◌, Option, none, some, List, [], ◌∷◌, ◌++◌, length}

pub record Channel (T C : Type 0) : Type 0 where
  pub capacity : ℕ
  pub new : C
  -- `none` is the documented error of a full channel: the value comes back to the sender.
  pub try_send : T → C → Option C
  pub try_receive : C → Option (T × C)
  -- The values waiting, the oldest first.
  pub waiting : C → List T
  pub waiting-new : waiting new ≡ []
  pub waiting-try_send :
      (x : T) (c c' : C) → try_send x c ≡ some c' → waiting c' ≡ waiting c ++ x ∷ []
  pub try_send_full : (x : T) (c : C) → try_send x c ≡ none → capacity ≤ length (waiting c)
  pub try_send_room : (x : T) (c c' : C) → try_send x c ≡ some c' → length (waiting c) < capacity
  pub try_receive_empty : (c : C) → try_receive c ≡ none → waiting c ≡ []
  pub waiting-try_receive :
      (x : T) (c c' : C) → try_receive c ≡ some (x, c') → waiting c ≡ x ∷ waiting c'
  -- `clear` drops the values that wait.
  pub clear : C → C
  pub waiting-clear : (c : C) → waiting (clear c) ≡ []
