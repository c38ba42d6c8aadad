-- ===== src/FreeRtos/Executor/Due.antt =====
-- How many steps of the loop lie ahead of a task that is queued.
use derusting.Prelude.{
  ℕ, suc, ◌+◌, ◌≤◌, ◌<◌, ◌≡◌, ap, ◌⊎◌, inl, inr, true, Bool-cases, List, [], ◌∷◌, length, elem,
  arith,
}
use derusting.FreeRtos.TimeDriver.{Queue}
use derusting.FreeRtos.Task.{Handle, Kernel}
use derusting.FreeRtos.Executor.{RunQueue, Point, polls, polling, waits, takes, Executor, wake}
use derusting.FreeRtos.Executor.Steps.{IsTaken, IsAwake, wake-IsAwake}

-- The steps of the loop until a queued task is polled at the latest, with `k` tasks taken and `w` queued.
abbrev pub ahead : Point → ℕ → ℕ → ℕ
ahead polls k w = 1 + w
ahead polling k w = 4 + k + w
ahead waits k w = 3 + w
ahead (takes ticks) k w = 2 + w

pub elem_some : (t : ℕ) (l : List ℕ) → elem t l ≡ true → 0 < length l
unfolding elem
elem_some t [] h = absurd (cc)
elem_some t (x ∷ l) h = omega arith

pub elem_head : (t : ℕ) (l : List ℕ) → elem t (t ∷ l) ≡ true
unfolding elem
elem_head t l = ground arith

elem_tail : (t u : ℕ) (l : List ℕ) → elem t l ≡ true → elem t (u ∷ l) ≡ true
unfolding elem
elem_tail t u l h = ground arith

module _ {K Q W T : Type 0} (kernel : Kernel K) (raw : RunQueue Q) (timers : Queue W T)
    (task : Handle) where
  -- The task is polled after `n` steps of the loop at the latest, as things stand.
  pub data Due (t n : ℕ) (s : Executor K Q T) : Type 0 where
    among_taken : elem t (raw.taken s.inner) ≡ true → length (raw.taken s.inner) ≤ n → Due t n s
    among_queued :
        elem t (raw.waiting s.inner) ≡ true
        → ahead s.point (length (raw.taken s.inner)) (length (raw.waiting s.inner)) ≤ n
        → Due t n s

  ahead_more : (p : Point) (k w : ℕ) → ahead p k (suc w) ≡ suc (ahead p k w)
  ahead_more polls k w = omega arith
  ahead_more polling k w = omega arith
  ahead_more waits k w = omega arith
  ahead_more (takes n) k w = omega arith

  ahead_pos : (p : Point) (k w : ℕ) → 0 < ahead p k w
  ahead_pos polls k w = omega arith
  ahead_pos polling k w = omega arith
  ahead_pos waits k w = omega arith
  ahead_pos (takes n) k w = omega arith

  pub Due-pos : (t n : ℕ) (s : Executor K Q T) → Due t n s → 0 < n
  Due-pos t n s (among_taken e l) = omega (arith, elem_some t (raw.taken s.inner) e)
  Due-pos t n s (among_queued e l) =
      omega (arith, ahead_pos s.point (length (raw.taken s.inner)) (length (raw.waiting s.inner)))

  -- A queued task stays queued.
  pub wake-Due :
      (u ipsr t n : ℕ) (s : Executor K Q T)
      → Due t n s
      → Due t (suc n) (wake kernel raw timers task u ipsr s)
  unfolding wake
  wake-Due u ipsr t n s (among_taken e l) =
      among_taken (rw (raw.taken-wake u s.inner) e) (rw (raw.taken-wake u s.inner) (omega arith))
  wake-Due u ipsr t n s (among_queued e l) =
      let q = s.inner in
      let again : (elem u (raw.waiting q) ≡ true) ⊎ (elem u (raw.taken q) ≡ true)
          → Due t (suc n) (wake kernel raw timers task u ipsr s) =
        λ h. among_queued (rw (raw.wake_again u q h) e) (rw (raw.wake_again u q h) (omega arith)) in
      elim (Bool-cases (elem u (raw.waiting q))) [
        | inl f ↦ again (inl f)
        | inr f ↦ elim (Bool-cases (elem u (raw.taken q))) [
          | inl g ↦ again (inr g)
          | inr g ↦ among_queued (rw (raw.waiting-wake u q f g) (elem_tail t u (raw.waiting q) e)) (
              rw (raw.waiting-wake u q f g, raw.taken-wake u q)
                (omega (arith, ahead_more s.point (length (raw.taken q)) (length (raw.waiting q)))))
        ]
      ]

  -- What is taken lies ahead.
  taken-ahead :
      (point : Point) (l : List ℕ) (w : ℕ) → IsTaken point l → length l ≤ ahead point (length l) w
  taken-ahead polls l w e = omega (arith, ap length e)
  taken-ahead polling l w e = omega arith
  taken-ahead waits l w e = omega (arith, ap length e)
  taken-ahead (takes n) l w e = omega (arith, ap length e)

  -- A task that has just been woken.
  pub woken-Due :
      (t ipsr : ℕ) (s : Executor K Q T)
      → IsAwake kernel raw timers task s
      → let s' = wake kernel raw timers task t ipsr s in
        Due t (ahead s'.point (length (raw.taken s'.inner)) (length (raw.waiting s'.inner))) s'
  unfolding wake
  woken-Due t ipsr s h =
      let q = s.inner in
      elim (Bool-cases (elem t (raw.waiting q))) [
        | inl f ↦ among_queued (rw (raw.wake_again t q (inl f)) f) (omega arith)
        | inr f ↦ elim (Bool-cases (elem t (raw.taken q))) [
          | inl g ↦ among_taken (rw (raw.taken-wake t q) g) (
              taken-ahead s.point (raw.taken (raw.wake t q).1)
                (length (raw.waiting (raw.wake t q).1))
                (wake-IsAwake kernel raw timers task t ipsr s h).reached)
          | inr g ↦
              among_queued (rw (raw.waiting-wake t q f g) (elem_head t (raw.waiting q)))
                (omega arith)
        ]
      ]
