-- ===== src/FreeRtos/Executor/Wakeups.antt =====
-- No wake-up is lost: a task that is woken is polled again, whatever happens in between.
use derusting.Prelude.{
  ℕ, zero, suc, ◌+◌, ◌≤◌, ◌≡◌, refl, inl, inr, true, some, List, [], ◌∷◌, ◌++◌, length, elem,
  elem-append, arith,
}
use derusting.FreeRtos.TimeDriver.{FreeRtosTimeDriver, Queue}
use derusting.FreeRtos.Task.{Handle, Kernel}
use derusting.FreeRtos.Executor.{
  RunQueue, Executor, new, Event, wakes, goes, expires, wake, go, expire, step, run,
}
use derusting.FreeRtos.Executor.Due.{ahead, Due, Due-pos, wake-Due, woken-Due}
use derusting.FreeRtos.Executor.Nearer.{go-Due, expire-Due}
use derusting.FreeRtos.Executor.Steps.{IsAwake, wake-IsAwake, step-IsAwake}

abbrev pub wake_count : List Event → ℕ
wake_count [] = 0
wake_count (wakes t ipsr ∷ l) = suc (wake_count l)
wake_count (e ∷ l) = wake_count l

-- The steps of the loop.
abbrev pub go_count : List Event → ℕ
go_count [] = 0
go_count (goes first second ∷ l) = suc (go_count l)
go_count (e ∷ l) = go_count l

elem_left : (t : ℕ) (l m : List ℕ) → elem t l ≡ true → elem t (l ++ m) ≡ true
elem_left t l m h = ground (arith, elem-append t l m)

elem_right : (t : ℕ) (l m : List ℕ) → elem t m ≡ true → elem t (l ++ m) ≡ true
elem_right t l m h = ground (arith, elem-append t l m)

module _ {K Q W T : Type 0} (kernel : Kernel K) (raw : RunQueue Q) (timers : Queue W T)
    (task : Handle) where
  run-Due :
      (t n : ℕ) (events : List Event) (s : Executor K Q T)
      → IsAwake kernel raw timers task s
      → Due kernel raw timers task t n s
      → n + wake_count events ≤ go_count events
      → elem t (run kernel raw timers task events s).1 ≡ true
  unfolding run step
  run-Due t n [] s h d l = absurd (omega (arith, Due-pos kernel raw timers task t n s d))
  run-Due t n (wakes u ipsr ∷ events) s h d l =
      run-Due t (suc n) events (wake kernel raw timers task u ipsr s)
        (wake-IsAwake kernel raw timers task u ipsr s h)
        (wake-Due kernel raw timers task u ipsr t n s d) (omega arith)
  run-Due t n (expires last ∷ events) s h d l =
      run-Due t n events (expire kernel raw timers task s.point last s)
        (step-IsAwake kernel raw timers task (expires last) s h)
        (expire-Due kernel raw timers task t n s.point last s refl h d) (omega arith)
  run-Due t zero (goes first second ∷ events) s h d l =
      absurd (omega (arith, Due-pos kernel raw timers task t 0 s d))
  run-Due t (suc n) (goes first second ∷ events) s h d l =
      let (s', polled) = go kernel raw timers task s.point first second s in
      elim (go-Due kernel raw timers task t n s.point first second s refl h d) [
        | inl found ↦ elem_left t polled (run kernel raw timers task events s').1 found
        | inr d' ↦ elem_right t polled (run kernel raw timers task events s').1 (
            run-Due t n events s' (step-IsAwake kernel raw timers task (goes first second) s h) d'
              (omega arith))
      ]

  run-IsAwake :
      (events : List Event) (s : Executor K Q T)
      → IsAwake kernel raw timers task s
      → IsAwake kernel raw timers task (run kernel raw timers task events s).0
  unfolding run
  run-IsAwake [] s h = h
  run-IsAwake (e ∷ events) s h =
      run-IsAwake events (step kernel raw timers task e s).0
        (step-IsAwake kernel raw timers task e s h)

  new-IsAwake :
      (k : K) (driver : FreeRtosTimeDriver T)
      → kernel.value task 0 k ≡ 0
      → IsAwake kernel raw timers task (new kernel raw timers task (some task) k driver)
  unfolding new
  new-IsAwake k driver e = record { context = refl; sound = omega arith; reached = raw.taken-new }

  -- Where the task of the loop is the one that the executor was made with, and its notification is 0 at
  -- first: a task that is woken, in an interrupt or not, and at any point of the loop, whatever has
  -- happened before, is polled after that, once the loop has taken as many steps as there were ahead,
  -- and one for each later wake-up. The wait never holds the loop up on the way, though no tick passes.
  pub every_wake_is_polled :
      (k : K) (driver : FreeRtosTimeDriver T) (before : List Event) (t ipsr : ℕ)
      (after : List Event)
      → kernel.value task 0 k ≡ 0
      → let s =
          (run kernel raw timers task before (new kernel raw timers task (some task) k driver)).0 in
        let s' = wake kernel raw timers task t ipsr s in
        ahead s'.point (length (raw.taken s'.inner)) (length (raw.waiting s'.inner))
            + wake_count after
          ≤ go_count after
        → elem t (run kernel raw timers task after s').1 ≡ true
  every_wake_is_polled k driver before t ipsr after e l =
      let h =
        run-IsAwake before (new kernel raw timers task (some task) k driver)
          (new-IsAwake k driver e) in
      run-Due t _ after _ (wake-IsAwake kernel raw timers task t ipsr _ h)
        (woken-Due kernel raw timers task t ipsr _ h) l
