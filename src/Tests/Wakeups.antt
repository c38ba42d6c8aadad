-- ===== src/Tests/Wakeups.antt =====
-- A kernel, a run queue and a timer queue, and the executor on them.
use derusting.Prelude.{
  ℕ, ◌+◌, ◌%◌, ◌≡◌, refl, ◌⊎◌, inl, inr, Bool, true, false, ◌||◌, Bool-cases, Option, none, some,
  List, [], ◌∷◌, elem, is_nil, ◌==◌, if◌then◌else◌, arith, ap, sym,
}
use derusting.FreeRtos.TimeDriver.{u32_size, FreeRtosTimeDriver, Queue}
use derusting.FreeRtos.Task.{Kernel}
use derusting.FreeRtos.Executor.{
  RunQueue, Event, wakes, goes, new, wake, run, step, go, resume, poll_next, begin_wait, try_take,
  pender, expire,
}
use derusting.FreeRtos.Executor.Wakeups.{every_wake_is_polled}

-- One notification for all.
abbrev counter : Kernel ℕ
counter = record {
  generic_notify = λ h i v action k. if action == 2 then (k + 1) % u32_size else k;
  generic_notify_from_isr = λ h i v action k. (1, if action == 2 then (k + 1) % u32_size else k);
  set_pendsv = λ k. k;
  generic_notify_take = λ h i clear k. if clear == 1 then 0 else k;
  value = λ h i k. k;
  value-notify = λ h i v k. refl;
  value-notify_from_isr = λ h i v k. refl;
  value-set_pendsv = λ h i k. refl;
  value-take = λ h i k. refl;
}

-- The tasks queued, and those taken.
abbrev Pair : Type 0
Pair = List ℕ × List ℕ

abbrev put : ℕ → Pair → Bool × Pair
put t (w, k) = if elem t w || elem t k then (false, (w, k)) else (is_nil w, (t ∷ w, k))

abbrev pop : Pair → Option (ℕ × Pair)
pop (w, []) = none
pop (w, t ∷ k) = some (t, (w, k))

put_again : (t : ℕ) (q : Pair) → (elem t q.0 ≡ true) ⊎ (elem t q.1 ≡ true) → put t q ≡ (false, q)
put_again t (w, k) (inl e) = rw e refl
put_again t (w, k) (inr e) = elim (Bool-cases (elem t w)) [
  | inl f ↦ rw f refl
  | inr f ↦ rw (e, f) refl
]

put_new :
    (t : ℕ) (q : Pair)
    → elem t q.0 ≡ false
    → elem t q.1 ≡ false
    → put t q ≡ (is_nil q.0, (t ∷ q.0, q.1))
put_new t (w, k) e f = rw (e, f) refl

put_taken : (t : ℕ) (q : Pair) → (put t q).1.1 ≡ q.1
put_taken t (w, k) = elim (Bool-cases (elem t w || elem t k)) [
  | inl f ↦ rw f refl
  | inr f ↦ rw f refl
]

pop-none : (q : Pair) → pop q ≡ none → q.1 ≡ []
pop-none (w, []) e = refl
pop-none (w, t ∷ k) e = absurd (cc)

pop-some : (t : ℕ) (q q' : Pair) → pop q ≡ some (t, q') → (q.0 ≡ q'.0) × (q.1 ≡ t ∷ q'.1)
pop-some t (w, []) q' e = absurd (cc)
pop-some t (w, u ∷ k) (w', k') e = ground arith

elem_cons : (u t : ℕ) (l l' : List ℕ) → l ≡ t ∷ l' → elem u l ≡ true → (u ≡ t) ⊎ (elem u l' ≡ true)
unfolding elem
elem_cons u t l l' e h = elim (Bool-cases (u == t)) [
  | inl f ↦ inl (ground arith)
  | inr f ↦ inr (ground arith)
]

abbrev pair : RunQueue Pair
pair = record {
  new = ([], []);
  wake = put;
  start_poll = λ q. ([], q.0);
  next_task = pop;
  waiting = λ q. q.0;
  taken = λ q. q.1;
  waiting-new = refl;
  taken-new = refl;
  wake_again = put_again;
  wake_pends = λ t q e f. ap (λ r. r.0) (put_new t q e f);
  waiting-wake = λ t q e f. ap (λ r. r.1.0) (put_new t q e f);
  taken-wake = put_taken;
  waiting-start_poll = λ q. refl;
  length-start_poll = λ q e. refl;
  elem-start_poll = λ t q e. refl;
  next_task_none = pop-none;
  waiting-next_task = λ t q q' e. sym (pop-some t q q' e).0;
  length-next_task = λ t q q' e. rw (pop-some t q q' e).1 (omega arith);
  elem-next_task = λ u t q q' e h. elem_cons u t q.1 q'.1 (pop-some t q q' e).1 h;
}

abbrev timers : Queue ℕ ℕ
timers = record { schedule_wake = λ at waker q. q; next_expiration = λ time q. (1_000_000, q) }

abbrev driver : FreeRtosTimeDriver ℕ
driver = record { timekeeper = 0; free_rtos_now = 0; queue = 0 }

-- A task has been spawned and polled, and the loop is in its wait.
abbrev before : List Event
before = wakes 1 0 ∷ goes 0 0 ∷ goes 0 0 ∷ goes 0 0 ∷ goes 5 5 ∷ []

abbrev after : List Event
after = goes 6 6 ∷ wakes 1 0 ∷ goes 6 6 ∷ goes 6 6 ∷ goes 6 6 ∷ []

every_wake_is_polled_example :
    let s = (run counter pair timers 7 before (new counter pair timers 7 (some 7) 0 driver)).0 in
    elem 2 (run counter pair timers 7 after (wake counter pair timers 7 2 37 s)).1 ≡ true
unfolding run step new wake go resume poll_next begin_wait try_take pender elem expire
every_wake_is_polled_example =
    every_wake_is_polled counter pair timers 7 0 driver before 2 37 after refl (omega arith)
