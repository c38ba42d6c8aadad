-- ===== src/FreeRtos/Executor/Steps.antt =====
-- What the steps of the executor keep: a queued task has notified the task that runs the loop.
use derusting.Prelude.{
  ℕ, ◌+◌, ◌%◌, ◌≤◌, ◌<◌, ◌≡◌, ◌∙◌, sym, ap, refl, subst, suc, ◌⊎◌, inl, inr, true, false,
  Bool-cases, some, Option-cases, List, [], ◌∷◌, length, elem, is_nil, ltb, ◌==◌, arith,
}
use derusting.FreeRtos.TimeDriver.{u32_size, Queue}
use derusting.FreeRtos.Task.{Handle, Kernel}
use derusting.FreeRtos.Executor.{
  RunQueue, pender, Point, polls, polling, waits, takes, Executor, Event, wakes, goes, expires,
  wake, resume, poll_next, begin_wait, try_take, go, expire, step,
}

-- The value of the notification, and the count of the tasks queued: before `poll` a task may be
-- queued with no notification, from then on it may not.
abbrev pub Sound : Point → ℕ → ℕ → Type 0
Sound polls v w = (v ≤ 1) × (v ≤ w)
Sound point v w = (v ≤ 2) × (v ≤ 1 + w) × (0 < w → 0 < v)

-- Tasks have been taken and not polled only within `poll`.
abbrev pub IsTaken : Point → List ℕ → Type 0
IsTaken polling taken = Unit {0}
IsTaken point taken = taken ≡ []

-- A notification more, where no task was queued before.
Sound-first : (point : Point) (v : ℕ) → Sound point v 0 → Sound point ((v + 1) % u32_size) 1
Sound-first polls v h = omega arith
Sound-first polling v (a, b, c) = (omega arith, omega arith, λ p. omega arith)
Sound-first waits v (a, b, c) = (omega arith, omega arith, λ p. omega arith)
Sound-first (takes n) v (a, b, c) = (omega arith, omega arith, λ p. omega arith)

-- And none, where one was.
Sound-more : (point : Point) (v w : ℕ) → Sound point v w → 0 < w → Sound point v (suc w)
Sound-more polls v w h p = omega arith
Sound-more polling v w (a, b, c) p = (omega arith, omega arith, λ q. c p)
Sound-more waits v w (a, b, c) p = (omega arith, omega arith, λ q. c p)
Sound-more (takes n) v w (a, b, c) p = (omega arith, omega arith, λ q. c p)

value-pender :
    {K : Type 0} (kernel : Kernel K) (task ipsr : ℕ) (k : K)
    → kernel.value task 0 (pender kernel (some task) ipsr k)
      ≡ (kernel.value task 0 k + 1) % u32_size
unfolding pender
value-pender kernel task ipsr k = elim (Bool-cases (ipsr == 0)) [
  | inl e ↦ rw e (kernel.value-notify task 0 0 k)
  | inr e ↦
      let r = kernel.generic_notify_from_isr task 0 0 2 k in
      let counted = kernel.value-notify_from_isr task 0 0 k in
      elim (Bool-cases (r.0 == 0)) [
        | inl f ↦ rw (e, f) counted
        | inr f ↦ rw (e, f) (kernel.value-set_pendsv task 0 r.1 ∙ counted)
      ]
]

module _ {K Q W T : Type 0} (kernel : Kernel K) (raw : RunQueue Q) (timers : Queue W T)
    (task : Handle) where
  abbrev pub value : Executor K Q T → ℕ
  value s = kernel.value task 0 s.kernel

  abbrev pub queued : Executor K Q T → ℕ
  queued s = length (raw.waiting s.inner)

  pub record IsAwake (s : Executor K Q T) : Type 0 where
    pub context : s.context ≡ some task
    pub sound : Sound s.point (value s) (queued s)
    pub reached : IsTaken s.point (raw.taken s.inner)

  nil_or_more : (l : List ℕ) → (l ≡ []) ⊎ ((is_nil l ≡ false) × (0 < length l))
  nil_or_more [] = inl refl
  nil_or_more (x ∷ l) = inr (refl, omega arith)

  -- What waking a task does, whether it is queued already or not.
  wake-Sound :
      (t ipsr : ℕ) (s : Executor K Q T)
      → s.context ≡ some task
      → Sound s.point (value s) (queued s)
      → Sound s.point
          (value (wake kernel raw timers task t ipsr s))
          (queued (wake kernel raw timers task t ipsr s))
  unfolding wake
  wake-Sound t ipsr s c h =
      let q = s.inner in
      elim (Bool-cases (elem t (raw.waiting q))) [
        | inl e ↦ rw (raw.wake_again t q (inl e)) h
        | inr e ↦ elim (Bool-cases (elem t (raw.taken q))) [
          | inl f ↦ rw (raw.wake_again t q (inr f)) h
          | inr f ↦ elim (nil_or_more (raw.waiting q)) [
            | inl none_queued ↦
                let pends : (raw.wake t q).0 ≡ true =
                  raw.wake_pends t q e f ∙ ap is_nil none_queued in
                let now : raw.waiting (raw.wake t q).1 ≡ t ∷ [] =
                  raw.waiting-wake t q e f ∙ ap (λ l. t ∷ l) none_queued in
                let before : Sound s.point (value s) 0 =
                  subst (λ l. Sound s.point (value s) (length l)) none_queued h in
                rw (pends, now, c, value-pender kernel task ipsr s.kernel)
                  (Sound-first s.point (value s) before)
            | inr (some_queued, more) ↦
                let pends : (raw.wake t q).0 ≡ false = raw.wake_pends t q e f ∙ some_queued in
                rw (pends, raw.waiting-wake t q e f)
                  (Sound-more s.point (value s) (queued s) h more)
          ]
        ]
      ]

  pub wake-IsAwake :
      (t ipsr : ℕ) (s : Executor K Q T) → IsAwake s → IsAwake (wake kernel raw timers task t ipsr s)
  unfolding wake
  wake-IsAwake t ipsr s h = record {
    context = h.context;
    sound = wake-Sound t ipsr s h.context h.sound;
    reached = rw (raw.taken-wake t s.inner) h.reached;
  }

  resume-IsAwake :
      (last : ℕ) (s : Executor K Q T)
      → IsAwake s
      → raw.taken s.inner ≡ []
      → IsAwake (resume kernel raw timers task last s)
  unfolding resume
  resume-IsAwake last s h e = record {
    context = h.context;
    sound = rw (kernel.value-take task 0 s.kernel) (omega arith, omega arith);
    reached = e;
  }

  poll_next-IsAwake :
      (s : Executor K Q T)
      → s.point ≡ polling
      → IsAwake s
      → IsAwake (poll_next kernel raw timers task s).0
  unfolding poll_next
  poll_next-IsAwake s p h = elim (Option-cases (raw.next_task s.inner)) [
    | inl e ↦
        rw (poll_next, e)
          (record {
            context = h.context;
            sound = subst (λ point. Sound point (value s) (queued s)) p h.sound;
            reached = raw.next_task_none s.inner e;
          })
    | inr ((t, q), e) ↦
        rw (poll_next, e)
          (record {
            context = h.context;
            sound = rw (raw.waiting-next_task t s.inner q e) h.sound;
            reached = subst (λ point. IsTaken point (raw.taken q)) (sym p) tt;
          })
  ]

  go-IsAwake :
      (point : Point) (first second : ℕ) (s : Executor K Q T)
      → s.point ≡ point
      → IsAwake s
      → IsAwake (go kernel raw timers task point first second s).0
  unfolding go begin_wait try_take
  go-IsAwake polls first second s p h =
      let v : Sound polls (value s) (queued s) =
        subst (λ point. Sound point (value s) (queued s)) p h.sound in
      record {
        context = h.context;
        sound =
            rw (raw.waiting-start_poll s.inner)
              (omega arith, omega arith, λ q. absurd (omega arith));
        reached = tt;
      }
  go-IsAwake polling first second s p h = poll_next-IsAwake s p h
  go-IsAwake waits first second s p h = record {
    context = h.context;
    sound = subst (λ point. Sound point (value s) (queued s)) p h.sound;
    reached = subst (λ point. IsTaken point (raw.taken s.inner)) p h.reached;
  }
  go-IsAwake (takes n) first second s p h =
      let e = subst (λ point. IsTaken point (raw.taken s.inner)) p h.reached in
      elim (Bool-cases (ltb 0 (value s))) [
        | inl f ↦ simp f (resume-IsAwake first s h e)
        | inr f ↦ simp f h
      ]

  expire-IsAwake :
      (point : Point) (last : ℕ) (s : Executor K Q T)
      → s.point ≡ point
      → IsAwake s
      → IsAwake (expire kernel raw timers task point last s)
  unfolding expire
  expire-IsAwake polls last s p h = h
  expire-IsAwake polling last s p h = h
  expire-IsAwake waits last s p h = h
  expire-IsAwake (takes n) last s p h =
      resume-IsAwake last s h (subst (λ point. IsTaken point (raw.taken s.inner)) p h.reached)

  pub step-IsAwake :
      (e : Event) (s : Executor K Q T) → IsAwake s → IsAwake (step kernel raw timers task e s).0
  unfolding step
  step-IsAwake (wakes t ipsr) s h = wake-IsAwake t ipsr s h
  step-IsAwake (goes first second) s h = go-IsAwake s.point first second s refl h
  step-IsAwake (expires last) s h = expire-IsAwake s.point last s refl h
