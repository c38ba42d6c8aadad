-- ===== src/FreeRtos/Executor/Nearer.antt =====
-- Each step of the loop brings a queued task nearer to its poll.
use derusting.Prelude.{
  ℕ, suc, ◌+◌, ◌≤◌, ◌≡◌, ◌∙◌, ap, subst, ◌⊎◌, inl, inr, true, Option-cases, [], length, elem,
  lt→ltb, arith,
}
use derusting.FreeRtos.TimeDriver.{Queue}
use derusting.FreeRtos.Task.{Handle, Kernel}
use derusting.FreeRtos.Executor.{
  RunQueue, Point, polls, polling, waits, takes, Executor, resume, poll_next, begin_wait, try_take,
  go, expire,
}
use derusting.FreeRtos.Executor.Steps.{Sound, IsTaken, IsAwake, value, queued}
use derusting.FreeRtos.Executor.Due.{elem_some, elem_head, ahead, Due, among_taken, among_queued}

module _ {K Q W T : Type 0} (kernel : Kernel K) (raw : RunQueue Q) (timers : Queue W T)
    (task : Handle) where
  poll_next-Due :
      (t n : ℕ) (s : Executor K Q T)
      → s.point ≡ polling
      → Due kernel raw timers task t (suc n) s
      → (elem t (poll_next kernel raw timers task s).1 ≡ true)
        ⊎ Due kernel raw timers task t n (poll_next kernel raw timers task s).0
  unfolding poll_next
  poll_next-Due t n s p d = elim (Option-cases (raw.next_task s.inner)) [
    | inl e ↦
        let empty = raw.next_task_none s.inner e in rw (poll_next, e) (inr (ended t n s p empty d))
    | inr ((u, q), e) ↦
        rw (poll_next, e)
          (elim d [
            | among_taken m l ↦ elim (raw.elem-next_task t u s.inner q e m) [
              | inl same ↦ inl (rw same (elem_head u []))
              | inr m' ↦ inr (among_taken m' (omega (arith, raw.length-next_task u s.inner q e)))
            ]
            | among_queued m l ↦
                let same = raw.waiting-next_task u s.inner q e in
                let l' : ahead polling (length (raw.taken s.inner)) (length (raw.waiting s.inner))
                    ≤ suc n =
                  subst
                    (λ p.
                      ahead p (length (raw.taken s.inner)) (length (raw.waiting s.inner)) ≤ suc n)
                    p l in
                inr (
                  among_queued (rw same m)
                    (rw (p, same) (omega (arith, raw.length-next_task u s.inner q e))))
          ])
  ]
    where
      ended :
          (t n : ℕ) (s : Executor K Q T)
          → s.point ≡ polling
          → raw.taken s.inner ≡ []
          → Due kernel raw timers task t (suc n) s
          → Due kernel raw timers task t n (record s { point = waits })
      ended t n s p empty (among_taken m l) =
          absurd (omega (arith, elem_some t (raw.taken s.inner) m, ap length empty))
      ended t n s p empty (among_queued m l) =
          let l' : ahead polling (length (raw.taken s.inner)) (length (raw.waiting s.inner))
              ≤ suc n =
            subst (λ p. ahead p (length (raw.taken s.inner)) (length (raw.waiting s.inner)) ≤ suc n)
              p l in
          among_queued m (omega arith)

  taken_at :
      (point : Point) (s : Executor K Q T)
      → s.point ≡ point
      → IsAwake kernel raw timers task s
      → IsTaken point (raw.taken s.inner)
  taken_at point s p h = subst (λ p. IsTaken p (raw.taken s.inner)) p h.reached

  -- Where nothing is taken, the task is queued.
  queued_at :
      (t n : ℕ) (point : Point) (s : Executor K Q T)
      → s.point ≡ point
      → raw.taken s.inner ≡ []
      → Due kernel raw timers task t n s
      → (elem t (raw.waiting s.inner) ≡ true)
        × (ahead point (length (raw.taken s.inner)) (length (raw.waiting s.inner)) ≤ n)
  queued_at t n point s p e (among_taken m l) =
      absurd (omega (arith, elem_some t (raw.taken s.inner) m, ap length e))
  queued_at t n point s p e (among_queued m l) =
      (m, subst (λ p. ahead p (length (raw.taken s.inner)) (length (raw.waiting s.inner)) ≤ n) p l)

  resume-Due :
      (t n last : ℕ) (s : Executor K Q T)
      → elem t (raw.waiting s.inner) ≡ true
      → 1 + length (raw.waiting s.inner) ≤ n
      → Due kernel raw timers task t n (resume kernel raw timers task last s)
  unfolding resume
  resume-Due t n last s m l = among_queued m l

  pub go-Due :
      (t n : ℕ) (point : Point) (first second : ℕ) (s : Executor K Q T)
      → s.point ≡ point
      → IsAwake kernel raw timers task s
      → Due kernel raw timers task t (suc n) s
      → (elem t (go kernel raw timers task point first second s).1 ≡ true)
        ⊎ Due kernel raw timers task t n (go kernel raw timers task point first second s).0
  unfolding go begin_wait try_take
  go-Due t n polls first second s p h d =
      let empty = taken_at polls s p h in
      let (m, l) = queued_at t (suc n) polls s p empty d in
      inr (
        among_taken (raw.elem-start_poll t s.inner empty ∙ m)
          (omega (arith, raw.length-start_poll s.inner empty)))
  go-Due t n polling first second s p h d = poll_next-Due t n s p d
  go-Due t n waits first second s p h d =
      let empty = taken_at waits s p h in
      let (m, l) = queued_at t (suc n) waits s p empty d in inr (among_queued m (omega arith))
  go-Due t n (takes ticks) first second s p h d =
      let empty = taken_at (takes ticks) s p h in
      let (m, l) = queued_at t (suc n) (takes ticks) s p empty d in
      let sound : Sound (takes ticks) (value kernel raw timers task s)
          (queued kernel raw timers task s) =
        subst (λ p. Sound p (value kernel raw timers task s) (queued kernel raw timers task s)) p
          h.sound in
      let notified =
        lt→ltb 0 (kernel.value task 0 s.kernel) (sound.2 (elem_some t (raw.waiting s.inner) m)) in
      inr (simp notified (resume-Due t n first s m (omega arith)))

  pub expire-Due :
      (t n : ℕ) (point : Point) (last : ℕ) (s : Executor K Q T)
      → s.point ≡ point
      → IsAwake kernel raw timers task s
      → Due kernel raw timers task t n s
      → Due kernel raw timers task t n (expire kernel raw timers task point last s)
  unfolding expire
  expire-Due t n polls last s p h d = d
  expire-Due t n polling last s p h d = d
  expire-Due t n waits last s p h d = d
  expire-Due t n (takes ticks) last s p h d =
      let empty = taken_at (takes ticks) s p h in
      let (m, l) = queued_at t n (takes ticks) s p empty d in resume-Due t n last s m (omega arith)
