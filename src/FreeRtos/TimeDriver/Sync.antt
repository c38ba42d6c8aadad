-- ===== src/FreeRtos/TimeDriver/Sync.antt =====
-- The clock follows the true count of ticks, over any number of overflows of FreeRTOS' counter.
use derusting.Prelude.{
  ℕ, ◌+◌, ◌-◌, ◌%◌, ◌≤◌, ◌<◌, ◌≡◌, min, refl, ◌∙◌, sym, ap, ap₂, ◌⊎◌, inl, inr, Bool-cases, ltb,
  List, [], ◌∷◌, arith,
}
use derusting.FreeRtos.TimeDriver.{
  u32_size, u64_size, FreeRtosTimeDriver, Queue, wrapping_sub, now, next_expiration, ticks_to_wait,
  wait_for_interrupt_or_timeout,
}

-- The driver was read last when FreeRTOS had counted `t` ticks, and has counted them all.
pub record InSync {Q : Type 0} (t : ℕ) (d : FreeRtosTimeDriver Q) : Type 0 where
  pub total : d.timekeeper ≡ t
  pub counter : d.free_rtos_now ≡ t % u32_size

-- The 32-bit counter after `t` ticks.
abbrev pub tick_count : ℕ → ℕ
tick_count t = t % u32_size

diff_lem : (t u : ℕ) → t ≤ u → u < t + u32_size → wrapping_sub (tick_count u) (tick_count t) ≡ u - t
diff_lem t u le lt = omega arith

-- A tick count that is `t` modulo the counter's size is the one read last.
tick_same : (t u : ℕ) → u ≡ t → tick_count t ≡ tick_count u
tick_same t u e = ap tick_count (sym e)

now_lem :
    {Q : Type 0}
    → (t u : ℕ) (d : FreeRtosTimeDriver Q) → InSync t d
    → t ≤ u
    → u < t + u32_size
    → u < u64_size
    → ((now (tick_count u) d).0 ≡ u) × InSync u (now (tick_count u) d).1
unfolding now
now_lem t u d s le lt small =
    let diff : wrapping_sub (tick_count u) d.free_rtos_now ≡ u - t =
      ap (wrapping_sub (tick_count u)) s.counter ∙ diff_lem t u le lt in
    elim (Bool-cases (ltb 0 (u - t))) [
      | inl e ↦
          let sum : (d.timekeeper + (u - t)) % u64_size ≡ u = omega (arith, s.total) in
          rw (diff, e) (sum, record { total = sum; counter = refl })
      | inr e ↦
          let same : u ≡ t = ground arith in
          rw (diff, e)
            (
              s.total ∙ sym same,
              record { total = s.total ∙ sym same; counter = s.counter ∙ tick_same t u same },
            )
    ]

-- The times, not before `t`, are each less than 2³² ticks after the one before, and below 2⁶⁴.
pub data Regular : ℕ → List ℕ → Type 0 where
  done : {t : ℕ} → Regular t []
  next :
      {t u : ℕ} {l : List ℕ}
      → t ≤ u
      → u < t + u32_size
      → u < u64_size
      → Regular u l
      → Regular t (u ∷ l)

-- The answers of calls of `now` at the given times.
abbrev pub readings : {Q : Type 0} → List ℕ → FreeRtosTimeDriver Q → List ℕ
readings [] d = []
readings (u ∷ l) d = (now (tick_count u) d).0 ∷ readings l (now (tick_count u) d).1

-- Calls of `now` that are each less than 2³² ticks (49 days) after the one before answer the true
-- time, in 64 bits, however often the 32-bit counter has overflowed.
pub readings_exact :
    {Q : Type 0}
    → (t : ℕ) (l : List ℕ) (d : FreeRtosTimeDriver Q) → InSync t d
    → Regular t l
    → readings l d ≡ l
readings_exact t [] d s r = refl
readings_exact t (u ∷ l) d s (next le lt small r) =
    let (answer, s') = now_lem t u d s le lt small in
    ap₂ ◌∷◌ answer (readings_exact u l (now (tick_count u) d).1 s' r)

now-queue : {Q : Type 0} → (tick : ℕ) (d : FreeRtosTimeDriver Q) → (now tick d).1.queue ≡ d.queue
unfolding now
now-queue tick d = elim (Bool-cases (ltb 0 (wrapping_sub tick d.free_rtos_now))) [
  | inl e ↦ rw e refl
  | inr e ↦ rw e refl
]

-- What the task is told to wait for, from `first` until `at`.
told :
    (at first : ℕ)
    → let ticks = min (at - first) (u32_size - 1) % u32_size in
      (ticks ≡ at - first) ⊎ ((ticks ≡ u32_size - 1) × (first + ticks < at))
told at first = elim (Bool-cases (ltb (at - first) u32_size)) [
  | inl e ↦ let less : at - first < u32_size = ground arith in inl (omega (arith, less))
  | inr e ↦
      let more : u32_size ≤ at - first = ground arith in
      inr (omega (arith, more), omega (arith, more))
]

-- A wait in step with the counter, which it reads at `first`, `second` and `last`, each less than 2³² ticks
-- after the reading before: it is told to last as many ticks as lie between the first reading and the
-- expiration `at` that the queue names at the second one, none if `at` had come by the first, and
-- 2³² - 1 at most, which is less than that; so it is not cut short by the narrowing to 32 bits. The driver is
-- in step afterwards.
pub wait_exact :
    {W Q : Type 0}
    → (queue : Queue W Q) (t first second last : ℕ) (d : FreeRtosTimeDriver Q) → InSync t d
    → Regular t (first ∷ second ∷ last ∷ [])
    → let at = (queue.next_expiration second d.queue).0 in
      let (ticks, d') =
        wait_for_interrupt_or_timeout queue
          (tick_count first)
          (tick_count second)
          (tick_count last)
          d in
      ((ticks ≡ at - first) ⊎ ((ticks ≡ u32_size - 1) × (first + ticks < at))) × InSync last d'
unfolding wait_for_interrupt_or_timeout ticks_to_wait next_expiration
wait_exact queue t first second last d s (next a b c (next a' b' c' (next a'' b'' c'' r))) =
    let (e, s1) = now_lem t first d s a b c in
    let d1 = (now (tick_count first) d).1 in
    let (e', s2) = now_lem first second d1 s1 a' b' c' in
    let d2 = (now (tick_count second) d1).1 in
    let expiration = queue.next_expiration (now (tick_count second) d1).0 d2.queue in
    let at_same : expiration.0 ≡ (queue.next_expiration second d.queue).0 =
      ap₂ (λ u q. (queue.next_expiration u q).0) e'
        (now-queue (tick_count second) d1 ∙ now-queue (tick_count first) d) in
    let d3 = record d2 { queue = expiration.1 } in
    let s3 =
      now_lem second last d3 (record { total = s2.total; counter = s2.counter }) a'' b'' c'' in
    (
      rw (at_same, e) (told (queue.next_expiration second d.queue).0 first),
      record { total = s3.1.total; counter = s3.1.counter },
    )
