-- ===== src/FreeRtos/TimeDriver.antt =====
-- src/free_rtos/time_driver.rs: Embassy's 64-bit clock over the 32-bit tick counter of FreeRTOS.
--
-- `Queue` is the timer queue of the crate `embassy_time_queue_utils`, with wakers of any type. A call of
-- `xTaskGetTickCount` is an argument: the tick that it returns. The sums of the code wrap around.
pub mod Sync
use derusting.Prelude.{ℕ, ◌+◌, ◌-◌, ◌*◌, ◌%◌, min, Bool, true, false, ltb, if◌then◌else◌}

abbrev pub u32_size : ℕ
u32_size = 4_294_967_296

abbrev pub u64_size : ℕ
u64_size = 18_446_744_073_709_551_616

pub record Queue (W Q : Type 0) : Type 0 where
  pub schedule_wake : ℕ → W → Q → Q
  -- The time of the next timer, as seen at the given time; timers that are due are taken out.
  pub next_expiration : ℕ → Q → ℕ × Q

pub record FreeRtosTimeDriver (Q : Type 0) : Type 0 where
  pub timekeeper : ℕ
  pub free_rtos_now : ℕ
  pub queue : Q

-- `u32::wrapping_sub`
abbrev pub wrapping_sub : ℕ → ℕ → ℕ
wrapping_sub a b = (a + u32_size - b) % u32_size

unfoldable pub now : {Q : Type 0} → ℕ → FreeRtosTimeDriver Q → ℕ × FreeRtosTimeDriver Q
now tick d =
    let tick_diff = wrapping_sub tick d.free_rtos_now in
    if ltb 0 tick_diff
    then (
      (d.timekeeper + tick_diff) % u64_size,
      record d { timekeeper = (d.timekeeper + tick_diff) % u64_size; free_rtos_now = tick },
    )
    else (d.timekeeper, d)

module _ {W Q : Type 0} (queue : Queue W Q) where
  unfoldable pub schedule_wake : ℕ → W → FreeRtosTimeDriver Q → FreeRtosTimeDriver Q
  schedule_wake at waker d = record d { queue = queue.schedule_wake at waker d.queue }

  unfoldable pub next_expiration : ℕ → FreeRtosTimeDriver Q → ℕ × FreeRtosTimeDriver Q
  next_expiration tick d =
      let (time, d') = now tick d in
      let (at, q) = queue.next_expiration time d'.queue in (at, record d' { queue = q })

  -- The ticks that `ulTaskGenericNotifyTake` is told to wait for; the counter is read at the start and
  -- for the expiration.
  unfoldable pub ticks_to_wait : ℕ → ℕ → FreeRtosTimeDriver Q → ℕ × FreeRtosTimeDriver Q
  ticks_to_wait first second d =
      let (now_ticks, d1) = now first d in
      let (exp_ticks, d2) = next_expiration second d1 in
      let diff_ticks = min (exp_ticks - now_ticks) (u32_size - 1) in (diff_ticks % u32_size, d2)

  -- The ticks, and the driver after the wait, for which the counter is read once more.
  unfoldable pub wait_for_interrupt_or_timeout :
      ℕ → ℕ → ℕ → FreeRtosTimeDriver Q → ℕ × FreeRtosTimeDriver Q
  wait_for_interrupt_or_timeout first second last d =
      let (ticks, d2) = ticks_to_wait first second d in (ticks, (next_expiration last d2).1)
