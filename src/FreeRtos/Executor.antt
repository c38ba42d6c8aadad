-- ===== src/FreeRtos/Executor.antt =====
-- src/free_rtos/executor.rs: the loop that polls the tasks, and the pender that wakes it.
--
-- `RunQueue` is `raw::Executor` of the crate `embassy_executor`. The loop's own steps and what
-- happens between them, in tasks, interrupts and other threads, are a list of events; an event that
-- does not fit the point where the loop stands changes nothing.
pub mod Steps
pub mod Due
pub mod Nearer
pub mod Wakeups
use derusting.Prelude.{
  ℕ, ◌+◌, ◌≡◌, ◌≢◌, ◌<◌, ◌⊎◌, Bool, true, false, Option, none, some, List, [], ◌∷◌, ◌++◌, length,
  elem, is_nil, ltb, ◌==◌, if◌then◌else◌,
}
use derusting.FreeRtos.TimeDriver.{FreeRtosTimeDriver, Queue, next_expiration, ticks_to_wait}
use derusting.FreeRtos.Task.{Handle, Kernel}

pub record RunQueue (Q : Type 0) : Type 0 where
  pub new : Q
  -- A task is woken or spawned; the answer is whether `__pender` is called.
  pub wake : ℕ → Q → Bool × Q
  -- `poll` takes all tasks that are queued, and then one after the other until none is left.
  pub start_poll : Q → Q
  pub next_task : Q → Option (ℕ × Q)
  -- The tasks queued, and those that `poll` has taken and not reached.
  pub waiting : Q → List ℕ
  pub taken : Q → List ℕ
  pub waiting-new : waiting new ≡ []
  pub taken-new : taken new ≡ []
  -- A task that is queued or taken stays so.
  pub wake_again :
      (t : ℕ) (q : Q)
      → (elem t (waiting q) ≡ true) ⊎ (elem t (taken q) ≡ true)
      → wake t q ≡ (false, q)
  -- Another is queued, and the pender is called where it is the only one.
  pub wake_pends :
      (t : ℕ) (q : Q)
      → elem t (waiting q) ≡ false
      → elem t (taken q) ≡ false
      → (wake t q).0 ≡ is_nil (waiting q)
  pub waiting-wake :
      (t : ℕ) (q : Q)
      → elem t (waiting q) ≡ false
      → elem t (taken q) ≡ false
      → waiting (wake t q).1 ≡ t ∷ waiting q
  pub taken-wake : (t : ℕ) (q : Q) → taken (wake t q).1 ≡ taken q
  pub waiting-start_poll : (q : Q) → waiting (start_poll q) ≡ []
  pub length-start_poll :
      (q : Q) → taken q ≡ [] → length (taken (start_poll q)) ≡ length (waiting q)
  pub elem-start_poll :
      (t : ℕ) (q : Q) → taken q ≡ [] → elem t (taken (start_poll q)) ≡ elem t (waiting q)
  pub next_task_none : (q : Q) → next_task q ≡ none → taken q ≡ []
  pub waiting-next_task : (t : ℕ) (q q' : Q) → next_task q ≡ some (t, q') → waiting q' ≡ waiting q
  pub length-next_task :
      (t : ℕ) (q q' : Q) → next_task q ≡ some (t, q') → length (taken q) ≡ length (taken q') + 1
  pub elem-next_task :
      (u t : ℕ) (q q' : Q)
      → next_task q ≡ some (t, q')
      → elem u (taken q) ≡ true
      → (u ≡ t) ⊎ (elem u (taken q') ≡ true)

-- `__pender`: the interrupt number of the register IPSR is 0 outside of interrupts.
unfoldable pub pender : {K : Type 0} → Kernel K → Option Handle → ℕ → K → K
pender kernel none ipsr k = k
pender kernel (some task_handle) ipsr k =
    if ipsr == 0
    then kernel.generic_notify task_handle 0 0 2 k
    else (let (higher_priority_task_woken, k') =
          kernel.generic_notify_from_isr task_handle 0 0 2 k in
        if higher_priority_task_woken == 0 then k' else kernel.set_pendsv k')

-- Where the loop of `run` stands: before `poll`, in it, before the wait, or in the wait, told to
-- last for some ticks.
pub data Point : Type 0 where
  polls polling waits : Point
  takes : ℕ → Point

pub record Executor (K Q T : Type 0) : Type 0 where
  -- the task handle that `new` was given
  pub context : Option Handle
  pub inner : Q
  pub point : Point
  -- FreeRTOS and the static `DRIVER`
  pub kernel : K
  pub driver : FreeRtosTimeDriver T

pub data Event : Type 0 where
  -- A task is woken, with the interrupt number of the code that does it.
  wakes : ℕ → ℕ → Event
  -- The loop's next step, with the tick counts that it reads, if it does.
  goes : ℕ → ℕ → Event
  -- The ticks of the wait are over.
  expires : ℕ → Event

module _ {K Q W T : Type 0} (kernel : Kernel K) (raw : RunQueue Q) (timers : Queue W T)
    (task : Handle) where
  -- `new`
  unfoldable pub new : Option Handle → K → FreeRtosTimeDriver T → Executor K Q T
  new context k driver = record {
    context = context;
    inner = raw.new;
    point = polls;
    kernel = k;
    driver = driver;
  }

  unfoldable pub wake : ℕ → ℕ → Executor K Q T → Executor K Q T
  wake t ipsr s =
      let (pends, q) = raw.wake t s.inner in
      record s {
        inner = q;
        kernel = (if pends then pender kernel s.context ipsr s.kernel else s.kernel);
      }

  -- From the return of `ulTaskGenericNotifyTake` to the next `poll`.
  unfoldable pub resume : ℕ → Executor K Q T → Executor K Q T
  resume last s = record s {
    point = polls;
    kernel = kernel.generic_notify_take task 0 1 s.kernel;
    driver = (next_expiration timers last s.driver).1;
  }

  -- The next task of `poll`, or its end.
  unfoldable pub poll_next : Executor K Q T → Executor K Q T × List ℕ
  poll_next s = elim (raw.next_task s.inner) [
    | none ↦ (record s { point = waits }, [])
    | some (t, q) ↦ (record s { inner = q }, t ∷ [])
  ]

  -- The first part of `wait_for_interrupt_or_timeout`.
  unfoldable pub begin_wait : ℕ → ℕ → Executor K Q T → Executor K Q T
  begin_wait first second s =
      let (ticks, d) = ticks_to_wait timers first second s.driver in
      record s { point = takes ticks; driver = d }

  -- The wait goes on while the notification's value is 0.
  unfoldable pub try_take : ℕ → Executor K Q T → Executor K Q T
  try_take last s = if ltb 0 (kernel.value task 0 s.kernel) then resume last s else s

  -- One step of the loop of `run`, and the tasks that it polls; the task of the loop is `task`.
  unfoldable pub go : Point → ℕ → ℕ → Executor K Q T → Executor K Q T × List ℕ
  go polls first second s = (record s { inner = raw.start_poll s.inner; point = polling }, [])
  go polling first second s = poll_next s
  go waits first second s = (begin_wait first second s, [])
  go (takes ticks) first second s = (try_take first s, [])

  unfoldable pub expire : Point → ℕ → Executor K Q T → Executor K Q T
  expire (takes ticks) last s = resume last s
  expire point last s = s

  unfoldable pub step : Event → Executor K Q T → Executor K Q T × List ℕ
  step (wakes t ipsr) s = (wake t ipsr s, [])
  step (goes first second) s = go s.point first second s
  step (expires last) s = (expire s.point last s, [])

  -- `run`, with the tasks that it polls.
  unfoldable pub run : List Event → Executor K Q T → Executor K Q T × List ℕ
  run [] s = (s, [])
  run (e ∷ events) s =
      let (s', polled) = step e s in let (s'', more) = run events s' in (s'', polled ++ more)
