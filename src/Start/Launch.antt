-- ===== src/Start/Launch.antt =====
-- `derusting_main` of src/lib.rs, and the Embassy task that it creates, with what they log.
--
-- What FreeRTOS, FatFs and the pool of `embassy_main` answer is given; `M` is the task `embassy_main`.
use derusting.Prelude.{
  ℕ, ◌*◌, Bool, true, false, Option, none, some, List, [], ◌∷◌, ◌++◌, if◌then◌else◌, Bytes, codes,
}
use derusting.Prelude.Result.{Result, ok, err}
use derusting.Std.Decimal.{show_u32}
use derusting.Heapless.Texts.{Texts}
use derusting.Fs.Stat.{FilInfo, FResult, show_error, stat}
use derusting.Marlin.{Firmware, is_ready}
use derusting.FreeRtos.TimeDriver.{FreeRtosTimeDriver, Queue}
use derusting.FreeRtos.Task.{Handle, Kernel, Creation, Task, new_static}
use derusting.FreeRtos.Executor.{RunQueue, Executor, new, wake}
use derusting.Log.{Event, log_info, log_error}

abbrev pub stack_bytes : ℕ
stack_bytes = 1024 * 4

abbrev pub tcb_bytes : ℕ
tcb_bytes = 128

-- `derusting_main`; `f` stands for the function `embassy`.
unfoldable pub derusting_main :
    {F : Type 0} → Texts → (Creation F → ℕ → Option Handle) → F → Event × Task
derusting_main texts create f = (
  log_info texts (codes "derusting_main()"),
  new_static create (codes "Embassy") f 1 stack_bytes tcb_bytes,
)

-- The size that is logged for the firmware's file, or the error.
unfoldable pub log_stat : Texts → Result FilInfo FResult → Event
log_stat texts (ok info) = log_info texts (codes "bbf file_size: " ++ show_u32 info.fsize)
log_stat texts (err e) = log_error texts (codes "stat error: " ++ show_error e)

abbrev pub show_bool : Bool → Bytes
show_bool true = codes "true"
show_bool false = codes "false"

-- The check of the task's handle.
unfoldable pub log_handle : Texts → Option Handle → List Event
log_handle texts none =
    log_error texts (codes "We should only be called within a FreeRTOS task.") ∷ []
log_handle texts (some h) = []

-- The logs of `embassy` before it runs the executor, but for those of the cleaning.
unfoldable pub boot_log :
    Texts → Option Handle → (Bytes → Result FilInfo FResult) → Firmware → List Event
boot_log texts current_task f_stat firmware =
    log_info texts (codes "Rust Embassy Task. Waiting 5secs...")
    ∷ log_info texts (codes "Rust Waking up...")
    ∷ (log_handle texts current_task
        ++ log_stat texts (stat texts f_stat (codes "/usb/firmware.bbf"))
          ∷ log_info texts (codes "Is Ready: " ++ show_bool (is_ready firmware))
          ∷ log_info texts (codes "Initialising Executor")
          ∷ [])

-- `log_stack_and_heap_size`: the free words of the stack, of four bytes each, and the free heap.
unfoldable pub log_stack_and_heap_size : Texts → ℕ → ℕ → Event
log_stack_and_heap_size texts free_stack_words heap = log_info texts (
    codes "Stack: "
    ++ (show_u32 (free_stack_words * 4) ++ (codes " bytes, Heap: " ++ show_u32 heap)))

module _ {K Q W T : Type 0} (kernel : Kernel K) (raw : RunQueue Q) (timers : Queue W T)
    (task : Handle) where
  -- `FreeRtosTaskExecutor::new` and the closure that `run` is given: `embassy_main` is spawned where
  -- its pool has a place.
  unfoldable pub launch : ℕ → Bool → Option Handle → K → FreeRtosTimeDriver T → Executor K Q T
  launch main has_place current_task k driver =
      let executor = new kernel raw timers task current_task k driver in
      if has_place then wake kernel raw timers task main 0 executor else executor
