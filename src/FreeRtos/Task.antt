-- ===== src/FreeRtos/Task.antt =====
-- src/free_rtos/task.rs and the part of src/free_rtos/bindings.rs that creates and notifies tasks.
--
-- Handles are pointers, as numbers that are not 0; null is `none`. What FreeRTOS answers is given.
use derusting.Prelude.{ℕ, ◌+◌, ◌/◌, ◌%◌, ◌≡◌, Option, none, some, Bytes}
use derusting.Prelude.Result.{Result, ok, err}
use derusting.FreeRtos.TimeDriver.{u32_size}

abbrev pub Handle : Type 0
Handle = ℕ

-- FreeRTOS' notifications of tasks, each with a value of 32 bits for every index.
pub record Kernel (K : Type 0) : Type 0 where
  -- `xTaskGenericNotify`: the task, the index, the value and the action
  pub generic_notify : Handle → ℕ → ℕ → ℕ → K → K
  -- `xTaskGenericNotifyFromISR`, and whether a task of higher priority was woken
  pub generic_notify_from_isr : Handle → ℕ → ℕ → ℕ → K → ℕ × K
  pub set_pendsv : K → K
  -- `ulTaskGenericNotifyTake` of a task when it returns: the index and `xClearCountOnExit`
  pub generic_notify_take : Handle → ℕ → ℕ → K → K
  pub value : Handle → ℕ → K → ℕ
  -- Action 2 is `eIncrement`.
  pub value-notify :
      (h i v : ℕ) (k : K) → value h i (generic_notify h i v 2 k) ≡ (value h i k + 1) % u32_size
  pub value-notify_from_isr :
      (h i v : ℕ) (k : K)
      → value h i (generic_notify_from_isr h i v 2 k).1 ≡ (value h i k + 1) % u32_size
  pub value-set_pendsv : (h i : ℕ) (k : K) → value h i (set_pendsv k) ≡ value h i k
  pub value-take : (h i : ℕ) (k : K) → value h i (generic_notify_take h i 1 k) ≡ 0

-- `FreeRtosError`
pub data FreeRtosError : Type 0 where
  insufficient_heap_memory generic_failure unknown ok_ : FreeRtosError

pub record Task : Type 0 where
  pub inner : Option Handle

-- What a task is created with; `f` stands for its function.
pub record Creation (F : Type 0) : Type 0 where
  pub fcn : F
  pub name : Bytes
  pub stack_depth : ℕ
  pub priority : ℕ

-- `new`: `xTaskCreate` has answered `res`, and put the handle `ptr`.
unfoldable pub new : FreeRtosError → Option Handle → Result Task FreeRtosError
new ok_ ptr = ok (record { inner = ptr })
new res ptr = err res

-- The argument of `xTaskCreateStatic` in `new_static`, of the buffer's length in bytes.
unfoldable pub static_depth : ℕ → ℕ
static_depth stack_len = stack_len / 4 % 65_536

module _ {F : Type 0} where
  -- `new_static`, over what `xTaskCreateStatic` answers.
  unfoldable pub new_static : (Creation F → ℕ → Option Handle) → Bytes → F → ℕ → ℕ → ℕ → Task
  new_static create name fcn priority stack_len tcb_len = record {
    inner =
        create
          (record {
            fcn = fcn;
            name = name;
            stack_depth = static_depth stack_len;
            priority = priority;
          })
          tcb_len;
  }

-- `try_from`
unfoldable pub try_from : Option Handle → Result Task (Unit {0})
try_from none = err tt
try_from (some h) = ok (record { inner = some h })
