-- ===== src/Tasks/Rng.antt =====
-- src/tasks/rng.rs. An answer of `HAL_RNG_GenerateRandomNumber` is its status and the value it has
-- written; the answers to the calls of one fill are a list. `from_unix` and `new_v7` are `Uuid`'s.
pub mod Buffer
use derusting.Prelude.{
  ℕ, zero, suc, ◌+◌, ◌-◌, ◌*◌, ◌/◌, ◌%◌, ◌≤◌, ◌<◌, ◌≡◌, min, Bool, true, false, List, [], ◌∷◌, ◌++◌,
  take, ◌==◌, if◌then◌else◌, arith, Bytes,
}
use derusting.Kinds.{Uuid}

pub data HalStatus : Type 0 where
  ok error busy timeout : HalStatus

abbrev pub as_u32 : HalStatus → ℕ
as_u32 ok = 0
as_u32 error = 1
as_u32 busy = 2
as_u32 timeout = 3

-- `u32::to_le_bytes`
unfoldable pub to_le_bytes : ℕ → Bytes
to_le_bytes v = v % 256 ∷ v / 256 % 256 ∷ v / 65_536 % 256 ∷ v / 16_777_216 % 256 ∷ []

-- The buffer is filled; the error `UNEXPECTED`; or the loop goes on with the next answer.
pub data Fill : Type 0 where
  filled unexpected pending : Fill

-- `__getrandom_v03_custom`, from where `remaining` bytes are missing: the end, and what is written.
unfoldable pub getrandom : ℕ → List (ℕ × ℕ) → Fill × Bytes
getrandom zero answers = (filled, [])
getrandom (suc n) [] = (pending, [])
getrandom (suc n) ((status, random_val) ∷ answers) =
    let to_take = min (suc n) 4 in
    let (end, more) = getrandom (suc n - to_take) answers in
    let again = getrandom (suc n) answers in
    if status == as_u32 ok
    then (end, take to_take (to_le_bytes random_val) ++ more)
    else if status == as_u32 busy
    then again
    else (unexpected, [])

-- The seconds and nanoseconds of a time since boot in milliseconds; `as u32` and the product wrap.
unfoldable pub unix_time : ℕ → ℕ × ℕ
unix_time now_ms = (now_ms / 1000, now_ms % 1000 % 4_294_967_296 * 1_000_000 % 4_294_967_296)

unfoldable pub generate_uuid_v7 : {T : Type 0} → (ℕ → ℕ → T) → (T → Uuid) → ℕ → Uuid
generate_uuid_v7 from_unix new_v7 now_ms =
    let (seconds, nanos) = unix_time now_ms in new_v7 (from_unix seconds nanos)

-- The time stamp of an identifier is the time since boot, to the millisecond, and its nanoseconds are
-- less than a second: nothing is lost in the 32-bit product.
unix_time_lem :
    (now_ms : ℕ)
    → let (seconds, nanos) = unix_time now_ms in
      (seconds * 1_000_000_000 + nanos ≡ now_ms * 1_000_000) × (nanos < 1_000_000_000)
unfolding unix_time
unix_time_lem now_ms = (omega arith, omega arith)
