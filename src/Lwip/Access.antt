-- ===== src/Lwip/Access.antt =====
-- src/lwip/mod.rs: this machine's address, and the two ways to run a call of lwIP. A 32-bit number in
-- memory is little-endian on the target.
use derusting.Prelude.{
  ℕ, ◌+◌, ◌*◌, ◌/◌, ◌%◌, ◌<◌, ◌≡◌, Bool, Option, none, some, List, [], ◌∷◌, if◌then◌else◌, arith,
}
use derusting.Prelude.Result.{Result, err}
use derusting.Kinds.{Ipv4Addr, last_octet}
use derusting.Lwip.Bindings.{ErrT, is_ok}

-- `u32::from_be` and `u32::to_be`
unfoldable pub swap_bytes : ℕ → ℕ
swap_bytes n =
    n % 256 * 16_777_216 + n / 256 % 256 * 65_536 + n / 65_536 % 256 * 256 + n / 16_777_216 % 256

-- `my_ipaddr`, where lwIP's default interface has the given address in network order.
unfoldable pub my_ipaddr : Option ℕ → Option Ipv4Addr
my_ipaddr none = none
my_ipaddr (some addr) = some (swap_bytes addr)

-- What the thread does with lwIP's core lock.
pub data LockAct : Type 0 where
  sys_mutex_lock closure_call sys_mutex_unlock : LockAct

module _ {S R : Type 0} where
  -- `blocking_lwip`: `holds` is what `derusting_holds_tcpip_core_lock` answers.
  unfoldable pub blocking_lwip : Bool → (S → R × S) → S → R × (S × List LockAct)
  blocking_lwip holds closure s =
      let (res, s') = closure s in
      if holds
      then (res, (s', closure_call ∷ []))
      else (res, (s', sys_mutex_lock ∷ closure_call ∷ sys_mutex_unlock ∷ []))

module _ {S : Type 0} where
  -- `async_lwip`: `enqueued` is what `tcpip_callback` answers. The task waits for the signal, so the
  -- closure has run once it goes on.
  unfoldable pub async_lwip :
      ErrT → (S → Result (Unit {0}) ErrT × S) → S → Result (Unit {0}) ErrT × S
  async_lwip enqueued closure s = if is_ok enqueued then closure s else (err enqueued, s)

-- An address of four bytes in memory.
abbrev pub in_memory : ℕ → ℕ → ℕ → ℕ → ℕ
in_memory a b c d = a + 256 * b + 65_536 * c + 16_777_216 * d

-- The address a.b.c.d, whose bytes stand in memory in this order, is read as its value, whose last
-- octet is d; and writing the value back in network order gives the same memory.
swap_bytes-in_memory :
    (a b c d : ℕ)
    → a < 256
    → b < 256
    → c < 256
    → d < 256
    → let addr = swap_bytes (in_memory a b c d) in
      (addr ≡ ((a * 256 + b) * 256 + c) * 256 + d)
      × (last_octet addr ≡ d)
      × (swap_bytes addr ≡ in_memory a b c d)
unfolding swap_bytes
swap_bytes-in_memory a b c d ha hb hc hd = (omega arith, omega arith, omega arith)
