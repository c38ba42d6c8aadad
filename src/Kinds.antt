-- ===== src/Kinds.antt =====
-- src/kinds.rs and the message types of src/tasks/messages.rs that its state is made of.
--
-- An `Ipv4Addr` is its 32-bit value (`to_bits`), so that `Ord` on addresses is the order of the
-- numbers. A `Uuid` is its 128-bit value. An `Instant` is the count of milliseconds since boot
-- (`embassy-time` runs at 1000 ticks a second). `S` is the carrier of the set of jobs.
use derusting.Prelude.{ℕ, ◌-◌, ◌/◌, ◌%◌, Bool, false, Option, none, some, ◌==◌}

abbrev pub Ipv4Addr : Type 0
Ipv4Addr = ℕ

abbrev pub Uuid : Type 0
Uuid = ℕ

abbrev pub Instant : Type 0
Instant = ℕ

-- `addr.octets()[3]`
abbrev pub last_octet : Ipv4Addr → ℕ
last_octet addr = addr % 256

-- `Instant::elapsed`, in milliseconds: the clock does not run backwards.
abbrev pub elapsed : Instant → Instant → ℕ
elapsed now since = now - since

-- `Duration::as_secs`
abbrev pub as_secs : ℕ → ℕ
as_secs millis = millis / 1000

pub record Ledger (S : Type 0) : Type 0 where
  pub owner : Ipv4Addr
  pub jobs : S

pub record LedgerState (S : Type 0) : Type 0 where
  pub ledger : Ledger S
  pub received : Instant

module _ {S : Type 0} where
  -- `LedgerState::new`, at the time `now`.
  abbrev pub new_state : Ledger S → Instant → LedgerState S
  new_state ledger now = record { ledger = ledger; received = now }

  -- `LedgerState::is_owner`, where `my_ipaddr()` answers the first argument.
  unfoldable pub is_owner : Option Ipv4Addr → LedgerState S → Bool
  is_owner none s = false
  is_owner (some my_addr) s = my_addr == s.ledger.owner
