-- ===== src/Tasks/Messages.antt =====
-- src/tasks/messages.rs: the messages that the machines broadcast.
--
-- `PacketBuffer::alloc` can fail whenever it is called; `allocs i` says whether it succeeds in round
-- `i` of `send`. The result of `udp.broadcast` is dropped by the code, and the delay of 100 ms
-- between the rounds is not modelled.
use derusting.Prelude.{ℕ, zero, suc, ◌+◌, Bool, true, List, [], ◌∷◌, if◌then◌else◌, Bytes}
use derusting.Kinds.{Uuid, Ledger}

pub record Heartbeat : Type 0 where
  pub alive : Bool

pub record NewJob : Type 0 where
  pub guid : Uuid

pub data Payload (S : Type 0) : Type 0 where
  heartbeat : Heartbeat → Payload S
  new_job : NewJob → Payload S
  ledger : Ledger S → Payload S
  log : Bytes → Payload S

pub record Message (S : Type 0) : Type 0 where
  pub idempotency : Uuid
  pub payload : Payload S

module _ {S : Type 0} where
  -- The rounds of `Message::send` from round `i` on, as the list of what is broadcast.
  unfoldable pub send_from : (ℕ → Bool) → ℕ → Message S → ℕ → List (Message S)
  send_from allocs i msg zero = []
  send_from allocs i msg (suc repeats) =
      let rest = send_from allocs (i + 1) msg repeats in if allocs i then msg ∷ rest else []

  -- `Message::send`
  abbrev pub send : (ℕ → Bool) → Message S → ℕ → List (Message S)
  send allocs = send_from allocs 0

  -- How often each kind of message is sent.
  abbrev pub repeats_of : Payload S → ℕ
  repeats_of (heartbeat h) = 1
  repeats_of (new_job j) = 3
  repeats_of (ledger l) = 3
  repeats_of (log text) = 2

  -- `send_heartbeat`, `send_new_job_alert`, `send_ledger` and `send_log`: `fresh` is the identifier
  -- that `generate_uuid_v7` returns.
  unfoldable pub send_heartbeat : (ℕ → Bool) → Uuid → List (Message S)
  send_heartbeat allocs fresh =
      send allocs (record { idempotency = fresh; payload = heartbeat (record { alive = true }) }) 1

  unfoldable pub send_new_job_alert : (ℕ → Bool) → Uuid → Uuid → List (Message S)
  send_new_job_alert allocs fresh guid =
      send allocs (record { idempotency = fresh; payload = new_job (record { guid = guid }) }) 3

  unfoldable pub send_ledger : (ℕ → Bool) → Uuid → Ledger S → List (Message S)
  send_ledger allocs fresh l = send allocs (record { idempotency = fresh; payload = ledger l }) 3

  unfoldable pub send_log : (ℕ → Bool) → Uuid → Bytes → List (Message S)
  send_log allocs fresh text = send allocs (record { idempotency = fresh; payload = log text }) 2
