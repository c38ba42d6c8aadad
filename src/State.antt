-- ===== src/State.antt =====
-- `DerustingState` of src/lib.rs, but for the two sockets: what the tasks share. `M`, `S` and `C`
-- carry the address book, the set of jobs and the channel of files to hand out. A mutex is held
-- across each of the steps modelled here, so that a step is atomic on the field that it locks.
use derusting.Prelude.{ℕ, Bool, Option, none, List, Bytes}
use derusting.Kinds.{Uuid, Instant, LedgerState}
use derusting.Heapless.LinearMap.{LinearMap}
use derusting.Heapless.Channel.{Channel}
use derusting.Tasks.Messages.{Message, send_log}

pub record DerustingState (M S C : Type 0) : Type 0 where
  pub addresses : M
  pub jobs : Option (LedgerState S)
  pub files_to_distribute : C

-- `DerustingState::new`
unfoldable pub new : {M S C : Type 0} → LinearMap Instant M → Channel Uuid C → DerustingState M S C
new book channel = record { addresses = book.new; jobs = none; files_to_distribute = channel.new }

-- `log_to_udp`: whether a round finds a buffer, and the identifier that the message gets, are given.
unfoldable pub log_to_udp : {S : Type 0} → (ℕ → Bool) → Uuid → Bytes → List (Message S)
log_to_udp allocs fresh msg = send_log allocs fresh msg
