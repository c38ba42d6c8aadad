-- ===== src/Tasks/Udp.antt =====
-- The tasks `heartbeat`, `udp_receiver` and `address_book_lifetime_check` of src/tasks/udp.rs. (The task
-- `manage_ledger` of that file is in Tasks/Ring.)
--
-- A step of `udp_receiver` takes what `udp.receive` delivers: the sender's address, and the first
-- chunk of the packet, where the chain has one. `decode` is `postcard::from_bytes`.
pub mod Dedup
pub mod Book
pub mod Presence
pub mod Jobs
use derusting.Prelude.{ℕ, ◌≡◌, Bool, Option, none, some, List, [], ◌∷◌, ltb, if◌then◌else◌, Bytes}
use derusting.Kinds.{Ipv4Addr, Uuid, Instant, LedgerState, Ledger, elapsed, as_secs, new_state}
use derusting.State.{DerustingState}
use derusting.Tasks.Messages.{Payload, Message, NewJob, send_heartbeat}
use derusting.Heapless.LinearMap.{LinearMap}
use derusting.Heapless.IndexSet.{IndexSet}
use derusting.Heapless.History.{History}

-- What one turn of the loop reads: `addr`, `packet.into_iter().next()` and the clock.
pub record Packet : Type 0 where
  pub addr : Ipv4Addr
  pub chunk : Option Bytes
  pub now : Instant

-- The state of the loop: the shared state, and the local buffer of identifiers.
pub record Receiver (M S C H : Type 0) : Type 0 where
  pub state : DerustingState M S C
  pub history : H

-- One turn of `heartbeat`, before its delay: the address is only logged.
unfoldable pub heartbeat : {S : Type 0} → (ℕ → Bool) → Uuid → List (Message S)
heartbeat allocs fresh = send_heartbeat allocs fresh

module _ {S : Type 0} (jobs : IndexSet S) where
  -- `let _ = ledger.jobs.insert(guid)`: a full set is left as it was.
  unfoldable pub add_job : Uuid → S → S
  add_job guid s = elim (jobs.insert guid s) [ none ↦ s | some s' ↦ s' ]

  -- The two `if let` on the payload.
  unfoldable pub on_payload : Payload S → Instant → Option (LedgerState S) → Option (LedgerState S)
  unfolding add_job
  on_payload (Payload.new_job j) now none = none
  on_payload (Payload.new_job j) now (some l) =
      some (record l { ledger = record l.ledger { jobs = add_job j.guid l.ledger.jobs } })
  on_payload (Payload.ledger sent) now held = some (new_state sent now)
  on_payload (Payload.heartbeat h) now held = held
  on_payload (Payload.log text) now held = held

module _ {M : Type 0} (book : LinearMap Instant M) where
  -- `book.insert(addr, Instant::now())`: the error of a full book is only logged.
  unfoldable pub note_address : Ipv4Addr → Instant → M → M
  note_address addr now m = elim (book.insert addr now m) [ none ↦ m | some m' ↦ m' ]

  -- One round of `address_book_lifetime_check`.
  unfoldable pub lifetime_check : Instant → M → M
  lifetime_check now m = book.retain (λ _ instant. ltb (as_secs (elapsed now instant)) 20) m

module _ {M S C H : Type 0} (book : LinearMap Instant M) (jobs : IndexSet S) (seen : History H)
    (decode : Bytes → Option (Message S)) where
  -- The loop's body once the packet has been decoded.
  unfoldable pub handle : Packet → Message S → Receiver M S C H → Receiver M S C H
  unfolding note_address on_payload
  handle p msg r = if seen.contains r.history msg.idempotency then r else record {
    state = record r.state {
      addresses = note_address book p.addr p.now r.state.addresses;
      jobs = on_payload jobs msg.payload p.now r.state.jobs;
    };
    history = seen.write msg.idempotency r.history;
  }

  -- One turn of the loop of `udp_receiver`.
  unfoldable pub receive : Packet → Receiver M S C H → Receiver M S C H
  unfolding handle
  receive p r = elim p.chunk [
    | none ↦ r
    | some bytes ↦ elim (decode bytes) [ none ↦ r | some msg ↦ handle p msg r ]
  ]

  -- The turns for a sequence of packets.
  unfoldable pub receive_all : List Packet → Receiver M S C H → Receiver M S C H
  receive_all [] r = r
  receive_all (p ∷ ps) r = receive_all ps (receive p r)
