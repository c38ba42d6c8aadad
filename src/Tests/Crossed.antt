-- ===== src/Tests/Crossed.antt =====
-- Two machines that have just started and make a ledger each.
use derusting.Prelude.{elem, ℕ, refl, true, false, Option, none, some, List, [], ◌∷◌, Bytes, arith}
use derusting.Kinds.{Ipv4Addr, Uuid, Ledger}
use derusting.Heapless.Models.{list_history, list_set}
use derusting.Heapless.TextModels.{list_texts}
use derusting.Tasks.Messages.{Payload, Message, send_from, send_ledger}
use derusting.Tasks.Ring.{Env, sends, create, manage_round}
use derusting.Tasks.Udp.{Packet, Receiver, receive_all}
use derusting.Tasks.Alerts.{over, lost, comes}
use derusting.Tasks.Agreement.{here}
use derusting.Tasks.Agreement.Crossed.{Maker, Makes, Gets, HoldsAnothers, crossed_ledgers}
use derusting.Tests.Inputs.{Book, Jobs, book, jobs, show, lone_state}

abbrev env_at : Ipv4Addr → Env
env_at addr = record {
  ipaddr = some addr;
  now = 5000;
  ready = true;
  idle = true;
  idle_in_print = true;
  fopen = λ path. true;
  accepts = λ cmd. true;
}

abbrev ledger_of : Ipv4Addr → Ledger Jobs
ledger_of addr = record { owner = addr; jobs = [] }

-- The machine at the address, with the identifier of its broadcast.
abbrev maker : Ipv4Addr → Uuid → Maker Book Jobs
maker addr fresh = record {
  addr = addr;
  env = env_at addr;
  addresses = [];
  before = record { jobs = none; observed_ownership = false };
  after = record {
    jobs = some (record { ledger = ledger_of addr; received = 5000 });
    observed_ownership = false;
  };
  effects = sends (Payload.ledger (ledger_of addr)) ∷ [];
  ledger = ledger_of addr;
  fresh = fresh;
  allocs = λ i. true;
}

abbrev word : Ipv4Addr → Uuid → Message Jobs
word addr fresh = record { idempotency = fresh; payload = Payload.ledger (ledger_of addr) }

-- A packet of one byte is the first machine's, and one of none is the second's.
abbrev read : Bytes → Option (Message Jobs)
read [] = some (word 167_772_162 4)
read (b ∷ bytes) = some (word 167_772_161 3)

abbrev from_first : Packet
from_first = record { addr = 167_772_161; chunk = some (1 ∷ []); now = 6000 }

abbrev from_second : Packet
from_second = record { addr = 167_772_162; chunk = some []; now = 6000 }

abbrev receiver : Receiver Book Jobs (List Uuid) (List ℕ)
receiver = record { state = lone_state; history = [] }

maker-Makes : (addr : Ipv4Addr) (fresh : Uuid) → Makes book jobs list_texts show (maker addr fresh)
unfolding manage_round create list_set
maker-Makes addr fresh = (refl, refl, refl, here)

first-Gets :
    Gets book jobs
      (list_history 24)
      read
      list_texts
      show
      receiver
      (maker 167_772_162 4)
      from_second
      []
unfolding send_ledger send_from elem
first-Gets = (comes _ from_second [] refl refl (lost _ (lost _ (lost _ over))), refl)

second-Gets :
    Gets book jobs
      (list_history 24)
      read
      list_texts
      show
      receiver
      (maker 167_772_161 3)
      from_first
      []
unfolding send_ledger send_from elem
second-Gets = (comes _ from_first (1 ∷ []) refl refl (lost _ (lost _ (lost _ over))), refl)

crossed_ledgers_example :
    HoldsAnothers 167_772_161 167_772_162
      (receive_all book jobs (list_history 24) read (from_second ∷ []) receiver).state.jobs
    × HoldsAnothers 167_772_162 167_772_161
        (receive_all book jobs (list_history 24) read (from_first ∷ []) receiver).state.jobs
crossed_ledgers_example =
    crossed_ledgers book jobs (list_history 24) read list_texts show (maker 167_772_161 3)
      (maker 167_772_162 4) receiver receiver from_second from_first [] [] (omega arith)
      (omega arith) (maker-Makes 167_772_161 3) (maker-Makes 167_772_162 4) first-Gets second-Gets
