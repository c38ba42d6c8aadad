-- ===== src/Tests/Machines.antt =====
-- Examples for the job ring.
use derusting.Prelude.{
  ℕ, Option, ◌≤◌, ◌++◌, codes, false, ◌+◌, ◌*◌, ◌<◌, ◌≡◌, ◌≢◌, ◌⊎◌, ◌↔◌, refl, true, some, List, [],
  ◌∷◌, elem, arith,
}
use derusting.Kinds.{Ipv4Addr, Uuid, Ledger, LedgerState, is_owner, elapsed}
use derusting.Heapless.Models.{list_history, list_set, without}
use derusting.Heapless.TextModels.{cut_text, list_texts}
use derusting.Tasks.Messages.{Payload, Message, send_from, send_ledger}
use derusting.Tasks.Ring.{
  Env, Manager, next_owner, takeover, manage_round, Effect, sends, commands, set_offline, hold,
  own_turn, pass_on, manufacture, on_print, printable_job,
}
use derusting.Tasks.Ring.Next.{IsNext, next_owner-IsNext, Among}
use derusting.Tasks.Ring.Tour.{IsMesh, Reaches, every_machine_reached}
use derusting.Tasks.Ring.Takeover.{IsLeast, takeover-IsLeast}
use derusting.Tasks.Ring.Offline as offline
use derusting.Tasks.Ring.Offline.{Plant, one_job_each_time}
use derusting.Tasks.Ring.Jobs.{KeptOrPrinted, jobs-KeptOrPrinted}
use derusting.Fs.Path.{IsHyphenated, path_text}
use derusting.Fs.Open.{open_ok}
use derusting.Std.Slice.{starts_with}
use derusting.Marlin.{dry_run, print, submit, print_command}
use derusting.Marlin.Laws.{print_file}
use derusting.Tests.Inputs.{Book, Jobs, book, jobs, show, held, lone_state}
use derusting.Tasks.Udp.{Packet, Receiver, receive_all}
use derusting.Tasks.Alerts.{Delivered, over, lost, comes}
use derusting.Tasks.Agreement.{Sends, here, there, machines_agree}

abbrev net : List Ipv4Addr
net = 167_772_161 ∷ 167_772_162 ∷ []

net-ne_nil : net ≢ []
net-ne_nil = ground arith

next_owner-IsNext_example :
    (n : Ipv4Addr) × (next_owner 167_772_161 net ≡ some n) × IsNext 167_772_161 net n
next_owner-IsNext_example = next_owner-IsNext 167_772_161 net net-ne_nil

in_net : (x : Ipv4Addr) → Among x net → (x ≡ 167_772_161) ⊎ (x ≡ 167_772_162)
unfolding elem
in_net x h = ground arith

net-IsMesh : IsMesh net (λ my. net)
net-IsMesh = record {
  network = 655_360;
  same_network = λ x i. omega (arith, in_net x i);
  hosts = λ x i. (omega (arith, in_net x i), omega (arith, in_net x i));
  complete = λ my x m i ne. i;
  sound = λ my x m i. i;
}

second_in_net : Among 167_772_162 net
unfolding elem
second_in_net = refl

first_in_net : Among 167_772_161 net
unfolding elem
first_in_net = refl

every_machine_reached_example : Reaches (λ my. net) 167_772_162 167_772_161
every_machine_reached_example =
    every_machine_reached net (λ my. net) net-IsMesh 167_772_162 second_in_net 167_772_161
      first_in_net

abbrev env : Env
env = record {
  ipaddr = some 167_772_162;
  now = 5000;
  ready = true;
  idle = true;
  idle_in_print = true;
  fopen = λ path. true;
  accepts = λ cmd. true;
}

abbrev manager : Manager Jobs
manager = record { jobs = some held; observed_ownership = true }

owner-ne : held.ledger.owner ≢ 167_772_162
owner-ne = omega arith

takeover-IsLeast_example :
    ((takeover 99_000 167_772_162 [] held).ledger.owner ≡ 167_772_162)
    ↔ ((45 * 1000 < elapsed 99_000 held.received) × IsLeast 167_772_162 [])
takeover-IsLeast_example = takeover-IsLeast 99_000 167_772_162 [] held owner-ne

all-IsHyphenated : (guid : Uuid) → IsHyphenated (show guid)
unfolding elem
all-IsHyphenated guid = record { size = refl; no_nul = refl }

jobs-KeptOrPrinted_example :
    KeptOrPrinted book jobs list_texts show all-IsHyphenated 5
      (manage_round book jobs list_texts show env [] manager)
unfolding elem list_set
jobs-KeptOrPrinted_example =
    jobs-KeptOrPrinted book jobs list_texts show all-IsHyphenated env [] manager held 5 refl refl

-- The owner's turn, without and with an earlier turn as the owner.
abbrev own_env : Env
own_env = record env { ipaddr = some 167_772_161 }

abbrev new_owner : Manager Jobs
new_owner = record { jobs = some held; observed_ownership = false }

abbrev printed : List (Effect Jobs)
printed =
    commands (dry_run ∷ print_file (path_text show 5 false) ∷ [])
    ∷ set_offline
    ∷ sends (Payload.log (codes "Job Accepted: " ++ show 5))
    ∷ sends (Payload.ledger (record { owner = 167_772_161; jobs = [] }))
    ∷ []

abbrev idle_again : Manager Jobs
idle_again = record {
  jobs = some (record { ledger = record { owner = 167_772_161; jobs = [] }; received = 1000 });
  observed_ownership = true;
}

own_turn_run :
    manage_round book jobs list_texts show own_env [] manager ≡ some (idle_again, printed)
unfolding manage_round hold takeover own_turn pass_on manufacture on_print printable_job is_owner
    list_set without open_ok path_text starts_with print submit print_command cut_text elem
own_turn_run = refl

-- The ledger that the turn broadcasts reaches another machine, which holds none.
abbrev broadcast : Ledger Jobs
broadcast = record { owner = 167_772_161; jobs = [] }

abbrev word : Message Jobs
word = record { idempotency = 3; payload = Payload.ledger broadcast }

abbrev heard : Packet
heard = record { addr = 167_772_161; chunk = some []; now = 6000 }

abbrev other : Receiver Book Jobs (List Uuid) (List ℕ)
other = record { state = lone_state; history = [] }

heard-Delivered : Delivered (λ b. some word) (send_ledger (λ i. true) 3 broadcast) (heard ∷ [])
unfolding send_ledger send_from
heard-Delivered = lost word (comes word heard [] refl refl (lost word (lost word over)))

printed-Sends : Sends broadcast printed
printed-Sends = there (there (there here))

machines_agree_example :
    (mine : LedgerState Jobs) × ((theirs : LedgerState Jobs) × (idle_again.jobs ≡ some mine)
      × ((receive_all book jobs (list_history 24) (λ b. some word) (heard ∷ []) other).state.jobs
          ≡ some theirs)
      × (mine.ledger ≡ broadcast)
      × (theirs.ledger ≡ broadcast)
      × ((addr : Option Ipv4Addr) → is_owner addr mine ≡ is_owner addr theirs))
unfolding elem
machines_agree_example =
    machines_agree book jobs (list_history 24) (λ b. some word) list_texts show own_env [] manager
      idle_again printed broadcast (λ i. true) 3 heard [] other own_turn_run printed-Sends
      (omega arith) heard-Delivered refl

-- A technician sets the flag, and the owner of the ledger has two turns.
abbrev plant : Plant
plant = record {
  firmware = record { idle = true; ready_flag = false; refreshed = 0 };
  observed = true;
  accepted = 0;
}

abbrev evening : List (offline.Event Book Jobs)
evening =
    offline.readies
    ∷ offline.turns own_env [] (some held)
    ∷ offline.turns own_env [] (some held)
    ∷ []

one_job_each_time_example :
    (offline.run book jobs list_texts show evening plant).accepted ≤ 0 + 0 + 1
one_job_each_time_example = one_job_each_time book jobs list_texts show evening plant
