-- ===== src/Tests/Network.antt =====
-- Examples for packets: the address book, the history and the ledger.
use derusting.Prelude.{
  length, ◌≤◌, lookup, ℕ, ◌≡◌, ◌⊎◌, refl, true, some, List, [], ◌∷◌, elem, arith, Bytes, Option,
  zero, suc,
}
use derusting.Kinds.{Ipv4Addr, Instant, Uuid, LedgerState}
use derusting.Heapless.Models.{list_history}
use derusting.Tasks.Messages.{Message, Payload}
use derusting.Tasks.Udp.{Packet, Receiver, receive, receive_all, handle}
use derusting.Tasks.Udp.Dedup.{copies_ignored}
use derusting.Tasks.Udp.Book.{last_heard}
use derusting.Tasks.Udp.Presence as presence
use derusting.Tasks.Udp.Presence.{is_new, IsHeard, last_packet, heard_stays}
use derusting.Tasks.Alerts.{Delivered, over, lost, comes, alert_reaches_ledger}
use derusting.Tasks.Messages.{send_from, send_new_job_alert}
use derusting.Tasks.Udp.Jobs.{Listed}
use derusting.Tests.Inputs.{Book, Jobs, book, jobs, held, state}

-- Every packet is read as the alert of job 9.
abbrev alert : Message Jobs
alert = record { idempotency = 3; payload = Payload.new_job (record { guid = 9 }) }

abbrev packet : Packet
packet = record { addr = 167_772_162; chunk = some []; now = 2000 }

abbrev receiver : Receiver Book Jobs (List Uuid) (List ℕ)
receiver = record { state = state; history = [] }

copies_ignored_example :
    receive_all book jobs (list_history 24) (λ b. some alert) (packet ∷ packet ∷ []) receiver
    ≡ receive book jobs (list_history 24) (λ b. some alert) packet receiver
copies_ignored_example =
    copies_ignored book jobs (list_history 24) (λ b. some alert) packet (packet ∷ []) alert receiver
      (omega arith) (([], refl, refl), (([], refl, refl), tt))

-- Packets are told apart by their length. The machine 5 is heard every 15 seconds, once by a copy, which
-- does not count, and another machine once.
abbrev repeated : ℕ → Bytes
repeated zero = []
repeated (suc n) = 0 ∷ repeated n

abbrev by_length : Bytes → Option (Message Jobs)
by_length bytes = some (record alert { idempotency = length bytes })

abbrev heard : Ipv4Addr → ℕ → Instant → presence.Event
heard addr n now = presence.gets (record { addr = addr; chunk = some (repeated n); now = now })

abbrev minute : List presence.Event
minute =
    presence.checks 10_000
    ∷ heard 5 1 15_000
    ∷ heard 6 2 16_000
    ∷ heard 5 1 17_000
    ∷ presence.checks 30_000
    ∷ heard 5 3 30_001
    ∷ presence.checks 40_000
    ∷ []

abbrev listener : Receiver Book Jobs (List Uuid) (List ℕ)
listener = record { state = record state { addresses = (5, 0) ∷ [] }; history = [] }

minute-IsHeard : IsHeard book jobs (list_history 24) by_length 5 0 minute listener
unfolding receive handle elem is_new
minute-IsHeard = (omega arith, (omega arith, (omega arith, tt)))

heard_stays_example :
    last_heard book 5
      (presence.run book jobs (list_history 24) by_length minute listener).state.addresses
    ≡ some (last_packet book jobs (list_history 24) by_length 5 0 minute listener)
unfolding lookup
heard_stays_example =
    heard_stays book jobs (list_history 24) by_length 5 0 minute listener refl minute-IsHeard

-- Of the three copies of an alert the first is lost, and the second comes twice.
delivered : Delivered (λ b. some alert) (send_new_job_alert (λ i. true) 3 9) (packet ∷ packet ∷ [])
unfolding send_new_job_alert send_from
delivered = lost alert (
    comes alert packet [] refl refl
      (comes alert packet [] refl refl (lost alert (lost alert over))))

alert_reaches_ledger_example :
    (l' : LedgerState Jobs) × ((receive_all book jobs
        (list_history 24)
        (λ b. some alert)
        (packet ∷ packet ∷ [])
        receiver).state.jobs
      ≡ some l')
    × (l'.ledger.owner ≡ held.ledger.owner)
    × (l'.received ≡ held.received)
    × ((other : Uuid) → Listed jobs other held.ledger.jobs → Listed jobs other l'.ledger.jobs)
    × (Listed jobs 9 l'.ledger.jobs ⊎ (jobs.capacity ≤ length (jobs.iter held.ledger.jobs)))
unfolding elem
alert_reaches_ledger_example =
    alert_reaches_ledger book jobs (list_history 24) (λ b. some alert) (λ i. true) 3 9 packet
      (packet ∷ []) receiver held (omega arith) delivered refl refl
