-- ===== src/Tasks/Tcp/Worker/Settles.antt =====
-- In a worker's turn, packets are freed as often as calls bring them.
use derusting.Prelude.{ℕ, ◌≡◌, Bool, Option, none, some, List, [], Bytes}
use derusting.Std.Utf8.{Str}
use derusting.Kinds.{Uuid, Instant}
use derusting.Heapless.LinearMap.{LinearMap}
use derusting.Heapless.IndexSet.{IndexSet}
use derusting.Heapless.Channel.{Channel}
use derusting.Lwip.Bindings.{Pcb}
use derusting.Lwip.Tcp.Connection as connection
use derusting.Lwip.Tcp.Connection.Session as session
use derusting.Lwip.Tcp.Connection.Session.{Session, credit, freed, run}
use derusting.Lwip.Tcp.Connection.Stream.{IsBalanced}
use derusting.Lwip.Tcp.Connection.Frees.{count, used}
use derusting.Lwip.Tcp.Listener.{TcpListener}
use derusting.Tasks.Tcp.Handler.{Act}
use derusting.Tasks.Tcp.Worker.{Received, Outcome, stuck, over}

-- Nothing of a receive window is given back, and no packet is freed.
abbrev IsQuiet : {P : Type 0} → List (connection.Act P) → Type 0
IsQuiet acts = (credit acts ≡ 0) × (freed acts ≡ [])

module _ {P D : Type 0} (test : P → Bool) (packets : Channel (Option P) D) (total_len : P → ℕ) where
  -- In order, and every call accounted for.
  record Settled (r : Received P D) : Type 0 where
    balanced : IsBalanced packets total_len r.1
    calls : used test packets total_len r.1 ≡ count test r.0

-- Of a connection that has come to its end, the packets that came are those that were freed.
abbrev Accounted : {M S C P : Type 0} → (P → Bool) → Outcome M S C P → Type 0
Accounted test stuck = Unit {0}
Accounted test (over state acts came did) = count test came ≡ count test (freed did)

module _ {M S C P D L : Type 0} (book : LinearMap Instant M) (jobs : IndexSet S)
    (channel : Channel Uuid C) (parse_uuid : Str → Option Uuid) (show : Uuid → Bytes) (html : Bytes)
    (chunks : P → List Bytes) (total_len : P → ℕ) (packets : Channel (Option P) D)
    (blocks : Channel Pcb L) (test : P → Bool) where
  abbrev AccountedAt : Option (TcpListener L × Outcome M S C P) → Type 0
  AccountedAt none = Unit {0}
  AccountedAt (some (listener, out)) = Accounted test out
