-- ===== src/Start.antt =====
-- `embassy_main` of src/lib.rs: the sockets are opened, the address is waited for, and the tasks start.
--
-- A task's function gives a token, or an error where its pool is used up; `tokens` says which. The
-- pool of `tcp_worker` has one task (`MAX_TCP_CONNECTIONS`).
pub mod Order
pub mod Boot
pub mod Launch
use derusting.Prelude.{
  ℕ, Bool, true, false, Option, none, some, List, [], ◌∷◌, ◌++◌, if◌then◌else◌, Bytes,
}
use derusting.Prelude.Result.{Result, ok, err}
use derusting.Heapless.Channel.{Channel}
use derusting.Kinds.{Ipv4Addr}
use derusting.Lwip.Bindings.{ErrT, Pcb}
use derusting.Lwip.Access.{my_ipaddr}
use derusting.Lwip.Udp as udp
use derusting.Lwip.Udp.{UdpSocket, bind}
use derusting.Lwip.Tcp.Listener as listener
use derusting.Lwip.Tcp.Listener.{TcpListener, listen}

pub data Task : Type 0 where
  heartbeat address_book_lifetime_check manage_ledger udp_receiver tcp_worker distribute_file : Task

-- What lwIP does for a socket: the answers of `tcpip_callback`, of the function that makes a block, of
-- its binding and, for TCP, of `tcp_listen_with_backlog`.
pub record Opening : Type 0 where
  pub enqueued : ErrT
  pub new : Option Pcb
  pub bound : ErrT
  pub listening : Option Pcb

-- How the start ends: a socket has failed, the address never comes, or the tasks are spawned.
pub data Start : Type 0 where
  udp_failed tcp_failed no_address : Start
  spawned : List Task → Start

-- One `match` on a task's token.
unfoldable pub spawn : (Task → Bool) → Task → List Task → List Task
spawn tokens task rest = if tokens task then task ∷ rest else rest

-- The tasks are spawned one after another.
unfoldable pub spawn_all : (Task → Bool) → List Task → List Task
spawn_all tokens [] = []
spawn_all tokens (task ∷ tasks) = spawn tokens task (spawn_all tokens tasks)

abbrev pub all_tasks : List Task
all_tasks =
    heartbeat ∷ address_book_lifetime_check ∷ manage_ledger ∷ udp_receiver ∷ tcp_worker
    ∷ distribute_file ∷ []

-- The loop that waits for an address, over what lwIP's interface has in each turn.
unfoldable pub wait_for_address : (Task → Bool) → List (Option ℕ) → Start
wait_for_address tokens [] = no_address
wait_for_address tokens (addr ∷ later) =
    let rest = wait_for_address tokens later in
    elim (my_ipaddr addr) [ none ↦ rest | some ip ↦ spawned (spawn_all tokens all_tasks) ]

abbrev pub Sockets : Type 0 → Type 0 → Type 0
Sockets U T = UdpSocket U × TcpListener T

module _ {U T : Type 0} where
  unfoldable pub after_listen :
      (Task → Bool)
      → List (Option ℕ)
      → UdpSocket U
      → Result (Unit {0}) ErrT × (TcpListener T × List listener.Act)
      → Start × Sockets U T
  after_listen tokens addrs sock (err e, (tcp, acts)) = (tcp_failed, (sock, tcp))
  after_listen tokens addrs sock (ok u, (tcp, acts)) = (wait_for_address tokens addrs, (sock, tcp))

  unfoldable pub after_bind :
      {P : Type 0}
      → Opening
      → (Task → Bool)
      → List (Option ℕ)
      → TcpListener T
      → Result (Unit {0}) ErrT × (UdpSocket U × List (udp.Act P))
      → Start × Sockets U T
  after_bind opening tokens addrs tcp (err e, (sock, acts)) = (udp_failed, (sock, tcp))
  after_bind opening tokens addrs tcp (ok u, (sock, acts)) =
      after_listen tokens addrs sock
        (listen opening.enqueued opening.new opening.bound opening.listening tcp)

  -- `embassy_main` on the sockets of a new state.
  unfoldable pub embassy_main :
      {P : Type 0}
      → Channel (Ipv4Addr × P) U
      → Channel Pcb T
      → Opening
      → Opening
      → (Task → Bool)
      → List (Option ℕ)
      → Start × Sockets U T
  embassy_main {P = P} packets blocks for_udp for_tcp tokens addrs =
      after_bind {P = P} for_tcp tokens addrs (listener.new blocks)
        (bind for_udp.enqueued for_udp.new for_udp.bound (udp.new packets))
