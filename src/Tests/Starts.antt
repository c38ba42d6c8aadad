-- ===== src/Tests/Starts.antt =====
-- Examples for the start.
use derusting.Prelude.{ℕ, ◌≡◌, refl, Bool, true, false, none, some, List, [], ◌∷◌, Bytes}
use derusting.Kinds.{Ipv4Addr}
use derusting.Heapless.Models.{list_channel}
use derusting.Lwip.Bindings.{ErrT}
use derusting.Heapless.Channel.{Channel}
use derusting.Lwip.Access.{async_lwip, my_ipaddr}
use derusting.Lwip.Udp as udp
use derusting.Lwip.Udp.{UdpSocket, bind, bind_now}
use derusting.Lwip.Tcp.Listener as listener
use derusting.Lwip.Tcp.Listener.{TcpListener, listen, open_block, put_listening}
use derusting.Start as start
use derusting.Start.{
  Task, heartbeat, address_book_lifetime_check, manage_ledger, udp_receiver, tcp_worker, Opening,
  spawned, spawn, spawn_all, wait_for_address, after_listen, after_bind, embassy_main,
}
use derusting.Start.Order.{IsUp, tasks_need_sockets}

abbrev opening : Opening
opening = record { enqueued = ErrT.ok; new = some 1; bound = ErrT.ok; listening = some 2 }

-- The heartbeat has no token, and the address comes in the second turn.
abbrev tokens : Task → Bool
tokens heartbeat = false
tokens task = true

abbrev packets : Channel (Ipv4Addr × Bytes) (List (Ipv4Addr × Bytes))
packets = list_channel 12

abbrev blocks : Channel ℕ (List ℕ)
blocks = list_channel 1

abbrev sockets : UdpSocket (List (Ipv4Addr × Bytes)) × TcpListener (List ℕ)
sockets = (record { pcb = some 1; channel = [] }, record { pcb = some 2; channel = [] })

abbrev running : List Task
running =
    address_book_lifetime_check ∷ manage_ledger ∷ udp_receiver ∷ tcp_worker ∷ start.distribute_file
    ∷ []

started :
    embassy_main packets blocks opening opening tokens (none ∷ some 1 ∷ [])
    ≡ (spawned running, sockets)
unfolding embassy_main after_bind after_listen wait_for_address spawn_all spawn bind bind_now listen
    open_block put_listening async_lwip my_ipaddr udp.new listener.new
started = refl

tasks_need_sockets_example : IsUp tokens running sockets
tasks_need_sockets_example =
    tasks_need_sockets tokens (none ∷ some 1 ∷ []) running Bytes packets blocks opening opening
      sockets started
