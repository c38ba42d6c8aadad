-- ===== src/Start/Order.antt =====
-- When the tasks run.
use derusting.Prelude.{
  ℕ, ◌≡◌, ◌≢◌, ◌∙◌, sym, ap, inl, inr, refl, Bool, true, false, Option, none, some, List, [], ◌∷◌,
  if◌then◌else◌, arith, Bool-cases,
}
use derusting.Prelude.Result.{Result, ok, err}
use derusting.Heapless.Channel.{Channel}
use derusting.Kinds.{Ipv4Addr}
use derusting.Lwip.Bindings.{ErrT, Pcb, is_ok}
use derusting.Lwip.Access.{my_ipaddr, async_lwip}
use derusting.Lwip.Udp as udp
use derusting.Lwip.Udp.{UdpSocket, bind, bind_now}
use derusting.Lwip.Tcp.Listener as listener
use derusting.Lwip.Tcp.Listener.{TcpListener, listen, open_block, put_listening}
use derusting.Start.{
  Task, Opening, Start, spawned, spawn, spawn_all, all_tasks, wait_for_address, Sockets,
  after_listen, after_bind, embassy_main,
}

-- The tasks that have a token, in their order.
abbrev pub with_token : (Task → Bool) → List Task → List Task
with_token tokens [] = []
with_token tokens (task ∷ l) =
    let rest = with_token tokens l in if tokens task then task ∷ rest else rest

spawn_all_lem : (tokens : Task → Bool) (l : List Task) → spawn_all tokens l ≡ with_token tokens l
unfolding spawn_all spawn
spawn_all_lem tokens [] = refl
spawn_all_lem tokens (task ∷ l) =
    ap (λ rest. if tokens task then task ∷ rest else rest) (spawn_all_lem tokens l)

abbrev pub tasks_of : Start → List Task
tasks_of (spawned l) = l
tasks_of s = []

wait_lem :
    (tokens : Task → Bool) (addrs : List (Option ℕ)) (tasks : List Task)
    → wait_for_address tokens addrs ≡ spawned tasks
    → tasks ≡ with_token tokens all_tasks
unfolding wait_for_address my_ipaddr
wait_lem tokens [] tasks e = absurd (cc)
wait_lem tokens (none ∷ l) tasks e = wait_lem tokens l tasks e
wait_lem tokens (some addr ∷ l) tasks e = sym (ap tasks_of e) ∙ spawn_all_lem tokens all_tasks

abbrev pub is_open : Option Pcb → Bool
is_open none = false
is_open (some pcb) = true

bind_opens :
    {U : Type 0} (P : Type 0) (enqueued : ErrT) (new : Option Pcb) (bound : ErrT)
    (sock : UdpSocket U)
    → (bind {P = P} enqueued new bound sock).0 ≡ ok tt
    → is_open (bind {P = P} enqueued new bound sock).1.0.pcb ≡ true
unfolding bind bind_now async_lwip
bind_opens P enqueued none bound sock e = ground arith
bind_opens P enqueued (some pcb) bound sock e = ground arith

put_listening_opens :
    {T : Type 0} (listening : Option Pcb) (tcp : TcpListener T)
    → (put_listening listening tcp).0 ≡ ok tt
    → is_open (put_listening listening tcp).1.0.pcb ≡ true
unfolding put_listening
put_listening_opens none tcp e = absurd (cc)
put_listening_opens (some pcb) tcp e = refl

open_block_opens :
    {T : Type 0} (new : Option Pcb) (bound : ErrT) (listening : Option Pcb) (tcp : TcpListener T)
    → (open_block new bound listening tcp).0 ≡ ok tt
    → is_open (open_block new bound listening tcp).1.0.pcb ≡ true
unfolding open_block
open_block_opens none bound listening tcp e = absurd (cc)
open_block_opens (some pcb) bound none tcp e = ground (arith, put_listening_opens none tcp)
open_block_opens (some pcb) bound (some p) tcp e = ground (arith, put_listening_opens (some p) tcp)

-- Where the call gets through to a closed listener, `listen` is what it does to it.
listen_at :
    {T : Type 0} (enqueued : ErrT) (new : Option Pcb) (bound : ErrT) (listening : Option Pcb)
    (tcp : TcpListener T)
    → is_ok enqueued ≡ true
    → tcp.pcb ≡ none
    → listen enqueued new bound listening tcp ≡ open_block new bound listening tcp
unfolding listen async_lwip
listen_at enqueued new bound listening tcp h e = simp (listen, async_lwip, h, e)

listen_shut :
    {T : Type 0} (enqueued : ErrT) (new : Option Pcb) (bound : ErrT) (listening : Option Pcb)
    (tcp : TcpListener T)
    → is_ok enqueued ≡ false
    → (listen enqueued new bound listening tcp).0 ≢ ok tt
unfolding listen async_lwip
listen_shut enqueued new bound listening tcp h = rw (listen, async_lwip, h) (λ e. cc)

listen_opens :
    {T : Type 0} (enqueued : ErrT) (new : Option Pcb) (bound : ErrT) (listening : Option Pcb)
    (tcp : TcpListener T)
    → tcp.pcb ≡ none
    → (listen enqueued new bound listening tcp).0 ≡ ok tt
    → is_open (listen enqueued new bound listening tcp).1.0.pcb ≡ true
listen_opens enqueued new bound listening tcp closed e = elim (Bool-cases (is_ok enqueued)) [
  | inl h ↦
      let same = listen_at enqueued new bound listening tcp h closed in
      ap (λ r. is_open r.1.0.pcb) same
      ∙ open_block_opens new bound listening tcp (ap (λ r. r.0) (sym same) ∙ e)
  | inr h ↦ absurd (listen_shut enqueued new bound listening tcp h e)
]

-- Both sockets are open, and the tasks are those that have a token.
abbrev pub IsUp : {U T : Type 0} → (Task → Bool) → List Task → Sockets U T → Type 0
IsUp tokens tasks (sock, tcp) =
    (is_open sock.pcb ≡ true) × (is_open tcp.pcb ≡ true) × (tasks ≡ with_token tokens all_tasks)

module _ {U T : Type 0} (tokens : Task → Bool) (addrs : List (Option ℕ)) (tasks : List Task) where
  after_listen_lem :
      (sock : UdpSocket U) (r : Result (Unit {0}) ErrT × (TcpListener T × List listener.Act))
      (s : Sockets U T)
      → after_listen tokens addrs sock r ≡ (spawned tasks, s)
      → is_open sock.pcb ≡ true
      → (r.0 ≡ ok tt → is_open r.1.0.pcb ≡ true)
      → IsUp tokens tasks s
  unfolding after_listen
  after_listen_lem sock (err e, (tcp, acts)) s h up opens = absurd (cc)
  after_listen_lem sock (ok u, (tcp, acts)) (sock', tcp') h up opens = (
    ap (λ r. is_open r.1.0.pcb) (sym h) ∙ up,
    ap (λ r. is_open r.1.1.pcb) (sym h) ∙ opens refl,
    wait_lem tokens addrs tasks (ap (λ r. r.0) h),
  )

  after_bind_lem :
      {P : Type 0} (opening : Opening) (tcp : TcpListener T)
      (r : Result (Unit {0}) ErrT × (UdpSocket U × List (udp.Act P))) (s : Sockets U T)
      → after_bind opening tokens addrs tcp r ≡ (spawned tasks, s)
      → tcp.pcb ≡ none
      → (r.0 ≡ ok tt → is_open r.1.0.pcb ≡ true)
      → IsUp tokens tasks s
  unfolding after_bind
  after_bind_lem opening tcp (err e, (sock, acts)) s h closed opens = absurd (cc)
  after_bind_lem opening tcp (ok u, (sock, acts)) s h closed opens =
      after_listen_lem sock
        (listen opening.enqueued opening.new opening.bound opening.listening tcp) s h (opens refl)
        (listen_opens opening.enqueued opening.new opening.bound opening.listening tcp closed)

  -- Where the tasks run, the UDP socket and the listener have both been opened before, and all tasks
  -- run, each once and in their order, but for those that have no token; one that has none keeps no
  -- other from running.
  pub tasks_need_sockets :
      (P : Type 0) (packets : Channel (Ipv4Addr × P) U) (blocks : Channel Pcb T)
      (for_udp for_tcp : Opening) (s : Sockets U T)
      → embassy_main packets blocks for_udp for_tcp tokens addrs ≡ (spawned tasks, s)
      → IsUp tokens tasks s
  unfolding embassy_main listener.new
  tasks_need_sockets P packets blocks for_udp for_tcp s h =
      after_bind_lem for_tcp (listener.new blocks)
        (bind {P = P} for_udp.enqueued for_udp.new for_udp.bound (udp.new packets)) s h refl
        (bind_opens P for_udp.enqueued for_udp.new for_udp.bound (udp.new packets))
