-- ===== src/Lwip/Udp/Flow.antt =====
-- The socket as a bounded queue: what comes in, what goes out, and what is dropped.
use derusting.Prelude.{
  ℕ, ◌≡◌, ◌∙◌, sym, ap, inl, inr, refl, Option, none, some, List, [], ◌∷◌, Option-cases,
}
use derusting.Kinds.{Ipv4Addr}
use derusting.Heapless.Channel.{Channel}
use derusting.Heapless.Queue.{
  put, take_first, queue_of, taken_of, try_send-put, try_receive-take_first,
}
use derusting.Lwip.Access.{swap_bytes}
use derusting.Lwip.Udp.{UdpSocket, Act, frees, enqueue, recv, receive}

-- A callback with a datagram from the address, in network order, or a task that asks for one.
pub data Event (P : Type 0) : Type 0 where
  arrives : P → ℕ → Event P
  asks : Event P

-- What is seen of an event: all that the socket does when a datagram comes; the task waits or gets a
-- datagram.
pub data Outcome (P : Type 0) : Type 0 where
  came : List (Act P) → Outcome P
  waits : Outcome P
  given : Ipv4Addr × P → Outcome P

-- A bounded queue of datagrams with their senders, which drops what does not fit.
abbrev pub served :
    {P : Type 0}
    → List (Ipv4Addr × P)
    → Option ((Ipv4Addr × P) × List (Ipv4Addr × P))
    → List (Ipv4Addr × P) × Outcome P
served queue none = (queue, waits)
served queue (some (item, queue')) = (queue', given item)

abbrev pub stored :
    {P : Type 0}
    → P
    → List (Ipv4Addr × P)
    → Option (List (Ipv4Addr × P))
    → List (Ipv4Addr × P) × Outcome P
stored p queue none = (queue, came (frees p ∷ []))
stored p queue (some queue') = (queue', came [])

abbrev pub queue_step :
    {P : Type 0} → ℕ → Event P → List (Ipv4Addr × P) → List (Ipv4Addr × P) × Outcome P
queue_step capacity (arrives p addr) queue =
    stored p queue (put capacity (swap_bytes addr, p) queue)
queue_step capacity asks queue = served queue (take_first queue)

-- The outcomes of a sequence of events.
abbrev pub queue_run : {P : Type 0} → ℕ → List (Event P) → List (Ipv4Addr × P) → List (Outcome P)
queue_run capacity [] queue = []
queue_run capacity (ev ∷ l) queue =
    let (queue', o) = queue_step capacity ev queue in o ∷ queue_run capacity l queue'

-- What `_recv` comes to, with all its acts.
abbrev pub seen :
    {P C : Type 0} → UdpSocket C → Option (UdpSocket C) × List (Act P) → UdpSocket C × Outcome P
seen sock (some sock', acts) = (sock', came acts)
seen sock (none, acts) = (sock, came acts)

abbrev pub answered :
    {P C : Type 0} → UdpSocket C → Option ((Ipv4Addr × P) × UdpSocket C) → UdpSocket C × Outcome P
answered sock none = (sock, waits)
answered sock (some (item, sock')) = (sock', given item)

module _ {P C : Type 0} (channel : Channel (Ipv4Addr × P) C) where
  abbrev pub step : Event P → UdpSocket C → UdpSocket C × Outcome P
  step (arrives p addr) sock = seen sock (recv channel (some p) addr (some sock))
  step asks sock = answered sock (receive channel sock)

  abbrev pub run : List (Event P) → UdpSocket C → List (Outcome P)
  run [] sock = []
  run (ev ∷ l) sock = let (sock', o) = step ev sock in o ∷ run l sock'

  abbrev queue : UdpSocket C → List (Ipv4Addr × P)
  queue sock = channel.waiting sock.channel

  step-full :
      (p : P) (addr : ℕ) (sock : UdpSocket C)
      → channel.try_send (swap_bytes addr, p) sock.channel ≡ none
      → step (arrives p addr) sock ≡ (sock, came (frees p ∷ []))
  unfolding recv enqueue
  step-full p addr sock e = rw (recv, enqueue, e) refl

  step-room :
      (p : P) (addr : ℕ) (sock : UdpSocket C) (c : C)
      → channel.try_send (swap_bytes addr, p) sock.channel ≡ some c
      → step (arrives p addr) sock ≡ (record sock { channel = c }, came [])
  unfolding recv enqueue
  step-room p addr sock c e = rw (recv, enqueue, e) refl

  step-asks :
      (sock : UdpSocket C) (r : Option ((Ipv4Addr × P) × C))
      → channel.try_receive sock.channel ≡ r
      → step asks sock ≡ elim r [
        | none ↦ (sock, waits)
        | some (item, c) ↦ (record sock { channel = c }, given item)
      ]
  unfolding receive
  step-asks sock none e = rw (receive, e) refl
  step-asks sock (some (item, c)) e = rw (receive, e) refl

  step_lem :
      (ev : Event P) (sock : UdpSocket C)
      → let (sock', o) = step ev sock in
        queue_step channel.capacity ev (queue sock) ≡ (queue sock', o)
  step_lem (arrives p addr) sock =
      let sent = sym (try_send-put channel (swap_bytes addr, p) sock.channel) in
      elim (Option-cases (channel.try_send (swap_bytes addr, p) sock.channel)) [
        | inl e ↦
            ap (stored p (queue sock)) (sent ∙ ap (queue_of channel) e)
            ∙ ap (λ r. (queue r.0, r.1)) (sym (step-full p addr sock e))
        | inr (c, e) ↦
            ap (stored p (queue sock)) (sent ∙ ap (queue_of channel) e)
            ∙ ap (λ r. (queue r.0, r.1)) (sym (step-room p addr sock c e))
      ]
  step_lem asks sock =
      let taken = sym (try_receive-take_first channel sock.channel) in
      elim (Option-cases (channel.try_receive sock.channel)) [
        | inl e ↦
            ap (served (queue sock)) (taken ∙ ap (taken_of channel) e)
            ∙ ap (λ r. (queue r.0, r.1)) (sym (step-asks sock none e))
        | inr ((item, c), e) ↦
            ap (served (queue sock)) (taken ∙ ap (taken_of channel) e)
            ∙ ap (λ r. (queue r.0, r.1)) (sym (step-asks sock (some (item, c)) e))
      ]

  -- The socket is a bounded first-in first-out queue: over any datagrams that arrive and any requests
  -- of the tasks, each datagram is queued behind the others with its sender's address and nothing else
  -- is done, or, where the queue is full, it is freed once and nothing else is done; and the datagrams in
  -- the queue are given to the tasks once, in order.
  pub socket_refines_queue :
      (l : List (Event P)) (sock : UdpSocket C)
      → run l sock ≡ queue_run channel.capacity l (queue sock)
  socket_refines_queue [] sock = refl
  socket_refines_queue (ev ∷ l) sock =
      let (sock', o) = step ev sock in
      ap (◌∷◌ o) (socket_refines_queue l sock')
      ∙ ap (λ r. r.1 ∷ queue_run channel.capacity l r.0) (sym (step_lem ev sock))
