-- ===== src/Lwip/Udp.antt =====
-- src/lwip/udp.rs: a socket, and who owns the packets that lwIP hands to it.
--
-- `P` is the type of packets; a callback gets one as an option, `none` for null. What a call does with
-- control blocks and packets is a list of acts, in order. A call runs on lwIP's thread, so its
-- closure is one step; `enqueued` is what `tcpip_callback` answers.
pub mod Flow
use derusting.Prelude.{Bool, true, false, Option, none, some, List, [], ◌∷◌, ◌++◌, if◌then◌else◌, ℕ}
use derusting.Prelude.Result.{Result, ok, err}
use derusting.Kinds.{Ipv4Addr}
use derusting.Heapless.Channel.{Channel}
use derusting.Lwip.Bindings.{ErrT, mem, val, Pcb, is_ok}
use derusting.Lwip.Access.{swap_bytes, async_lwip}

pub record UdpSocket (C : Type 0) : Type 0 where
  pub pcb : Option Pcb
  pub channel : C

pub data Act (P : Type 0) : Type 0 where
  -- `udp_recv` with the callback, and without
  listens unlistens : Pcb → Act P
  removes : Pcb → Act P
  -- `udp_sendto` to the broadcast address
  sends : Pcb → P → Act P
  -- the packet's `drop`
  frees : P → Act P

-- The closure of `broadcast`: what `udp_sendto` answers is given.
unfoldable pub broadcast_now :
    {P : Type 0} → Option Pcb → ErrT → P → Result (Unit {0}) ErrT × List (Act P)
broadcast_now none e packet = (err val, [])
broadcast_now (some pcb) e packet = (if is_ok e then ok tt else err e, sends pcb packet ∷ [])

module _ {P C : Type 0} where
  -- The closure of `bind`: what `udp_new` and `udp_bind` answer is given.
  unfoldable pub bind_now :
      Option Pcb → ErrT → UdpSocket C → Result (Unit {0}) ErrT × (UdpSocket C × List (Act P))
  bind_now none e sock = (err mem, (sock, []))
  bind_now (some pcb) e sock =
      if is_ok e
      then (ok tt, (record sock { pcb = some pcb }, listens pcb ∷ []))
      else (err e, (sock, removes pcb ∷ []))

  -- `bind`
  unfoldable pub bind :
      ErrT → Option Pcb → ErrT → UdpSocket C → Result (Unit {0}) ErrT × (UdpSocket C × List (Act P))
  bind enqueued new e sock = async_lwip enqueued (λ s. bind_now new e s.0) (sock, [])

  -- `broadcast`; its packet is dropped at its end.
  unfoldable pub broadcast : ErrT → ErrT → P → UdpSocket C → Result (Unit {0}) ErrT × List (Act P)
  broadcast enqueued e packet sock =
      let (res, acts) = async_lwip enqueued (λ s. broadcast_now sock.pcb e packet) [] in
      (res, acts ++ frees packet ∷ [])

  -- The closure of `drop`.
  unfoldable pub close : UdpSocket C → UdpSocket C × List (Act P)
  close sock = (
    record sock { pcb = none },
    elim sock.pcb [ none ↦ [] | some pcb ↦ unlistens pcb ∷ removes pcb ∷ [] ],
  )

module _ {P C : Type 0} (channel : Channel (Ipv4Addr × P) C) where
  unfoldable pub new : UdpSocket C
  new = record { pcb = none; channel = channel.new }

  -- A datagram for the socket; what does not fit the channel is dropped.
  unfoldable pub enqueue : P → ℕ → UdpSocket C → UdpSocket C × List (Act P)
  enqueue packet addr sock = elim (channel.try_send (swap_bytes addr, packet) sock.channel) [
    | none ↦ (sock, frees packet ∷ [])
    | some c ↦ (record sock { channel = c }, [])
  ]

  -- `_recv`
  unfoldable pub recv : Option P → ℕ → Option (UdpSocket C) → Option (UdpSocket C) × List (Act P)
  recv pbuf addr none = (none, [])
  recv none addr (some sock) = (some sock, [])
  recv (some packet) addr (some sock) =
      let (sock', acts) = enqueue packet addr sock in (some sock', acts)

  -- `receive`; `none` while nothing has come.
  unfoldable pub receive : UdpSocket C → Option ((Ipv4Addr × P) × UdpSocket C)
  receive sock = elim (channel.try_receive sock.channel) [
    | none ↦ none
    | some (item, c) ↦ some (item, record sock { channel = c })
  ]
