-- ===== src/Lwip/Tcp/Listener.antt =====
-- `TcpListener` of src/lwip/tcp.rs: the blocks that lwIP has accepted wait for a worker.
--
-- What a call does with control blocks is a list of acts, in order; what lwIP's functions answer is
-- given. The channel holds blocks that are not null, since `_accept` sends no others.
pub mod Pending
use derusting.Prelude.{
  ℕ, zero, suc, Bool, true, false, Option, none, some, List, [], ◌∷◌, ◌++◌, length, if◌then◌else◌,
}
use derusting.Prelude.Result.{Result, ok, err}
use derusting.Heapless.Channel.{Channel}
use derusting.Lwip.Bindings.{ErrT, mem, val, Pcb, is_ok}
use derusting.Lwip.Access.{async_lwip}
use derusting.Lwip.Tcp.Connection as connection
use derusting.Lwip.Tcp.Connection.{TcpConnection, attach_callbacks}

pub record TcpListener (C : Type 0) : Type 0 where
  pub pcb : Option Pcb
  pub channel : C

pub data Act : Type 0 where
  -- `tcp_arg` with the listener and `tcp_accept` with its callback, or both with null
  accepts refuses : Pcb → Act
  -- `tcp_arg` with null and `tcp_recv` with `_hold_recv`
  holds : Pcb → Act
  closes aborts : Pcb → Act

-- `_hold_recv`
unfoldable pub hold_recv : {P : Type 0} → Option P → ErrT
hold_recv pbuf = mem

module _ {C : Type 0} where
  -- What `tcp_listen_with_backlog` answers.
  unfoldable pub put_listening :
      Option Pcb → TcpListener C → Result (Unit {0}) ErrT × (TcpListener C × List Act)
  put_listening none listener = (err mem, (listener, []))
  put_listening (some pcb) listener =
      (ok tt, (record listener { pcb = some pcb }, accepts pcb ∷ []))

  -- What `tcp_new` answers, and then `tcp_bind` and `tcp_listen_with_backlog`.
  unfoldable pub open_block :
      Option Pcb
      → ErrT
      → Option Pcb
      → TcpListener C
      → Result (Unit {0}) ErrT × (TcpListener C × List Act)
  open_block none bound listening listener = (err mem, (listener, []))
  open_block (some pcb) bound listening listener =
      if is_ok bound
      then put_listening listening listener
      else (err bound, (listener, closes pcb ∷ []))

  -- `listen`
  unfoldable pub listen :
      ErrT
      → Option Pcb
      → ErrT
      → Option Pcb
      → TcpListener C
      → Result (Unit {0}) ErrT × (TcpListener C × List Act)
  listen enqueued new bound listening listener =
      async_lwip enqueued
        (λ s. elim s.0.pcb [
          | none ↦ open_block new bound listening s.0
          | some pcb ↦ (err val, (s.0, []))
        ])
        (listener, [])

module _ {C : Type 0} (channel : Channel Pcb C) where
  unfoldable pub new : TcpListener C
  new = record { pcb = none; channel = channel.new }

  -- A block is queued for a worker, or aborted where the channel is full.
  unfoldable pub hold : Pcb → TcpListener C → TcpListener C × List Act
  hold pcb listener = elim (channel.try_send pcb listener.channel) [
    | none ↦ (listener, holds pcb ∷ aborts pcb ∷ [])
    | some c ↦ (record listener { channel = c }, holds pcb ∷ [])
  ]

  unfoldable pub accept_block :
      Option Pcb → Option (TcpListener C) → ErrT × (Option (TcpListener C) × List Act)
  accept_block none arg = (ErrT.ok, (arg, []))
  accept_block (some pcb) none = (ErrT.ok, (none, []))
  accept_block (some pcb) (some listener) =
      let (listener', acts) = hold pcb listener in (ErrT.ok, (some listener', acts))

  -- `_accept`
  unfoldable pub accept :
      ErrT → Option Pcb → Option (TcpListener C) → ErrT × (Option (TcpListener C) × List Act)
  accept e pcb arg = if is_ok e then accept_block pcb arg else (ErrT.ok, (arg, []))

  -- The next block, for a worker that waits in `with_connection`; `none` while none has come.
  unfoldable pub next : TcpListener C → Option (Pcb × TcpListener C)
  next listener = elim (channel.try_receive listener.channel) [
    | none ↦ none
    | some (pcb, c) ↦ some (pcb, record listener { channel = c })
  ]

  -- The connection that `with_connection` calls its function with.
  unfoldable pub with_connection :
      {P D : Type 0}
      → Channel (Option P) D
      → ErrT
      → Option P
      → TcpListener C
      → Option ((TcpConnection D × List (connection.Act P)) × TcpListener C)
  with_connection packets enqueued refused listener = elim (next listener) [
    | none ↦ none
    | some (pcb, listener') ↦
        some ((attach_callbacks packets enqueued refused (connection.new packets pcb)).1, listener')
  ]

  -- The `while let` of `drop`, on fuel.
  unfoldable pub abort_pending : ℕ → C → C × List Act
  abort_pending zero c = (c, [])
  abort_pending (suc fuel) c = elim (channel.try_receive c) [
    | none ↦ (c, [])
    | some (pcb, c') ↦ let (c'', acts) = abort_pending fuel c' in (c'', aborts pcb ∷ acts)
  ]

  -- `drop`; `closed` is what `tcp_close` answers.
  unfoldable pub close : ErrT → TcpListener C → TcpListener C × List Act
  close closed listener = elim listener.pcb [
    | none ↦ (listener, [])
    | some pcb ↦
        let (c, acts) =
          abort_pending (suc (length (channel.waiting listener.channel))) listener.channel in
        (
          record { pcb = none; channel = c },
          refuses pcb ∷ closes pcb ∷ ((if is_ok closed then [] else aborts pcb ∷ []) ++ acts),
        )
  ]
