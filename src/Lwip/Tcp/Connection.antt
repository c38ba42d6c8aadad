-- ===== src/Lwip/Tcp/Connection.antt =====
-- `TcpConnection` of src/lwip/tcp.rs, and who owns the packets that lwIP hands to it.
--
-- `P` is the type of packets and `total_len` their length. A callback gets a packet as an option,
-- `none` for null, and the connection that its `arg` points to. What a call does with control blocks
-- and packets is a list of acts, in order. `enqueued` is what `tcpip_callback` answers.
pub mod Session
pub mod Stream
pub mod Drained
pub mod Frees
pub mod Closing
pub mod Gone
pub mod Full
use derusting.Prelude.{
  ℕ, zero, suc, Bool, true, false, Option, none, some, List, [], ◌∷◌, ◌++◌, length, ltb,
  if◌then◌else◌, Bytes,
}
use derusting.Prelude.Result.{Result, ok, err}
use derusting.Heapless.Channel.{Channel}
use derusting.Lwip.Bindings.{ErrT, mem, val, Pcb, is_ok}
use derusting.Lwip.Access.{async_lwip}

pub record TcpConnection (C : Type 0) : Type 0 where
  pub pcb : Option Pcb
  pub channel : C

pub data Act (P : Type 0) : Type 0 where
  -- the callbacks and their argument are set, or taken away
  attaches detaches : Pcb → Act P
  -- `tcp_recved`
  recved : Pcb → ℕ → Act P
  -- `tcp_write` and `tcp_output`
  writes : Pcb → Bytes → Act P
  outputs closes : Pcb → Act P
  -- the packet's `drop`
  frees : P → Act P

abbrev pub packets : {P : Type 0} → List (Option P) → List P
packets [] = []
packets (none ∷ l) = packets l
packets (some p ∷ l) = p ∷ packets l

abbrev pub free_all : {P : Type 0} → List P → List (Act P)
free_all [] = []
free_all (p ∷ l) = frees p ∷ free_all l

-- The closure of `response`: what `tcp_write` and `tcp_output` answer is given.
unfoldable pub response_now :
    {P : Type 0} → Option Pcb → ErrT → ErrT → Bytes → Result (Unit {0}) ErrT × List (Act P)
response_now none written put_out bytes = (err mem, [])
response_now (some pcb) written put_out bytes =
    if is_ok written
    then (if is_ok put_out then ok tt else err put_out, writes pcb bytes ∷ outputs pcb ∷ [])
    else (err written, writes pcb bytes ∷ [])

-- `response`
unfoldable pub response :
    {P C : Type 0}
    → ErrT
    → ErrT
    → ErrT
    → Bytes
    → TcpConnection C
    → Result (Unit {0}) ErrT × List (Act P)
response enqueued written put_out bytes conn =
    if ltb 65_535 (length bytes)
    then (err val, [])
    else async_lwip enqueued (λ s. response_now conn.pcb written put_out bytes) []

module _ {P C : Type 0} (channel : Channel (Option P) C) where
  unfoldable pub new : Pcb → TcpConnection C
  new pcb = record { pcb = some pcb; channel = channel.new }

  -- `let _ = conn.channel.try_send(None)`
  unfoldable pub send_end : TcpConnection C → TcpConnection C
  send_end conn = elim (channel.try_send none conn.channel) [
    | none ↦ conn
    | some c ↦ record conn { channel = c }
  ]

  -- A packet for the connection; one that does not fit is dropped with the error.
  unfoldable pub deliver : P → TcpConnection C → ErrT × (TcpConnection C × List (Act P))
  deliver p conn = elim (channel.try_send (some p) conn.channel) [
    | none ↦ (mem, (conn, frees p ∷ []))
    | some c ↦ (ErrT.ok, (record conn { channel = c }, []))
  ]

  -- `_recv` where `arg` is not null.
  unfoldable pub recv : Option P → TcpConnection C → ErrT × (TcpConnection C × List (Act P))
  recv none conn = (ErrT.ok, (send_end conn, []))
  recv (some p) conn = deliver p conn

  -- `_recv` where it is.
  unfoldable pub recv_null : Option P → ErrT × List (Act P)
  recv_null none = (val, [])
  recv_null (some p) = (val, frees p ∷ [])

  -- `_err` where `arg` is not null.
  unfoldable pub failed : TcpConnection C → TcpConnection C
  failed conn = send_end (record conn { pcb = none })

  -- The data that lwIP has kept back, if there is any, is handed to `_recv` again.
  unfoldable pub process_refused : Option P → TcpConnection C → TcpConnection C × List (Act P)
  process_refused none conn = (conn, [])
  process_refused (some p) conn = (recv (some p) conn).1

  -- The closure of `attach_callbacks`.
  unfoldable pub attach_now :
      Option P → TcpConnection C → Result (Unit {0}) ErrT × (TcpConnection C × List (Act P))
  attach_now refused conn = elim conn.pcb [
    | none ↦ (err val, (conn, []))
    | some pcb ↦
        (ok tt, ((process_refused refused conn).0, attaches pcb ∷ (process_refused refused conn).1))
  ]

  unfoldable pub attach_callbacks :
      ErrT → Option P → TcpConnection C → Result (Unit {0}) ErrT × (TcpConnection C × List (Act P))
  attach_callbacks enqueued refused conn =
      async_lwip enqueued (λ s. attach_now refused s.0) (conn, [])

module _ {P C : Type 0} (channel : Channel (Option P) C) (total_len : P → ℕ) where
  -- The call of `tcp_recved` for a packet, if there is still a block and the call gets through.
  unfoldable pub acknowledge : ErrT → Option Pcb → P → List (Act P)
  acknowledge enqueued none p = []
  acknowledge enqueued (some pcb) p = if is_ok enqueued then recved pcb (total_len p) ∷ [] else []

  -- What the next value of the channel makes of `receive`.
  unfoldable pub received :
      ErrT → TcpConnection C → Option P × C → Option P × (TcpConnection C × List (Act P))
  received enqueued conn (none, c) = (none, (record conn { channel = c }, []))
  received enqueued conn (some p, c) =
      (some p, (record conn { channel = c }, acknowledge enqueued conn.pcb p))

  -- `receive`; `none` while nothing has come.
  unfoldable pub receive :
      ErrT → TcpConnection C → Option (Option P × (TcpConnection C × List (Act P)))
  receive enqueued conn = elim (channel.try_receive conn.channel) [
    | none ↦ none
    | some item ↦ some (received enqueued conn item)
  ]

  -- What `drop` does with a value of the channel.
  abbrev pub drain_item : Pcb → Option P → List (Act P)
  drain_item pcb none = []
  drain_item pcb (some p) = recved pcb (total_len p) ∷ frees p ∷ []

  -- The `while let` of `drop`, on fuel.
  unfoldable pub drain : ℕ → Pcb → C → C × List (Act P)
  drain zero pcb c = (c, [])
  drain (suc fuel) pcb c = elim (channel.try_receive c) [
    | none ↦ (c, [])
    | some (item, c') ↦ let (c'', acts) = drain fuel pcb c' in (c'', drain_item pcb item ++ acts)
  ]

  -- `drop` on a connection that has its block: `refused` is the data that lwIP has kept back.
  unfoldable pub close_block : Option P → Pcb → TcpConnection C → List (Act P) × C
  close_block refused pcb conn =
      let (conn', acts) = process_refused channel refused conn in
      let (c, drained) = drain (suc (length (channel.waiting conn'.channel))) pcb conn'.channel in
      (acts ++ (drained ++ detaches pcb ∷ outputs pcb ∷ closes pcb ∷ []), c)

  -- `drop`; the values left are dropped by `clear`.
  unfoldable pub close : Option P → TcpConnection C → List (Act P)
  close refused conn = elim conn.pcb [
    | none ↦ free_all (packets (channel.waiting conn.channel))
    | some pcb ↦
        let (acts, c) = close_block refused pcb conn in
        acts ++ free_all (packets (channel.waiting c))
  ]
