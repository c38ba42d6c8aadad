-- ===== src/Tasks/Tcp/Worker.antt =====
-- `tcp_worker` of src/tasks/tcp.rs: the next connection is handled by `handle_conn`, and dropped.
--
-- `P` is the type of packets, `chunks` what a packet's iterator gives, and `html` the index page. What
-- lwIP does in the meantime is given for each turn.
pub mod Settles
use derusting.Prelude.{
  ℕ, Bool, true, false, ◌||◌, Option, none, some, List, [], ◌∷◌, ◌++◌, map, Bytes, if◌then◌else◌,
}
use derusting.Std.Utf8.{Str}
use derusting.Kinds.{Uuid, Instant}
use derusting.State.{DerustingState}
use derusting.Heapless.LinearMap.{LinearMap}
use derusting.Heapless.IndexSet.{IndexSet}
use derusting.Heapless.Channel.{Channel}
use derusting.Http.{as_bytes}
use derusting.Lwip.Bindings.{ErrT, Pcb, is_ok}
use derusting.Lwip.Tcp.Connection as connection
use derusting.Lwip.Tcp.Connection.{TcpConnection, free_all, response, close}
use derusting.Lwip.Tcp.Connection.Session as session
use derusting.Lwip.Tcp.Connection.Session.{Event, Session, step, run, packets_in}
use derusting.Lwip.Tcp.Listener.{TcpListener, accept, with_connection}
use derusting.Tasks.Tcp.Handler.{Act, respond, waits, Conn, handle_conn}

-- What lwIP calls.
pub data Callback (P : Type 0) : Type 0 where
  arrives : P → Callback P
  ends fails : Callback P

abbrev pub as_event : {P : Type 0} → Callback P → Event P
as_event (arrives p) = session.arrives p
as_event ends = session.ends
as_event fails = session.fails

-- What happens to a connection that a worker has taken.
pub record Turn (P : Type 0) : Type 0 where
  -- What `tcpip_callback` answers when the callbacks are attached, and the data kept back until then.
  pub attached : ErrT
  pub refused : Option P
  -- The callbacks before each call of `receive` that the handler makes comes to its answer; after the
  -- last of them nothing comes any more.
  pub gaps : List (List (Callback P))
  -- What `tcpip_callback`, `tcp_write` and `tcp_output` answer for a response.
  pub enqueued : ErrT
  pub written : ErrT
  pub put_out : ErrT
  -- The callbacks from then on, until the connection is dropped.
  pub after : List (Callback P)

pub data Step (P : Type 0) : Type 0 where
  accepts : ErrT → Option Pcb → Step P
  serves : Turn P → Conn → Step P

-- Whether the handler asks for a packet that does not come.
abbrev pub is_waiting : List Act → Bool
is_waiting [] = false
is_waiting (waits ∷ acts) = true
is_waiting (act ∷ acts) = is_waiting acts

-- What the handler sends to the client.
unfoldable pub answers :
    {P D : Type 0} → Bytes → Turn P → TcpConnection D → List Act → List (connection.Act P)
answers html turn conn [] = []
answers html turn conn (respond r ∷ acts) =
    (response turn.enqueued turn.written turn.put_out (as_bytes html r) conn).1
    ++ answers html turn conn acts
answers html turn conn (act ∷ acts) = answers html turn conn acts

-- Whether a call of `receive` tells the end of the stream.
abbrev pub tells_end : {P D : Type 0} → Option (Option P × D) → Bool
tells_end none = false
tells_end (some (none, c)) = true
tells_end (some (some p, c)) = false

-- A connection with the packets that the calls of `_recv` have brought.
abbrev pub Received : Type 0 → Type 0 → Type 0
Received P D = List P × Session P D

abbrev pub brought : {P : Type 0} → List (Callback P) → List P
brought [] = []
brought (arrives p ∷ l) = p ∷ brought l
brought (ends ∷ l) = brought l
brought (fails ∷ l) = brought l

-- The data that comes when the callbacks are attached, having been kept back.
abbrev pub kept_until : {P : Type 0} → ErrT → Option P → List P
kept_until attached none = []
kept_until attached (some p) = if is_ok attached then p ∷ [] else []

module _ {P D : Type 0} (packets : Channel (Option P) D) (total_len : P → ℕ) where
  -- A connection as `with_connection` hands it out; data that was kept back waits already.
  abbrev pub taken_over : TcpConnection D × List (connection.Act P) → Session P D
  taken_over (conn, acts) = record {
    conn = conn;
    taken = packets_in packets conn;
    given = [];
    acts = acts;
  }

  abbrev pub called : List (Callback P) → Received P D → Received P D
  called gap (came, s) = (came ++ brought gap, run packets total_len (map as_event gap) s)

  abbrev pub asked : Received P D → Received P D
  asked (came, s) = (came, step packets total_len session.asks s)

-- What becomes of a connection: the handler waits for ever, or it has ended, with the packets that came,
-- and what was done with the connection up to the end of its `drop`.
pub data Outcome (M S C P : Type 0) : Type 0 where
  stuck : Outcome M S C P
  over : DerustingState M S C → List Act → List P → List (connection.Act P) → Outcome M S C P

module _ {M S C P D L : Type 0} (book : LinearMap Instant M) (jobs : IndexSet S)
    (channel : Channel Uuid C) (parse_uuid : Str → Option Uuid) (show : Uuid → Bytes) (html : Bytes)
    (chunks : P → List Bytes) (total_len : P → ℕ) (packets : Channel (Option P) D)
    (blocks : Channel Pcb L) where
  -- The handler with the packets that it has been given, and the end if it has been told.
  abbrev pub handled : Conn → Bool → List P → DerustingState M S C → DerustingState M S C × List Act
  handled env ended given state =
      handle_conn book jobs channel parse_uuid show
        (record env { packets = map chunks given; closes = ended }) state

  -- From the handler's last `receive` on: the response, and the `drop` of the connection. The packets that
  -- the handler was given are its own variables, so it has dropped them by its end.
  unfoldable pub finished :
      Turn P → Received P D → DerustingState M S C × List Act → Outcome M S C P
  finished turn (came, s) (state, acts) =
      let told = record s { acts = s.acts ++ answers html turn s.conn acts } in
      let (came', s') = called packets total_len turn.after (came, told) in
      over state acts came' (s'.acts ++ (free_all s'.given ++ close packets total_len none s'.conn))

  -- `handle_conn` and the `drop`: as long as the handler asks for one more packet, lwIP goes on and the
  -- call of `receive` is answered, or is still open.
  unfoldable pub serve :
      Turn P
      → Conn
      → List (List (Callback P))
      → Bool
      → Received P D
      → DerustingState M S C
      → Outcome M S C P
  serve turn env [] ended (came, s) state =
      let (state', acts) = handled env ended s.given state in
      if is_waiting acts then stuck else finished turn (came, s) (state', acts)
  serve turn env (gap ∷ gaps) ended (came, s) state =
      let (state', acts) = handled env ended s.given state in
      let (came', s') = called packets total_len gap (came, s) in
      let more =
        serve turn env gaps (ended || tells_end (packets.try_receive s'.conn.channel))
          (asked packets total_len (came', s')) state in
      if is_waiting acts then more else finished turn (came, s) (state', acts)

  -- One turn of the loop; `none` while no connection has come.
  unfoldable pub worker_turn :
      Turn P
      → Conn
      → TcpListener L
      → DerustingState M S C
      → Option (TcpListener L × Outcome M S C P)
  worker_turn turn env listener state =
      elim (with_connection blocks packets turn.attached turn.refused listener) [
        | none ↦ none
        | some (opened, listener') ↦ some (
          listener',
          serve turn env turn.gaps false
              (kept_until turn.attached turn.refused, taken_over packets total_len opened) state,
        )
      ]

  -- `tcp_worker`: what happens in turn is a call of `_accept`, or what becomes of the next connection. A
  -- handler that waits for ever holds the worker up.
  unfoldable pub tcp_worker :
      List (Step P) → TcpListener L → DerustingState M S C → TcpListener L × DerustingState M S C
  tcp_worker [] listener state = (listener, state)
  tcp_worker (accepts e pcb ∷ steps) listener state =
      let (code, (arg, acts)) = accept blocks e pcb (some listener) in
      tcp_worker steps (elim arg [ none ↦ listener | some listener' ↦ listener' ]) state
  tcp_worker (serves turn env ∷ steps) listener state = elim (worker_turn turn env listener state) [
    | none ↦ tcp_worker steps listener state
    | some (listener', stuck) ↦ (listener', state)
    | some (listener', over state' acts came did) ↦ tcp_worker steps listener' state'
  ]
