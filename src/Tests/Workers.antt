-- ===== src/Tests/Workers.antt =====
-- Examples for the end of a connection and the log.
use derusting.Prelude.{
  true, Option, List, Bytes, Bool, ◌≡◌, none, some, [], ◌∷◌, length, ltb, codes, if◌then◌else◌,
}
use derusting.Heapless.TextModels.{list_texts}
use derusting.Tasks.Tcp.Handler.{Conn}
use derusting.Http.{Response, as_bytes}
use derusting.Lwip.Tcp.Connection as connection
use derusting.Lwip.Tcp.Connection.Frees as frees
use derusting.Tasks.Tcp.Worker.{Turn, Outcome, arrives, ends, worker_turn}
use derusting.Lwip.Bindings.{ErrT, Pcb}
use derusting.Lwip.Tcp.Listener.{TcpListener}
use derusting.Heapless.Channel.{Channel}
use derusting.Heapless.Models.{list_channel}
use derusting.Kinds.{Uuid}
use derusting.Log.{log, error}
use derusting.Log.Reads.{c_str, until_nul, log_lem}
use derusting.Tests.Inputs.{book, jobs, channel, show, conn, state, Book, Jobs}

-- A client that sends a request and closes.
abbrev asking : Conn
asking = record conn { packets = (codes "GET" ∷ []) ∷ []; closes = true }

-- A request comes in two packets, is read, refused and answered, and the client closes.
abbrev turn : Turn Bytes
turn = record {
  attached = ErrT.ok;
  refused = none;
  gaps = (arrives (codes "GET") ∷ arrives (codes "!") ∷ []) ∷ [];
  enqueued = ErrT.ok;
  written = ErrT.ok;
  put_out = ErrT.ok;
  after = ends ∷ [];
}

abbrev is_get : Bytes → Bool
is_get p = ltb 1 (length p)

abbrev packets : Channel (Option Bytes) (List (Option Bytes))
packets = list_channel 4

abbrev blocks : Channel Pcb (List Pcb)
blocks = list_channel 1

abbrev listener : TcpListener (List Pcb)
listener = record { pcb = some 1; channel = 9 ∷ [] }

abbrev idle : TcpListener (List Pcb)
idle = record { pcb = some 1; channel = [] }

abbrev the_turn : Option (TcpListener (List Pcb) × Outcome Book Jobs (List Uuid) Bytes)
the_turn =
    worker_turn book jobs channel (λ s. none) show [] (λ p. p ∷ []) length packets blocks turn conn
      listener state

abbrev done : List (connection.Act Bytes)
done =
    connection.attaches 9
    ∷ connection.recved 9 3
    ∷ connection.writes 9 (as_bytes [] Response.bad_request)
    ∷ connection.outputs 9
    ∷ connection.frees (codes "GET")
    ∷ connection.recved 9 1
    ∷ connection.frees (codes "!")
    ∷ connection.detaches 9
    ∷ connection.outputs 9
    ∷ connection.closes 9
    ∷ []

log_lem_example :
    ((log list_texts error (codes "USB")).severity ≡ error)
    × (c_str 64 (log list_texts error (codes "USB")).msg
        ≡ some (
            if ltb (length (codes "USB")) 64
            then until_nul (codes "USB")
            else codes "Message too long..."))
log_lem_example = log_lem list_texts error (codes "USB")
