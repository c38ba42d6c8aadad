-- ===== src/Tests/Sockets.antt =====
-- Examples for the sockets and the packet buffers.
use derusting.Prelude.{
  ◌+◌, ◌≡◌, refl, Bool, elem, Option, none, some, List, [], ◌∷◌, ◌++◌, concat, length, arith, Bytes,
  codes, ◌==◌, if◌then◌else◌,
}
use derusting.Kinds.{Ipv4Addr}
use derusting.Heapless.Channel.{Channel}
use derusting.Heapless.Models.{list_channel}
use derusting.Lwip.Bindings.{ErrT, Pcb}
use derusting.Lwip.PacketBuffer.{Memory, PacketBuffer, total_len, into_iter, collect, ended}
use derusting.Lwip.PacketBuffer.Chains.{Chain, stop, link, packet_lem}
use derusting.Lwip.Udp.{UdpSocket}
use derusting.Lwip.Udp.Flow as flow
use derusting.Lwip.Udp.Flow.{queue_run, socket_refines_queue}
use derusting.Lwip.Tcp.Connection.{
  TcpConnection, recv, process_refused, response, receive, received, close, new, deliver, send_end,
  acknowledge, close_block, drain,
}
use derusting.Lwip.Tcp.Connection.Session as session
use derusting.Lwip.Tcp.Connection.Session.{Session, credit, freed, run, fresh, total}
use derusting.Lwip.Tcp.Connection.Stream.{IsBalanced, stream-IsBalanced}
use derusting.Lwip.Tcp.Connection.Closing.{kept_back, close-settles}
use derusting.Lwip.Tcp.Connection.Gone.{touched, gone-untouched}
use derusting.Lwip.Tcp.Connection.Full.{requests, end-lost}
use derusting.Lwip.Tcp.Connection.Frees as frees
use derusting.Lwip.Tcp.Connection.Frees.{arrived, each_call_frees}
use derusting.Lwip.Tcp.Listener as listener
use derusting.Lwip.Tcp.Listener.Pending as pending
use derusting.Lwip.Tcp.Listener.Pending.{count, aborted, accepted_once}

-- A packet of two buffers, at 1 and 2.
abbrev memory : Memory
memory p =
    if p == 1
    then some (record { next = some 2; payload = codes "G28"; tot_len = 3; len = 2 })
    else if p == 2
    then some (record { next = none; payload = codes "8"; tot_len = 1; len = 1 })
    else none

abbrev two_buffers : PacketBuffer
two_buffers = record { inner = 1; current = 1 }

two_buffers-Chain : Chain memory (some 1) (codes "G2" ∷ codes "8" ∷ [])
two_buffers-Chain = link 1 (codes "G2") (codes "8") refl (link 2 (codes "8") [] refl stop)

packet_example :
    (collect 3 memory (into_iter two_buffers) ≡ ended (codes "G2" ∷ codes "8" ∷ []))
    × (total_len memory two_buffers ≡ some (length (concat (codes "G2" ∷ codes "8" ∷ []))))
packet_example =
    packet_lem memory two_buffers (codes "G2" ∷ codes "8" ∷ []) 3 refl two_buffers-Chain
      (omega arith)

-- A socket with room for one datagram.
abbrev datagrams : Channel (Ipv4Addr × Bytes) (List (Ipv4Addr × Bytes))
datagrams = list_channel 1

abbrev arrivals : List (flow.Event Bytes)
arrivals = flow.arrives (codes "a") 1 ∷ flow.arrives (codes "b") 2 ∷ flow.asks ∷ flow.asks ∷ []

abbrev socket : UdpSocket (List (Ipv4Addr × Bytes))
socket = record { pcb = some 1; channel = [] }

socket_refines_queue_example : flow.run datagrams arrivals socket ≡ queue_run 1 arrivals []
socket_refines_queue_example = socket_refines_queue datagrams arrivals socket

-- A connection with room for two values.
abbrev values : Channel (Option Bytes) (List (Option Bytes))
values = list_channel 2

abbrev life : List (session.Event Bytes)
life =
    session.arrives (codes "a")
    ∷ session.arrives (codes "bc")
    ∷ session.arrives (codes "d")
    ∷ session.asks
    ∷ session.ends
    ∷ []

stream-IsBalanced_example :
    IsBalanced values length (run values length life (fresh values length 9))
stream-IsBalanced_example = stream-IsBalanced values length life 9

life-pcb : (run values length life (fresh values length 9)).conn.pcb ≡ some 9
unfolding recv deliver receive received new send_end
life-pcb = refl

close-settles_example :
    let s = run values length life (fresh values length 9) in
    let t = run values length (kept_back values length (some (codes "ef"))) s in
    (s.acts ++ close values length (some (codes "ef")) s.conn
      ≡ t.acts ++ close values length none t.conn)
    × (credit (t.acts ++ close values length none t.conn) ≡ total length t.taken)
    × (t.taken ≡ t.given ++ freed (close values length none t.conn))
close-settles_example = close-settles values length life 9 9 (some (codes "ef")) life-pcb

abbrev opened : Session Bytes (List (Option Bytes))
opened = run values length life (fresh values length 9)

gone-untouched_example :
    let t = run values length (session.fails ∷ session.asks ∷ []) opened in
    (touched t.acts ≡ touched opened.acts)
    × ((response {P = Bytes} ErrT.ok ErrT.ok ErrT.ok (codes "HTTP") t.conn).1 ≡ [])
    × (touched (close values length none t.conn) ≡ [])
gone-untouched_example =
    gone-untouched values length (session.asks ∷ []) opened ErrT.ok ErrT.ok ErrT.ok (codes "HTTP")
      none

abbrev full : TcpConnection (List (Option Bytes))
full = record { pcb = some 9; channel = some (codes "a") ∷ some (codes "b") ∷ [] }

-- Room for two packets: the third one is refused, and comes again when there is room.
abbrev two_values : Channel (Option Bytes) (List (Option Bytes))
two_values = list_channel 2

abbrev crowded : List (session.Event Bytes)
crowded =
    session.arrives (codes "a")
    ∷ session.arrives (codes "b")
    ∷ session.arrives (codes "c")
    ∷ session.asks
    ∷ session.arrives (codes "c")
    ∷ []

abbrev is_c : Bytes → Bool
is_c p = elem b'c' p

each_call_frees_example :
    let s = run two_values length crowded (fresh two_values length 9) in
    frees.count is_c (arrived crowded)
    ≡ frees.count is_c s.given
      + frees.count is_c (freed (s.acts ++ close two_values length none s.conn))
each_call_frees_example = each_call_frees is_c two_values length crowded 9

-- It is freed twice.
freed-c :
    let s = run two_values length crowded (fresh two_values length 9) in
    freed (s.acts ++ close two_values length none s.conn) ≡ codes "c" ∷ codes "b" ∷ codes "c" ∷ []
unfolding recv deliver receive received new send_end acknowledge close close_block process_refused
    drain
freed-c = refl

abbrev full_session : Session Bytes (List (Option Bytes))
full_session = record { conn = full; taken = codes "a" ∷ codes "b" ∷ []; given = []; acts = [] }

end-lost_example :
    receive values length ErrT.ok (run values length (session.ends ∷ requests 2) full_session).conn
    ≡ none
end-lost_example = end-lost values length full_session (omega arith)

-- A listener with room for one block.
abbrev blocks : Channel Pcb (List Pcb)
blocks = list_channel 1

abbrev calls : List pending.Event
calls = pending.comes 3 ∷ pending.comes 4 ∷ pending.asks ∷ pending.comes 5 ∷ []

accepted_once_example :
    let s = pending.run blocks calls (pending.fresh blocks 1 2) in
    (count 4 s.came
      ≡ count 4 s.given + (count 4 (blocks.waiting s.listener.channel) + count 4 (aborted s.acts)))
    × (count 4 s.came
        ≡ count 4 s.given
          + count 4 (aborted (s.acts ++ (listener.close blocks ErrT.ok s.listener).1)))
accepted_once_example = accepted_once blocks calls 1 2 4
