-- ===== src/Transfer/Refusals.antt =====
-- A file that the other machine refuses: its response at `_recv` of src/lwip/put.rs, and what
-- `distribute_file` of src/tasks/tcp.rs tells of it.
use derusting.Prelude.{
  ℕ, ◌≤◌, ◌<◌, ◌≡◌, ◌∙◌, ap, refl, true, false, Option, none, some, List, [], ◌∷◌, ◌++◌, Bytes,
  codes,
}
use derusting.Prelude.Result.{ok}
use derusting.Std.Utf8.{Str}
use derusting.Kinds.{Ipv4Addr, Uuid, Instant}
use derusting.State.{DerustingState}
use derusting.Heapless.LinearMap.{LinearMap}
use derusting.Heapless.IndexSet.{IndexSet}
use derusting.Heapless.Channel.{Channel}
use derusting.Heapless.Texts.{Texts}
use derusting.Http.{internal_server_error, as_bytes}
use derusting.Fs.Path.{path_text}
use derusting.Fs.Open.{open_ok}
use derusting.Lwip.Bindings.{ErrT, Pcb}
use derusting.Lwip.Access.{async_lwip}
use derusting.Lwip.Put.{PutRequest, header_text, signalled, recv, start, await, close}
use derusting.Lwip.Put.Life.{Event, on_recv, run, step_lem, through}
use derusting.Lwip.Put.Ends.{await_at}
use derusting.Lwip.Put.File.{Attempt, ended, wait, after_start, send}
use derusting.Tasks.Tcp.Handler.{Act, Conn, send_log, respond, receive_file, handle_request}
use derusting.Tasks.Distribute as distribute
use derusting.Tasks.Distribute.{End, sent_text, show_addr, told, after_put}
use derusting.Transfer.Visible.{IsVisible}
use derusting.Transfer.Stored.{handle_request-header_text}

-- The bytes of the handler's response.
abbrev pub response_in : Bytes → List Act → Option Bytes
response_in html [] = none
response_in html (respond r ∷ acts) = some (as_bytes html r)
response_in html (act ∷ acts) = response_in html acts

-- What the server does where it cannot open the file.
abbrev pub refused : List Act
refused =
    send_log (codes "/ PUT request received")
    ∷ send_log (codes "Receiving file from machine")
    ∷ respond internal_server_error
    ∷ []

module _ (texts : Texts) (show : Uuid → Bytes) where
  run-answered :
      (before : List Event) (packet : Bytes) (this : PutRequest)
      → (p : PutRequest) × (run texts show (before ++ on_recv ErrT.ok (some packet) ∷ []) this
          ≡ some p)
        × (p.signal ≡ some ErrT.ok)
  unfolding recv
  run-answered [] packet this = (signalled ErrT.ok this, refl, refl)
  run-answered (ev ∷ before) packet this =
      let (p, (stepped, block, said)) = step_lem texts show ev this in
      let (q, ran, signal) = run-answered before packet p in
      (
        q,
        through texts show ev (before ++ on_recv ErrT.ok (some packet) ∷ []) this p q stepped ran,
        signal,
      )

  -- A PUT that has started, with the callbacks up to a packet of the other machine.
  abbrev pub attempt : Pcb → List Event → Option Bytes → Attempt
  attempt pcb before packet = record {
    enqueued = ErrT.ok;
    new = some pcb;
    connect = ErrT.ok;
    events = before ++ on_recv ErrT.ok packet ∷ [];
  }

  send-answered :
      (pcb : Pcb) (before : List Event) (packet : Bytes) (this : PutRequest)
      → (left : Option Pcb) × (send texts show (attempt pcb before (some packet)) this
          ≡ ended (ok tt) left)
  unfolding send async_lwip start after_start wait
  send-answered pcb before packet this =
      let (p, ran, signal) = run-answered before packet (record this { pcb = some pcb }) in
      (
        (close (await p).1).0,
        rw (send, after_start, ran) (rw (wait, await_at texts show p ErrT.ok signal) refl),
      )

  after_put-answered :
      (addr : Ipv4Addr) (pcb : Pcb) (before : List Event) (packet : Bytes) (this : PutRequest)
      (rest : List distribute.Act × End)
      → after_put texts show addr (send texts show (attempt pcb before (some packet)) this) rest
        ≡ told texts show (sent_text (show_addr addr)) rest
  unfolding after_put
  after_put-answered addr pcb before packet this rest =
      let (left, e) = send-answered pcb before packet this in
      ap (λ s. after_put texts show addr s rest) e

module _ {M S C : Type 0} (book : LinearMap Instant M) (jobs : IndexSet S)
    (channel : Channel Uuid C) (texts : Texts) (parse_uuid : Str → Option Uuid)
    (show : Uuid → Bytes) (html : Bytes) where
  receive_file-refused :
      (conn : Conn) (guid : Uuid) (fsize : ℕ) (body : Bytes) (chunks : List Bytes)
      (packets : List (List Bytes)) (state : DerustingState M S C)
      → open_ok conn.fopen (path_text show guid true) ≡ false
      → receive_file book jobs channel show conn
          (record { size = some fsize; guid = some guid; is_gcode = true })
          fsize
          body
          chunks
          packets
          state
        ≡ (
          state,
          send_log (codes "Receiving file from machine") ∷ respond internal_server_error ∷ [],
        )
  unfolding receive_file
  receive_file-refused conn guid fsize body chunks packets state shut = rw shut refl

  -- Where a machine cannot open the file that another one puts to it, of 1 to 1 000 000 bytes and with
  -- the header in the first chunk: it stores nothing, keeps its state and answers 500. When a packet with
  -- this answer comes, whatever was called back before, the sender's task goes on as after a success,
  -- with the message "FILE SENT". The identifier is written in visible characters and read back as itself.
  pub refused_file_told_sent :
      (this : PutRequest) (conn : Conn) (body : Bytes) (chunks : List Bytes)
      (packets : List (List Bytes)) (state : DerustingState M S C) (addr : Ipv4Addr) (pcb : Pcb)
      (before : List Event) (rest : List distribute.Act × End)
      → 0 < this.fsize
      → this.fsize ≤ 1_000_000
      → IsVisible (show this.guid)
      → parse_uuid (show this.guid) ≡ some this.guid
      → open_ok conn.fopen (path_text show this.guid true) ≡ false
      → let request = header_text show this.guid this.fsize ++ body in
        let answer =
          handle_request book jobs channel parse_uuid show conn (request ∷ chunks) packets state in
        (answer ≡ (state, refused))
        × (after_put texts show addr
              (send texts show (attempt texts show pcb before (response_in html answer.1)) this)
              rest
            ≡ told texts show (sent_text (show_addr addr)) rest)
  refused_file_told_sent this conn body chunks packets state addr pcb before rest pos small v back
        shut =
      let e =
        handle_request-header_text book jobs channel parse_uuid show conn this.guid this.fsize body
          chunks packets state v back pos small
        ∙ ap (λ r. (r.0, send_log (codes "/ PUT request received") ∷ r.1))
            (receive_file-refused conn this.guid this.fsize body chunks packets state shut) in
      (
        e,
        ap
              (λ r.
                after_put texts show addr
                  (send texts show (attempt texts show pcb before (response_in html r.1)) this)
                  rest)
              e
            ∙ after_put-answered texts show addr pcb before (as_bytes html internal_server_error)
                this rest,
      )
