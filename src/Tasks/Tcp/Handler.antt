-- ===== src/Tasks/Tcp/Handler.antt =====
-- `handle_conn` and `append_to_ledger` of src/tasks/tcp.rs.
--
-- The connection delivers `packets`, each as the chunks of its chain; after them it is closed, or
-- nothing comes any more and a handler that asks for a packet waits for ever. What
-- the handler does to the outside is a list of acts, in order; the results of responses, of writes
-- and of the renaming are dropped by the code. Between two acts other tasks may run: the state that
-- is read here is the one at the time of `append_to_ledger`, which locks it.
pub mod Appends
pub mod Files
pub mod Replies
pub mod Endings
use derusting.Prelude.{
  ℕ, Bool, true, false, not, ◌&&◌, ◌||◌, Option, none, some, List, [], ◌∷◌, ◌++◌, map, ltb, ◌==◌,
  if◌then◌else◌, Bytes, codes,
}
use derusting.Prelude.Result.{Result, ok, err}
use derusting.Std.Utf8.{Str}
use derusting.Kinds.{Ipv4Addr, Uuid, Instant, LedgerState, is_owner}
use derusting.State.{DerustingState}
use derusting.Heapless.LinearMap.{LinearMap}
use derusting.Heapless.IndexSet.{IndexSet}
use derusting.Heapless.Channel.{Channel}
use derusting.Http.{Method, get, put, Response, bad_request, internal_server_error, index_html}
use derusting.Fs.Path.{path_text}
use derusting.Fs.Open.{open_ok}
use derusting.Tasks.Udp.{add_job}
use derusting.Tasks.Tcp.Request.{split_request, check_start_line, PutInfo, check_put_header}
use derusting.Tasks.Tcp.Upload.{End, complete, reset, upload}

pub data Act : Type 0 where
  send_log : Bytes → Act
  respond : Response → Act
  opened : Bytes → Act
  wrote : Bytes → Act
  closed : Act
  deleted : Bytes → Act
  renamed : Bytes → Bytes → Act
  -- `Message::send_new_job_alert`
  alert : Uuid → Act
  -- the `receive` to which no packet and no end of the stream comes
  waits : Act

-- What the handler reads: the packets, whether the connection is closed after them, `my_ipaddr()`, the identifier that `generate_uuid_v7` would
-- make, and which files `fopen` opens for writing.
pub record Conn : Type 0 where
  pub packets : List (List Bytes)
  pub closes : Bool
  pub ipaddr : Option Ipv4Addr
  pub fresh : Uuid
  pub fopen : Bytes → Bool

-- The size, if the request is one that the server takes: G-code of 1 to 1 000 000 bytes.
unfoldable pub accepted_size : PutInfo → Option ℕ
accepted_size info = elim info.size [
  | none ↦ none
  | some s ↦ if not info.is_gcode || (s == 0 || ltb 1_000_000 s) then none else some s
]

-- The identifier of the file, and the log of one that another machine has sent.
abbrev pub file_guid : Conn → PutInfo → Uuid
file_guid conn info = elim info.guid [ none ↦ conn.fresh | some guid ↦ guid ]

abbrev pub receiving : PutInfo → List Act
receiving info = elim info.guid [
  | none ↦ []
  | some guid ↦ send_log (codes "Receiving file from machine") ∷ []
]

module _ {S : Type 0} (jobs : IndexSet S) where
  -- Adds the job to a ledger that this machine owns.
  unfoldable pub add_if_owner :
      Option Ipv4Addr → Uuid → Option (LedgerState S) → Bool × Option (LedgerState S)
  add_if_owner ipaddr guid none = (false, none)
  add_if_owner ipaddr guid (some l) =
      if is_owner ipaddr l
      then (
        true,
        some (record l { ledger = record l.ledger { jobs = add_job jobs guid l.ledger.jobs } }),
      )
      else (false, some l)

module _ {M S C : Type 0} (book : LinearMap Instant M) (jobs : IndexSet S) where
  -- `append_to_ledger`
  unfoldable pub append_to_ledger :
      Option Ipv4Addr → Uuid → DerustingState M S C → DerustingState M S C × List Act
  append_to_ledger ipaddr guid state =
      let (owns, held) = add_if_owner jobs ipaddr guid state.jobs in
      (
        record state { jobs = held },
        if not owns && not (book.is_empty state.addresses) then alert guid ∷ [] else [],
      )

module _ {M S C : Type 0} (channel : Channel Uuid C) where
  -- `files_to_distribute.try_send(guid)`
  unfoldable pub distribute_later : Uuid → DerustingState M S C → DerustingState M S C × List Act
  distribute_later guid state = elim (channel.try_send guid state.files_to_distribute) [
    | none ↦ (state, send_log (codes "Error sending on channel") ∷ [])
    | some c ↦ (record state { files_to_distribute = c }, [])
  ]

module _ {M S C : Type 0} (book : LinearMap Instant M) (jobs : IndexSet S)
    (channel : Channel Uuid C) where
  -- The end of a PUT of a file that no other machine has sent.
  unfoldable pub new_file :
      Option Ipv4Addr → Option Uuid → Uuid → DerustingState M S C → DerustingState M S C × List Act
  new_file ipaddr (some sent) guid state = (state, [])
  new_file ipaddr none guid state =
      let (state', told) = append_to_ledger book jobs ipaddr guid state in
      let (state'', more) = distribute_later channel guid state' in (state'', told ++ more)

module _ {M S C : Type 0} (book : LinearMap Instant M) (jobs : IndexSet S)
    (channel : Channel Uuid C) (show : Uuid → Bytes) where
  -- From the end of the upload on.
  unfoldable pub finish :
      Conn
      → PutInfo
      → Uuid
      → End × List Bytes
      → DerustingState M S C
      → DerustingState M S C × List Act
  finish conn info guid (reset, written) state = (
    state,
    map wrote written
        ++ (if conn.closes then closed ∷ deleted (path_text show guid true) ∷ [] else waits ∷ []),
  )
  finish conn info guid (complete, written) state =
      let (state', acts) = new_file book jobs channel conn.ipaddr info.guid guid state in
      (
        state',
        map wrote written
            ++ (closed
                ∷ renamed (path_text show guid true) (path_text show guid false)
                ∷ respond Response.ok
                ∷ send_log (codes "File Received")
                ∷ acts),
      )

  -- A PUT request with an accepted size, up to the end.
  unfoldable pub receive_file :
      Conn
      → PutInfo
      → ℕ
      → Bytes
      → List Bytes
      → List (List Bytes)
      → DerustingState M S C
      → DerustingState M S C × List Act
  receive_file conn info size body chunks packets state =
      let guid = file_guid conn info in
      let path = path_text show guid true in
      if open_ok conn.fopen path
      then (let (state', acts) = finish conn info guid (upload size body chunks packets) state in
          (state', receiving info ++ opened path ∷ acts))
      else (state, receiving info ++ respond internal_server_error ∷ [])

module _ {M S C : Type 0} (book : LinearMap Instant M) (jobs : IndexSet S)
    (channel : Channel Uuid C) (parse_uuid : Str → Option Uuid) (show : Uuid → Bytes) where
  -- `Method::Put`
  unfoldable pub handle_put :
      Conn
      → Str
      → Bytes
      → List Bytes
      → List (List Bytes)
      → DerustingState M S C
      → DerustingState M S C × List Act
  handle_put conn headers body chunks packets state =
      let info = check_put_header parse_uuid headers in
      elim (accepted_size info) [
        | none ↦ (state, respond bad_request ∷ [])
        | some size ↦ receive_file book jobs channel show conn info size body chunks packets state
      ]

  -- The `match` on the method.
  unfoldable pub handle_method :
      Conn
      → Method
      → Str
      → Bytes
      → List Bytes
      → List (List Bytes)
      → DerustingState M S C
      → DerustingState M S C × List Act
  handle_method conn get headers body chunks packets state = (state, respond index_html ∷ [])
  handle_method conn put headers body chunks packets state =
      let (state', acts) = handle_put conn headers body chunks packets state in
      (state', send_log (codes "/ PUT request received") ∷ acts)

  -- A request whose first packet is a chain of chunks.
  unfoldable pub handle_request :
      Conn → List Bytes → List (List Bytes) → DerustingState M S C → DerustingState M S C × List Act
  handle_request conn [] packets state = (state, respond bad_request ∷ [])
  handle_request conn (chunk ∷ chunks) packets state = elim (split_request chunk) [
    | none ↦ (state, respond bad_request ∷ [])
    | some (start_line, headers, body) ↦ elim (check_start_line start_line) [
      | err e ↦ (state, respond e ∷ [])
      | ok m ↦ handle_method conn m headers body chunks packets state
    ]
  ]

  unfoldable pub handle_packets :
      Conn → List (List Bytes) → DerustingState M S C → DerustingState M S C × List Act
  handle_packets conn [] state = (state, if conn.closes then [] else waits ∷ [])
  handle_packets conn (packet ∷ packets) state = handle_request conn packet packets state

  -- `handle_conn`
  unfoldable pub handle_conn : Conn → DerustingState M S C → DerustingState M S C × List Act
  handle_conn conn state =
      let (state', acts) = handle_packets conn conn.packets state in
      (state', send_log (codes "Handling TCP Connection") ∷ acts)
