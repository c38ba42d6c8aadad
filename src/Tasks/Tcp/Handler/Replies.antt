-- ===== src/Tasks/Tcp/Handler/Replies.antt =====
-- What a client is told when its request changes what the tasks share.
use derusting.Prelude.{
  ℕ, ◌≡◌, ◌⊎◌, inl, inr, refl, true, false, Option, List, [], ◌∷◌, ◌++◌, map, Bytes, codes,
  Bool-cases, Option-cases,
}
use derusting.Prelude.Result.{result_cases}
use derusting.Std.Utf8.{Str}
use derusting.Kinds.{Uuid, Instant}
use derusting.State.{DerustingState}
use derusting.Heapless.LinearMap.{LinearMap}
use derusting.Heapless.IndexSet.{IndexSet}
use derusting.Heapless.Channel.{Channel}
use derusting.Http.{Method, get, put, Response}
use derusting.Fs.Path.{path_text}
use derusting.Fs.Open.{open_ok}
use derusting.Tasks.Tcp.Request.{split_request, check_start_line, PutInfo, check_put_header}
use derusting.Tasks.Tcp.Upload.{End, complete, reset, upload}
use derusting.Tasks.Tcp.Handler.{
  Act, Conn, send_log, respond, opened, wrote, renamed, accepted_size, file_guid, receiving, finish,
  receive_file, handle_put, handle_method, handle_request, handle_packets, handle_conn,
}

-- The acts give the file of the identifier its final name and, directly after it, answer 200.
pub data Named (show : Uuid → Bytes) (guid : Uuid) : List Act → Type 0 where
  here :
      {l : List Act}
      → Named show guid
          (renamed (path_text show guid true) (path_text show guid false) ∷ respond Response.ok ∷ l)
  later : {b : Act} {l : List Act} → Named show guid l → Named show guid (b ∷ l)

-- The acts open the file of some identifier under its temporary name, and give it its final one after
-- that.
pub data Received (show : Uuid → Bytes) : List Act → Type 0 where
  opens :
      {guid : Uuid} {l : List Act}
      → Named show guid l
      → Received show (opened (path_text show guid true) ∷ l)
  later : {b : Act} {l : List Act} → Received show l → Received show (b ∷ l)

module _ (show : Uuid → Bytes) where
  Named-append :
      (guid : Uuid) (l : List Act) {m : List Act} → Named show guid m → Named show guid (l ++ m)
  Named-append guid [] h = h
  Named-append guid (b ∷ l) h = Named.later (Named-append guid l h)

  Received-append : (l : List Act) {m : List Act} → Received show m → Received show (l ++ m)
  Received-append [] h = h
  Received-append (b ∷ l) h = Received.later (Received-append l h)

-- The state is the one before, or a file was received.
abbrev pub KeptOrReceived :
    {M S C : Type 0}
    → (Uuid → Bytes)
    → DerustingState M S C
    → DerustingState M S C × List Act
    → Type 0
KeptOrReceived show state result = (result.0 ≡ state) ⊎ Received show result.1

module _ {M S C : Type 0} (book : LinearMap Instant M) (jobs : IndexSet S)
    (channel : Channel Uuid C) (show : Uuid → Bytes) where
  finish_reply :
      (conn : Conn) (info : PutInfo) (guid : Uuid) (r : End × List Bytes)
      (state : DerustingState M S C)
      → let (state', acts) = finish book jobs channel show conn info guid r state in
        (state' ≡ state) ⊎ Named show guid acts
  unfolding finish
  finish_reply conn info guid (reset, written) state = inl refl
  finish_reply conn info guid (complete, written) state =
      inr (Named-append show guid (map wrote written) (Named.later Named.here))

  receive_file_reply :
      (conn : Conn) (info : PutInfo) (size : ℕ) (body : Bytes) (chunks : List Bytes)
      (packets : List (List Bytes)) (state : DerustingState M S C)
      → KeptOrReceived show state
          (receive_file book jobs channel show conn info size body chunks packets state)
  unfolding receive_file
  receive_file_reply conn info size body chunks packets state =
      elim (Bool-cases (open_ok conn.fopen (path_text show (file_guid conn info) true))) [
        | inl e ↦
            let done =
              finish_reply conn info (file_guid conn info) (upload size body chunks packets)
                state in
            rw e (elim done [
              | inl same ↦ inl same
              | inr named ↦ inr (Received-append show (receiving info) (Received.opens named))
            ])
        | inr e ↦ rw e (inl refl)
      ]

module _ {M S C : Type 0} (book : LinearMap Instant M) (jobs : IndexSet S)
    (channel : Channel Uuid C) (parse_uuid : Str → Option Uuid) (show : Uuid → Bytes) where
  handle_put_reply :
      (conn : Conn) (headers : Str) (body : Bytes) (chunks : List Bytes)
      (packets : List (List Bytes)) (state : DerustingState M S C)
      → KeptOrReceived show state
          (handle_put book jobs channel parse_uuid show conn headers body chunks packets state)
  unfolding handle_put
  handle_put_reply conn headers body chunks packets state =
      elim (Option-cases (accepted_size (check_put_header parse_uuid headers))) [
        | inl e ↦ rw (handle_put, e) (inl refl)
        | inr (size, e) ↦
            rw (handle_put, e)
              (receive_file_reply book jobs channel show conn (check_put_header parse_uuid headers)
                size body chunks packets state)
      ]

  handle_method_reply :
      (conn : Conn) (m : Method) (headers : Str) (body : Bytes) (chunks : List Bytes)
      (packets : List (List Bytes)) (state : DerustingState M S C)
      → KeptOrReceived show state
          (handle_method book jobs channel parse_uuid show conn m headers body chunks packets state)
  unfolding handle_method
  handle_method_reply conn get headers body chunks packets state = inl refl
  handle_method_reply conn put headers body chunks packets state =
      elim (handle_put_reply conn headers body chunks packets state) [
        | inl e ↦ inl e
        | inr h ↦ inr (Received.later h)
      ]

  handle_request_reply :
      (conn : Conn) (packet : List Bytes) (packets : List (List Bytes))
      (state : DerustingState M S C)
      → KeptOrReceived show state
          (handle_request book jobs channel parse_uuid show conn packet packets state)
  unfolding handle_request
  handle_request_reply conn [] packets state = inl refl
  handle_request_reply conn (chunk ∷ chunks) packets state =
      elim (Option-cases (split_request chunk)) [
        | inl e ↦ rw (handle_request, e) (inl refl)
        | inr ((start_line, headers, body), e) ↦ elim (result_cases (check_start_line start_line)) [
          | inl (r, f) ↦ rw (handle_request, e, f) (inl refl)
          | inr (m, f) ↦
              rw (handle_request, e, f)
                (handle_method_reply conn m headers body chunks packets state)
        ]
      ]

  -- Whatever a client sends: a connection that changes what the tasks share opens a file under the
  -- temporary name of an identifier, gives it the final name of the same identifier after that, and answers 200
  -- right after the renaming. In every other case, a reset or a refused request included, the shared state
  -- is the one before.
  pub change_is_answered :
      (conn : Conn) (state : DerustingState M S C)
      → KeptOrReceived show state (handle_conn book jobs channel parse_uuid show conn state)
  unfolding handle_conn handle_packets
  change_is_answered conn state = step conn.packets
    where
      step :
          (packets : List (List Bytes))
          → KeptOrReceived show state (
            (handle_packets book jobs channel parse_uuid show conn packets state).0,
            send_log (codes "Handling TCP Connection")
                ∷ (handle_packets book jobs channel parse_uuid show conn packets state).1,
          )
      step [] = inl refl
      step (packet ∷ packets) = elim (handle_request_reply conn packet packets state) [
        | inl e ↦ inl e
        | inr h ↦ inr (Received.later h)
      ]
