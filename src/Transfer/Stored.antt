-- ===== src/Transfer/Stored.antt =====
-- The file that one machine puts is the file that the other stores.
use derusting.Prelude.{
  concat, ℕ, ◌≤◌, ◌<◌, ◌≡◌, ◌∙◌, ap, refl, true, false, Option, some, List, [], ◌∷◌, ◌++◌, map,
  length, take, take_of_length-le, arith, Bytes, codes,
}
use derusting.Prelude.Result.{ok}
use derusting.Std.Utf8.{Str}
use derusting.Kinds.{Uuid, Instant}
use derusting.State.{DerustingState}
use derusting.Heapless.LinearMap.{LinearMap}
use derusting.Heapless.IndexSet.{IndexSet}
use derusting.Heapless.Channel.{Channel}
use derusting.Http.{Method, put, Response}
use derusting.Fs.Path.{path_text}
use derusting.Fs.Open.{open_ok}
use derusting.Tasks.Tcp.Request.{PutInfo, check_put_header, check_start_line, split_request}
use derusting.Tasks.Tcp.Handler.{
  Act, Conn, send_log, respond, opened, wrote, closed, renamed, accepted_size, new_file,
  receive_file, handle_put, handle_method, handle_request,
}
use derusting.Tasks.Tcp.Handler.Files.{stream_of, whole_file}
use derusting.Lwip.Put.{header_text}
use derusting.Transfer.Visible.{IsVisible}
use derusting.Transfer.Lines.{guid_lines, check_put_header-guid_lines}
use derusting.Transfer.Header.{put_line, check_put_line, split_request-header_text}

-- What the server does with a file that it has received whole.
abbrev pub received : Bytes → Bytes → List Bytes → List Act
received part final written =
    send_log (codes "/ PUT request received")
    ∷ send_log (codes "Receiving file from machine")
    ∷ opened part
    ∷ (map wrote written
        ++ closed
          ∷ renamed part final
          ∷ respond Response.ok
          ∷ send_log (codes "File Received")
          ∷ [])

accepted_small :
    (fsize guid : ℕ)
    → 0 < fsize
    → fsize ≤ 1_000_000
    → accepted_size (record { size = some fsize; guid = some guid; is_gcode = true }) ≡ some fsize
unfolding accepted_size
accepted_small fsize guid pos small = ground arith

module _ {M S C : Type 0} (book : LinearMap Instant M) (jobs : IndexSet S)
    (channel : Channel Uuid C) (parse_uuid : Str → Option Uuid) (show : Uuid → Bytes) where
  request_at :
      (conn : Conn) (chunk : Bytes) (chunks : List Bytes) (packets : List (List Bytes))
      (state : DerustingState M S C) (start_line headers : Str) (body : Bytes) (m : Method)
      → split_request chunk ≡ some (start_line, headers, body)
      → check_start_line start_line ≡ ok m
      → handle_request book jobs channel parse_uuid show conn (chunk ∷ chunks) packets state
        ≡ handle_method book jobs channel parse_uuid show conn m headers body chunks packets state
  unfolding handle_request
  request_at conn chunk chunks packets state start_line headers body m e f =
      rw (e, handle_request, f) refl

  put_at :
      (conn : Conn) (headers : Str) (body : Bytes) (chunks : List Bytes)
      (packets : List (List Bytes)) (state : DerustingState M S C) (info : PutInfo) (size : ℕ)
      → check_put_header parse_uuid headers ≡ info
      → accepted_size info ≡ some size
      → handle_put book jobs channel parse_uuid show conn headers body chunks packets state
        ≡ receive_file book jobs channel show conn info size body chunks packets state
  unfolding handle_put
  put_at conn headers body chunks packets state info size e f =
      let fits : accepted_size (check_put_header parse_uuid headers) ≡ some size =
        ap accepted_size e ∙ f in
      rw (handle_put, fits)
        (ap (λ i. receive_file book jobs channel show conn i size body chunks packets state) e)

  -- The server takes the request of another machine for a file of the told size.
  pub handle_request-header_text :
      (conn : Conn) (guid : Uuid) (fsize : ℕ) (body : Bytes) (chunks : List Bytes)
      (packets : List (List Bytes)) (state : DerustingState M S C)
      → IsVisible (show guid)
      → parse_uuid (show guid) ≡ some guid
      → 0 < fsize
      → fsize ≤ 1_000_000
      → let (state', acts) =
          receive_file book jobs channel show conn
            (record { size = some fsize; guid = some guid; is_gcode = true })
            fsize
            body
            chunks
            packets
            state in
        handle_request book jobs channel parse_uuid show conn
          ((header_text show guid fsize ++ body) ∷ chunks)
          packets
          state
        ≡ (state', send_log (codes "/ PUT request received") ∷ acts)
  unfolding handle_method
  handle_request-header_text conn guid fsize body chunks packets state v back pos small =
      let headers = guid_lines (show guid) fsize in
      let noted : check_put_header parse_uuid headers
          ≡ record { size = some fsize; guid = some guid; is_gcode = true } =
        check_put_header-guid_lines parse_uuid (show guid) fsize v (omega arith) ∙ rw back refl in
      request_at conn (header_text show guid fsize ++ body) chunks packets state put_line headers
        body put (split_request-header_text show guid fsize body v) check_put_line
      ∙ ap (λ r. (r.0, send_log (codes "/ PUT request received") ∷ r.1))
          (put_at conn headers body chunks packets state
            (record { size = some fsize; guid = some guid; is_gcode = true }) fsize noted
            (accepted_small fsize guid pos small))

  -- A PUT as another machine writes it, whose header comes in the first chunk: whatever the cuts of the
  -- rest into chunks and packets, if the bytes behind the header are the file, of 1 to 1 000 000
  -- bytes, and the file with the temporary name opens, then exactly the file's bytes are written,
  -- in order, under the identifier that was sent, the file gets its final name and the client is
  -- told 200; the server adds no job and alerts nobody. The identifier's text is visible ASCII that
  -- parses back.
  pub put_is_stored :
      (conn : Conn) (guid : Uuid) (file body : Bytes) (chunks : List Bytes)
      (packets : List (List Bytes)) (state : DerustingState M S C)
      → IsVisible (show guid)
      → parse_uuid (show guid) ≡ some guid
      → stream_of body chunks packets ≡ file
      → 0 < length file
      → length file ≤ 1_000_000
      → open_ok conn.fopen (path_text show guid true) ≡ true
      → (written : List Bytes) × (concat written ≡ file)
        × (handle_request book jobs channel parse_uuid show conn
              ((header_text show guid (length file) ++ body) ∷ chunks)
              packets
              state
            ≡ (state, received (path_text show guid true) (path_text show guid false) written))
  unfolding new_file
  put_is_stored conn guid file body chunks packets state v back same pos small opens =
      let info : PutInfo = record {
        size = some (length file);
        guid = some guid;
        is_gcode = true;
      } in
      let enough : length file ≤ length (stream_of body chunks packets) =
        omega (arith, ap length same) in
      let (written, taken, stored) =
        whole_file book jobs channel show conn info (length file) body chunks packets state opens
          enough in
      (
        written,
        taken ∙ ap (take (length file)) same ∙ take_of_length-le (length file) file (omega arith),
        handle_request-header_text conn guid (length file) body chunks packets state v back pos
              small
            ∙ ap (λ r. (r.0, send_log (codes "/ PUT request received") ∷ r.1)) stored,
      )
