-- ===== src/Tasks/Tcp/Handler/Files.antt =====
-- What a PUT request leaves on the USB drive.
use derusting.Prelude.{
  concat, concat_all, ℕ, ◌≤◌, ◌<◌, ◌≡◌, ◌∙◌, true, false, List, [], ◌∷◌, ◌++◌, map, length, take,
  take_of_length-le, codes, arith, Bytes, if◌then◌else◌,
}
use derusting.Kinds.{Uuid, Instant}
use derusting.State.{DerustingState}
use derusting.Heapless.LinearMap.{LinearMap}
use derusting.Heapless.IndexSet.{IndexSet}
use derusting.Heapless.Channel.{Channel}
use derusting.Http.{Response}
use derusting.Fs.Path.{path_text}
use derusting.Fs.Open.{open_ok}
use derusting.Tasks.Tcp.Request.{PutInfo}
use derusting.Tasks.Tcp.Upload.{complete, reset, upload, upload_lem, end_of}
use derusting.Tasks.Tcp.Handler.{
  Conn, send_log, respond, opened, wrote, closed, deleted, renamed, waits, file_guid, receiving,
  new_file, finish, receive_file,
}

end_of-enough : (n have : ℕ) → n ≤ have → end_of n have ≡ complete
end_of-enough n have h = ground arith

end_of-short : (n have : ℕ) → have < n → end_of n have ≡ reset
end_of-short n have h = ground arith

-- All bytes that follow the headers.
abbrev pub stream_of : Bytes → List Bytes → List (List Bytes) → Bytes
stream_of body chunks packets = body ++ (concat chunks ++ concat_all packets)

module _ {M S C : Type 0} (book : LinearMap Instant M) (jobs : IndexSet S)
    (channel : Channel Uuid C) (show : Uuid → Bytes) where
  abbrev part_path : Conn → PutInfo → Bytes
  part_path conn info = path_text show (file_guid conn info) true

  abbrev final_path : Conn → PutInfo → Bytes
  final_path conn info = path_text show (file_guid conn info) false

  -- Where the file opens and at least `size` bytes follow the headers, exactly the first `size` of
  -- them are written to the file with the temporary name, in order; only then it is closed, gets its
  -- final name, and the client is told 200. The state changes as `new_file` says.
  pub whole_file :
      (conn : Conn) (info : PutInfo) (size : ℕ) (body : Bytes) (chunks : List Bytes)
      (packets : List (List Bytes)) (state : DerustingState M S C)
      → open_ok conn.fopen (part_path conn info) ≡ true
      → size ≤ length (stream_of body chunks packets)
      → let (state', acts) =
          new_file book jobs channel conn.ipaddr info.guid (file_guid conn info) state in
        (written : List Bytes) × (concat written ≡ take size (stream_of body chunks packets))
        × (receive_file book jobs channel show conn info size body chunks packets state ≡ (
          state',
          receiving info
              ++ opened (part_path conn info)
                ∷ (map wrote written
                    ++ (closed
                        ∷ renamed (part_path conn info) (final_path conn info)
                        ∷ respond Response.ok
                        ∷ send_log (codes "File Received")
                        ∷ acts)),
        ))
  unfolding receive_file finish
  whole_file conn info size body chunks packets state opens enough =
      let (taken, end) = upload_lem size body chunks packets in
      let done = end ∙ end_of-enough size (length (stream_of body chunks packets)) enough in
      ((upload size body chunks packets).1, taken, rw (opens, done))

  -- Where the file opens and fewer than `size` bytes come, all that came is written to the file with the
  -- temporary name. If the connection is closed then, the file is closed and deleted; if it is not, the
  -- handler waits for ever, with the file open. In both cases no file gets a final name, nothing is
  -- answered and the state stays.
  pub broken_off :
      (conn : Conn) (info : PutInfo) (size : ℕ) (body : Bytes) (chunks : List Bytes)
      (packets : List (List Bytes)) (state : DerustingState M S C)
      → open_ok conn.fopen (part_path conn info) ≡ true
      → length (stream_of body chunks packets) < size
      → (written : List Bytes) × (concat written ≡ stream_of body chunks packets)
        × (receive_file book jobs channel show conn info size body chunks packets state ≡ (
          state,
          receiving info
              ++ opened (part_path conn info)
                ∷ (map wrote written
                    ++ (if conn.closes
                        then closed ∷ deleted (part_path conn info) ∷ []
                        else waits ∷ [])),
        ))
  unfolding receive_file finish
  broken_off conn info size body chunks packets state opens short =
      let (taken, end) = upload_lem size body chunks packets in
      let done = end ∙ end_of-short size (length (stream_of body chunks packets)) short in
      let all = take_of_length-le size (stream_of body chunks packets) (omega arith) in
      ((upload size body chunks packets).1, taken ∙ all, rw (opens, done))
