-- ===== src/Transfer/Machines.antt =====
-- A whole transfer: the bytes that a `PutRequest` hands to its TCP connection, as the server gets them.
use derusting.Prelude.{
  concat, concat_all, ◌≤◌, ◌<◌, ◌≡◌, ◌∙◌, sym, ap, refl, true, false, Option, some, List, [], ◌∷◌,
  ◌++◌, append-nil, length, drop, arith, Bytes,
}
use derusting.Std.Utf8.{Str}
use derusting.Kinds.{Uuid, Instant}
use derusting.State.{DerustingState}
use derusting.Heapless.LinearMap.{LinearMap}
use derusting.Heapless.IndexSet.{IndexSet}
use derusting.Heapless.Channel.{Channel}
use derusting.Heapless.Texts.{Texts}
use derusting.Fs.Path.{path_text}
use derusting.Fs.Open.{open_ok}
use derusting.Tasks.Tcp.Handler.{Conn, handle_request}
use derusting.Tasks.Tcp.Handler.Files.{stream_of}
use derusting.Lwip.Put.{PutRequest, Turn, header_text, on_connected}
use derusting.Lwip.Put.Stream.{rest, sends, put_conserves}
use derusting.Transfer.Visible.{IsVisible}
use derusting.Transfer.Stored.{received, put_is_stored}

-- A text that begins like another one, and is no shorter than its first part, begins with that part.
common_start :
    (h f c r : Bytes)
    → c ++ r ≡ h ++ f
    → length h ≤ length c
    → (c ≡ h ++ drop (length h) c) × (drop (length h) c ++ r ≡ f)
common_start [] f c r e le = (refl, e)
common_start (a ∷ h) f [] r e le = absurd (omega arith)
common_start (a ∷ h) f (b ∷ c) r e le =
    let (start, tail) = common_start h f c r (cc) (omega arith) in
    let same : b ≡ a = cc in (rw same (ap (◌∷◌ a) start), tail)

module _ {M S C : Type 0} (book : LinearMap Instant M) (jobs : IndexSet S)
    (channel : Channel Uuid C) (texts : Texts) (parse_uuid : Str → Option Uuid)
    (show : Uuid → Bytes) where
  -- A new request for a file of 1 to 1 000 000 bytes, whose size `stat` told right, writes its header and
  -- goes on over `_sent` callbacks until nothing is left. However the connection then cuts these bytes,
  -- as long as the first chunk holds the header, the machine at the other end stores exactly the file,
  -- under the same identifier and its final name, answers 200, and keeps its state. The identifier is
  -- written in visible characters and read back as itself, the header fits 256 bytes, and the other
  -- machine can open the file.
  pub file_arrives :
      (this : PutRequest) (first : Turn) (turns : List Turn) (conn : Conn) (chunk : Bytes)
      (chunks : List Bytes) (packets : List (List Bytes)) (state : DerustingState M S C)
      → this.buf ≡ []
      → this.fsize ≡ length this.fh
      → 0 < length this.fh
      → length this.fh ≤ 1_000_000
      → IsVisible (show this.guid)
      → parse_uuid (show this.guid) ≡ some this.guid
      → length (header_text show this.guid this.fsize) ≤ 256
      → let (code, (p, written)) = on_connected texts show first this in
        rest (sends turns p).0 ≡ []
        → stream_of chunk chunks packets ≡ written ++ (sends turns p).1
        → length (header_text show this.guid this.fsize) ≤ length chunk
        → open_ok conn.fopen (path_text show this.guid true) ≡ true
        → (pieces : List Bytes) × (concat pieces ≡ this.fh)
          × (handle_request book jobs channel parse_uuid show conn (chunk ∷ chunks) packets state
              ≡ (
                state,
                received (path_text show this.guid true) (path_text show this.guid false) pieces,
              ))
  file_arrives this first turns conn chunk chunks packets state empty told pos small v back short
        all_out arrived whole opens =
      let header = header_text show this.guid this.fsize in
      let (code, (p, written)) = on_connected texts show first this in
      let (kept, fits) = put_conserves texts show first turns this empty short in
      let sent : written ++ (sends turns p).1 ≡ header ++ this.fh =
        sym (append-nil (written ++ (sends turns p).1))
        ∙ ap (◌++◌ (written ++ (sends turns p).1)) (sym all_out)
        ∙ kept in
      let (start, tail) =
        common_start header this.fh chunk (concat chunks ++ concat_all packets) (arrived ∙ sent)
          whole in
      let body = drop (length header) chunk in
      let (pieces, bytes, stored) =
        put_is_stored book jobs channel parse_uuid show conn this.guid this.fh body chunks packets
          state v back tail pos small opens in
      let same : chunk ≡ header_text show this.guid (length this.fh) ++ body =
        start ∙ ap (λ n. header_text show this.guid n ++ body) told in
      (
        pieces,
        bytes,
        ap (λ c. handle_request book jobs channel parse_uuid show conn (c ∷ chunks) packets state)
              same
            ∙ stored,
      )
