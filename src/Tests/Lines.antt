-- ===== src/Tests/Lines.antt =====
-- Examples for the TCP server and the printer.
use derusting.Prelude.{
  concat, ◌≡◌, refl, true, false, none, some, List, [], ◌∷◌, ◌++◌, map, take, elem, arith, Bytes,
  codes,
}
use derusting.Std.Slice.{starts_with}
use derusting.Kinds.{Uuid}
use derusting.State.{DerustingState}
use derusting.Http.{Response, as_bytes}
use derusting.Fs.Open.{open_ok}
use derusting.Fs.Path.{path_text}
use derusting.Marlin.Laws.{IsShort}
use derusting.Transfer.Responses.{IsFramed, responses-AreFramed}
use derusting.Tasks.Tcp.Handler.{
  send_log, respond, opened, wrote, closed, deleted, renamed, new_file, receive_file, handle_conn,
}
use derusting.Tasks.Tcp.Handler.Files.{stream_of, whole_file, broken_off}
use derusting.Tasks.Tcp.Handler.Replies.{KeptOrReceived, change_is_answered}
use derusting.Tests.Inputs.{Book, Jobs, book, jobs, channel, show, conn, info, state}

responses-AreFramed_example :
    IsFramed (λ s. none) (as_bytes (codes "<p>Upload</p>") Response.index_html)
responses-AreFramed_example =
    responses-AreFramed (λ s. none) (codes "<p>Upload</p>") Response.index_html (omega arith)

-- Five bytes in a body, a chunk and a packet, of which three are asked for.
abbrev stream : Bytes
stream = stream_of (1 ∷ []) ((2 ∷ []) ∷ []) (((3 ∷ 4 ∷ []) ∷ (5 ∷ []) ∷ []) ∷ [])

whole_file_example :
    let (state', acts) = new_file book jobs channel (some 167_772_161) none 7 state in
    (written : List Bytes) × (concat written ≡ take 3 stream)
    × (receive_file book jobs channel show conn info 3
          (1 ∷ [])
          ((2 ∷ []) ∷ [])
          (((3 ∷ 4 ∷ []) ∷ (5 ∷ []) ∷ []) ∷ [])
          state
        ≡ (
          state',
          opened (path_text show 7 true)
              ∷ (map wrote written
                  ++ (closed
                      ∷ renamed (path_text show 7 true) (path_text show 7 false)
                      ∷ respond Response.ok
                      ∷ send_log (codes "File Received")
                      ∷ acts)),
        ))
unfolding open_ok path_text starts_with
whole_file_example =
    whole_file book jobs channel show conn info 3 (1 ∷ []) ((2 ∷ []) ∷ [])
      (((3 ∷ 4 ∷ []) ∷ (5 ∷ []) ∷ []) ∷ []) state refl (omega arith)

broken_off_example :
    (written : List Bytes) × (concat written ≡ 1 ∷ 2 ∷ [])
    × (receive_file book jobs channel show conn info 3 (1 ∷ []) ((2 ∷ []) ∷ []) [] state ≡ (
      state,
      opened (path_text show 7 true)
          ∷ (map wrote written ++ closed ∷ deleted (path_text show 7 true) ∷ []),
    ))
unfolding open_ok path_text starts_with
broken_off_example =
    broken_off book jobs channel show conn info 3 (1 ∷ []) ((2 ∷ []) ∷ []) [] state refl
      (omega arith)

change_is_answered_example :
    KeptOrReceived show state (handle_conn book jobs channel (λ s. none) show conn state)
change_is_answered_example = change_is_answered book jobs channel (λ s. none) show conn state

abbrev crowded : DerustingState Book Jobs (List Uuid)
crowded = record state { addresses = (167_772_162, 0) ∷ [] }

abbrev path : Bytes
path = codes "/usb/7.gcode"

path-IsShort : IsShort path
unfolding elem
path-IsShort = record { size = omega arith; no_nul = refl }
