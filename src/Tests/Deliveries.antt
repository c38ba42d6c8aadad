-- ===== src/Tests/Deliveries.antt =====
-- Examples for files on their way to other machines.
use derusting.Prelude.{
  ℕ, ◌≤◌, ◌≡◌, refl, Bool, true, false, ◌==◌, if◌then◌else◌, elem, Option, none, some, List, [],
  ◌∷◌, ◌++◌, concat, inl, inr, Bool-cases, length, arith, Bytes, codes, keys,
}
use derusting.Prelude.Result.{Result, ok}
use derusting.Std.Decimal.{show_u32, digits_of}
use derusting.Std.Utf8.{Str}
use derusting.Std.Slice.{starts_with}
use derusting.Kinds.{Uuid, Ipv4Addr}
use derusting.State.{DerustingState}
use derusting.Heapless.TextModels.{list_texts, put_text}
use derusting.Fs.Path.{path_text, extension, IsHyphenated}
use derusting.Fs.Open.{open_ok}
use derusting.Fs.Stat.{FilInfo, FResult}
use derusting.Lwip.Bindings.{ErrT}
use derusting.Lwip.Put.{
  PutRequest, Turn, header_text, on_connected, top_up, write_out, offer, pump, after_pump,
}
use derusting.Lwip.Put.Stream.{rest, sends}
use derusting.Lwip.Put.Life.{any, on_connect, on_recv, on_err}
use derusting.Lwip.Put.File.{Attempt, put_file, send}
use derusting.Transfer.Visible.{IsVisible}
use derusting.Transfer.Stored.{received}
use derusting.Transfer.Machines.{file_arrives}
use derusting.Transfer.Refusals.{response_in, refused, attempt, refused_file_told_sent}
use derusting.Tasks.Tcp.Handler.{Conn, handle_request}
use derusting.Tasks.Distribute.{
  Act, End, finished, distribute_file, after_put, told, sent_text, show_addr,
}
use derusting.Lwip.Put.Ends.{is_final}
use derusting.Tasks.Distribute.Completion.{request_of, every_machine_is_tried}
use derusting.Tasks.Distribute.Attempts.{outcome}
use derusting.Tests.Inputs.{book, jobs, channel, show, conn, state}

abbrev request : PutRequest
request = record { guid = 7; fsize = 3; fh = codes "G28"; buf = []; pcb = none; signal = none }

abbrev at_once : Turn
at_once = record { read = 1024; sndbuf = 2048; tcp_write = ErrT.ok }

abbrev parse_uuid : Str → Option Uuid
parse_uuid s = some 7

abbrev whole_chunk : Bytes
whole_chunk = header_text show 7 3 ++ codes "G28"

show-IsVisible : IsVisible (show 7)
show-IsVisible = omega arith

all_out :
    let (code, (p, written)) = on_connected list_texts show at_once request in
    (rest (sends [] p).0 ≡ []) × (whole_chunk ++ [] ≡ written ++ (sends [] p).1)
unfolding on_connected header_text show_u32 digits_of top_up write_out offer pump after_pump
    put_text
all_out = (refl, refl)

header_short : length (header_text show 7 3) ≤ 256
unfolding header_text show_u32 digits_of
header_short = omega arith

header_first : length (header_text show 7 3) ≤ length whole_chunk
unfolding header_text show_u32 digits_of
header_first = omega arith

file_opens : open_ok conn.fopen (path_text show 7 true) ≡ true
unfolding open_ok path_text starts_with
file_opens = refl

file_arrives_example :
    (pieces : List Bytes) × (concat pieces ≡ codes "G28")
    × (handle_request book jobs channel parse_uuid show conn (whole_chunk ∷ []) [] state
        ≡ (state, received (path_text show 7 true) (path_text show 7 false) pieces))
file_arrives_example =
    file_arrives book jobs channel list_texts parse_uuid show request at_once [] conn whole_chunk []
      [] state refl refl (omega arith) (omega arith) show-IsVisible refl header_short all_out.0
      all_out.1 header_first file_opens

-- A machine whose stick is not there.
abbrev no_stick : Conn
no_stick = record conn { fopen = λ path. false }

file_shut : open_ok no_stick.fopen (path_text show 7 true) ≡ false
unfolding open_ok path_text starts_with
file_shut = refl

refused_file_told_sent_example :
    let answer =
      handle_request book jobs channel parse_uuid show no_stick
        ((header_text show 7 3 ++ codes "G28") ∷ [])
        []
        state in
    (answer ≡ (state, refused))
    × (after_put list_texts show 5
          (send list_texts show (attempt list_texts show 1 [] (response_in [] answer.1)) request)
          ([], finished)
        ≡ told list_texts show (sent_text (show_addr 5)) ([], finished))
refused_file_told_sent_example =
    refused_file_told_sent book jobs channel list_texts parse_uuid show [] request no_stick
      (codes "G28") [] [] state 5 1 [] ([], finished) (omega arith) (omega arith) show-IsVisible
      refl file_shut

-- A machine that answers, and one that never does.
abbrev lwip : Ipv4Addr → Attempt
lwip addr = record {
  enqueued = ErrT.ok;
  new = some addr;
  connect = ErrT.ok;
  events = if addr == 5 then [] else on_recv ErrT.ok (some (codes "HTTP/1.1 200 OK")) ∷ [];
}

abbrev file_info : Bytes → Result FilInfo FResult
file_info path =
    ok (record { fsize = 3; fdate = 0; ftime = 0; fattrib = 0; altname = []; fname = path })

abbrev content : Bytes → Bytes
content path = codes "G28"

abbrev opens : Bytes → Bool
opens path = true

-- The file 7 waits, and the machines 4, 5 and 6 are known.
abbrev waiting_state : DerustingState (List (ℕ × ℕ)) (List Uuid) (List Uuid)
waiting_state = record state {
  addresses = (4, 0) ∷ (5, 0) ∷ (6, 0) ∷ [];
  files_to_distribute = 7 ∷ [];
}

show-IsHyphenated : IsHyphenated (show 7)
unfolding elem
show-IsHyphenated = record { size = refl; no_nul = refl }

-- Machines that answer, or that break off.
abbrev reporting : Ipv4Addr → Attempt
reporting addr = record {
  enqueued = ErrT.ok;
  new = some addr;
  connect = ErrT.ok;
  events =
      on_connect ErrT.ok at_once
      ∷ (if addr == 5 then on_err ErrT.rst else on_recv ErrT.ok (some (codes "HTTP/1.1 200 OK")))
      ∷ [];
}

all-is_final : (addr : Ipv4Addr) → any is_final (reporting addr).events ≡ true
all-is_final addr = elim (Bool-cases (addr == 5)) [ inl e ↦ rw e refl | inr e ↦ rw e refl ]

abbrev stored : FilInfo
stored = record {
  fsize = 3;
  fdate = 0;
  ftime = 0;
  fattrib = 0;
  altname = [];
  fname = codes "0:/" ++ (show 7 ++ extension false);
}

path_opens : open_ok opens (path_text show 7 false) ≡ true
unfolding open_ok path_text starts_with
path_opens = refl

every_machine_is_tried_example :
    (turn : List Act × End) × (distribute_file list_texts show book channel file_info opens content
        reporting waiting_state
      ≡ some (record waiting_state { files_to_distribute = [] }, turn))
    × (outcome turn ≡ (keys (book.iter waiting_state.addresses), finished))
    × ((addr : Ipv4Addr)
        → put_file list_texts show file_info opens content (reporting addr) 7
          ≡ send list_texts show
              (reporting addr)
              (request_of list_texts show file_info opens content 7 stored))
every_machine_is_tried_example =
    every_machine_is_tried list_texts show file_info opens content book channel reporting
      waiting_state 7 [] stored refl show-IsHyphenated refl path_opens all-is_final
