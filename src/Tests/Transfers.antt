-- ===== src/Tests/Transfers.antt =====
-- Examples for a PUT to another machine.
use derusting.Prelude.{
  ◌≤◌, ◌≡◌, refl, true, none, some, List, [], ◌∷◌, ◌++◌, length, arith, if◌then◌else◌, codes,
}
use derusting.Prelude.Result.{ok}
use derusting.Heapless.TextModels.{list_texts}
use derusting.Lwip.Bindings.{ErrT, mem}
use derusting.Lwip.Put.{buf_cap, PutRequest, Turn, header_text, on_connected, start, await, close}
use derusting.Lwip.Put.Stream.{rest, sends, put_conserves}
use derusting.Lwip.Put.Progress.{Willing, AllWilling, done, next, sends_all}
use derusting.Lwip.Put.Life.{Event, on_sent, on_recv, any, frees, answers, run, block_and_answer}
use derusting.Std.Decimal.{show_u32, digits_of}
use derusting.Tests.Inputs.{show}

abbrev request : PutRequest
request = record { guid = 7; fsize = 3; fh = codes "G28"; buf = []; pcb = none; signal = none }

abbrev small : Turn
small = record { read = 2; sndbuf = 5; tcp_write = ErrT.ok }

abbrev refused : Turn
refused = record { read = 2; sndbuf = 5; tcp_write = mem }

put_conserves_example :
    let (code, (p, written)) = on_connected list_texts show small request in
    let (q, more) = sends (refused ∷ small ∷ []) p in
    ((written ++ more) ++ (q.buf ++ q.fh) ≡ header_text show 7 3 ++ codes "G28")
    × (length q.buf ≤ buf_cap)
unfolding header_text show_u32 digits_of
put_conserves_example =
    put_conserves list_texts show small (refused ∷ small ∷ []) request refl (omega arith)

three-AllWilling : AllWilling (small ∷ small ∷ small ∷ [])
three-AllWilling =
    let w : Willing small = record { reads = omega arith; room = omega arith; takes = refl } in
    next w (next w (next w done))

sends_all_example :
    ((sends (small ∷ small ∷ small ∷ []) request).1 ≡ rest request)
    × (rest (sends (small ∷ small ∷ small ∷ []) request).0 ≡ [])
sends_all_example =
    sends_all (small ∷ small ∷ small ∷ []) request (omega arith) three-AllWilling (omega arith)

abbrev events : List Event
events = on_sent small ∷ on_recv ErrT.ok (some (codes "HTTP/1.1 200 OK")) ∷ []

block_and_answer_example :
    (p : PutRequest) × (run list_texts show events (start (some 1) ErrT.ok request).1 ≡ some p)
    × ((close p).0 ≡ (if any frees events then none else some 1))
    × ((await p).0 ≡ some (ok tt) → any answers events ≡ true)
block_and_answer_example = block_and_answer list_texts show 1 request events refl
