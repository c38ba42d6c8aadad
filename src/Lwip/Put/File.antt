-- ===== src/Lwip/Put/File.antt =====
-- `send` as the task sees it, and `put_file`, of src/lwip/put.rs.
use derusting.Prelude.{Bool, Option, none, some, List, Bytes}
use derusting.Prelude.Result.{Result, ok, err}
use derusting.Kinds.{Uuid}
use derusting.Heapless.Texts.{Texts}
use derusting.Fs.Stat.{FilInfo, FResult}
use derusting.Lwip.Bindings.{ErrT, val, Pcb}
use derusting.Lwip.Access.{async_lwip}
use derusting.Lwip.Put.{PutRequest, new_request, start, await, close}
use derusting.Lwip.Put.Life.{Event, run}

-- What lwIP does in one PUT: what `tcpip_callback`, `tcp_new` and `tcp_connect` answer, and the
-- callbacks in their order.
pub record Attempt : Type 0 where
  pub enqueued : ErrT
  pub new : Option Pcb
  pub connect : ErrT
  pub events : List Event

-- How a PUT goes: it panics, waits for ever, or has an answer and closes the block, if it has one.
pub data Sent : Type 0 where
  panics waits : Sent
  ended : Result (Unit {0}) ErrT → Option Pcb → Sent

module _ (texts : Texts) (show : Uuid → Bytes) where
  -- From `signal.wait()` on, and the `drop` of the request.
  unfoldable pub wait : Option PutRequest → Sent
  wait none = waits
  wait (some this) =
      let (answer, p) = await this in
      elim answer [ none ↦ waits | some res ↦ ended res (close p).0 ]

  unfoldable pub after_start : List Event → Result (Unit {0}) ErrT × PutRequest → Sent
  after_start events (err e, this) = ended (err e) (close this).0
  after_start events (ok u, this) = wait (run texts show events this)

  -- `send`, and the `drop` behind it.
  unfoldable pub send : Attempt → PutRequest → Sent
  send lwip this =
      after_start lwip.events (async_lwip lwip.enqueued (start lwip.new lwip.connect) this)

  unfoldable pub send_new : Attempt → Option (Result PutRequest FResult) → Sent
  send_new lwip none = panics
  send_new lwip (some (err e)) = ended (err val) none
  send_new lwip (some (ok put)) = send lwip put

  unfoldable pub put_file :
      (Bytes → Result FilInfo FResult) → (Bytes → Bool) → (Bytes → Bytes) → Attempt → Uuid → Sent
  put_file f_stat fopen content lwip guid =
      send_new lwip (new_request texts show f_stat fopen content guid)
