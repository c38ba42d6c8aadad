-- ===== src/Lwip/Put.antt =====
-- src/lwip/put.rs: the PUT of a job's file to another machine.
--
-- The open file is the part of it that is still unread. A callback of lwIP is a function of the
-- request that its `arg` points to (its address and port are only handed on to `tcp_connect`), `none` for null; it returns the code that lwIP gets, the request
-- afterwards, and the bytes that `tcp_write` has taken over. `Turn` is what the outside does in one
-- call of `pump`. `show` is `Display` of `Uuid`.
pub mod Stream
pub mod Life
pub mod Progress
pub mod File
pub mod Ends
use derusting.Prelude.{
  ℕ, ◌+◌, ◌-◌, ◌%◌, ◌≤◌, min, Bool, true, false, Option, none, some, List, [], ◌∷◌, ◌++◌, length,
  take, drop, ltb, ◌==◌, if◌then◌else◌, Bytes, codes,
}
use derusting.Prelude.Result.{Result, ok, err, ◌>>=◌}
use derusting.Std.Decimal.{show_u32}
use derusting.Kinds.{Uuid}
use derusting.Heapless.Texts.{Texts}
use derusting.Fs.Path.{make_path}
use derusting.Fs.Open.{open_ok}
use derusting.Fs.Stat.{FilInfo, FResult, no_path, stat}
use derusting.Lwip.Bindings.{ErrT, mem, val, clsd, Pcb, is_ok}

abbrev pub buf_cap : ℕ
buf_cap = 1024

pub record PutRequest : Type 0 where
  pub guid : Uuid
  pub fsize : ℕ
  pub fh : Bytes
  pub buf : Bytes
  pub pcb : Option Pcb
  -- The last value signalled and not yet taken.
  pub signal : Option ErrT

-- The request for a file of the given metadata, once it is opened; `content` is what a file holds.
abbrev pub open_request :
    (Bytes → Bool) → (Bytes → Bytes) → Uuid → Bytes → FilInfo → Result PutRequest FResult
open_request fopen content guid path info =
    if open_ok fopen path
    then ok (record {
      guid = guid;
      fsize = info.fsize;
      fh = content path;
      buf = [];
      pcb = none;
      signal = none;
    })
    else err no_path

-- `PutRequest::new`; `none` where `make_path` panics.
unfoldable pub new_request :
    Texts
    → (Uuid → Bytes)
    → (Bytes → Result FilInfo FResult)
    → (Bytes → Bool)
    → (Bytes → Bytes)
    → Uuid
    → Option (Result PutRequest FResult)
new_request texts show f_stat fopen content guid = elim (make_path texts show guid false) [
  | none ↦ none
  | some path ↦ some (stat texts f_stat path >>= open_request fopen content guid path)
]

-- How many bytes `fread` gives at most, the room that lwIP has, and what `tcp_write` returns.
pub record Turn : Type 0 where
  pub read : ℕ
  pub sndbuf : ℕ
  pub tcp_write : ErrT

-- Step 1 of `pump`.
unfoldable pub top_up : Turn → PutRequest → PutRequest
top_up turn this =
    let free = buf_cap - length this.buf in
    let n = min turn.read free in
    if ltb 0 free
    then record this { buf = this.buf ++ take n this.fh; fh = drop n this.fh }
    else this

-- What `pump` returns, the request afterwards, and what `tcp_write` has taken over.
abbrev pub Pumped : Type 0
Pumped = Result (Unit {0}) ErrT × (PutRequest × Bytes)

-- `tcp_write` of the first `to_send` bytes, and what is done with its answer.
unfoldable pub write_out : ℕ → ErrT → PutRequest → Pumped
write_out to_send ErrT.ok this =
    (ok tt, (record this { buf = drop to_send this.buf }, take (to_send % 65_536) this.buf))
write_out to_send mem this = (ok tt, (this, []))
write_out to_send e this = (err e, (this, []))

-- Steps 2 and 3 of `pump`.
unfoldable pub offer : Turn → PutRequest → Pumped
offer turn this =
    let to_send = min (length this.buf) turn.sndbuf in
    if to_send == 0 then (ok tt, (this, [])) else write_out to_send turn.tcp_write this

unfoldable pub pump : Turn → PutRequest → Pumped
pump turn this = offer turn (top_up turn this)

-- `this.signal.signal(e)`
abbrev pub signalled : ErrT → PutRequest → PutRequest
signalled e this = record this { signal = some e }

-- How `_connected` and `_sent` end after `pump`.
unfoldable pub after_pump : Pumped → ErrT × (PutRequest × Bytes)
after_pump (err e, (this, written)) = (e, (signalled e this, written))
after_pump (ok u, r) = (ErrT.ok, r)

unfoldable pub header_text : (Uuid → Bytes) → Uuid → ℕ → Bytes
header_text show guid fsize =
    codes "PUT / HTTP/1.1\r\nguid: "
    ++ (show guid
        ++ (codes "\r\nContent-Type: text/x.gcode\r\nContent-Length: "
            ++ (show_u32 fsize ++ codes "\r\nConnection: close\r\n\r\n")))

module _ (texts : Texts) (show : Uuid → Bytes) where
  -- `_connected` where `err` is `Ok`.
  unfoldable pub on_connected : Turn → PutRequest → ErrT × (PutRequest × Bytes)
  on_connected turn this = elim (texts.write 256 [] (header_text show this.guid this.fsize)) [
    | none ↦ (mem, (signalled mem this, []))
    | some headers ↦ elim (texts.extend_from_slice buf_cap this.buf headers) [
      | none ↦ after_pump (pump turn this)
      | some buf ↦ after_pump (pump turn (record this { buf = buf }))
    ]
  ]

  unfoldable pub connected : ErrT → Turn → Option PutRequest → ErrT × (Option PutRequest × Bytes)
  connected e turn none = (mem, (none, []))
  connected e turn (some this) =
      if is_ok e
      then (let (code, (this', written)) = on_connected turn this in (code, (some this', written)))
      else (e, (some (signalled e this), []))

unfoldable pub sent : Turn → Option PutRequest → ErrT × (Option PutRequest × Bytes)
sent turn none = (mem, (none, []))
sent turn (some this) =
    let (code, (this', written)) = after_pump (pump turn this) in (code, (some this', written))

-- `_recv`; no packet stands for null, by which lwIP says that the other side has closed.
unfoldable pub recv : ErrT → Option Bytes → Option PutRequest → ErrT × Option PutRequest
recv e pbuf none = (mem, none)
recv e pbuf (some this) =
    if is_ok e
    then (ErrT.ok, some (signalled (elim pbuf [ none ↦ clsd | some p ↦ ErrT.ok ]) this))
    else (e, some (signalled e this))

-- `_err`
unfoldable pub failed : ErrT → Option PutRequest → Option PutRequest
failed e none = none
failed e (some this) = some (signalled e (record this { pcb = none }))

-- `send` up to `signal.wait()`: what `tcp_new` and `tcp_connect` return is given.
unfoldable pub start : Option Pcb → ErrT → PutRequest → Result (Unit {0}) ErrT × PutRequest
start none e this = (err mem, this)
start (some pcb) e this = if is_ok e then (ok tt, record this { pcb = some pcb }) else (err e, this)

-- `signal.wait()` and what follows; `none` while nothing is signalled.
unfoldable pub await : PutRequest → Option (Result (Unit {0}) ErrT) × PutRequest
await this = elim this.signal [
  | none ↦ (none, this)
  | some e ↦ (some (if is_ok e then ok tt else err e), record this { signal = none })
]

-- `drop`: the block that `tcp_close` gets, and the request.
unfoldable pub close : PutRequest → Option Pcb × PutRequest
close this = (this.pcb, record this { pcb = none })
