-- ===== src/Tasks/Distribute.antt =====
-- The task `distribute_file` of src/tasks/tcp.rs, which hands a job's file to the other machines.
mod Lengths
pub mod Attempts
pub mod Completion
use derusting.Prelude.{
  ℕ, ◌/◌, ◌%◌, Bool, Option, none, some, List, [], ◌∷◌, ◌++◌, Bytes, codes, keys,
}
use derusting.Prelude.Result.{Result, ok, err}
use derusting.Std.Decimal.{show_u32}
use derusting.Kinds.{Ipv4Addr, Uuid, Instant}
use derusting.State.{DerustingState}
use derusting.Heapless.Texts.{Texts}
use derusting.Heapless.LinearMap.{LinearMap}
use derusting.Heapless.Channel.{Channel}
use derusting.Fs.Stat.{FilInfo, FResult}
use derusting.Lwip.Bindings as bindings
use derusting.Lwip.Bindings.{ErrT}
use derusting.Lwip.Put.File.{Attempt, Sent, panics, waits, ended, put_file}

-- `Display` of `err_t`
unfoldable pub show_err : ErrT → Bytes
show_err ErrT.ok = codes "Ok: No error, all is ok"
show_err ErrT.mem = codes "Out of memory error"
show_err ErrT.buf = codes "Buffer error"
show_err ErrT.timeout = codes "Timeout"
show_err ErrT.rte = codes "Routing problem"
show_err ErrT.in_progress = codes "Operation in progress"
show_err ErrT.val = codes "Illegal value"
show_err ErrT.would_block = codes "Operation would block"
show_err ErrT.use_ = codes "Address in use"
show_err ErrT.already = codes "Already connecting / already connected"
show_err ErrT.is_conn = codes "Connection already established"
show_err ErrT.conn = codes "Not connected"
show_err ErrT.if_ = codes "Low-level netif error"
show_err ErrT.abrt = codes "Connection aborted"
show_err ErrT.rst = codes "Connection reset"
show_err ErrT.clsd = codes "Connection closed"
show_err ErrT.arg = codes "Illegal argument"

-- `Display` of `Ipv4Addr`
unfoldable pub show_addr : Ipv4Addr → Bytes
show_addr addr =
    show_u32 (addr / 16_777_216 % 256)
    ++ (codes "."
        ++ (show_u32 (addr / 65_536 % 256)
            ++ (codes "."
                ++ (show_u32 (addr / 256 % 256) ++ (codes "." ++ show_u32 (addr % 256))))))

-- The texts of the log. The port is 8080.
unfoldable pub put_text : Bytes → Bytes → Bytes
put_text guid addr = codes "PUT " ++ (guid ++ (codes " to " ++ (addr ++ codes ":8080")))

unfoldable pub sent_text : Bytes → Bytes
sent_text addr = codes "FILE SENT [" ++ (addr ++ codes ":8080]")

unfoldable pub fail_text : Bytes → Bytes → Bytes
fail_text addr e = codes "FILE FAIL [" ++ (addr ++ (codes ":8080] " ++ e))

pub data Act : Type 0 where
  sends_log : Bytes → Act
  puts : Ipv4Addr → Act

-- How a turn of the loop ends.
pub data End : Type 0 where
  finished waiting panicked : End

module _ (texts : Texts) (show : Uuid → Bytes) where
  -- `format!(128; ...).unwrap()` and `log_to_udp`.
  unfoldable pub told : Bytes → List Act × End → List Act × End
  told text (acts, end) = elim (texts.write 128 [] text) [
    | none ↦ ([], panicked)
    | some msg ↦ (sends_log msg ∷ acts, end)
  ]

  -- What follows a PUT, with what follows the turn.
  unfoldable pub after_put : Ipv4Addr → Sent → List Act × End → List Act × End
  after_put addr panics rest = ([], panicked)
  after_put addr waits rest = ([], waiting)
  after_put addr (ended (ok u) pcb) rest = told (sent_text (show_addr addr)) rest
  after_put addr (ended (err e) pcb) rest = told (fail_text (show_addr addr) (show_err e)) rest

  -- The `for` loop; `put addr` is how the PUT to the address goes.
  unfoldable pub send_to : (Ipv4Addr → Sent) → Uuid → List Ipv4Addr → List Act × End
  send_to put guid [] = ([], finished)
  send_to put guid (addr ∷ addrs) =
      let rest = send_to put guid addrs in
      let (acts, end) = after_put addr (put addr) rest in
      told (put_text (show guid) (show_addr addr)) (puts addr ∷ acts, end)

  -- A turn of the loop; `none` while no file is to be distributed.
  unfoldable pub distribute_file :
      {M S C : Type 0}
      → LinearMap Instant M
      → Channel Uuid C
      → (Bytes → Result FilInfo FResult)
      → (Bytes → Bool)
      → (Bytes → Bytes)
      → (Ipv4Addr → Attempt)
      → DerustingState M S C
      → Option (DerustingState M S C × (List Act × End))
  distribute_file book channel f_stat fopen content lwip state =
      elim (channel.try_receive state.files_to_distribute) [
        | none ↦ none
        | some (guid, c) ↦ some (
          record state { files_to_distribute = c },
          send_to (λ addr. put_file texts show f_stat fopen content (lwip addr) guid) guid
              (keys (book.iter state.addresses)),
        )
      ]
