-- ===== src/Tasks/Ring.antt =====
-- The task `manage_ledger` of src/tasks/udp.rs: the machines hand one ledger of jobs around, and the
-- machine that owns it may take a job.
--
-- `manage_round` is one turn of the loop after its delay. The task holds the locks of the address
-- book and of the ledger for the whole turn, so the turn is atomic on them: the book is read, and the
-- ledger and the local `observed_ownership` are its state. `Env` has what the turn reads from
-- elsewhere. `none` is a panic, of the `unwrap` on the least address.
pub mod Next
pub mod Tour
pub mod Turns
pub mod Takeover
pub mod Makes
pub mod Jobs
pub mod Prints
pub mod Offline
use derusting.Prelude.{
  ℕ, ◌-◌, ◌*◌, Bool, true, false, not, ◌&&◌, Option, none, some, List, [], ◌∷◌, ◌++◌, min, ltb,
  ◌==◌, if◌then◌else◌, keys, Bytes, codes,
}
use derusting.Prelude.Result.{Result, ok, err}
use derusting.Kinds.{
  Ipv4Addr, Uuid, Instant, Ledger, LedgerState, last_octet, elapsed, new_state, is_owner,
}
use derusting.Heapless.LinearMap.{LinearMap}
use derusting.Heapless.IndexSet.{IndexSet}
use derusting.Heapless.Texts.{Texts}
use derusting.Fs.Path.{path_text}
use derusting.Fs.Open.{open_ok}
use derusting.Marlin
use derusting.Tasks.Messages.{Payload}

pub record Env : Type 0 where
  -- `my_ipaddr()`, the same in every call of one turn
  pub ipaddr : Option Ipv4Addr
  pub now : Instant
  -- `marlin::is_ready()`
  pub ready : Bool
  -- `marlin::is_idle()`, as the turn asks it and as `print` asks it again
  pub idle : Bool
  pub idle_in_print : Bool
  -- which files `fopen` opens
  pub fopen : Bytes → Bool
  -- which commands the firmware accepts
  pub accepts : Bytes → Bool

-- What a turn does to the outside, in order.
pub data Effect (S : Type 0) : Type 0 where
  sends : Payload S → Effect S
  commands : List Bytes → Effect S
  set_offline : Effect S

pub record Manager (S : Type 0) : Type 0 where
  pub jobs : Option (LedgerState S)
  pub observed_ownership : Bool

-- `keys().min()`
unfoldable pub min_addr : List Ipv4Addr → Option Ipv4Addr
min_addr [] = none
min_addr (a ∷ l) = elim (min_addr l) [ none ↦ some a | some b ↦ some (min a b) ]

-- Whether an address that lies `diff` above ours is closer than the closest so far.
abbrev pub closer : ℕ → ℕ → Bool
closer diff next_highest = ltb 0 diff && ltb diff next_highest

-- The `for` loop over the keys, from `next_addr` and `next_highest` on.
unfoldable pub closest : Ipv4Addr → List Ipv4Addr → Ipv4Addr → ℕ → Ipv4Addr × ℕ
closest my_addr [] next_addr next_highest = (next_addr, next_highest)
closest my_addr (addr ∷ rest) next_addr next_highest =
    let diff = last_octet addr - last_octet my_addr in
    closest my_addr rest (if closer diff next_highest then addr else next_addr)
      (if closer diff next_highest then diff else next_highest)

-- The owner that the ledger is passed on to.
unfoldable pub next_owner : Ipv4Addr → List Ipv4Addr → Option Ipv4Addr
unfolding closest min_addr
next_owner my_addr addrs =
    let (next_addr, next_highest) = closest my_addr addrs 0xffffffff 255 in
    if closer next_highest 255 then some next_addr else min_addr addrs

module _ {S : Type 0} where
  abbrev pub with_owner : LedgerState S → Ipv4Addr → LedgerState S
  with_owner s addr = record s { ledger = record s.ledger { owner = addr } }

  -- A ledger that has not been updated for 45 seconds is taken over by the least address known.
  unfoldable pub takeover : Instant → Ipv4Addr → List Ipv4Addr → LedgerState S → LedgerState S
  takeover now my_addr addrs s =
      if ltb (45 * 1000) (elapsed now s.received)
      then elim (min_addr addrs) [
        | none ↦ with_owner s my_addr
        | some least ↦ if least == my_addr then with_owner s my_addr else s
      ]
      else s

module _ (show : Uuid → Bytes) where
  -- The first job whose file is on the stick.
  unfoldable pub printable_job : (Bytes → Bool) → List Uuid → Option Uuid
  printable_job fopen [] = none
  printable_job fopen (guid ∷ rest) =
      let later = printable_job fopen rest in
      if open_ok fopen (path_text show guid false) then some guid else later

module _ {S : Type 0} (jobs : IndexSet S) where
  abbrev pub without_job : Uuid → LedgerState S → LedgerState S
  without_job guid s = record s {
    ledger = record s.ledger { jobs = jobs.remove guid s.ledger.jobs };
  }

module _ {S : Type 0} (jobs : IndexSet S) (show : Uuid → Bytes) where
  -- The `match` on `marlin::print`.
  unfoldable pub on_print :
      Uuid
      → LedgerState S
      → Result (Unit {0}) Marlin.Error × List Bytes
      → LedgerState S × List (Effect S)
  on_print guid s (ok done, cmds) = (
    without_job jobs guid s,
    commands cmds ∷ set_offline ∷ sends (Payload.log (codes "Job Accepted: " ++ show guid)) ∷ [],
  )
  on_print guid s (err e, cmds) = (s, commands cmds ∷ [])

module _ {S : Type 0} (jobs : IndexSet S) (texts : Texts) (show : Uuid → Bytes) where
  -- The first printable job, if there is one, is printed.
  unfoldable pub manufacture : Env → LedgerState S → LedgerState S × List (Effect S)
  manufacture env s = elim (printable_job show env.fopen (jobs.iter s.ledger.jobs)) [
    | none ↦ (s, [])
    | some guid ↦
        on_print jobs show guid s
          (Marlin.print env.accepts texts env.idle_in_print (path_text show guid false) true)
  ]

module _ {M S : Type 0} (book : LinearMap Instant M) (jobs : IndexSet S) (texts : Texts)
    (show : Uuid → Bytes) where
  -- The last part of the turn: an owner passes the ledger on, or keeps it if it knows nobody.
  unfoldable pub pass_on : Ipv4Addr → M → LedgerState S → Option (Manager S × List (Effect S))
  pass_on my_addr addresses s =
      if book.is_empty addresses
      then some (
        record { jobs = some s; observed_ownership = true },
        sends (Payload.ledger s.ledger) ∷ [],
      )
      else elim (next_owner my_addr (keys (book.iter addresses))) [
        | none ↦ none
        | some addr ↦ some (
          record { jobs = some (with_owner s addr); observed_ownership = false },
          sends (Payload.ledger (with_owner s addr).ledger) ∷ [],
        )
      ]

  -- The turn of a machine that owns the ledger and has seen so in an earlier turn.
  unfoldable pub own_turn :
      Env → Ipv4Addr → M → LedgerState S → Option (Manager S × List (Effect S))
  own_turn env my_addr addresses s =
      let (s', made) =
        if env.ready && env.idle then manufacture jobs texts show env s else (s, []) in
      elim (pass_on my_addr addresses s') [ none ↦ none | some (m, told) ↦ some (m, made ++ told) ]

  -- The turn once a ledger is held.
  unfoldable pub hold :
      Env → Ipv4Addr → M → Bool → LedgerState S → Option (Manager S × List (Effect S))
  hold env my_addr addresses observed s =
      let s' = takeover env.now my_addr (keys (book.iter addresses)) s in
      if is_owner env.ipaddr s'
      then if observed
        then own_turn env my_addr addresses s'
        else some (record { jobs = some s'; observed_ownership = true }, [])
      else some (record { jobs = some s'; observed_ownership = observed }, [])

  -- A machine that holds no ledger makes one, and owns it.
  unfoldable pub create : Env → Ipv4Addr → Bool → Option (Manager S × List (Effect S))
  create env my_addr observed =
      let ledger : Ledger S = record { owner = my_addr; jobs = jobs.new } in
      some (
        record { jobs = some (new_state ledger env.now); observed_ownership = observed },
        sends (Payload.ledger ledger) ∷ [],
      )

  -- One turn of the loop of `manage_ledger`.
  unfoldable pub manage_round : Env → M → Manager S → Option (Manager S × List (Effect S))
  manage_round env addresses m = elim env.ipaddr [
    | none ↦ some (m, [])
    | some my_addr ↦ elim m.jobs [
      | none ↦ create env my_addr m.observed_ownership
      | some s ↦ hold env my_addr addresses m.observed_ownership s
    ]
  ]
