-- ===== src/Tasks/Locks.antt =====
-- The mutexes of `DerustingState`, and when the tasks of src/tasks take and leave them.
--
-- A turn of a task is the list of what it does with the mutexes on one of its paths, where `waits`
-- stands for awaiting anything else within a guard's scope. A mutex is taken where it is free, and a
-- task that asks for it waits otherwise; the guards that a scope has are dropped at its end in reverse.
pub mod Orderly
pub mod Kept
pub mod Deadlock
use derusting.Prelude.{
  ℕ, ◌==◌, if◌then◌else◌, Bool, true, false, ◌≡◌, Option, none, some, List, [], ◌∷◌,
}
use derusting.Start.{
  Task, heartbeat, address_book_lifetime_check, manage_ledger, udp_receiver, tcp_worker,
  distribute_file,
}

pub data Lock : Type 0 where
  addresses jobs : Lock

pub data Op : Type 0 where
  locks unlocks : Lock → Op
  waits : Op

-- Under the guard of one mutex.
abbrev pub guarded : Lock → List Op → List Op
guarded l ops = locks l ∷ waits ∷ unlocks l ∷ ops

-- The turns of `udp_receiver`: no new message; one that is only noted; and a job or a ledger.
abbrev pub udp_receiver_turns : List (List Op)
udp_receiver_turns = [] ∷ guarded addresses [] ∷ guarded addresses (guarded jobs []) ∷ []

abbrev pub lifetime_check_turns : List (List Op)
lifetime_check_turns = guarded addresses [] ∷ []

-- Without an address, and with both guards until the end of the turn, on whichever path.
abbrev pub manage_ledger_turns : List (List Op)
manage_ledger_turns =
    [] ∷ (locks addresses ∷ locks jobs ∷ waits ∷ unlocks jobs ∷ unlocks addresses ∷ []) ∷ []

-- `append_to_ledger`, or a connection that does not come to it.
abbrev pub append_to_ledger_turns : List (List Op)
append_to_ledger_turns = [] ∷ guarded addresses (guarded jobs []) ∷ []

-- The book is copied under the guard.
abbrev pub distribute_file_turns : List (List Op)
distribute_file_turns = guarded addresses [] ∷ []

abbrev pub turns : Task → List (List Op)
turns heartbeat = [] ∷ []
turns address_book_lifetime_check = lifetime_check_turns
turns manage_ledger = manage_ledger_turns
turns udp_receiver = udp_receiver_turns
turns tcp_worker = append_to_ledger_turns
turns distribute_file = distribute_file_turns

-- What is left of each task's turn, and who holds a mutex.
pub record System : Type 0 where
  pub rest : Task → List Op
  pub holder : Lock → Option Task

-- A number for each task, by which tasks are told apart.
abbrev pub number : Task → ℕ
number heartbeat = 0
number address_book_lifetime_check = 1
number manage_ledger = 2
number udp_receiver = 3
number tcp_worker = 4
number distribute_file = 5

abbrev pub same_lock : Lock → Lock → Bool
same_lock addresses addresses = true
same_lock jobs jobs = true
same_lock l m = false

abbrev pub with_rest : Task → List Op → System → System
with_rest t ops s = record s { rest = λ u. if number t == number u then ops else s.rest u }

abbrev pub with_holder : Lock → Option Task → System → System
with_holder l t s = record s { holder = λ m. if same_lock l m then t else s.holder m }

pub data Among {ℓ} {A : Type ℓ} (a : A) : List A → Type ℓ where
  here : {l : List A} → Among a (a ∷ l)
  there : {b : A} {l : List A} → Among a l → Among a (b ∷ l)

-- One step of a task within its turn.
pub data Goes (t : Task) (s : System) : System → Type 0 where
  takes :
      (l : Lock) (ops : List Op)
      → s.rest t ≡ locks l ∷ ops
      → s.holder l ≡ none
      → Goes t s (with_holder l (some t) (with_rest t ops s))
  leaves :
      (l : Lock) (ops : List Op)
      → s.rest t ≡ unlocks l ∷ ops
      → Goes t s (with_holder l none (with_rest t ops s))
  goes_on : (ops : List Op) → s.rest t ≡ waits ∷ ops → Goes t s (with_rest t ops s)

-- A task goes on, or begins a turn.
pub data Step (s : System) : System → Type 0 where
  within : {u : System} (t : Task) → Goes t s u → Step s u
  begins :
      (t : Task) (ops : List Op) → s.rest t ≡ [] → Among ops (turns t) → Step s (with_rest t ops s)

abbrev pub start : System
start = record { rest = λ t. []; holder = λ l. none }

pub data Reach : System → Type 0 where
  here : Reach start
  later : {s u : System} → Reach s → Step s u → Reach u
