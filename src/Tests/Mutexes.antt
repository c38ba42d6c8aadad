-- ===== src/Tests/Mutexes.antt =====
-- Two tasks that want the mutexes.
use derusting.Prelude.{◌+◌, ◌≡◌, ◌⊎◌, refl, some, [], ◌∷◌}
use derusting.Start.{manage_ledger, tcp_worker}
use derusting.Tasks.Locks.{
  System, Op, locks, unlocks, waits, addresses, jobs, Reach, later, within, begins, takes, there,
  guarded, with_rest, with_holder, start,
}
use derusting.Tasks.Locks as locks
use derusting.Tasks.Locks.Deadlock.{CanGo, IsIdle, stay, go, ops_left, turns_end}

-- The ledger is managed with the book's mutex, and the server asks for it.
abbrev busy : System
busy = with_rest tcp_worker (guarded addresses (guarded jobs [])) (
    with_holder addresses (some manage_ledger) (
      with_rest manage_ledger (locks jobs ∷ waits ∷ unlocks jobs ∷ unlocks addresses ∷ []) (
        with_rest manage_ledger
          (locks addresses ∷ locks jobs ∷ waits ∷ unlocks jobs ∷ unlocks addresses ∷ []) start)))

busy-Reach : Reach busy
busy-Reach =
    later
      (later (later locks.Reach.here (begins manage_ledger _ refl (there locks.Among.here)))
        (within manage_ledger (takes addresses _ refl refl)))
      (begins tcp_worker _ refl (there locks.Among.here))

abbrev both : System
both =
    with_holder jobs (some manage_ledger)
      (with_rest manage_ledger (waits ∷ unlocks jobs ∷ unlocks addresses ∷ []) busy)

turns_end_example : (1 + ops_left both ≡ ops_left busy) × (CanGo both ⊎ IsIdle both)
turns_end_example =
    turns_end 1 busy both busy-Reach (go stay manage_ledger (takes jobs _ refl refl))
