-- ===== src/Tasks/Locks/Deadlock.antt =====
-- The tasks never block one another for good.
use derusting.Prelude.{
  ℕ, suc, ◌+◌, ◌≡◌, ◌≢◌, ap, refl, ◌⊎◌, inl, inr, true, none, Option-cases, List, [], ◌∷◌, length,
  arith,
}
use derusting.Start.{
  Task, heartbeat, address_book_lifetime_check, manage_ledger, udp_receiver, tcp_worker,
  distribute_file,
}
use derusting.Tasks.Locks.{
  Lock, addresses, jobs, Op, locks, unlocks, waits, System, with_rest, Goes, takes, leaves, goes_on,
  Reach,
}
use derusting.Tasks.Locks.Orderly.{holds, orderly}
use derusting.Tasks.Locks.Kept.{Kept, Goes-Kept, Reach-Kept}

abbrev pub CanGo : System → Type 0
CanGo s = (t : Task) × ((u : System) × Goes t s u)

-- Who holds the ledger's mutex can go on.
jobs_goes :
    (s : System) (w : Task) (ops : List Op)
    → s.rest w ≡ ops
    → orderly ops ≡ true
    → holds jobs ops ≡ true
    → CanGo s
jobs_goes s w [] e o h = absurd (cc)
jobs_goes s w (locks addresses ∷ ops) e o h = absurd (ground arith)
jobs_goes s w (locks jobs ∷ ops) e o h = absurd (cc)
jobs_goes s w (unlocks l ∷ ops) e o h = (w, (_, leaves l ops e))
jobs_goes s w (waits ∷ ops) e o h = (w, (_, goes_on ops e))

-- So who asks for it, or who holds it.
asks_jobs : (s : System) (t : Task) (ops : List Op) → Kept s → s.rest t ≡ locks jobs ∷ ops → CanGo s
asks_jobs s t ops k e = elim (Option-cases (s.holder jobs)) [
  | inl free ↦ (t, (_, takes jobs ops e free))
  | inr (w, held) ↦ jobs_goes s w (s.rest w) refl (k w).0 ((k w).1 jobs held)
]

-- Who holds the book's mutex can go on, or waits for the ledger's.
addresses_goes :
    (s : System) (w : Task) (ops : List Op)
    → Kept s
    → s.rest w ≡ ops
    → holds addresses ops ≡ true
    → CanGo s
addresses_goes s w [] k e h = absurd (cc)
addresses_goes s w (locks addresses ∷ ops) k e h = absurd (cc)
addresses_goes s w (locks jobs ∷ ops) k e h = asks_jobs s w ops k e
addresses_goes s w (unlocks l ∷ ops) k e h = (w, (_, leaves l ops e))
addresses_goes s w (waits ∷ ops) k e h = (w, (_, goes_on ops e))

any_goes : (s : System) (t : Task) (ops : List Op) → Kept s → s.rest t ≡ ops → ops ≢ [] → CanGo s
any_goes s t [] k e n = absurd (n refl)
any_goes s t (locks addresses ∷ ops) k e n = elim (Option-cases (s.holder addresses)) [
  | inl free ↦ (t, (_, takes addresses ops e free))
  | inr (w, held) ↦ addresses_goes s w (s.rest w) k refl ((k w).1 addresses held)
]
any_goes s t (locks jobs ∷ ops) k e n = asks_jobs s t ops k e
any_goes s t (unlocks l ∷ ops) k e n = (t, (_, leaves l ops e))
any_goes s t (waits ∷ ops) k e n = (t, (_, goes_on ops e))

-- What all tasks have left.
abbrev pub ops_left : System → ℕ
ops_left s =
    length (s.rest heartbeat)
    + length (s.rest address_book_lifetime_check)
    + length (s.rest manage_ledger)
    + length (s.rest udp_receiver)
    + length (s.rest tcp_worker)
    + length (s.rest distribute_file)

ops_left-with_rest :
    (t : Task) (ops : List Op) (s : System)
    → ops_left (with_rest t ops s) + length (s.rest t) ≡ ops_left s + length ops
ops_left-with_rest heartbeat ops s = omega arith
ops_left-with_rest address_book_lifetime_check ops s = omega arith
ops_left-with_rest manage_ledger ops s = omega arith
ops_left-with_rest udp_receiver ops s = omega arith
ops_left-with_rest tcp_worker ops s = omega arith
ops_left-with_rest distribute_file ops s = omega arith

one_less :
    (t : Task) (op : Op) (ops : List Op) (s : System)
    → s.rest t ≡ op ∷ ops
    → suc (ops_left (with_rest t ops s)) ≡ ops_left s
one_less t op ops s e = omega (arith, ops_left-with_rest t ops s, ap length e)

Goes-ops_left : {t : Task} {s u : System} → Goes t s u → suc (ops_left u) ≡ ops_left s
Goes-ops_left {t} {s} (takes l ops e free) = one_less t (locks l) ops s e
Goes-ops_left {t} {s} (leaves l ops e) = one_less t (unlocks l) ops s e
Goes-ops_left {t} {s} (goes_on ops e) = one_less t waits ops s e

-- Steps of any tasks within their turns.
pub data Run : ℕ → System → System → Type 0 where
  stay : {s : System} → Run 0 s s
  go : {n : ℕ} {s u v : System} → Run n s u → (t : Task) → Goes t u v → Run (suc n) s v

Run-Kept : {n : ℕ} {s u : System} → Run n s u → Kept s → Kept u
Run-Kept stay k = k
Run-Kept (go r t g) k = Goes-Kept g (Run-Kept r k)

Run-ops_left : {n : ℕ} {s u : System} → Run n s u → n + ops_left u ≡ ops_left s
Run-ops_left stay = omega arith
Run-ops_left (go r t g) = let h = Run-ops_left r in let d = Goes-ops_left g in omega arith

nil_or : (l : List Op) → (l ≡ []) ⊎ (l ≢ [])
nil_or [] = inl refl
nil_or (x ∷ l) = inr (λ e. cc)

-- All turns have ended, and both mutexes are free.
abbrev pub IsIdle : System → Type 0
IsIdle s = ((t : Task) → s.rest t ≡ []) × ((l : Lock) → s.holder l ≡ none)

free_at_end : (s : System) → Kept s → ((t : Task) → s.rest t ≡ []) → IsIdle s
free_at_end s k ended = (ended, free)
  where
    not_held : (l : Lock) (ops : List Op) → ops ≡ [] → holds l ops ≢ true
    not_held l [] e h = cc
    not_held l (x ∷ ops) e h = cc

    free : (l : Lock) → s.holder l ≡ none
    free l = elim (Option-cases (s.holder l)) [
      | inl e ↦ e
      | inr (t, e) ↦ absurd (not_held l (s.rest t) (ended t) ((k t).1 l e))
    ]

progress : (s : System) → Kept s → CanGo s ⊎ IsIdle s
progress s k =
    let found : (t : Task) → s.rest t ≢ [] → CanGo s ⊎ IsIdle s =
      λ t n. inl (any_goes s t (s.rest t) k refl n) in
    elim (nil_or (s.rest heartbeat)) [
      | inr n ↦ found heartbeat n
      | inl a ↦ elim (nil_or (s.rest address_book_lifetime_check)) [
        | inr n ↦ found address_book_lifetime_check n
        | inl b ↦ elim (nil_or (s.rest manage_ledger)) [
          | inr n ↦ found manage_ledger n
          | inl c ↦ elim (nil_or (s.rest udp_receiver)) [
            | inr n ↦ found udp_receiver n
            | inl d ↦ elim (nil_or (s.rest tcp_worker)) [
              | inr n ↦ found tcp_worker n
              | inl e ↦ elim (nil_or (s.rest distribute_file)) [
                | inr n ↦ found distribute_file n
                | inl f ↦ inr (free_at_end s k (all a b c d e f))
              ]
            ]
          ]
        ]
      ]
    ]
  where
    all :
        s.rest heartbeat ≡ []
        → s.rest address_book_lifetime_check ≡ []
        → s.rest manage_ledger ≡ []
        → s.rest udp_receiver ≡ []
        → s.rest tcp_worker ≡ []
        → s.rest distribute_file ≡ []
        → (t : Task) → s.rest t ≡ []
    all a b c d e f heartbeat = a
    all a b c d e f address_book_lifetime_check = b
    all a b c d e f manage_ledger = c
    all a b c d e f udp_receiver = d
    all a b c d e f tcp_worker = e
    all a b c d e f distribute_file = f

-- From any state that the tasks can reach, and however they are run from there: each step of a task
-- uses up one of those that are left in their turns; and at any point a task can go on, or all turns
-- have ended and both mutexes are free. So as long as no turn begins, all turns end, and no task waits
-- for a mutex for ever.
pub turns_end :
    (n : ℕ) (s u : System)
    → Reach s
    → Run n s u
    → (n + ops_left u ≡ ops_left s) × (CanGo u ⊎ IsIdle u)
turns_end n s u r run = (Run-ops_left run, progress u (Run-Kept run (Reach-Kept r)))
