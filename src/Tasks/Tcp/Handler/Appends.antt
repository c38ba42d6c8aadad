-- ===== src/Tasks/Tcp/Handler/Appends.antt =====
-- How a new job gets into the ledger.
use mathlib.Core.Bool.{false≢true}
use derusting.Prelude.{
  ◌≤◌, ◌≡◌, ◌≢◌, ◌⊎◌, ◌∙◌, sym, ap, inl, inr, refl, true, false, Option, none, some, List, [], ◌∷◌,
  length, is_nil, elem, arith, Bool-cases,
}
use derusting.Kinds.{Ipv4Addr, Uuid, Instant, LedgerState, is_owner}
use derusting.State.{DerustingState}
use derusting.Heapless.LinearMap.{LinearMap}
use derusting.Heapless.IndexSet.{IndexSet}
use derusting.Tasks.Udp.{add_job}
use derusting.Tasks.Udp.Jobs.{add_job_lem, add_job_keeps}
use derusting.Tasks.Tcp.Handler.{Act, alert, add_if_owner, append_to_ledger}

is_nil_eq {ℓ} : {A : Type ℓ} (l : List A) → is_nil l ≡ true → l ≡ []
is_nil_eq [] h = refl
is_nil_eq (x ∷ l) h = cc

module _ {S : Type 0} (jobs : IndexSet S) where
  add_if_owner_other :
      (my : Ipv4Addr) (guid : Uuid) (held : Option (LedgerState S))
      → ((l : LedgerState S) → held ≡ some l → my ≢ l.ledger.owner)
      → add_if_owner jobs (some my) guid held ≡ (false, held)
  unfolding add_if_owner is_owner
  add_if_owner_other my guid none other = refl
  add_if_owner_other my guid (some l) other = ground (arith, other l refl)

module _ {M S C : Type 0} (book : LinearMap Instant M) (jobs : IndexSet S) where
  abbrev append : Option Ipv4Addr → Uuid → DerustingState M S C → DerustingState M S C × List Act
  append = append_to_ledger book jobs

  -- The owner of the ledger adds the job itself, and alerts nobody; the set keeps its other jobs, and
  -- takes the new one unless it is full.
  owner_adds_job :
      (my : Ipv4Addr) (guid : Uuid) (state : DerustingState M S C) (l : LedgerState S)
      → state.jobs ≡ some l
      → l.ledger.owner ≡ my
      → (l' : LedgerState S) × ((append (some my) guid state).0.jobs ≡ some l')
        × ((append (some my) guid state).1 ≡ [])
        × (l'.ledger.owner ≡ my)
        × ((other : Uuid)
            → elem other (jobs.iter l.ledger.jobs) ≡ true
            → elem other (jobs.iter l'.ledger.jobs) ≡ true)
        × ((elem guid (jobs.iter l'.ledger.jobs) ≡ true)
            ⊎ (jobs.capacity ≤ length (jobs.iter l.ledger.jobs)))
  unfolding append_to_ledger add_if_owner is_owner
  owner_adds_job my guid state l held own = (
    record l { ledger = record l.ledger { jobs = add_job jobs guid l.ledger.jobs } },
    ground arith,
    ground arith,
    own,
    λ other h. add_job_keeps jobs guid other l.ledger.jobs h,
    added,
  )
    where
      added :
          (elem guid (jobs.iter (add_job jobs guid l.ledger.jobs)) ≡ true)
          ⊎ (jobs.capacity ≤ length (jobs.iter l.ledger.jobs))
      added = elim (add_job_lem jobs guid l.ledger.jobs) [ inl h ↦ inl h | inr h ↦ inr h.1 ]

  -- Any other machine leaves its ledger alone, and alerts the others if it knows of any.
  others_alert :
      (my : Ipv4Addr) (guid : Uuid) (state : DerustingState M S C)
      → ((l : LedgerState S) → state.jobs ≡ some l → my ≢ l.ledger.owner)
      → ((append (some my) guid state).0 ≡ state)
        × (((book.iter state.addresses ≡ []) × ((append (some my) guid state).1 ≡ []))
            ⊎ ((book.iter state.addresses ≢ [])
                × ((append (some my) guid state).1 ≡ alert guid ∷ [])))
  unfolding append_to_ledger
  others_alert my guid state other =
      let kept = add_if_owner_other jobs my guid state.jobs other in
      elim (Bool-cases (is_nil (book.iter state.addresses))) [
        | inl e ↦ (
          rw kept,
          inl (
            is_nil_eq (book.iter state.addresses) e,
            rw (kept, book.is_empty-iter state.addresses, e),
          ),
        )
        | inr e ↦ (
          rw kept,
          inr (
            (λ n. false≢true (sym e ∙ ap is_nil n)),
            rw (kept, book.is_empty-iter state.addresses, e),
          ),
        )
      ]

  -- A job that is handed in while the machine holds no ledger and knows nobody gets into no ledger:
  -- nothing is changed and nobody is told.
  lone_job_is_lost :
      (ipaddr : Option Ipv4Addr) (guid : Uuid) (state : DerustingState M S C)
      → state.jobs ≡ none
      → book.iter state.addresses ≡ []
      → append ipaddr guid state ≡ (state, [])
  unfolding append_to_ledger add_if_owner
  lone_job_is_lost ipaddr guid state h e = ground (arith, book.is_empty-iter state.addresses)
