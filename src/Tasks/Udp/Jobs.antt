-- ===== src/Tasks/Udp/Jobs.antt =====
-- What a packet does to the ledger that a machine holds.
use derusting.Prelude.{
  ◌≤◌, ◌≡◌, ◌≢◌, ◌⊎◌, ◌∙◌, inl, inr, refl, true, false, Option, some, length, ◌==◌, elem, arith,
  Bytes, Option-cases, Bool-cases,
}
use derusting.Kinds.{Uuid, Instant, Ledger, LedgerState, new_state}
use derusting.Tasks.Messages.{Payload, Message}
use derusting.Heapless.LinearMap.{LinearMap}
use derusting.Heapless.IndexSet.{IndexSet}
use derusting.Heapless.History.{History}
use derusting.Tasks.Udp.{Packet, Receiver, receive, handle, add_job, on_payload}

module _ {S : Type 0} (jobs : IndexSet S) where
  abbrev pub Listed : Uuid → S → Type 0
  Listed guid s = elem guid (jobs.iter s) ≡ true

  elem_refl : (guid : Uuid) → (guid == guid) ≡ true
  elem_refl guid = ground arith

  -- Adding a job lists it, unless it is new and the set is full, when the set stays as it was.
  pub add_job_lem :
      (guid : Uuid) (s : S)
      → Listed guid (add_job jobs guid s)
        ⊎ ((elem guid (jobs.iter s) ≡ false)
            × (jobs.capacity ≤ length (jobs.iter s))
            × (add_job jobs guid s ≡ s))
  unfolding add_job
  add_job_lem guid s = elim (Option-cases (jobs.insert guid s)) [
    | inl e ↦ inr ((jobs.insert_full guid s e).0, (jobs.insert_full guid s e).1, rw (e, add_job))
    | inr (s', e) ↦ inl (rw (e, add_job) (jobs.iter-insert guid guid s s' e ∙ ground arith))
  ]

  -- No other job is added, and none is lost.
  add_job_other :
      (guid other : Uuid) (s : S)
      → other ≢ guid
      → elem other (jobs.iter (add_job jobs guid s)) ≡ elem other (jobs.iter s)
  unfolding add_job
  add_job_other guid other s ne = elim (Option-cases (jobs.insert guid s)) [
    | inl e ↦ rw (e, add_job)
    | inr (s', e) ↦ rw (e, add_job) (jobs.iter-insert guid other s s' e ∙ ground arith)
  ]

  pub add_job_keeps :
      (guid other : Uuid) (s : S) → Listed other s → Listed other (add_job jobs guid s)
  unfolding add_job
  add_job_keeps guid other s h = elim (Option-cases (jobs.insert guid s)) [
    | inl e ↦ rw (e, add_job) h
    | inr (s', e) ↦ rw (e, add_job) (jobs.iter-insert guid other s s' e ∙ ground arith)
  ]

-- What a packet may leave of the ledger that was held; `told sent` says that the packet carries the
-- ledger `sent`.
pub data Outcome {S : Type 0} (jobs : IndexSet S) (told : Ledger S → Type 0) (now : Instant)
    (l : LedgerState S) (l' : Option (LedgerState S)) : Type 0 where
  replaced :
      (sent : Ledger S) → told sent → l' ≡ some (new_state sent now) → Outcome jobs told now l l'
  extended :
      (l₁ : LedgerState S)
      → l' ≡ some l₁
      → l₁.ledger.owner ≡ l.ledger.owner
      → l₁.received ≡ l.received
      → ((other : Uuid) → Listed jobs other l.ledger.jobs → Listed jobs other l₁.ledger.jobs)
      → Outcome jobs told now l l'

module _ {S : Type 0} (jobs : IndexSet S) (told : Ledger S → Type 0) where
  on_payload-Outcome :
      (payload : Payload S) (now : Instant) (l : LedgerState S)
      → ((sent : Ledger S) → payload ≡ Payload.ledger sent → told sent)
      → Outcome jobs told now l (on_payload jobs payload now (some l))
  unfolding on_payload
  on_payload-Outcome (Payload.new_job j) now l tell =
      extended _ refl refl refl λ other h. add_job_keeps jobs j.guid other l.ledger.jobs h
  on_payload-Outcome (Payload.ledger sent) now l tell = replaced sent (tell sent refl) refl
  on_payload-Outcome (Payload.heartbeat h) now l tell = extended l refl refl refl λ other k. k
  on_payload-Outcome (Payload.log text) now l tell = extended l refl refl refl λ other k. k

module _ {S : Type 0} (decode : Bytes → Option (Message S)) where
  -- The packet carries the ledger.
  abbrev pub Tells : Packet → Ledger S → Type 0
  Tells p sent =
      (bytes : Bytes) × (msg : Message S) × (p.chunk ≡ some bytes)
      × (decode bytes ≡ some msg)
      × (msg.payload ≡ Payload.ledger sent)

module _ {M S C H : Type 0} (book : LinearMap Instant M) (jobs : IndexSet S) (seen : History H)
    (decode : Bytes → Option (Message S)) where
  receive-Outcome_of :
      (told : Ledger S → Type 0) (p : Packet) (r : Receiver M S C H) (l : LedgerState S)
      → ((sent : Ledger S) → Tells decode p sent → told sent)
      → r.state.jobs ≡ some l
      → Outcome jobs told p.now l (receive book jobs seen decode p r).state.jobs
  unfolding receive handle
  receive-Outcome_of told p r l tell held = elim (Option-cases p.chunk) [
    | inl e ↦ rw (e, receive) same
    | inr (bytes, e) ↦ elim (Option-cases (decode bytes)) [
      | inl d ↦ rw (e, receive) (rw (d, receive) same)
      | inr (msg, d) ↦ elim (Bool-cases (seen.contains r.history msg.idempotency)) [
        | inl t ↦ rw (e, receive) (rw (d, receive) (rw (t, handle) same))
        | inr t ↦
            rw (e, receive)
              (rw (d, receive)
                (rw (t, handle)
                  (rw held (
                    on_payload-Outcome jobs told msg.payload p.now l
                      λ sent h. tell sent (bytes, msg, e, d, h)))))
      ]
    ]
  ]
    where
      same : Outcome jobs told p.now l r.state.jobs
      same = extended l held refl refl λ other k. k

  -- Any packet, readable or not, either replaces the ledger by one that it carries, stamped with the
  -- packet's time, or keeps its owner, its time and every job in it.
  receive-Outcome :
      (p : Packet) (r : Receiver M S C H) (l : LedgerState S)
      → r.state.jobs ≡ some l
      → Outcome jobs (Tells decode p) p.now l (receive book jobs seen decode p r).state.jobs
  receive-Outcome p r l held = receive-Outcome_of (Tells decode p) p r l (λ sent t. t) held
