-- ===== src/Tasks/Alerts.antt =====
-- A new job on its way from `Message::send_new_job_alert` of src/tasks/messages.rs over a network that
-- loses and doubles packets to the ledger that `udp_receiver` of src/tasks/udp.rs keeps.
use derusting.Prelude.{
  ℕ, zero, suc, ◌+◌, ◌≤◌, ◌≡◌, ◌⊎◌, ◌∙◌, ap, inl, inr, refl, Bool, true, false, Option, some, List,
  [], ◌∷◌, length, if◌then◌else◌, Bytes,
}
use derusting.Kinds.{Uuid, Instant, LedgerState}
use derusting.Heapless.LinearMap.{LinearMap}
use derusting.Heapless.IndexSet.{IndexSet}
use derusting.Heapless.History.{History}
use derusting.Tasks.Messages.{Payload, Message, send_from, send_new_job_alert}
use derusting.Tasks.Udp.{Packet, Receiver, receive, receive_all, handle, add_job, on_payload}
use derusting.Tasks.Udp.Dedup.{Carries, copies_ignored}
use derusting.Tasks.Udp.Jobs.{Listed, add_job_lem, add_job_keeps}

-- The packets that may come of the messages that are broadcast, at whatever times: a message is lost,
-- or comes once, or comes again.
pub data Delivered {S : Type 0} (decode : Bytes → Option (Message S))
    : List (Message S) → List Packet → Type 0 where
  over : Delivered decode [] []
  lost :
      {ms : List (Message S)} {ps : List Packet}
      → (m : Message S) → Delivered decode ms ps
      → Delivered decode (m ∷ ms) ps
  comes :
      {ms : List (Message S)} {ps : List Packet}
      → (m : Message S) (p : Packet) (bytes : Bytes) → p.chunk ≡ some bytes
      → decode bytes ≡ some m
      → Delivered decode (m ∷ ms) ps
      → Delivered decode (m ∷ ms) (p ∷ ps)

abbrev pub alert_message : {S : Type 0} → Uuid → Uuid → Message S
alert_message fresh guid = record {
  idempotency = fresh;
  payload = Payload.new_job (record { guid = guid });
}

-- All messages are the same one.
abbrev pub AllAre : {S : Type 0} → Message S → List (Message S) → Type 0
AllAre msg [] = Unit {0}
AllAre msg (m ∷ ms) = (m ≡ msg) × AllAre msg ms

module _ {S : Type 0} where
  AllAre-if :
      (msg : Message S) (b : Bool) (ms : List (Message S))
      → AllAre msg ms
      → AllAre msg (if b then msg ∷ ms else [])
  AllAre-if msg true ms h = (refl, h)
  AllAre-if msg false ms h = tt

  pub send_from-AllAre :
      (allocs : ℕ → Bool) (i : ℕ) (msg : Message S) (n : ℕ) → AllAre msg (send_from allocs i msg n)
  unfolding send_from
  send_from-AllAre allocs i msg zero = tt
  send_from-AllAre allocs i msg (suc n) =
      AllAre-if msg (allocs i) (send_from allocs (i + 1) msg n)
        (send_from-AllAre allocs (i + 1) msg n)

  pub Delivered-Carries :
      (decode : Bytes → Option (Message S)) (msg : Message S) {ms : List (Message S)}
      {ps : List Packet}
      → Delivered decode ms ps
      → AllAre msg ms
      → Carries decode msg ps
  Delivered-Carries decode msg over all = tt
  Delivered-Carries decode msg (lost m d) all = Delivered-Carries decode msg d all.1
  Delivered-Carries decode msg (comes m p bytes e c d) all =
      ((bytes, e, c ∙ ap some all.0), Delivered-Carries decode msg d all)

module _ {M S C H : Type 0} (book : LinearMap Instant M) (jobs : IndexSet S) (seen : History H)
    (decode : Bytes → Option (Message S)) where
  -- The first packet of an alert that is new adds the job.
  first_alert :
      (fresh guid : Uuid) (p : Packet) (bytes : Bytes) (r : Receiver M S C H) (l : LedgerState S)
      → p.chunk ≡ some bytes
      → decode bytes ≡ some (alert_message fresh guid)
      → seen.contains r.history fresh ≡ false
      → r.state.jobs ≡ some l
      → (receive book jobs seen decode p r).state.jobs
        ≡ some (record l { ledger = record l.ledger { jobs = add_job jobs guid l.ledger.jobs } })
  unfolding receive handle on_payload
  first_alert fresh guid p bytes r l e d new held =
      rw (e, receive) (rw (d, receive) (rw (new, handle) (rw held refl)))

  -- An alert that is broadcast up to three times, with an identifier that is not in the receiver's history,
  -- over a network that may lose and double its packets: if one packet at least arrives, the ledger
  -- that the receiver holds has the job afterwards, unless it is full, and keeps its owner, its time and
  -- its other jobs. The history has a place.
  pub alert_reaches_ledger :
      (allocs : ℕ → Bool) (fresh guid : Uuid) (p : Packet) (ps : List Packet) (r : Receiver M S C H)
      (l : LedgerState S)
      → 1 ≤ seen.capacity
      → Delivered decode (send_new_job_alert allocs fresh guid) (p ∷ ps)
      → seen.contains r.history fresh ≡ false
      → r.state.jobs ≡ some l
      → (l' : LedgerState S) × ((receive_all book jobs seen decode (p ∷ ps) r).state.jobs ≡ some l')
        × (l'.ledger.owner ≡ l.ledger.owner)
        × (l'.received ≡ l.received)
        × ((other : Uuid) → Listed jobs other l.ledger.jobs → Listed jobs other l'.ledger.jobs)
        × (Listed jobs guid l'.ledger.jobs ⊎ (jobs.capacity ≤ length (jobs.iter l.ledger.jobs)))
  unfolding send_new_job_alert
  alert_reaches_ledger allocs fresh guid p ps r l room came new held =
      let msg : Message S = alert_message fresh guid in
      let c = Delivered-Carries decode msg came (send_from-AllAre allocs 0 msg 3) in
      let ((bytes, e, d), rest) = c in
      (
        record l { ledger = record l.ledger { jobs = add_job jobs guid l.ledger.jobs } },
        ap (λ s. s.state.jobs) (copies_ignored book jobs seen decode p ps msg r room c)
            ∙ first_alert fresh guid p bytes r l e d new held,
        refl,
        refl,
        λ other h. add_job_keeps jobs guid other l.ledger.jobs h,
        (elim (add_job_lem jobs guid l.ledger.jobs) [ inl h ↦ inl h | inr (a, b, h) ↦ inr b ]),
      )
