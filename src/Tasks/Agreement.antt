-- ===== src/Tasks/Agreement.antt =====
-- A ledger on its way from `manage_ledger` over a network that loses and doubles packets to the ledger
-- that `udp_receiver` of another machine keeps, both of src/tasks/udp.rs.
pub mod Crossed
use derusting.Prelude.{
  ℕ, ◌≤◌, ◌≡◌, ◌∙◌, ap, inl, inr, refl, Bool, true, false, ◌&&◌, Bool-cases, Option, none, some,
  Option-cases, List, [], ◌∷◌, ◌++◌, keys, Bytes, subst, sym, ◌==◌,
}
use derusting.Prelude.Result.{Result, ok, err}
use derusting.Kinds.{Ipv4Addr, Uuid, Instant, Ledger, LedgerState, new_state, is_owner}
use derusting.Heapless.LinearMap.{LinearMap}
use derusting.Heapless.IndexSet.{IndexSet}
use derusting.Heapless.History.{History}
use derusting.Heapless.Texts.{Texts}
use derusting.Fs.Path.{path_text}
use derusting.Marlin
use derusting.Tasks.Messages.{Payload, Message, send_ledger}
use derusting.Tasks.Ring.{
  Env, Effect, sends, Manager, with_owner, takeover, printable_job, on_print, manufacture, pass_on,
  own_turn, hold, create, manage_round,
}
use derusting.Tasks.Ring.Turns.{pass_on-Passed, made}
use derusting.Tasks.Udp.{Packet, Receiver, receive, receive_all, handle, on_payload}
use derusting.Tasks.Udp.Dedup.{copies_ignored}
use derusting.Tasks.Alerts.{Delivered, send_from-AllAre, Delivered-Carries}

-- The ledger is broadcast among the effects.
pub data Sends {S : Type 0} (l : Ledger S) : List (Effect S) → Type 0 where
  here : {es : List (Effect S)} → Sends l (sends (Payload.ledger l) ∷ es)
  there : {e : Effect S} {es : List (Effect S)} → Sends l es → Sends l (e ∷ es)

-- What a turn broadcasts is what it keeps.
abbrev Keeps : {S : Type 0} → Option (Manager S × List (Effect S)) → Type 0
Keeps none = Unit {0}
Keeps {S} (some (m, effects)) =
    (l : Ledger S) → Sends l effects → (s : LedgerState S) × (m.jobs ≡ some s) × (s.ledger ≡ l)

module _ {S : Type 0} where
  quiet : (m : Manager S) → Keeps (some (m, []))
  quiet m l h = elim h [ ]

  one_ledger :
      (s : LedgerState S) (observed : Bool)
      → Keeps (
          some (
            record { jobs = some s; observed_ownership = observed },
            sends (Payload.ledger s.ledger) ∷ [],
          ))
  one_ledger s observed l here = (s, refl, refl)
  one_ledger s observed l (there h) = elim h [ ]

module _ {M S : Type 0} (book : LinearMap Instant M) (jobs : IndexSet S) (texts : Texts)
    (show : Uuid → Bytes) where
  pass_on-Keeps :
      (my : Ipv4Addr) (addresses : M) (s : LedgerState S)
      → Keeps (pass_on book jobs texts show my addresses s)
  pass_on-Keeps my addresses s = elim (pass_on-Passed book jobs texts show my addresses s) [
    | inl (e, f) ↦ subst Keeps (sym f) (one_ledger s true)
    | inr (n, e, f) ↦ subst Keeps (sym f) (one_ledger (with_owner s n) false)
  ]

  on_print_quiet :
      (guid : Uuid) (s : LedgerState S) (r : Result (Unit {0}) Marlin.Error × List Bytes)
      (l : Ledger S) (told : List (Effect S))
      → Sends l ((on_print jobs show guid s r).1 ++ told)
      → Sends l told
  unfolding on_print
  on_print_quiet guid s (ok d, cmds) l told (there (there (there h))) = h
  on_print_quiet guid s (err e, cmds) l told (there h) = h

  manufacture_quiet :
      (env : Env) (s : LedgerState S) (l : Ledger S) (told : List (Effect S))
      → Sends l ((manufacture jobs texts show env s).1 ++ told)
      → Sends l told
  unfolding manufacture
  manufacture_quiet env s l told =
      elim (Option-cases (printable_job show env.fopen (jobs.iter s.ledger.jobs))) [
        | inl e ↦ rw (manufacture, e) (λ h. h)
        | inr (guid, e) ↦
            rw (manufacture, e)
              (on_print_quiet guid s
                (Marlin.print env.accepts texts env.idle_in_print (path_text show guid false) true)
                l told)
      ]

  made_quiet :
      (env : Env) (s : LedgerState S) (l : Ledger S) (told : List (Effect S))
      → Sends l ((made book jobs texts show env s).1 ++ told)
      → Sends l told
  made_quiet env s l told = elim (Bool-cases (env.ready && env.idle)) [
    | inl e ↦ rw e (manufacture_quiet env s l told)
    | inr e ↦ rw e (λ h. h)
  ]

  own_turn-Keeps :
      (env : Env) (my : Ipv4Addr) (addresses : M) (s : LedgerState S)
      → Keeps (own_turn book jobs texts show env my addresses s)
  unfolding own_turn
  own_turn-Keeps env my addresses s =
      let s' = (made book jobs texts show env s).0 in
      let kept = pass_on-Keeps my addresses s' in
      elim (Option-cases (pass_on book jobs texts show my addresses s')) [
        | inl e ↦ rw (own_turn, e) tt
        | inr ((m, told), e) ↦
            let kept' : Keeps (some (m, told)) = subst Keeps e kept in
            rw (own_turn, e) (λ l h. kept' l (made_quiet env s l told h))
      ]

  hold-Keeps :
      (env : Env) (my : Ipv4Addr) (addresses : M) (observed : Bool) (s : LedgerState S)
      → Keeps (hold book jobs texts show env my addresses observed s)
  unfolding hold
  hold-Keeps env my addresses observed s =
      let s' = takeover env.now my (keys (book.iter addresses)) s in
      elim (Bool-cases (is_owner env.ipaddr s')) [
        | inl e ↦ elim (Bool-cases observed) [
          | inl f ↦ rw (e, f) (own_turn-Keeps env my addresses s')
          | inr f ↦ rw (e, f) (quiet (record { jobs = some s'; observed_ownership = true }))
        ]
        | inr e ↦ rw e (quiet (record { jobs = some s'; observed_ownership = observed }))
      ]

  manage_round-Keeps :
      (env : Env) (addresses : M) (m : Manager S)
      → Keeps (manage_round book jobs texts show env addresses m)
  unfolding manage_round create
  manage_round-Keeps env addresses m = elim (Option-cases env.ipaddr) [
    | inl e ↦ rw (manage_round, e) (quiet m)
    | inr (my, e) ↦ elim (Option-cases m.jobs) [
      | inl f ↦
          rw (manage_round, e)
            (rw (manage_round, f)
              (one_ledger (new_state (record { owner = my; jobs = jobs.new }) env.now)
                m.observed_ownership))
      | inr (s, f) ↦
          rw (manage_round, e)
            (rw (manage_round, f) (hold-Keeps env my addresses m.observed_ownership s))
    ]
  ]

abbrev ledger_message : {S : Type 0} → Uuid → Ledger S → Message S
ledger_message fresh l = record { idempotency = fresh; payload = Payload.ledger l }

module _ {M S C H : Type 0} (book : LinearMap Instant M) (jobs : IndexSet S) (seen : History H)
    (decode : Bytes → Option (Message S)) where
  first_ledger :
      (fresh : Uuid) (l : Ledger S) (p : Packet) (bytes : Bytes) (r : Receiver M S C H)
      → p.chunk ≡ some bytes
      → decode bytes ≡ some (ledger_message fresh l)
      → seen.contains r.history fresh ≡ false
      → (receive book jobs seen decode p r).state.jobs ≡ some (new_state l p.now)
  unfolding receive handle on_payload
  first_ledger fresh l p bytes r e d new = rw (e, receive) (rw (d, receive) (rw (new, handle) refl))

  -- A turn of one machine that broadcasts a ledger, with an identifier that is not in another machine's
  -- history, over a network that may lose and double its packets: if one packet at least arrives and
  -- the history has a place, both machines hold the ledger that was broadcast, so that they agree on its
  -- owner and its jobs; and for whichever address one of them takes to be the owner's, so does the other.
  pub machines_agree :
      (texts : Texts) (show : Uuid → Bytes) (env : Env) (addresses : M) (m m' : Manager S)
      (effects : List (Effect S)) (l : Ledger S) (allocs : ℕ → Bool) (fresh : Uuid) (p : Packet)
      (ps : List Packet) (r : Receiver M S C H)
      → manage_round book jobs texts show env addresses m ≡ some (m', effects)
      → Sends l effects
      → 1 ≤ seen.capacity
      → Delivered decode (send_ledger allocs fresh l) (p ∷ ps)
      → seen.contains r.history fresh ≡ false
      → (mine : LedgerState S) × ((theirs : LedgerState S) × (m'.jobs ≡ some mine)
          × ((receive_all book jobs seen decode (p ∷ ps) r).state.jobs ≡ some theirs)
          × (mine.ledger ≡ l)
          × (theirs.ledger ≡ l)
          × ((addr : Option Ipv4Addr) → is_owner addr mine ≡ is_owner addr theirs))
  unfolding send_ledger is_owner
  machines_agree texts show env addresses m m' effects l allocs fresh p ps r turn sent room came
        new =
      let kept : Keeps (some (m', effects)) =
        subst Keeps turn (manage_round-Keeps book jobs texts show env addresses m) in
      let (mine, held, same) = kept l sent in
      let msg = ledger_message fresh l in
      let c = Delivered-Carries decode msg came (send_from-AllAre allocs 0 msg 3) in
      let ((bytes, e, d), rest) = c in
      (
        mine,
        (
          new_state l p.now,
          held,
          ap (λ s. s.state.jobs) (copies_ignored book jobs seen decode p ps msg r room c)
              ∙ first_ledger fresh l p bytes r e d new,
          same,
          refl,
          owners mine same,
        ),
      )
    where
      owners :
          (mine : LedgerState S)
          → mine.ledger ≡ l
          → (addr : Option Ipv4Addr) → is_owner addr mine ≡ is_owner addr (new_state l p.now)
      owners mine same none = refl
      owners mine same (some a) = ap (λ (k : Ledger S). a == k.owner) same
