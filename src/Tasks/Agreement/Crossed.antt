-- ===== src/Tasks/Agreement/Crossed.antt =====
-- Two machines that make a ledger at the same time.
use derusting.Prelude.{
  ℕ, ◌≤◌, ◌≡◌, ◌≢◌, ◌∙◌, ap, sym, subst, refl, Bool, false, Option, none, some, List, [], ◌∷◌,
  Bytes, arith,
}
use derusting.Kinds.{Ipv4Addr, Uuid, Instant, Ledger, LedgerState, is_owner}
use derusting.Heapless.LinearMap.{LinearMap}
use derusting.Heapless.IndexSet.{IndexSet}
use derusting.Heapless.History.{History}
use derusting.Heapless.Texts.{Texts}
use derusting.Tasks.Messages.{Payload, Message, send_ledger}
use derusting.Tasks.Ring.{Env, Effect, sends, Manager, create, manage_round}
use derusting.Tasks.Udp.{Packet, Receiver, receive_all}
use derusting.Tasks.Alerts.{Delivered}
use derusting.Tasks.Agreement.{Sends, here, there, machines_agree}

only_one :
    {S : Type 0} (l k : Ledger S) → Sends l (sends (Payload.ledger k) ∷ []) → l.owner ≡ k.owner
only_one l k here = refl
only_one l k (there h) = elim h [ ]

-- A machine without a ledger, its turn, and the ledger that it broadcasts.
pub record Maker (M S : Type 0) : Type 0 where
  pub addr : Ipv4Addr
  pub env : Env
  pub addresses : M
  pub before : Manager S
  pub after : Manager S
  pub effects : List (Effect S)
  pub ledger : Ledger S
  pub fresh : Uuid
  -- which rounds of the broadcast find a buffer
  pub allocs : ℕ → Bool

-- The machine at the address holds the ledger of the other one, and is not its owner.
abbrev pub HoldsAnothers : {S : Type 0} → Ipv4Addr → Ipv4Addr → Option (LedgerState S) → Type 0
HoldsAnothers {S} addr other held =
    (l : LedgerState S) × (held ≡ some l)
    × (l.ledger.owner ≡ other)
    × (is_owner (some addr) l ≡ false)

module _ {M S : Type 0} (book : LinearMap Instant M) (jobs : IndexSet S) (texts : Texts)
    (show : Uuid → Bytes) where
  abbrev effects_of : Option (Manager S × List (Effect S)) → List (Effect S)
  effects_of none = []
  effects_of (some (m, effects)) = effects

  created_owner :
      (env : Env) (addresses : M) (m m' : Manager S) (effects : List (Effect S)) (l : Ledger S)
      (my : Ipv4Addr)
      → env.ipaddr ≡ some my
      → m.jobs ≡ none
      → manage_round book jobs texts show env addresses m ≡ some (m', effects)
      → Sends l effects
      → l.owner ≡ my
  unfolding manage_round create
  created_owner env addresses m m' effects l my a held turn sent =
      let first : Ledger S = record { owner = my; jobs = jobs.new } in
      let same : effects_of (manage_round book jobs texts show env addresses m)
          ≡ sends (Payload.ledger first) ∷ [] =
        rw (manage_round, a) (rw (manage_round, held) refl) in
      only_one l first (subst (Sends l) (sym (ap effects_of turn) ∙ same) sent)

  -- The turn in which it makes its ledger.
  abbrev pub Makes : Maker M S → Type 0
  Makes k =
      (k.env.ipaddr ≡ some k.addr)
      × (k.before.jobs ≡ none)
      × (manage_round book jobs texts show k.env k.addresses k.before ≡ some (k.after, k.effects))
      × Sends k.ledger k.effects

module _ {M S C H : Type 0} (book : LinearMap Instant M) (jobs : IndexSet S) (seen : History H)
    (decode : Bytes → Option (Message S)) (texts : Texts) (show : Uuid → Bytes) where
  -- A machine gets the ledger that another has made.
  abbrev pub Gets : Receiver M S C H → Maker M S → Packet → List Packet → Type 0
  Gets r k p ps =
      Delivered decode (send_ledger k.allocs k.fresh k.ledger) (p ∷ ps)
      × (seen.contains r.history k.fresh ≡ false)

  other_owner :
      (addr : Ipv4Addr) (k : Maker M S) (r : Receiver M S C H) (p : Packet) (ps : List Packet)
      → addr ≢ k.addr
      → 1 ≤ seen.capacity
      → Makes book jobs texts show k
      → Gets r k p ps
      → HoldsAnothers addr k.addr (receive_all book jobs seen decode (p ∷ ps) r).state.jobs
  unfolding is_owner
  other_owner addr k r p ps apart room (a, held, turn, sent) (came, new) =
      let owner =
        created_owner book jobs texts show k.env k.addresses k.before k.after k.effects k.ledger
          k.addr a held turn sent in
      let (mine, (theirs, e, got, same, same', agree)) =
        machines_agree book jobs seen decode texts show k.env k.addresses k.before k.after k.effects
          k.ledger k.allocs k.fresh p ps r turn sent room came new in
      let owned : theirs.ledger.owner ≡ k.addr = ap (λ (l : Ledger S). l.owner) same' ∙ owner in
      (theirs, got, owned, ground (arith, owned))

  -- Two machines at different addresses, each of which holds no ledger in its turn, make one each; when each
  -- gets a packet of the other's broadcast, with an identifier that is not in its history and whatever
  -- it holds by then, each of them holds a ledger whose owner is the other machine, so that neither is
  -- the owner of what it holds. The histories have a place.
  pub crossed_ledgers :
      (one two : Maker M S) (r r' : Receiver M S C H) (p p' : Packet) (ps ps' : List Packet)
      → one.addr ≢ two.addr
      → 1 ≤ seen.capacity
      → Makes book jobs texts show one
      → Makes book jobs texts show two
      → Gets r two p ps
      → Gets r' one p' ps'
      → HoldsAnothers one.addr two.addr (receive_all book jobs seen decode (p ∷ ps) r).state.jobs
        × HoldsAnothers two.addr one.addr
            (receive_all book jobs seen decode (p' ∷ ps') r').state.jobs
  crossed_ledgers one two r r' p p' ps ps' apart room makes makes' gets gets' = (
    other_owner one.addr two r p ps apart room makes' gets,
    other_owner two.addr one r' p' ps' (λ e. apart (sym e)) room makes gets',
  )
