-- ===== src/Tasks/Ring/Turns.antt =====
-- What one turn of `manage_ledger` does, for an owner and for the others.
use mathlib.Core.Bool.{false≢true}
use derusting.Prelude.{
  ℕ, ◌*◌, ◌≤◌, ◌≡◌, ◌≢◌, ◌⊎◌, sym, inl, inr, refl, Bool, true, false, ◌&&◌, ◌||◌, Option, none,
  some, List, [], ◌∷◌, ◌++◌, if◌then◌else◌, is_nil, keys, arith, Bytes, Bool-cases, Option-cases,
}
use derusting.Kinds.{Ipv4Addr, Uuid, LedgerState, is_owner, elapsed}
use derusting.Heapless.LinearMap.{LinearMap}
use derusting.Heapless.IndexSet.{IndexSet}
use derusting.Heapless.Texts.{Texts}
use derusting.Tasks.Messages.{Payload}
use derusting.Tasks.Ring.{
  Env, Effect, sends, commands, set_offline, Manager, next_owner, with_owner, takeover, manufacture,
  pass_on, own_turn, hold, create, manage_round,
}
use derusting.Tasks.Ring.Next.{next_owner-IsNext}

-- The effects hold a command to the printer.
unfoldable pub has_command : {S : Type 0} → List (Effect S) → Bool
has_command [] = false
has_command (sends p ∷ es) = has_command es
has_command (commands cmds ∷ es) = true
has_command (set_offline ∷ es) = has_command es

is_nil-keys : {V : Type 0} (l : List (ℕ × V)) → is_nil l ≡ false → keys l ≢ []
is_nil-keys [] h = absurd (false≢true (sym h))
is_nil-keys (e ∷ l) h = λ p. cc

is_nil-keys_nil : {V : Type 0} (l : List (ℕ × V)) → is_nil l ≡ true → keys l ≡ []
is_nil-keys_nil [] h = refl
is_nil-keys_nil (e ∷ l) h = cc

module _ {S : Type 0} where
  has_command-append :
      (es fs : List (Effect S)) → has_command (es ++ fs) ≡ (has_command es || has_command fs)
  unfolding has_command
  has_command-append [] fs = refl
  has_command-append (sends p ∷ es) fs = has_command-append es fs
  has_command-append (commands cmds ∷ es) fs = refl
  has_command-append (set_offline ∷ es) fs = has_command-append es fs

module _ {M S : Type 0} (book : LinearMap ℕ M) (jobs : IndexSet S) (texts : Texts)
    (show : Uuid → Bytes) where
  abbrev turn : Env → M → Manager S → Option (Manager S × List (Effect S))
  turn = manage_round book jobs texts show

  -- The owner after `pass_on`: the next machine on the way round, or the same where the book is empty.
  abbrev pub Passed : Ipv4Addr → M → LedgerState S → Option (Manager S × List (Effect S)) → Type 0
  Passed my addresses s r =
      ((keys (book.iter addresses) ≡ [])
        × (r
            ≡ some (
              record { jobs = some s; observed_ownership = true },
              sends (Payload.ledger s.ledger) ∷ [],
            )))
      ⊎ ((n : Ipv4Addr) × (next_owner my (keys (book.iter addresses)) ≡ some n)
          × (r
              ≡ some (
                record { jobs = some (with_owner s n); observed_ownership = false },
                sends (Payload.ledger (with_owner s n).ledger) ∷ [],
              )))

  pub pass_on-Passed :
      (my : Ipv4Addr) (addresses : M) (s : LedgerState S)
      → Passed my addresses s (pass_on book jobs texts show my addresses s)
  unfolding pass_on
  pass_on-Passed my addresses s = elim (Bool-cases (is_nil (book.iter addresses))) [
    | inl e ↦ inl (is_nil-keys_nil (book.iter addresses) e, rw (book.is_empty-iter addresses, e))
    | inr e ↦
        let (n, told, next) =
          next_owner-IsNext my (keys (book.iter addresses)) (is_nil-keys (book.iter addresses) e) in
        inr (n, told, rw (book.is_empty-iter addresses, e) (rw (told, pass_on)))
  ]

  -- The printing of an owner's turn.
  abbrev pub made : Env → LedgerState S → LedgerState S × List (Effect S)
  made env s = if env.ready && env.idle then manufacture jobs texts show env s else (s, [])

  own_turn-ne_none :
      (env : Env) (my : Ipv4Addr) (addresses : M) (s : LedgerState S)
      → own_turn book jobs texts show env my addresses s ≢ none
  unfolding own_turn
  own_turn-ne_none env my addresses s h = ground (arith, pass_on-Passed my addresses (made env s).0)

  -- No turn panics: the least address is asked for only where the book has one.
  manage_round-ne_none : (env : Env) (addresses : M) (m : Manager S) → turn env addresses m ≢ none
  unfolding manage_round hold create
  manage_round-ne_none env addresses m h = elim (Option-cases env.ipaddr) [
    | inl e ↦ ground arith
    | inr (my, e) ↦ elim (Option-cases m.jobs) [
      | inl k ↦ ground arith
      | inr (s, k) ↦ ground (
        arith,
        own_turn-ne_none env my addresses (takeover env.now my (keys (book.iter addresses)) s),
      )
    ]
  ]

  -- A machine that does not own its ledger, and has had word of it in the last 45 seconds, changes
  -- nothing and is silent.
  bystander :
      (env : Env) (addresses : M) (m : Manager S) (my : Ipv4Addr) (s : LedgerState S)
      → env.ipaddr ≡ some my
      → m.jobs ≡ some s
      → my ≢ s.ledger.owner
      → elapsed env.now s.received ≤ 45 * 1000
      → turn env addresses m ≡ some (m, [])
  unfolding manage_round takeover hold is_owner
  bystander env addresses m my s a h ne fresh = ground arith

  -- A machine that finds itself the owner only notes so in this turn: no job, and no message.
  first_turn_waits :
      (env : Env) (addresses : M) (m : Manager S) (my : Ipv4Addr) (s : LedgerState S)
      → env.ipaddr ≡ some my
      → m.jobs ≡ some s
      → s.ledger.owner ≡ my
      → m.observed_ownership ≡ false
      → (m' : Manager S) × (turn env addresses m ≡ some (m', []))
        × (m'.observed_ownership ≡ true)
        × (m'.jobs ≡ some s)
  unfolding manage_round takeover hold is_owner
  first_turn_waits env addresses m my s a h own new =
      (record { jobs = some s; observed_ownership = true }, ground arith, refl, refl)

  own_turn-command :
      (env : Env) (my : Ipv4Addr) (addresses : M) (s : LedgerState S) (m' : Manager S)
      (effects : List (Effect S))
      → own_turn book jobs texts show env my addresses s ≡ some (m', effects)
      → has_command effects ≡ true
      → (env.ready ≡ true) × (env.idle ≡ true)
  unfolding own_turn has_command
  own_turn-command env my addresses s m' effects h c =
      ground (arith, pass_on-Passed my addresses (made env s).0)

  -- A printer gets a command only from a machine that is ready and idle, and that owned its ledger,
  -- after a possible takeover, in an earlier turn too.
  command_needs_owner :
      (env : Env) (addresses : M) (m m' : Manager S) (effects : List (Effect S))
      → turn env addresses m ≡ some (m', effects)
      → has_command effects ≡ true
      → (my : Ipv4Addr) × (s : LedgerState S) × (env.ipaddr ≡ some my)
        × (m.jobs ≡ some s)
        × ((takeover env.now my (keys (book.iter addresses)) s).ledger.owner ≡ my)
        × (m.observed_ownership ≡ true)
        × (env.ready ≡ true)
        × (env.idle ≡ true)
  unfolding manage_round hold create is_owner has_command
  command_needs_owner env addresses m m' effects h c = elim (Option-cases env.ipaddr) [
    | inl e ↦ absurd (ground arith)
    | inr (my, e) ↦ elim (Option-cases m.jobs) [
      | inl k ↦ absurd (ground arith)
      | inr (s, k) ↦
          let s' : LedgerState S = takeover env.now my (keys (book.iter addresses)) s in
          let busy = own_turn-command env my addresses s' m' effects in
          (
            my,
            s,
            e,
            k,
            ground (arith, busy),
            ground (arith, busy),
            ground (arith, busy),
            ground (arith, busy),
          )
    ]
  ]
