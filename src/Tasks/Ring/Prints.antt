-- ===== src/Tasks/Ring/Prints.antt =====
-- Which prints a turn of `manage_ledger` brings, and how often it sets the printer offline.
use derusting.Prelude.{
  ℕ, suc, ◌+◌, ◌≤◌, ◌≡◌, ◌∙◌, sym, ap, inl, inr, refl, Bool, true, false, Option, none, some, List,
  [], ◌∷◌, ◌++◌, keys, if◌then◌else◌, arith, Bytes, Bool-cases, Option-cases,
}
use derusting.Prelude.Result.{Result, ok, err}
use derusting.Kinds.{Ipv4Addr, Uuid, LedgerState, is_owner}
use derusting.Heapless.LinearMap.{LinearMap}
use derusting.Heapless.IndexSet.{IndexSet}
use derusting.Heapless.Texts.{Texts}
use derusting.Fs.Path.{path_text}
use derusting.Marlin
use derusting.Marlin.{Firmware, is_idle, is_ready}
use derusting.Tasks.Messages.{Payload}
use derusting.Tasks.Ring.{
  with_owner, Env, Effect, sends, commands, set_offline, Manager, takeover, printable_job, on_print,
  manufacture, own_turn, hold, create, manage_round,
}
use derusting.Tasks.Ring.Turns.{made, pass_on-Passed}

-- Whether the firmware has accepted the last of the commands.
abbrev pub takes : (Bytes → Bool) → List Bytes → Bool
takes accepts [] = false
takes accepts (cmd ∷ []) = accepts cmd
takes accepts (cmd ∷ more ∷ cmds) = takes accepts (more ∷ cmds)

abbrev pub one_if : Bool → ℕ
one_if b = if b then 1 else 0

-- The prints among the effects that the firmware has accepted.
abbrev pub taken : {S : Type 0} → (Bytes → Bool) → List (Effect S) → ℕ
taken accepts [] = 0
taken accepts (commands cmds ∷ es) = one_if (takes accepts cmds) + taken accepts es
taken accepts (e ∷ es) = taken accepts es

-- The calls of `set_offline`.
abbrev pub offlines : {S : Type 0} → List (Effect S) → ℕ
offlines [] = 0
offlines (set_offline ∷ es) = suc (offlines es)
offlines (e ∷ es) = offlines es

module _ {S : Type 0} where
  taken-append :
      (accepts : Bytes → Bool) (es fs : List (Effect S))
      → taken accepts (es ++ fs) ≡ taken accepts es + taken accepts fs
  taken-append accepts [] fs = omega arith
  taken-append accepts (commands cmds ∷ es) fs = let h = taken-append accepts es fs in omega arith
  taken-append accepts (sends p ∷ es) fs = taken-append accepts es fs
  taken-append accepts (set_offline ∷ es) fs = taken-append accepts es fs

  offlines-append : (es fs : List (Effect S)) → offlines (es ++ fs) ≡ offlines es + offlines fs
  offlines-append [] fs = omega arith
  offlines-append (set_offline ∷ es) fs = let h = offlines-append es fs in omega arith
  offlines-append (sends p ∷ es) fs = offlines-append es fs
  offlines-append (commands cmds ∷ es) fs = offlines-append es fs

  -- Each accepted print is followed by a call of `set_offline`, and there are so many at most.
  abbrev pub IsBounded : (Bytes → Bool) → ℕ → List (Effect S) → Type 0
  IsBounded accepts most es = (taken accepts es ≤ offlines es) × (offlines es ≤ most)

  sends-IsBounded :
      (accepts : Bytes → Bool) (most : ℕ) (es : List (Effect S)) (p : Payload S)
      → IsBounded accepts most es
      → IsBounded accepts most (es ++ sends p ∷ [])
  sends-IsBounded accepts most es p (few, fewer) =
      let h = taken-append accepts es (sends p ∷ []) in
      let k = offlines-append es (sends p ∷ []) in (omega arith, omega arith)

as_result-fails : (b : Bool) (e : Marlin.Error) → Marlin.as_result b ≡ err e → b ≡ false
as_result-fails true e h = cc
as_result-fails false e h = refl

-- A print that fails has no accepted command at its end.
module _ (accepts : Bytes → Bool) where
  submit_dry :
      (cmd : Bytes)
      → accepts Marlin.dry_run ≡ true
      → Marlin.submit accepts true cmd ≡ (Marlin.as_result (accepts cmd), Marlin.dry_run ∷ cmd ∷ [])
  unfolding Marlin.submit
  submit_dry cmd a = rw (Marlin.submit, a) refl

  submit_refused :
      (cmd : Bytes)
      → accepts Marlin.dry_run ≡ false
      → takes accepts (Marlin.submit accepts true cmd).1 ≡ false
  unfolding Marlin.submit
  submit_refused cmd a = rw (Marlin.submit, a) a

  submit-fails :
      (cmd : Bytes) (e : Marlin.Error)
      → (Marlin.submit accepts true cmd).0 ≡ err e
      → takes accepts (Marlin.submit accepts true cmd).1 ≡ false
  submit-fails cmd e h = elim (Bool-cases (accepts Marlin.dry_run)) [
    | inl a ↦
        let at = submit_dry cmd a in
        ap (λ r. takes accepts r.1) at
        ∙ as_result-fails (accepts cmd) e (ap (λ r. r.0) (sym at) ∙ h)
    | inr a ↦ submit_refused cmd a
  ]

  print_with :
      (texts : Texts) (file : Bytes) (r : Result Bytes Marlin.Error) (e : Marlin.Error)
      → Marlin.print_command texts file ≡ r
      → (Marlin.print accepts texts true file true).0 ≡ err e
      → takes accepts (Marlin.print accepts texts true file true).1 ≡ false
  unfolding Marlin.print
  print_with texts file (err x) e same h = rw (Marlin.print, same) refl
  print_with texts file (ok cmd) e same h =
      let at : Marlin.print accepts texts true file true ≡ Marlin.submit accepts true cmd =
        rw (Marlin.print, same) refl in
      ap (λ r. takes accepts r.1) at ∙ submit-fails cmd e (ap (λ r. r.0) (sym at) ∙ h)

  print-fails :
      (texts : Texts) (idle : Bool) (file : Bytes) (e : Marlin.Error)
      → (Marlin.print accepts texts idle file true).0 ≡ err e
      → takes accepts (Marlin.print accepts texts idle file true).1 ≡ false
  unfolding Marlin.print
  print-fails texts false file e h = refl
  print-fails texts true file e h = print_with texts file (Marlin.print_command texts file) e refl h

module _ {M S : Type 0} (book : LinearMap ℕ M) (jobs : IndexSet S) (texts : Texts)
    (show : Uuid → Bytes) where
  on_print-IsBounded :
      (accepts : Bytes → Bool) (guid : Uuid) (s : LedgerState S)
      (r : Result (Unit {0}) Marlin.Error × List Bytes)
      → ((e : Marlin.Error) → r.0 ≡ err e → takes accepts r.1 ≡ false)
      → IsBounded accepts 1 (on_print jobs show guid s r).1
  unfolding on_print
  on_print-IsBounded accepts guid s (ok u, cmds) h = (ground arith, omega arith)
  on_print-IsBounded accepts guid s (err e, cmds) h =
      let none_taken = h e refl in (ground arith, omega arith)

  manufacture-IsBounded :
      (env : Env) (s : LedgerState S)
      → IsBounded env.accepts 1 (manufacture jobs texts show env s).1
  unfolding manufacture
  manufacture-IsBounded env s =
      elim (Option-cases (printable_job show env.fopen (jobs.iter s.ledger.jobs))) [
        | inl e ↦ rw (manufacture, e) (omega arith, omega arith)
        | inr (guid, e) ↦
            let file = path_text show guid false in
            rw (manufacture, e)
              (on_print-IsBounded env.accepts guid s
                (Marlin.print env.accepts texts env.idle_in_print file true)
                (λ e'. print-fails env.accepts texts env.idle_in_print file e'))
      ]

  made-IsBounded :
      (env : Env) (s : LedgerState S)
      → IsBounded env.accepts (one_if env.ready) (made book jobs texts show env s).1
  made-IsBounded env s =
      let (few, fewer) = manufacture-IsBounded env s in (ground arith, ground arith)

  -- The same of a turn.
  abbrev pub IsBoundedTurn : Env → Option (Manager S × List (Effect S)) → Type 0
  IsBoundedTurn env none = Unit {0}
  IsBoundedTurn env (some (m, es)) = IsBounded env.accepts (one_if env.ready) es

  own_turn-IsBoundedTurn :
      (env : Env) (my : Ipv4Addr) (addresses : M) (s : LedgerState S)
      → IsBoundedTurn env (own_turn book jobs texts show env my addresses s)
  unfolding own_turn
  own_turn-IsBoundedTurn env my addresses s =
      let most = made-IsBounded env s in
      let (s', out) = made book jobs texts show env s in
      elim (pass_on-Passed book jobs texts show my addresses s') [
        | inl (none_known, e) ↦
            rw (own_turn, e)
              (sends-IsBounded env.accepts (one_if env.ready) out (Payload.ledger s'.ledger) most)
        | inr (n, next, e) ↦
            rw (own_turn, e)
              (sends-IsBounded env.accepts (one_if env.ready) out
                (Payload.ledger (with_owner s' n).ledger) most)
      ]

  hold-IsBoundedTurn :
      (env : Env) (my : Ipv4Addr) (addresses : M) (observed : Bool) (s : LedgerState S)
      → IsBoundedTurn env (hold book jobs texts show env my addresses observed s)
  unfolding hold
  hold-IsBoundedTurn env my addresses observed s =
      let s' = takeover env.now my (keys (book.iter addresses)) s in
      let most = own_turn-IsBoundedTurn env my addresses s' in
      elim (Bool-cases (is_owner env.ipaddr s')) [
        | inl e ↦ elim (Bool-cases observed) [
          | inl f ↦ rw (hold, e, f) most
          | inr f ↦ rw (hold, e, f) (omega arith, omega arith)
        ]
        | inr e ↦ rw (hold, e) (omega arith, omega arith)
      ]

  pub manage_round-IsBoundedTurn :
      (env : Env) (addresses : M) (m : Manager S)
      → IsBoundedTurn env (manage_round book jobs texts show env addresses m)
  unfolding manage_round create
  manage_round-IsBoundedTurn env addresses m = elim (Option-cases env.ipaddr) [
    | inl e ↦ rw (manage_round, e) (omega arith, omega arith)
    | inr (my, e) ↦ elim (Option-cases m.jobs) [
      | inl f ↦ rw (manage_round, e, f) (omega arith, omega arith)
      | inr (s, f) ↦
          rw (manage_round, e, f) (hold-IsBoundedTurn env my addresses m.observed_ownership s)
    ]
  ]
