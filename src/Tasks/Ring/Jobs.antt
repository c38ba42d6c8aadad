-- ===== src/Tasks/Ring/Jobs.antt =====
-- Which jobs a turn of `manage_ledger` takes out of the ledger.
use derusting.Prelude.{
  ℕ, ◌≡◌, ◌⊎◌, ◌∙◌, ap, inl, inr, refl, Bool, true, false, ◌&&◌, Option, some, List, [], ◌∷◌, ◌++◌,
  ◌==◌, elem, keys, arith, Bytes, Bool-cases, Option-cases, ==_iff,
}
use derusting.Kinds.{Ipv4Addr, Uuid, LedgerState, is_owner}
use derusting.Heapless.LinearMap.{LinearMap}
use derusting.Heapless.IndexSet.{IndexSet}
use derusting.Heapless.Texts.{Texts}
use derusting.Fs.Path.{IsHyphenated}
use derusting.Tasks.Messages.{Payload}
use derusting.Tasks.Ring.{
  with_owner, Env, Effect, sends, Manager, takeover, own_turn, hold, manage_round,
}
use derusting.Tasks.Ring.Turns.{made, pass_on-Passed}
use derusting.Tasks.Ring.Makes.{StartsPrint, Listed, Made, kept, taken, manufacture-Made}

jobs-takeover :
    {S : Type 0} (now : ℕ) (my : Ipv4Addr) (addrs : List Ipv4Addr) (s : LedgerState S)
    → (takeover now my addrs s).ledger.jobs ≡ s.ledger.jobs
unfolding takeover
jobs-takeover now my addrs s = ground arith

module _ {M S : Type 0} (book : LinearMap ℕ M) (jobs : IndexSet S) (texts : Texts)
    (show : Uuid → Bytes) (hyphenated : (guid : Uuid) → IsHyphenated (show guid)) where
  -- The job is in the ledger that the turn leaves, or the turn has printed it.
  abbrev pub KeptOrPrinted : Uuid → Option (Manager S × List (Effect S)) → Type 0
  KeptOrPrinted guid r =
      (m' : Manager S) × (effects : List (Effect S)) × (r ≡ some (m', effects))
      × (((s' : LedgerState S) × (m'.jobs ≡ some s') × Listed jobs guid s')
          ⊎ StartsPrint show guid effects)

  Made-KeptOrPrinted :
      (env : Env) (s : LedgerState S) (guid : Uuid) (r : LedgerState S × List (Effect S))
      → Listed jobs guid s
      → Made jobs texts show hyphenated env s r
      → Listed jobs guid r.0 ⊎ StartsPrint show guid r.1
  Made-KeptOrPrinted env s guid r listed (kept e) = inl (rw e listed)
  Made-KeptOrPrinted env s guid r listed (taken g e l o a starts) = elim (Bool-cases (guid == g)) [
    | inl same ↦ inr (rw ((==_iff guid g).0 same) starts)
    | inr other ↦ inl (rw e (jobs.iter-remove g guid s.ledger.jobs ∙ ground arith))
  ]

  made-KeptOrPrinted :
      (env : Env) (s : LedgerState S) (guid : Uuid)
      → Listed jobs guid s
      → let r = made book jobs texts show env s in Listed jobs guid r.0 ⊎ StartsPrint show guid r.1
  made-KeptOrPrinted env s guid listed = elim (Bool-cases (env.ready && env.idle)) [
    | inl e ↦
        rw e (
          Made-KeptOrPrinted env s guid _ listed
            (manufacture-Made jobs texts show hyphenated env s))
    | inr e ↦ rw e (inl listed)
  ]

  StartsPrint-append :
      (guid : Uuid) (es fs : List (Effect S))
      → StartsPrint show guid es
      → StartsPrint show guid (es ++ fs)
  StartsPrint-append guid es fs (rest, e) = (rest ++ fs, ap (λ (l : List (Effect S)). l ++ fs) e)

  after :
      (env : Env) (s : LedgerState S) (guid : Uuid) (t : LedgerState S) (fs : List (Effect S))
      → Listed jobs guid s
      → (Listed jobs guid (made book jobs texts show env s).0 → Listed jobs guid t)
      → ((s' : LedgerState S) × (some t ≡ some s') × Listed jobs guid s')
        ⊎ StartsPrint show guid ((made book jobs texts show env s).1 ++ fs)
  after env s guid t fs listed keep = elim (made-KeptOrPrinted env s guid listed) [
    | inl l ↦ inl (t, refl, keep l)
    | inr p ↦ inr (StartsPrint-append guid _ fs p)
  ]

  own_turn-KeptOrPrinted :
      (env : Env) (my : Ipv4Addr) (addresses : M) (s : LedgerState S) (guid : Uuid)
      → Listed jobs guid s
      → KeptOrPrinted guid (own_turn book jobs texts show env my addresses s)
  unfolding own_turn
  own_turn-KeptOrPrinted env my addresses s guid listed =
      let r : LedgerState S × List (Effect S) = made book jobs texts show env s in
      elim (pass_on-Passed book jobs texts show my addresses r.0) [
        | inl (empty, e) ↦ (
          record { jobs = some r.0; observed_ownership = true },
          r.1 ++ sends (Payload.ledger r.0.ledger) ∷ [],
          rw (e, own_turn),
          after env s guid r.0 _ listed (λ l. l),
        )
        | inr (n, told, e) ↦ (
          record { jobs = some (with_owner r.0 n); observed_ownership = false },
          r.1 ++ sends (Payload.ledger (with_owner r.0 n).ledger) ∷ [],
          rw (e, own_turn),
          after env s guid (with_owner r.0 n) _ listed (λ l. l),
        )
      ]

  hold-KeptOrPrinted :
      (env : Env) (my : Ipv4Addr) (addresses : M) (observed : Bool) (s : LedgerState S)
      (guid : Uuid)
      → Listed jobs guid s
      → KeptOrPrinted guid (hold book jobs texts show env my addresses observed s)
  unfolding hold
  hold-KeptOrPrinted env my addresses observed s guid listed =
      let s' : LedgerState S = takeover env.now my (keys (book.iter addresses)) s in
      let still : Listed jobs guid s' =
        ap (λ (t : S). elem guid (jobs.iter t))
          (jobs-takeover env.now my (keys (book.iter addresses)) s)
        ∙ listed in
      elim (Bool-cases (is_owner env.ipaddr s')) [
        | inl o ↦ elim (Bool-cases observed) [
          | inl b ↦ rw (o, hold) (rw b (own_turn-KeptOrPrinted env my addresses s' guid still))
          | inr b ↦ (
            record { jobs = some s'; observed_ownership = true },
            [],
            rw (o, hold) (rw b),
            inl (s', refl, still),
          )
        ]
        | inr o ↦ (
          record { jobs = some s'; observed_ownership = observed },
          [],
          rw (o, hold),
          inl (s', refl, still),
        )
      ]

  -- No job gets lost: where identifiers are written with their documented 36 characters, every job of
  -- the ledger is still there after a turn, whoever owns the ledger now, but for one job that this
  -- turn has printed.
  pub jobs-KeptOrPrinted :
      (env : Env) (addresses : M) (m : Manager S) (s : LedgerState S) (guid : Uuid)
      → m.jobs ≡ some s
      → Listed jobs guid s
      → KeptOrPrinted guid (manage_round book jobs texts show env addresses m)
  unfolding manage_round
  jobs-KeptOrPrinted env addresses m s guid held listed = elim (Option-cases env.ipaddr) [
    | inl e ↦ (m, [], ground arith, inl (s, held, listed))
    | inr (my, e) ↦
        let as_hold : manage_round book jobs texts show env addresses m
            ≡ hold book jobs texts show env my addresses m.observed_ownership s =
          ground arith in
        rw as_hold (hold-KeptOrPrinted env my addresses m.observed_ownership s guid listed)
  ]
