-- ===== src/Tasks/Ring/Makes.antt =====
-- Which job `manage_ledger` takes out of the ledger when it manufactures.
use derusting.Prelude.{
  ◌≡◌, ap, inl, inr, refl, Bool, true, false, some, List, [], ◌∷◌, ◌++◌, elem, arith, Bytes, codes,
  Option-cases,
}
use derusting.Prelude.Result.{Result, ok, err}
use derusting.Kinds.{Uuid, LedgerState}
use derusting.Heapless.IndexSet.{IndexSet}
use derusting.Heapless.Texts.{Texts}
use derusting.Fs.Path.{path_text, IsHyphenated, length-path_text-le, no_nul-path_text}
use derusting.Fs.Open.{open_ok}
use derusting.Marlin
use derusting.Marlin.{print, dry_run}
use derusting.Marlin.Laws.{IsShort, print_file, dry_print-ok_iff, dry_print-ok}
use derusting.Tasks.Messages.{Payload}
use derusting.Tasks.Ring.{
  Env, Effect, sends, commands, set_offline, printable_job, without_job, on_print, manufacture,
}

-- The effects begin with the print of the job.
abbrev pub StartsPrint : {S : Type 0} → (Uuid → Bytes) → Uuid → List (Effect S) → Type 0
StartsPrint {S} show guid effects =
    (rest : List (Effect S)) × (effects
      ≡ commands (dry_run ∷ print_file (path_text show guid false) ∷ []) ∷ set_offline ∷ rest)

abbrev pub Listed : {S : Type 0} → IndexSet S → Uuid → LedgerState S → Type 0
Listed jobs guid s = elem guid (jobs.iter s.ledger.jobs) ≡ true

module _ {S : Type 0} (jobs : IndexSet S) (texts : Texts) (show : Uuid → Bytes)
    (hyphenated : (guid : Uuid) → IsHyphenated (show guid)) where
  path : Uuid → Bytes
  path guid = path_text show guid false

  path-IsShort : (guid : Uuid) → IsShort (path guid)
  unfolding path
  path-IsShort guid = record {
    size = omega (arith, length-path_text-le show guid false (hyphenated guid));
    no_nul = no_nul-path_text show guid false (hyphenated guid);
  }

  -- The job that is chosen is listed, and its file can be opened.
  printable_job-some :
      (fopen : Bytes → Bool) (guids : List Uuid) (guid : Uuid)
      → printable_job show fopen guids ≡ some guid
      → (elem guid guids ≡ true) × (open_ok fopen (path guid) ≡ true)
  unfolding printable_job elem path
  printable_job-some fopen [] guid h = cc
  printable_job-some fopen (g ∷ gs) guid h = ground (arith, printable_job-some fopen gs guid)

  -- `manufacture` leaves the ledger as it was, or takes out one job: a listed one, whose file can be
  -- opened, which an idle printer has accepted.
  pub data Made (env : Env) (s : LedgerState S) (r : LedgerState S × List (Effect S)) : Type 0 where
    kept : r.0 ≡ s → Made env s r
    taken :
        (guid : Uuid)
        → r.0 ≡ without_job jobs guid s
        → Listed jobs guid s
        → open_ok env.fopen (path_text show guid false) ≡ true
        → env.accepts (print_file (path_text show guid false)) ≡ true
        → StartsPrint show guid r.1
        → Made env s r

  logged : Uuid → Effect S
  logged guid = sends (Payload.log (codes "Job Accepted: " ++ show guid))

  on_print-Made :
      (env : Env) (s : LedgerState S) (guid : Uuid)
      (r : Result (Unit {0}) Marlin.Error × List Bytes)
      → Listed jobs guid s
      → open_ok env.fopen (path_text show guid false) ≡ true
      → (r.0 ≡ ok tt
          → (env.accepts (print_file (path_text show guid false)) ≡ true)
            × (r.1 ≡ dry_run ∷ print_file (path_text show guid false) ∷ []))
      → Made env s (on_print jobs show guid s r)
  unfolding on_print logged
  on_print-Made env s guid (ok done, cmds) l o h =
      taken guid refl l o (h refl).0
        (logged guid ∷ [], ap (λ c. commands c ∷ set_offline ∷ logged guid ∷ []) (h refl).1)
  on_print-Made env s guid (err e, cmds) l o h = kept refl

  pub manufacture-Made :
      (env : Env) (s : LedgerState S) → Made env s (manufacture jobs texts show env s)
  unfolding manufacture path
  manufacture-Made env s =
      elim (Option-cases (printable_job show env.fopen (jobs.iter s.ledger.jobs))) [
        | inl e ↦ rw (e, manufacture) (kept refl)
        | inr (guid, e) ↦
            let (listed, opens) = printable_job-some env.fopen (jobs.iter s.ledger.jobs) guid e in
            let short = path-IsShort guid in
            rw (e, manufacture)
              (on_print-Made env s guid _ listed opens λ done. (
                ((dry_print-ok_iff env.accepts texts env.idle_in_print (path guid) short).0 done).2,
                dry_print-ok env.accepts texts env.idle_in_print (path guid) short done,
              ))
      ]
