-- ===== src/Tasks/Locks/Kept.antt =====
-- Over any steps of the tasks, what they have left fits who holds the mutexes.
use derusting.Prelude.{
  ◌≡◌, ◌∙◌, sym, refl, inl, inr, true, false, Option, none, some, List, [], arith, ◌==◌, ==_iff,
  ◌≢◌, subst,
}
use derusting.Start.{Task}
use derusting.Tasks.Locks.{
  Lock, addresses, jobs, Op, turns, System, number, with_rest, Among, here, Goes, takes, leaves,
  goes_on, Step, within, begins, start, Reach, later,
}
use derusting.Tasks.Locks.Orderly.{
  holds, Fits, put, orderly_turn, number-cases, taker-Fits, leaver-Fits, other-Fits, left,
}

apart : (t u : Task) → (number t == number u) ≡ false → some t ≢ some u
apart t u f e = ground arith

-- Every task's turn fits who holds the mutexes.
abbrev pub Kept : System → Type 0
Kept s = (u : Task) → Fits s.holder u (s.rest u)

-- A task has `ops` left now, and the others have what they had.
all_fit :
    (holder : Lock → Option Task) (t : Task) (ops : List Op) (s : System)
    → Fits holder t ops
    → ((u : Task) → (number t == number u) ≡ false → Fits holder u (s.rest u))
    → (u : Task) → Fits holder u ((with_rest t ops s).rest u)
all_fit holder t ops s mine others u = elim (number-cases t u) [
  | inl e ↦
      subst (λ u. Fits holder u ((with_rest t ops s).rest u)) e
        (rw ((==_iff (number t) (number t)).1 refl) mine)
  | inr f ↦ rw f (others u f)
]

pub Goes-Kept : {t : Task} {s u : System} → Goes t s u → Kept s → Kept u
Goes-Kept {t} {s} (takes l ops e free) k =
    all_fit (put l (some t) s.holder) t ops s
      (taker-Fits s.holder t l ops (subst (Fits s.holder t) e (k t)))
      (λ u f. other-Fits s.holder u l (some t) (s.rest u) (apart t u f) (λ h. cc) (k u))
Goes-Kept {t} {s} (leaves l ops e) k =
    let mine = subst (Fits s.holder t) e (k t) in
    all_fit (put l none s.holder) t ops s (leaver-Fits s.holder t l ops mine) (λ u f.
      other-Fits s.holder u l none (s.rest u) (λ h. cc)
        (λ h. apart t u f (sym (mine.2 l (left l ops)) ∙ h)) (k u))
Goes-Kept {t} {s} (goes_on ops e) k =
    all_fit s.holder t ops s (subst (Fits s.holder t) e (k t)) (λ u f. k u)

begin-Fits :
    (s : System) (t : Task) (ops : List Op)
    → s.rest t ≡ []
    → Among ops (turns t)
    → Fits s.holder t (s.rest t)
    → Fits s.holder t ops
begin-Fits s t ops e a k =
    let (o, fa, fj) = orderly_turn t ops a in
    let (o', h, c) = subst (Fits s.holder t) e k in
    (o, (λ l x. absurd (none_held l (h l x))), begun fa fj)
  where
    none_held : (l : Lock) → false ≢ true
    none_held l x = cc

    begun :
        holds addresses ops ≡ false
        → holds jobs ops ≡ false
        → (l : Lock) → holds l ops ≡ true
        → s.holder l ≡ some t
    begun fa fj addresses x = absurd (ground arith)
    begun fa fj jobs x = absurd (ground arith)

Step-Kept : {s u : System} → Step s u → Kept s → Kept u
Step-Kept (within t g) k = Goes-Kept g k
Step-Kept {s} (begins t ops e a) k =
    all_fit s.holder t ops s (begin-Fits s t ops e a (k t)) (λ u f. k u)

start-Kept : Kept start
start-Kept u = (refl, (λ l e. cc), (λ l e. cc))

pub Reach-Kept : {s : System} → Reach s → Kept s
Reach-Kept here = start-Kept
Reach-Kept (later r st) = Step-Kept st (Reach-Kept r)
