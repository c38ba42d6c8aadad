-- ===== src/Tasks/Locks/Orderly.antt =====
-- Turns that take the mutexes in one order, and who holds a mutex while they run.
use derusting.Prelude.{
  ℕ, ◌≡◌, ◌∙◌, sym, ap, refl, ◌⊎◌, inl, inr, Bool, true, false, not, ◌&&◌, Bool-cases, Option, none,
  some, List, [], ◌∷◌, if◌then◌else◌, arith, ◌==◌, ==_iff, ◌≢◌,
}
use derusting.Start.{
  Task, heartbeat, address_book_lifetime_check, manage_ledger, udp_receiver, tcp_worker,
  distribute_file,
}
use derusting.Tasks.Locks.{
  Lock, addresses, jobs, Op, locks, unlocks, waits, turns, number, same_lock, Among, here, there,
}

-- Whether the mutex is left before it is taken again, so that the task holds it.
abbrev pub holds : Lock → List Op → Bool
holds l [] = false
holds l (locks m ∷ ops) = if same_lock l m then false else holds l ops
holds l (unlocks m ∷ ops) = if same_lock l m then true else holds l ops
holds l (waits ∷ ops) = holds l ops

-- A mutex that is taken is left later and is not held before, nor is the book's taken while the
-- ledger's is held.
abbrev pub orderly : List Op → Bool
orderly [] = true
orderly (locks addresses ∷ ops) = holds addresses ops && not (holds jobs ops) && orderly ops
orderly (locks jobs ∷ ops) = holds jobs ops && orderly ops
orderly (unlocks l ∷ ops) = not (holds l ops) && orderly ops
orderly (waits ∷ ops) = orderly ops

all_orderly : List (List Op) → Bool
all_orderly [] = true
all_orderly (ops ∷ l) =
    (orderly ops && not (holds addresses ops) && not (holds jobs ops)) && all_orderly l

orderly-Among :
    (l : List (List Op)) (ops : List Op)
    → all_orderly l ≡ true
    → Among ops l
    → (orderly ops ≡ true) × (holds addresses ops ≡ false) × (holds jobs ops ≡ false)
unfolding all_orderly
orderly-Among [] ops h a = elim a [ ]
orderly-Among (x ∷ l) ops h here = ground arith
orderly-Among (x ∷ l) ops h (there a) = orderly-Among l ops (ground arith) a

turns_orderly : (t : Task) → all_orderly (turns t) ≡ true
unfolding all_orderly
turns_orderly heartbeat = refl
turns_orderly address_book_lifetime_check = refl
turns_orderly manage_ledger = refl
turns_orderly udp_receiver = refl
turns_orderly tcp_worker = refl
turns_orderly distribute_file = refl

-- Any turn of a task is orderly, and begins with no mutex held.
pub orderly_turn :
    (t : Task) (ops : List Op)
    → Among ops (turns t)
    → (orderly ops ≡ true) × (holds addresses ops ≡ false) × (holds jobs ops ≡ false)
orderly_turn t ops = orderly-Among (turns t) ops (turns_orderly t)

of_number : ℕ → Task
of_number n =
    if n == 0
    then heartbeat
    else if n == 1
    then address_book_lifetime_check
    else if n == 2
    then manage_ledger
    else if n == 3
    then udp_receiver
    else if n == 4
    then tcp_worker
    else distribute_file

of_number-number : (t : Task) → of_number (number t) ≡ t
unfolding of_number
of_number-number heartbeat = refl
of_number-number address_book_lifetime_check = refl
of_number-number manage_ledger = refl
of_number-number udp_receiver = refl
of_number-number tcp_worker = refl
of_number-number distribute_file = refl

pub number-cases : (t u : Task) → (t ≡ u) ⊎ ((number t == number u) ≡ false)
number-cases t u = elim (Bool-cases (number t == number u)) [
  | inl e ↦ inl (
      sym (of_number-number t)
      ∙ ap of_number ((==_iff (number t) (number u)).0 e)
      ∙ of_number-number u)
  | inr f ↦ inr f
]

-- What one task has left, with the mutexes that it is said to hold.
abbrev pub Fits : (Lock → Option Task) → Task → List Op → Type 0
Fits holder t ops =
    (orderly ops ≡ true)
    × ((l : Lock) → holder l ≡ some t → holds l ops ≡ true)
    × ((l : Lock) → holds l ops ≡ true → holder l ≡ some t)

abbrev pub put : Lock → Option Task → (Lock → Option Task) → Lock → Option Task
put l t holder m = if same_lock l m then t else holder m

pub taker-Fits :
    (holder : Lock → Option Task) (t : Task) (l : Lock) (ops : List Op)
    → Fits holder t (locks l ∷ ops)
    → Fits (put l (some t) holder) t ops
taker-Fits holder t addresses ops (o, h, k) = (ground arith, held, kept)
  where
    held : (m : Lock) → put addresses (some t) holder m ≡ some t → holds m ops ≡ true
    held addresses e = ground arith
    held jobs e = h jobs e

    kept : (m : Lock) → holds m ops ≡ true → put addresses (some t) holder m ≡ some t
    kept addresses e = refl
    kept jobs e = k jobs e
taker-Fits holder t jobs ops (o, h, k) = (ground arith, held, kept)
  where
    held : (m : Lock) → put jobs (some t) holder m ≡ some t → holds m ops ≡ true
    held addresses e = h addresses e
    held jobs e = ground arith

    kept : (m : Lock) → holds m ops ≡ true → put jobs (some t) holder m ≡ some t
    kept addresses e = k addresses e
    kept jobs e = refl

pub left : (l : Lock) (ops : List Op) → holds l (unlocks l ∷ ops) ≡ true
left addresses ops = refl
left jobs ops = refl

pub leaver-Fits :
    (holder : Lock → Option Task) (t : Task) (l : Lock) (ops : List Op)
    → Fits holder t (unlocks l ∷ ops)
    → Fits (put l none holder) t ops
leaver-Fits holder t addresses ops (o, h, k) = (ground arith, held, kept)
  where
    held : (m : Lock) → put addresses none holder m ≡ some t → holds m ops ≡ true
    held addresses e = absurd (cc)
    held jobs e = h jobs e

    kept : (m : Lock) → holds m ops ≡ true → put addresses none holder m ≡ some t
    kept addresses e = absurd (ground arith)
    kept jobs e = k jobs e
leaver-Fits holder t jobs ops (o, h, k) = (ground arith, held, kept)
  where
    held : (m : Lock) → put jobs none holder m ≡ some t → holds m ops ≡ true
    held addresses e = h addresses e
    held jobs e = absurd (cc)

    kept : (m : Lock) → holds m ops ≡ true → put jobs none holder m ≡ some t
    kept addresses e = k addresses e
    kept jobs e = absurd (ground arith)

-- Another task than the one that takes or leaves the mutex.
pub other-Fits :
    (holder : Lock → Option Task) (u : Task) (l : Lock) (x : Option Task) (ops : List Op)
    → x ≢ some u
    → holder l ≢ some u
    → Fits holder u ops
    → Fits (put l x holder) u ops
other-Fits holder u addresses x ops a b (o, h, k) = (o, held, kept)
  where
    held : (m : Lock) → put addresses x holder m ≡ some u → holds m ops ≡ true
    held addresses e = absurd (a e)
    held jobs e = h jobs e

    kept : (m : Lock) → holds m ops ≡ true → put addresses x holder m ≡ some u
    kept addresses e = absurd (b (k addresses e))
    kept jobs e = k jobs e
other-Fits holder u jobs x ops a b (o, h, k) = (o, held, kept)
  where
    held : (m : Lock) → put jobs x holder m ≡ some u → holds m ops ≡ true
    held addresses e = h addresses e
    held jobs e = absurd (a e)

    kept : (m : Lock) → holds m ops ≡ true → put jobs x holder m ≡ some u
    kept addresses e = k addresses e
    kept jobs e = absurd (b (k jobs e))
