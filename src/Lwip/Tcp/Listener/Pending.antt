-- ===== src/Lwip/Tcp/Listener/Pending.antt =====
-- Where the blocks that lwIP hands to a listener go.
use derusting.Prelude.{
  ℕ, zero, suc, ◌+◌, ◌<◌, ◌≡◌, ◌∙◌, sym, ap, inl, inr, refl, Option, none, some, List, [], ◌∷◌,
  ◌++◌, length, arith, Option-cases, subst, ◌==◌, if◌then◌else◌,
}
use derusting.Heapless.Channel.{Channel}
use derusting.Lwip.Bindings.{ErrT, Pcb}
use derusting.Lwip.Access.{async_lwip}
use derusting.Lwip.Tcp.Listener.{
  TcpListener, Act, accepts, refuses, holds, closes, aborts, listen, open_block, put_listening, new,
  hold, accept_block, accept, next, abort_pending, close,
}

-- A call of `_accept` with a block and no error, or a worker that asks for a block.
pub data Event : Type 0 where
  comes : Pcb → Event
  asks : Event

-- A listener with the blocks that have come, those that workers have been given, and all acts.
pub record Session (C : Type 0) : Type 0 where
  pub listener : TcpListener C
  pub came : List Pcb
  pub given : List Pcb
  pub acts : List Act

abbrev pub one_if : Pcb → Pcb → ℕ
one_if x y = if x == y then 1 else 0

-- How often a block is in a list.
abbrev pub count : Pcb → List Pcb → ℕ
count x [] = 0
count x (y ∷ l) = one_if x y + count x l

count-append : (x : Pcb) (l l' : List Pcb) → count x (l ++ l') ≡ count x l + count x l'
count-append x [] l' = omega arith
count-append x (y ∷ l) l' = let h = count-append x l l' in omega arith

-- The blocks that acts abort.
abbrev pub aborted : List Act → List Pcb
aborted [] = []
aborted (aborts pcb ∷ l) = pcb ∷ aborted l
aborted (a ∷ l) = aborted l

aborted-append : (l l' : List Act) → aborted (l ++ l') ≡ aborted l ++ aborted l'
aborted-append [] l' = refl
aborted-append (aborts pcb ∷ l) l' = ap (◌∷◌ pcb) (aborted-append l l')
aborted-append (accepts pcb ∷ l) l' = aborted-append l l'
aborted-append (refuses pcb ∷ l) l' = aborted-append l l'
aborted-append (holds pcb ∷ l) l' = aborted-append l l'
aborted-append (closes pcb ∷ l) l' = aborted-append l l'

count-aborted :
    (x : Pcb) (l l' : List Act)
    → count x (aborted (l ++ l')) ≡ count x (aborted l) + count x (aborted l')
count-aborted x l l' = ap (count x) (aborted-append l l') ∙ count-append x (aborted l) (aborted l')

module _ {C : Type 0} (channel : Channel Pcb C) where
  -- A listener that has begun to listen.
  abbrev pub fresh : Pcb → Pcb → Session C
  fresh first pcb = record {
    listener = (listen ErrT.ok (some first) ErrT.ok (some pcb) (new channel)).1.0;
    came = [];
    given = [];
    acts = [];
  }

  abbrev pub after_accept : Pcb → Session C → Option (TcpListener C) × List Act → Session C
  after_accept pcb s (none, acts) = s
  after_accept pcb s (some listener, acts) = record {
    listener = listener;
    came = s.came ++ pcb ∷ [];
    given = s.given;
    acts = s.acts ++ acts;
  }

  abbrev pub after_next : Session C → Option (Pcb × TcpListener C) → Session C
  after_next s none = s
  after_next s (some (pcb, listener)) = record s {
    listener = listener;
    given = s.given ++ pcb ∷ [];
  }

  abbrev pub step : Event → Session C → Session C
  step (comes pcb) s = after_accept pcb s (accept channel ErrT.ok (some pcb) (some s.listener)).1
  step asks s = after_next s (next channel s.listener)

  abbrev pub run : List Event → Session C → Session C
  run [] s = s
  run (ev ∷ l) s = run l (step ev s)

  abbrev waiting : Session C → List Pcb
  waiting s = channel.waiting s.listener.channel

  -- The listener listens with the block, and each block that came was given, waits or was aborted.
  abbrev IsKept : Pcb → Pcb → Session C → Type 0
  IsKept pcb x s =
      (s.listener.pcb ≡ some pcb)
      × (count x s.came ≡ count x s.given + (count x (waiting s) + count x (aborted s.acts)))

  step-full :
      (y : Pcb) (s : Session C)
      → channel.try_send y s.listener.channel ≡ none
      → step (comes y) s
        ≡ record s { came = s.came ++ y ∷ []; acts = s.acts ++ holds y ∷ aborts y ∷ [] }
  unfolding accept accept_block hold
  step-full y s e = rw (hold, accept, accept_block, e) refl

  step-room :
      (y : Pcb) (s : Session C) (c : C)
      → channel.try_send y s.listener.channel ≡ some c
      → step (comes y) s ≡ record {
        listener = record { pcb = s.listener.pcb; channel = c };
        came = s.came ++ y ∷ [];
        given = s.given;
        acts = s.acts ++ holds y ∷ [];
      }
  unfolding accept accept_block hold
  step-room y s c e = rw (hold, accept, accept_block, e) refl

  step-asks :
      (s : Session C) (r : Option (Pcb × C))
      → channel.try_receive s.listener.channel ≡ r
      → step asks s
        ≡ after_next s
            (elim r [ none ↦ none | some (y, c) ↦ some (y, record s.listener { channel = c }) ])
  unfolding next
  step-asks s none e = rw (next, e) refl
  step-asks s (some (y, c)) e = rw (next, e) refl

  step-IsKept :
      (pcb x : Pcb) (ev : Event) (s : Session C) → IsKept pcb x s → IsKept pcb x (step ev s)
  step-IsKept pcb x (comes y) s (block, kept) =
      let came = count-append x s.came (y ∷ []) in
      elim (Option-cases (channel.try_send y s.listener.channel)) [
        | inl e ↦
            let gone = count-aborted x s.acts (holds y ∷ aborts y ∷ []) in
            subst (IsKept pcb x) (sym (step-full y s e)) (block, omega arith)
        | inr (c, e) ↦
            let gone = count-aborted x s.acts (holds y ∷ []) in
            let more = ap (count x) (channel.waiting-try_send y s.listener.channel c e) in
            let queued = count-append x (waiting s) (y ∷ []) in
            subst (IsKept pcb x) (sym (step-room y s c e)) (block, omega arith)
      ]
  step-IsKept pcb x asks s (block, kept) =
      elim (Option-cases (channel.try_receive s.listener.channel)) [
        | inl e ↦ subst (IsKept pcb x) (sym (step-asks s none e)) (block, kept)
        | inr ((y, c), e) ↦
            let given = count-append x s.given (y ∷ []) in
            let front = ap (count x) (channel.waiting-try_receive y s.listener.channel c e) in
            subst (IsKept pcb x) (sym (step-asks s (some (y, c)) e)) (block, omega arith)
      ]

  run-IsKept :
      (pcb x : Pcb) (l : List Event) (s : Session C) → IsKept pcb x s → IsKept pcb x (run l s)
  run-IsKept pcb x [] s h = h
  run-IsKept pcb x (ev ∷ l) s h = run-IsKept pcb x l (step ev s) (step-IsKept pcb x ev s h)

  abort_pending_lem :
      (fuel : ℕ) (c : C)
      → length (channel.waiting c) < fuel
      → aborted (abort_pending channel fuel c).1 ≡ channel.waiting c
  unfolding abort_pending
  abort_pending_lem zero c h = absurd (omega arith)
  abort_pending_lem (suc fuel) c h = elim (Option-cases (channel.try_receive c)) [
    | inl e ↦ rw (abort_pending, e) (sym (channel.try_receive_empty c e))
    | inr ((y, c'), e) ↦
        let front = channel.waiting-try_receive y c c' e in
        let shorter : suc (length (channel.waiting c')) ≡ length (channel.waiting c) =
          sym (ap length front) in
        rw (abort_pending, e) (ap (◌∷◌ y) (abort_pending_lem fuel c' (omega arith)) ∙ sym front)
  ]

  close_lem :
      (pcb : Pcb) (listener : TcpListener C)
      → listener.pcb ≡ some pcb
      → aborted (close channel ErrT.ok listener).1 ≡ channel.waiting listener.channel
  unfolding close
  close_lem pcb listener e =
      rw (close, e)
        (abort_pending_lem (suc (length (channel.waiting listener.channel))) listener.channel
          (omega arith))

  fresh-IsKept : (first pcb x : Pcb) → IsKept pcb x (fresh first pcb)
  unfolding listen open_block put_listening new async_lwip
  fresh-IsKept first pcb x = (refl, let nil = ap (count x) channel.waiting-new in omega arith)

  -- From the moment a listener listens, over any accepted blocks and requests of the workers, no block
  -- is lost and none is used twice: a block has come as often as it has been given to a worker, waits
  -- or has been aborted; and `drop`, where lwIP closes the listening block, aborts all that wait, so
  -- that what has come was given or aborted.
  pub accepted_once :
      (l : List Event) (first pcb x : Pcb)
      → let s = run l (fresh first pcb) in
        (count x s.came
          ≡ count x s.given
            + (count x (channel.waiting s.listener.channel) + count x (aborted s.acts)))
        × (count x s.came
            ≡ count x s.given + count x (aborted (s.acts ++ (close channel ErrT.ok s.listener).1)))
  accepted_once l first pcb x =
      let s = run l (fresh first pcb) in
      let (block, kept) = run-IsKept pcb x l (fresh first pcb) (fresh-IsKept first pcb x) in
      let left = ap (count x) (close_lem pcb s.listener block) in
      let all = count-aborted x s.acts (close channel ErrT.ok s.listener).1 in (kept, omega arith)
