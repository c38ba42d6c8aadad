-- ===== src/Heapless/Queue.antt =====
-- What a channel promises: a bounded queue.
use derusting.Prelude.{
  ℕ, ◌≡◌, ap, refl, inl, inr, true, false, Option, none, some, List, [], ◌∷◌, ◌++◌, length, ltb,
  if◌then◌else◌, arith, Option-cases,
}
use derusting.Heapless.Channel.{Channel}

-- Puts a value behind the others, if there is room.
abbrev pub put : {T : Type 0} → ℕ → T → List T → Option (List T)
put capacity x queue = if ltb (length queue) capacity then some (queue ++ x ∷ []) else none

-- Takes the oldest value.
abbrev pub take_first : {T : Type 0} → List T → Option (T × List T)
take_first [] = none
take_first (x ∷ queue) = some (x, queue)

module _ {T C : Type 0} (channel : Channel T C) where
  -- The values waiting, where an operation has left a channel.
  abbrev pub queue_of : Option C → Option (List T)
  queue_of none = none
  queue_of (some c) = some (channel.waiting c)

  abbrev pub taken_of : Option (T × C) → Option (T × List T)
  taken_of none = none
  taken_of (some (x, c)) = some (x, channel.waiting c)

  -- Sending puts the value into the queue, or fails as the queue does.
  pub try_send-put :
      (x : T) (c : C) → queue_of (channel.try_send x c) ≡ put channel.capacity x (channel.waiting c)
  try_send-put x c = elim (Option-cases (channel.try_send x c)) [
    | inl e ↦
        let no_room = channel.try_send_full x c e in
        let shut : ltb (length (channel.waiting c)) channel.capacity ≡ false = ground arith in
        rw (e, shut) refl
    | inr (c', e) ↦
        let some_room = channel.try_send_room x c c' e in
        let free : ltb (length (channel.waiting c)) channel.capacity ≡ true = ground arith in
        rw (e, free) (ap some (channel.waiting-try_send x c c' e))
  ]

  -- Receiving takes the oldest value.
  pub try_receive-take_first :
      (c : C) → taken_of (channel.try_receive c) ≡ take_first (channel.waiting c)
  try_receive-take_first c = elim (Option-cases (channel.try_receive c)) [
    | inl e ↦ rw (e, channel.try_receive_empty c e) refl
    | inr ((x, c'), e) ↦ rw (e, channel.waiting-try_receive x c c' e) refl
  ]
