-- ===== src/Tasks/Udp/Dedup.antt =====
-- Repeated deliveries of one message.
use derusting.Prelude.{
  ℕ, zero, suc, ◌+◌, ◌≡◌, refl, ◌<◌, true, false, Option, some, List, [], ◌∷◌, take, elem, arith,
  Bytes, Option-cases, ap, ◌∙◌, inl, inr, Bool-cases, ◌≤◌, length,
}
use Prim.Native.Nat.add
use native.Mathlib.Nat.{add-zero, add-suc}
use derusting.Kinds.{Instant}
use derusting.Tasks.Messages.{Message}
use derusting.Heapless.LinearMap.{LinearMap}
use derusting.Heapless.IndexSet.{IndexSet}
use derusting.Heapless.History.{History}
use derusting.Tasks.Udp.{Packet, Receiver, receive, receive_all, handle}

-- Each packet of the list carries the message.
abbrev pub Carries : {S : Type 0} → (Bytes → Option (Message S)) → Message S → List Packet → Type 0
Carries decode msg [] = Unit
Carries decode msg (p ∷ ps) =
    ((bytes : Bytes) × (p.chunk ≡ some bytes) × (decode bytes ≡ some msg)) × Carries decode msg ps

elem-take_head : (n a : ℕ) (l : List ℕ) → 0 < n → elem a (take n (a ∷ l)) ≡ true
unfolding elem
elem-take_head zero a l h = absurd (omega arith)
elem-take_head (suc n) a l h = ground arith

-- Looking further down a list loses nothing.
elem-take-suc : (n a : ℕ) (l : List ℕ) → elem a (take n l) ≡ true → elem a (take (suc n) l) ≡ true
unfolding elem
elem-take-suc zero a l h = cc
elem-take-suc (suc n) a [] h = cc
elem-take-suc (suc n) a (x ∷ l) h = ground (arith, elem-take-suc n a l)

elem-of_take : (n a : ℕ) (l : List ℕ) → elem a (take n l) ≡ true → elem a l ≡ true
unfolding elem
elem-of_take zero a l h = cc
elem-of_take (suc n) a [] h = cc
elem-of_take (suc n) a (x ∷ l) h = ground (arith, elem-of_take n a l)

take-take : (m n : ℕ) (l : List ℕ) → m ≤ n → take m (take n l) ≡ take m l
take-take zero n l h = refl
take-take (suc m) zero l h = absurd (omega arith)
take-take (suc m) (suc n) [] h = refl
take-take (suc m) (suc n) (x ∷ l) h = ap (◌∷◌ x) (take-take m n l (omega arith))

module _ {H : Type 0} (seen : History H) where
  -- `a` is one of the `n` values written last.
  abbrev InLast : ℕ → ℕ → H → Type 0
  InLast n a h = elem a (take n (seen.recent h)) ≡ true

  InLast-write :
      (n a b : ℕ) (h : H) → suc n ≤ seen.capacity → InLast n a h → InLast (suc n) a (seen.write b h)
  unfolding elem
  InLast-write n a b h room k =
      ap (λ l. elem a (take (suc n) l)) (seen.recent-write b h)
      ∙ ap (elem a) (take-take (suc n) seen.capacity (b ∷ seen.recent h) room)
      ∙ ground arith

  InLast-write_self : (a : ℕ) (h : H) → 1 ≤ seen.capacity → InLast 1 a (seen.write a h)
  InLast-write_self a h room =
      ap (λ l. elem a (take 1 l)) (seen.recent-write a h)
      ∙ ap (elem a) (take-take 1 seen.capacity (a ∷ seen.recent h) room)
      ∙ elem-take_head 1 a (seen.recent h) (omega arith)

  contains_of_InLast : (n a : ℕ) (h : H) → InLast n a h → seen.contains h a ≡ true
  contains_of_InLast n a h k = seen.contains-recent h a ∙ elem-of_take n a (seen.recent h) k

  contains-write : (a : ℕ) (h : H) → 1 ≤ seen.capacity → seen.contains (seen.write a h) a ≡ true
  contains-write a h room = contains_of_InLast 1 a (seen.write a h) (InLast-write_self a h room)

module _ {M S C H : Type 0} (book : LinearMap Instant M) (jobs : IndexSet S) (seen : History H)
    (decode : Bytes → Option (Message S)) where
  abbrev after : Packet → Receiver M S C H → Receiver M S C H
  after = receive book jobs seen decode

  abbrev after_all : List Packet → Receiver M S C H → Receiver M S C H
  after_all = receive_all book jobs seen decode

  -- Once a message has been handled it stands in the history.
  handled :
      (p : Packet) (msg : Message S) (r : Receiver M S C H)
      → 1 ≤ seen.capacity
      → seen.contains (handle book jobs seen decode p msg r).history msg.idempotency ≡ true
  unfolding handle
  handled p msg r room = ground (arith, contains-write seen msg.idempotency r.history)

  receive_known :
      (p : Packet) (msg : Message S) (r : Receiver M S C H)
      → seen.contains r.history msg.idempotency ≡ true
      → Carries decode msg (p ∷ [])
      → after p r ≡ r
  unfolding receive handle
  receive_known p msg r known ((bytes, e, d), _) = ground arith

  -- A message in the history changes nothing, however often it comes.
  replays :
      (ps : List Packet) (msg : Message S) (r : Receiver M S C H)
      → seen.contains r.history msg.idempotency ≡ true
      → Carries decode msg ps
      → after_all ps r ≡ r
  unfolding receive_all
  replays [] msg r known c = refl
  replays (p ∷ ps) msg r known c =
      ap (after_all ps) (receive_known p msg r known (c.0, tt)) ∙ replays ps msg r known c.1

  -- Where the history has a place, further copies of a message that has just been received change nothing: neither the book nor the
  -- ledger nor the history, at whatever time and from whatever sender they come.
  pub copies_ignored :
      (p : Packet) (ps : List Packet) (msg : Message S) (r : Receiver M S C H)
      → 1 ≤ seen.capacity
      → Carries decode msg (p ∷ ps)
      → after_all (p ∷ ps) r ≡ after p r
  unfolding receive_all receive
  copies_ignored p ps msg r room ((bytes, e, d), c) =
      rw (e, receive) (rw (d, receive) (replays ps msg _ (handled p msg r room) c))

  -- One turn of the loop pushes a remembered message at most one place back.
  InLast-receive :
      (n a : ℕ) (p : Packet) (r : Receiver M S C H)
      → suc n ≤ seen.capacity
      → InLast seen n a r.history
      → InLast seen (suc n) a (after p r).history
  unfolding receive handle
  InLast-receive n a p r room k = elim (Option-cases p.chunk) [
    | inl e ↦ rw (e, receive) (elem-take-suc n a (seen.recent r.history) k)
    | inr (bytes, e) ↦ elim (Option-cases (decode bytes)) [
      | inl d ↦ rw (e, receive) (rw (d, receive) (elem-take-suc n a (seen.recent r.history) k))
      | inr (msg, d) ↦ elim (Bool-cases (seen.contains r.history msg.idempotency)) [
        | inl t ↦
            rw (e, receive)
              (rw (d, receive) (rw (t, handle) (elem-take-suc n a (seen.recent r.history) k)))
        | inr t ↦
            rw (e, receive)
              (rw (d, receive)
                (rw (t, handle) (InLast-write seen n a msg.idempotency r.history room k)))
      ]
    ]
  ]

  InLast-first :
      (p : Packet) (msg : Message S) (r : Receiver M S C H)
      → 1 ≤ seen.capacity
      → seen.contains r.history msg.idempotency ≡ false
      → Carries decode msg (p ∷ [])
      → InLast seen 1 msg.idempotency (after p r).history
  unfolding receive handle
  InLast-first p msg r room new ((bytes, e, d), _) =
      rw (e, receive)
        (rw (d, receive) (rw (new, handle) (InLast-write_self seen msg.idempotency r.history room)))

  InLast-receive_all :
      (qs : List Packet) (n a : ℕ) (r : Receiver M S C H)
      → n + length qs ≤ seen.capacity
      → InLast seen n a r.history
      → InLast seen (n + length qs) a (after_all qs r).history
  unfolding receive_all
  InLast-receive_all [] n a r room k = rw add-zero k
  InLast-receive_all (q ∷ qs) n a r room k = rw add-suc (
      rw (← add.suc) (
        InLast-receive_all qs (suc n) a (after q r) (omega arith)
          (InLast-receive n a q r (omega arith) k)))

  -- A copy of a message that was new when it was handled is ignored as long as fewer than `capacity` packets have been taken
  -- since, whatever these are.
  late_copy_ignored :
      (p q : Packet) (qs : List Packet) (msg : Message S) (r : Receiver M S C H)
      → suc (length qs) ≤ seen.capacity
      → Carries decode msg (q ∷ [])
      → seen.contains r.history msg.idempotency ≡ false
      → Carries decode msg (p ∷ [])
      → after q (after_all qs (after p r)) ≡ after_all qs (after p r)
  late_copy_ignored p q qs msg r room cq new cp =
      receive_known q msg (after_all qs (after p r))
        (contains_of_InLast seen (1 + length qs) msg.idempotency (after_all qs (after p r)).history
          (InLast-receive_all qs 1 msg.idempotency (after p r) (omega arith)
            (InLast-first p msg r (omega arith) new cp)))
        cq
