-- ===== src/Heapless/Models.antt =====
-- Lists as the containers of `Heapless`: each record's promises hold of a concrete implementation,
-- which the witnesses run on.
use derusting.Prelude.{
  ℕ, ◌≡◌, refl, ◌≤◌, ◌<◌, Bool, false, Option, none, some, List, [], ◌∷◌, ◌++◌, length, take, not,
  ◌&&◌, ◌||◌, ltb, ◌==◌, if◌then◌else◌, elem, lookup, is_nil, arith, Option-cases, ◌∙◌, inl, inr,
  ap,
}
use derusting.Heapless.LinearMap.{LinearMap, kept}
use derusting.Heapless.IndexSet.{IndexSet}
use derusting.Heapless.History.{History}
use derusting.Heapless.Channel.{Channel}

abbrev pub set_add : ℕ → ℕ → List ℕ → Option (List ℕ)
set_add n a s = if elem a s then some s else if ltb (length s) n then some (a ∷ s) else none

unfoldable pub without : ℕ → List ℕ → List ℕ
without a [] = []
without a (x ∷ xs) = let rest = without a xs in if a == x then rest else x ∷ rest

pub elem-without : (a b : ℕ) (s : List ℕ) → elem b (without a s) ≡ (not (b == a) && elem b s)
unfolding elem without
elem-without a b [] = ground arith
elem-without a b (x ∷ s) = ground (arith, elem-without a b s)

elem_cong : (a b : ℕ) (s : List ℕ) → b ≡ a → elem b s ≡ elem a s
elem_cong a b s e = ap (λ t. elem t s) e

pub set_add_lem :
    (n a b : ℕ) (s s' : List ℕ) → set_add n a s ≡ some s' → elem b s' ≡ (b == a || elem b s)
unfolding elem
set_add_lem n a b s s' h = ground (arith, elem_cong a b s)

pub set_add_full :
    (n a : ℕ) (s : List ℕ) → set_add n a s ≡ none → (elem a s ≡ false) × (n ≤ length s)
set_add_full n a s h = ground arith

unfoldable pub list_set : ℕ → IndexSet (List ℕ)
unfolding without elem
list_set n = record {
  capacity = n;
  new = [];
  insert = set_add n;
  remove = without;
  iter = λ s. s;
  iter-new = refl;
  iter-insert = set_add_lem n;
  insert_full = set_add_full n;
  iter-remove = elem-without;
}

abbrev pub list_history : ℕ → History (List ℕ)
list_history n = record {
  capacity = n;
  new = [];
  write = λ a h. take n (a ∷ h);
  contains = λ h a. elem a h;
  recent = λ h. h;
  recent-new = refl;
  recent-write = λ a h. refl;
  contains-recent = λ h a. refl;
}

module _ {V : Type 0} where
  unfoldable pub replace : ℕ → V → List (ℕ × V) → List (ℕ × V)
  replace k v [] = []
  replace k v ((j, w) ∷ l) =
      let rest = replace k v l in if k == j then (k, v) ∷ l else (j, w) ∷ rest

  unfoldable pub keep_keys : (ℕ → Bool) → List (ℕ × V) → List (ℕ × V)
  keep_keys q [] = []
  keep_keys q ((j, w) ∷ l) = let rest = keep_keys q l in if q j then (j, w) ∷ rest else rest

  abbrev pub passes : (ℕ → V → Bool) → ℕ → Option V → Bool
  passes p k none = false
  passes p k (some v) = p k v

  abbrev pub map_add : ℕ → ℕ → V → List (ℕ × V) → Option (List (ℕ × V))
  map_add n k v m = elim (lookup k m) [
    | some w ↦ some (replace k v m)
    | none ↦ if ltb (length m) n then some ((k, v) ∷ m) else none
  ]

module _ {V : Type 0} where
  lookup-replace :
      (k j : ℕ) (v w : V) (m : List (ℕ × V))
      → lookup k m ≡ some w
      → lookup j (replace k v m) ≡ (if j == k then some v else lookup j m)
  unfolding lookup replace
  lookup-replace k j v w [] h = cc
  lookup-replace k j v w ((i, u) ∷ m) h = ground (arith, lookup-replace k j v w m)

  pub lookup-map_add :
      (n k j : ℕ) (v : V) (m m' : List (ℕ × V))
      → map_add n k v m ≡ some m'
      → lookup j m' ≡ (if j == k then some v else lookup j m)
  unfolding lookup
  lookup-map_add n k j v m m' h = elim (Option-cases (lookup k m)) [
    | inl e ↦ ground arith
    | inr (w, e) ↦ ground (arith, lookup-replace k j v w m e)
  ]

  pub map_add_full :
      (n k : ℕ) (v : V) (m : List (ℕ × V))
      → map_add n k v m ≡ none
      → (lookup k m ≡ none) × (n ≤ length m)
  map_add_full n k v m h = ground arith

  lookup-keep_keys :
      (q : ℕ → Bool) (j : ℕ) (m : List (ℕ × V))
      → lookup j (keep_keys q m) ≡ (if q j then lookup j m else none)
  unfolding lookup keep_keys
  lookup-keep_keys q j [] = ground arith
  lookup-keep_keys q j ((i, u) ∷ m) = ground (arith, lookup-keep_keys q j m, λ (e : j ≡ i). ap q e)

  pub lookup-retain :
      (p : ℕ → V → Bool) (j : ℕ) (m : List (ℕ × V))
      → lookup j (keep_keys (λ k. passes p k (lookup k m)) m) ≡ kept p j (lookup j m)
  lookup-retain p j m = lookup-keep_keys (λ k. passes p k (lookup k m)) j m ∙ ground arith

abbrev pub list_map : {V : Type 0} → ℕ → LinearMap V (List (ℕ × V))
list_map n = record {
  capacity = n;
  new = [];
  insert = map_add n;
  retain = λ p m. keep_keys (λ k. passes p k (lookup k m)) m;
  is_empty = is_nil;
  iter = λ m. m;
  iter-new = refl;
  is_empty-iter = λ m. refl;
  iter-insert = lookup-map_add n;
  insert_full = map_add_full n;
  iter-retain = lookup-retain;
}

module _ {T : Type 0} where
  abbrev pub queue_send : ℕ → T → List T → Option (List T)
  queue_send n x c = if ltb (length c) n then some (c ++ x ∷ []) else none

  abbrev pub queue_receive : List T → Option (T × List T)
  queue_receive [] = none
  queue_receive (x ∷ c) = some (x, c)

  pub queue_receive_empty : (c : List T) → queue_receive c ≡ none → c ≡ []
  queue_receive_empty [] h = refl
  queue_receive_empty (x ∷ c) h = cc

  pub queue_receive_lem : (x : T) (c c' : List T) → queue_receive c ≡ some (x, c') → c ≡ x ∷ c'
  queue_receive_lem x [] c' h = cc
  queue_receive_lem x (y ∷ c) c' h = ground arith

  pub queue_send_lem :
      (n : ℕ) (x : T) (c c' : List T) → queue_send n x c ≡ some c' → c' ≡ c ++ x ∷ []
  queue_send_lem n x c c' h = ground arith

  pub queue_send_full : (n : ℕ) (x : T) (c : List T) → queue_send n x c ≡ none → n ≤ length c
  queue_send_full n x c h = ground arith

  pub queue_send_room : (n : ℕ) (x : T) (c c' : List T) → queue_send n x c ≡ some c' → length c < n
  queue_send_room n x c c' h = ground arith

abbrev pub list_channel : {T : Type 0} → ℕ → Channel T (List T)
list_channel n = record {
  capacity = n;
  new = [];
  try_send = queue_send n;
  try_receive = queue_receive;
  waiting = λ c. c;
  waiting-new = refl;
  waiting-try_send = queue_send_lem n;
  try_send_full = queue_send_full n;
  try_send_room = queue_send_room n;
  try_receive_empty = queue_receive_empty;
  waiting-try_receive = queue_receive_lem;
  clear = λ c. [];
  waiting-clear = λ c. refl;
}
