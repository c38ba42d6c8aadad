-- ===== src/Lwip/Tcp/Connection/Drained.antt =====
-- What the loop in `drop` of a connection does to the packets that wait.
use derusting.Prelude.{
  ℕ, zero, suc, ◌<◌, ◌≡◌, ◌∙◌, sym, ap, inl, inr, refl, Option, none, some, List, [], ◌∷◌, ◌++◌,
  append-nil, length, arith, Option-cases, subst,
}
use derusting.Heapless.Channel.{Channel}
use derusting.Lwip.Bindings.{Pcb}
use derusting.Lwip.Tcp.Connection.{
  TcpConnection, Act, detaches, outputs, closes, packets, free_all, drain_item, drain,
  process_refused, close_block, close,
}
use derusting.Lwip.Tcp.Connection.Session.{
  credit, credit-append, freed, freed-append, total, packets_in,
}

pub free_all_lem : {P : Type 0} (l : List P) → (credit (free_all l) ≡ 0) × (freed (free_all l) ≡ l)
free_all_lem [] = (refl, refl)
free_all_lem (p ∷ l) = let (c, f) = free_all_lem l in (c, ap (◌∷◌ p) f)

module _ {P C : Type 0} (channel : Channel (Option P) C) (total_len : P → ℕ) where
  drain_item_lem :
      (pcb : Pcb) (item : Option P) (acts : List (Act P)) (l : List (Option P))
      → credit acts ≡ total total_len (packets l)
      → freed acts ≡ packets l
      → (credit (drain_item channel total_len pcb item ++ acts)
          ≡ total total_len (packets (item ∷ l)))
        × (freed (drain_item channel total_len pcb item ++ acts) ≡ packets (item ∷ l))
  drain_item_lem pcb none acts l c f = (c, f)
  drain_item_lem pcb (some p) acts l c f = (omega arith, ap (◌∷◌ p) f)

  drain_at :
      (fuel : ℕ) (pcb : Pcb) (c : C) (item : Option P) (c' : C)
      → channel.try_receive c ≡ some (item, c')
      → let (c'', acts) = drain channel total_len fuel pcb c' in
        drain channel total_len (suc fuel) pcb c
        ≡ (c'', drain_item channel total_len pcb item ++ acts)
  unfolding drain
  drain_at fuel pcb c item c' e = rw (drain, e) refl

  drain_empty :
      (fuel : ℕ) (pcb : Pcb) (c : C)
      → channel.try_receive c ≡ none
      → drain channel total_len (suc fuel) pcb c ≡ (c, [])
  unfolding drain
  drain_empty fuel pcb c e = rw (drain, e) refl

  -- Emptied the channel, with each packet acknowledged and freed.
  abbrev IsDrained : C → C × List (Act P) → Type 0
  IsDrained c (c', acts) =
      (channel.waiting c' ≡ [])
      × (credit acts ≡ total total_len (packets (channel.waiting c)))
      × (freed acts ≡ packets (channel.waiting c))

  drain-IsDrained :
      (fuel : ℕ) (pcb : Pcb) (c : C)
      → length (channel.waiting c) < fuel
      → IsDrained c (drain channel total_len fuel pcb c)
  drain-IsDrained zero pcb c h = absurd (omega arith)
  drain-IsDrained (suc fuel) pcb c h = elim (Option-cases (channel.try_receive c)) [
    | inl e ↦
        let nil = channel.try_receive_empty c e in
        subst (IsDrained c) (sym (drain_empty fuel pcb c e))
          (nil, sym (ap (λ l. total total_len (packets l)) nil), sym (ap packets nil))
    | inr ((item, c'), e) ↦
        let front = channel.waiting-try_receive item c c' e in
        let shorter : suc (length (channel.waiting c')) ≡ length (channel.waiting c) =
          sym (ap length front) in
        let (empty, window, gone) = drain-IsDrained fuel pcb c' (omega arith) in
        let (window', gone') =
          drain_item_lem pcb item (drain channel total_len fuel pcb c').1 (channel.waiting c')
            window gone in
        subst (IsDrained c) (sym (drain_at fuel pcb c item c' e)) (
          empty,
          window' ∙ ap (λ l. total total_len (packets l)) (sym front),
          gone' ∙ ap packets (sym front),
        )
  ]

  pub close_at :
      (pcb : Pcb) (conn : TcpConnection C)
      → conn.pcb ≡ some pcb
      → let (c, drained) =
          drain channel total_len (suc (length (channel.waiting conn.channel))) pcb conn.channel in
        close channel total_len none conn
        ≡ (drained ++ detaches pcb ∷ outputs pcb ∷ closes pcb ∷ [])
          ++ free_all (packets (channel.waiting c))
  unfolding close close_block process_refused
  close_at pcb conn e = rw (close, e) refl

  -- What `drop` does to a connection with its control block.
  pub close_lem :
      (pcb : Pcb) (conn : TcpConnection C)
      → conn.pcb ≡ some pcb
      → (credit (close channel total_len none conn) ≡ total total_len (packets_in channel conn))
        × (freed (close channel total_len none conn) ≡ packets_in channel conn)
  close_lem pcb conn e =
      let fuel = suc (length (channel.waiting conn.channel)) in
      let (c, drained) = drain channel total_len fuel pcb conn.channel in
      let (empty, window, gone) = drain-IsDrained fuel pcb conn.channel (omega arith) in
      let rest = detaches pcb ∷ outputs pcb ∷ closes pcb ∷ [] in
      let all : close channel total_len none conn ≡ (drained ++ rest) ++ [] =
        close_at pcb conn e ∙ ap (λ l. (drained ++ rest) ++ free_all (packets l)) empty in
      let shorter = all ∙ append-nil (drained ++ rest) in
      (
        ap credit shorter ∙ (let h = credit-append drained rest in omega arith),
        ap freed shorter ∙ freed-append drained rest ∙ append-nil (freed drained) ∙ gone,
      )
