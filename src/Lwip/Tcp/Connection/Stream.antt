-- ===== src/Lwip/Tcp/Connection/Stream.antt =====
-- A connection over its life: the order of its packets, and the receive window that lwIP gets back.
use derusting.Prelude.{
  ℕ, ◌≡◌, ◌⊎◌, ◌∙◌, sym, ap, inl, inr, refl, Option, none, some, List, [], ◌∷◌, ◌++◌, append-nil,
  append_assoc, subst, arith, Option-cases,
}
use derusting.Heapless.Channel.{Channel}
use derusting.Lwip.Bindings.{ErrT, Pcb}
use derusting.Lwip.Tcp.Connection.{
  TcpConnection, Act, recved, frees, packets, new, send_end, deliver, recv, failed, receive,
  received, acknowledge,
}
use derusting.Lwip.Tcp.Connection.Session.{
  Event, arrives, ends, fails, asks, Session, packets-append, credit, credit-append, after_receive,
  step, run, fresh, total, total-append, packets_in,
}

module _ {P C : Type 0} (channel : Channel (Option P) C) (total_len : P → ℕ) where
  -- The packets come out in the order in which they have come in; and a connection that still has its
  -- control block has given back the window of every packet that the task has got.
  abbrev pub IsBalanced : Session P C → Type 0
  IsBalanced s =
      (s.taken ≡ s.given ++ packets_in channel s.conn)
      × ((s.conn.pcb ≡ none) ⊎ (credit s.acts ≡ total total_len s.given))

  pub packets-send_end :
      (conn : TcpConnection C)
      → (packets_in channel (send_end channel conn) ≡ packets_in channel conn)
        × ((send_end channel conn).pcb ≡ conn.pcb)
  unfolding send_end
  packets-send_end conn = elim (Option-cases (channel.try_send none conn.channel)) [
    | inl e ↦ (rw (e, send_end) refl, rw (e, send_end) refl)
    | inr (c, e) ↦ (
      rw (e, send_end)
          (ap packets (channel.waiting-try_send none conn.channel c e)
            ∙ packets-append (channel.waiting conn.channel) (none ∷ [])
            ∙ append-nil (packets_in channel conn)),
      rw (e, send_end) refl,
    )
  ]

  pub step-full :
      (p : P) (s : Session P C)
      → channel.try_send (some p) s.conn.channel ≡ none
      → step channel total_len (arrives p) s ≡ record s { acts = s.acts ++ frees p ∷ [] }
  unfolding recv deliver
  step-full p s e = rw (recv, deliver, e) refl

  pub step-room :
      (p : P) (s : Session P C) (c : C)
      → channel.try_send (some p) s.conn.channel ≡ some c
      → step channel total_len (arrives p) s ≡ record {
        conn = record { pcb = s.conn.pcb; channel = c };
        taken = s.taken ++ p ∷ [];
        given = s.given;
        acts = s.acts ++ [];
      }
  unfolding recv deliver
  step-room p s c e = rw (recv, deliver, e) refl

  pub step-asks :
      (s : Session P C) (r : Option (Option P × C))
      → channel.try_receive s.conn.channel ≡ r
      → step channel total_len asks s
        ≡ after_receive channel total_len s (elim r [
          | none ↦ none
          | some item ↦ some (received channel total_len ErrT.ok s.conn item)
        ])
  unfolding receive
  step-asks s none e = rw (receive, e) refl
  step-asks s (some item) e = rw (receive, e) refl

  arrives-IsBalanced :
      (p : P) (s : Session P C) → IsBalanced s → IsBalanced (step channel total_len (arrives p) s)
  arrives-IsBalanced p s (order, window) =
      elim (Option-cases (channel.try_send (some p) s.conn.channel)) [
        | inl e ↦ subst IsBalanced (sym (step-full p s e)) (order, same_window (frees p ∷ []) refl)
        | inr (c, e) ↦ subst IsBalanced (sym (step-room p s c e)) (
          ap (λ l. l ++ p ∷ []) order
              ∙ append_assoc s.given (packets_in channel s.conn) (p ∷ [])
              ∙ ap (◌++◌ s.given) (
                  sym (packets-append (channel.waiting s.conn.channel) (some p ∷ []))
                  ∙ ap packets (sym (channel.waiting-try_send (some p) s.conn.channel c e))),
          same_window [] refl,
        )
      ]
    where
      same_window :
          (acts : List (Act P))
          → credit acts ≡ 0
          → (s.conn.pcb ≡ none) ⊎ (credit (s.acts ++ acts) ≡ total total_len s.given)
      same_window acts zero_credit = elim window [
        | inl gone ↦ inl gone
        | inr same ↦ let h = credit-append s.acts acts in inr (omega arith)
      ]

  ends-IsBalanced : (s : Session P C) → IsBalanced s → IsBalanced (step channel total_len ends s)
  unfolding recv
  ends-IsBalanced s (order, window) =
      let (kept, block) = packets-send_end s.conn in
      (
        order ∙ ap (◌++◌ s.given) (sym kept),
        elim window [ inl gone ↦ inl (block ∙ gone) | inr same ↦ inr same ],
      )

  fails-IsBalanced : (s : Session P C) → IsBalanced s → IsBalanced (step channel total_len fails s)
  unfolding failed
  fails-IsBalanced s (order, window) =
      let (kept, block) = packets-send_end (record s.conn { pcb = none }) in
      (order ∙ ap (◌++◌ s.given) (sym kept), inl block)

  acknowledge_lem :
      (p : P) (block : Option Pcb) (acts : List (Act P)) (given : List P)
      → (block ≡ none) ⊎ (credit acts ≡ total total_len given)
      → (block ≡ none)
        ⊎ (credit (acts ++ acknowledge channel total_len ErrT.ok block p)
            ≡ total total_len (given ++ p ∷ []))
  unfolding acknowledge
  acknowledge_lem p none acts given h = inl refl
  acknowledge_lem p (some pcb) acts given (inl gone) = cc
  acknowledge_lem p (some pcb) acts given (inr same) =
      let more = credit-append acts (recved pcb (total_len p) ∷ []) in
      let longer = total-append total_len given (p ∷ []) in inr (omega arith)

  asks-IsBalanced : (s : Session P C) → IsBalanced s → IsBalanced (step channel total_len asks s)
  unfolding received
  asks-IsBalanced s (order, window) = elim (Option-cases (channel.try_receive s.conn.channel)) [
    | inl e ↦ subst IsBalanced (sym (step-asks s none e)) (order, window)
    | inr ((none, c), e) ↦ subst IsBalanced (sym (step-asks s (some (none, c)) e)) (
      order ∙ ap (λ l. s.given ++ packets l) (channel.waiting-try_receive none s.conn.channel c e),
      elim window [
        | inl gone ↦ inl gone
        | inr same ↦ let h = credit-append s.acts [] in inr (omega arith)
      ],
    )
    | inr ((some p, c), e) ↦ subst IsBalanced (sym (step-asks s (some (some p, c)) e)) (
      order
          ∙ ap (λ l. s.given ++ packets l) (channel.waiting-try_receive (some p) s.conn.channel c e)
          ∙ sym (append_assoc s.given (p ∷ []) (packets (channel.waiting c))),
      acknowledge_lem p s.conn.pcb s.acts s.given window,
    )
  ]

  pub run-IsBalanced :
      (l : List (Event P)) (s : Session P C) → IsBalanced s → IsBalanced (run channel total_len l s)
  run-IsBalanced [] s h = h
  run-IsBalanced (arrives p ∷ l) s h =
      run-IsBalanced l (step channel total_len (arrives p) s) (arrives-IsBalanced p s h)
  run-IsBalanced (ends ∷ l) s h =
      run-IsBalanced l (step channel total_len ends s) (ends-IsBalanced s h)
  run-IsBalanced (fails ∷ l) s h =
      run-IsBalanced l (step channel total_len fails s) (fails-IsBalanced s h)
  run-IsBalanced (asks ∷ l) s h =
      run-IsBalanced l (step channel total_len asks s) (asks-IsBalanced s h)

  -- Over any callbacks and requests of the task: the packets that the connection has answered for with
  -- `ok` are, in order, those that the task has been given and then those that wait; and as long as the
  -- connection has its control block, it has given lwIP back exactly the window of the packets given,
  -- where lwIP takes its calls.
  pub stream-IsBalanced :
      (l : List (Event P)) (pcb : Pcb)
      → IsBalanced (run channel total_len l (fresh channel total_len pcb))
  unfolding new
  stream-IsBalanced l pcb =
      run-IsBalanced l (fresh channel total_len pcb)
        (ap packets (sym channel.waiting-new), inr refl)
