-- ===== src/Lwip/Tcp/Connection/Gone.antt =====
-- After lwIP has reported the control block of a connection as freed.
use derusting.Prelude.{
  ℕ, ◌≡◌, ◌∙◌, sym, ap, inl, inr, refl, Option, none, some, List, [], ◌∷◌, ◌++◌, append-nil, length,
  ltb, subst, Bytes, Bool-cases, Option-cases,
}
use derusting.Heapless.Channel.{Channel}
use derusting.Lwip.Bindings.{ErrT, Pcb, is_ok}
use derusting.Lwip.Access.{async_lwip}
use derusting.Lwip.Tcp.Connection.{
  TcpConnection, Act, attaches, detaches, recved, writes, outputs, closes, frees, packets, free_all,
  recv, failed, received, acknowledge, response_now, response, close,
}
use derusting.Lwip.Tcp.Connection.Session.{
  Event, arrives, ends, fails, asks, Session, after_receive, step, run,
}
use derusting.Lwip.Tcp.Connection.Stream.{step-full, step-room, step-asks, packets-send_end}

-- The control blocks that acts touch, in order.
abbrev pub touched : {P : Type 0} → List (Act P) → List Pcb
touched [] = []
touched (frees p ∷ l) = touched l
touched (attaches pcb ∷ l) = pcb ∷ touched l
touched (detaches pcb ∷ l) = pcb ∷ touched l
touched (recved pcb n ∷ l) = pcb ∷ touched l
touched (writes pcb bytes ∷ l) = pcb ∷ touched l
touched (outputs pcb ∷ l) = pcb ∷ touched l
touched (closes pcb ∷ l) = pcb ∷ touched l

touched-append : {P : Type 0} (l l' : List (Act P)) → touched (l ++ l') ≡ touched l ++ touched l'
touched-append [] l' = refl
touched-append (frees p ∷ l) l' = touched-append l l'
touched-append (attaches pcb ∷ l) l' = ap (◌∷◌ pcb) (touched-append l l')
touched-append (detaches pcb ∷ l) l' = ap (◌∷◌ pcb) (touched-append l l')
touched-append (recved pcb n ∷ l) l' = ap (◌∷◌ pcb) (touched-append l l')
touched-append (writes pcb bytes ∷ l) l' = ap (◌∷◌ pcb) (touched-append l l')
touched-append (outputs pcb ∷ l) l' = ap (◌∷◌ pcb) (touched-append l l')
touched-append (closes pcb ∷ l) l' = ap (◌∷◌ pcb) (touched-append l l')

touched-free_all : {P : Type 0} (l : List P) → touched (free_all l) ≡ []
touched-free_all [] = refl
touched-free_all (p ∷ l) = touched-free_all l

touched-more :
    {P : Type 0} (acts more : List (Act P))
    → touched more ≡ []
    → touched (acts ++ more) ≡ touched acts
touched-more acts more h =
    touched-append acts more ∙ ap (◌++◌ (touched acts)) h ∙ append-nil (touched acts)

module _ {P C : Type 0} (channel : Channel (Option P) C) (total_len : P → ℕ) where
  -- No block, and no more blocks touched than these.
  abbrev IsGone : List Pcb → Session P C → Type 0
  IsGone before s = (s.conn.pcb ≡ none) × (touched s.acts ≡ before)

  arrives-IsGone :
      (before : List Pcb) (p : P) (s : Session P C)
      → IsGone before s
      → IsGone before (step channel total_len (arrives p) s)
  arrives-IsGone before p s (gone, same) =
      elim (Option-cases (channel.try_send (some p) s.conn.channel)) [
        | inl e ↦
            subst (IsGone before) (sym (step-full channel total_len p s e))
              (gone, touched-more s.acts (frees p ∷ []) refl ∙ same)
        | inr (c, e) ↦
            subst (IsGone before) (sym (step-room channel total_len p s c e))
              (gone, touched-more s.acts [] refl ∙ same)
      ]

  ends-IsGone :
      (before : List Pcb) (s : Session P C)
      → IsGone before s
      → IsGone before (step channel total_len ends s)
  unfolding recv
  ends-IsGone before s (gone, same) = ((packets-send_end channel total_len s.conn).1 ∙ gone, same)

  fails-IsGone :
      (before : List Pcb) (s : Session P C)
      → touched s.acts ≡ before
      → IsGone before (step channel total_len fails s)
  unfolding failed
  fails-IsGone before s same =
      ((packets-send_end channel total_len (record s.conn { pcb = none })).1, same)

  received-IsGone :
      (before : List Pcb) (s : Session P C) (item : Option P × C)
      → IsGone before s
      → IsGone before (
          after_receive channel total_len s (some (received channel total_len ErrT.ok s.conn item)))
  unfolding received acknowledge
  received-IsGone before s (none, c) (gone, same) = (gone, touched-more s.acts [] refl ∙ same)
  received-IsGone before s (some p, c) (gone, same) = (
    gone,
    touched-more s.acts (acknowledge channel total_len ErrT.ok s.conn.pcb p)
          (ap (λ b. touched (acknowledge channel total_len ErrT.ok b p)) gone)
        ∙ same,
  )

  asks-IsGone :
      (before : List Pcb) (s : Session P C)
      → IsGone before s
      → IsGone before (step channel total_len asks s)
  asks-IsGone before s h = elim (Option-cases (channel.try_receive s.conn.channel)) [
    | inl e ↦ subst (IsGone before) (sym (step-asks channel total_len s none e)) h
    | inr (item, e) ↦
        subst (IsGone before) (sym (step-asks channel total_len s (some item) e))
          (received-IsGone before s item h)
  ]

  run-IsGone :
      (before : List Pcb) (l : List (Event P)) (s : Session P C)
      → IsGone before s
      → IsGone before (run channel total_len l s)
  run-IsGone before [] s h = h
  run-IsGone before (arrives p ∷ l) s h =
      run-IsGone before l (step channel total_len (arrives p) s) (arrives-IsGone before p s h)
  run-IsGone before (ends ∷ l) s h =
      run-IsGone before l (step channel total_len ends s) (ends-IsGone before s h)
  run-IsGone before (fails ∷ l) s h =
      run-IsGone before l (step channel total_len fails s) (fails-IsGone before s h.1)
  run-IsGone before (asks ∷ l) s h =
      run-IsGone before l (step channel total_len asks s) (asks-IsGone before s h)

  close_gone :
      (refused : Option P) (conn : TcpConnection C)
      → conn.pcb ≡ none
      → touched (close channel total_len refused conn) ≡ []
  unfolding close
  close_gone refused conn gone =
      rw (close, gone) (touched-free_all (packets (channel.waiting conn.channel)))

  response_gone :
      (enqueued written put_out : ErrT) (bytes : Bytes) (conn : TcpConnection C)
      → conn.pcb ≡ none
      → (response {P = P} enqueued written put_out bytes conn).1 ≡ []
  unfolding response async_lwip response_now
  response_gone enqueued written put_out bytes conn gone =
      elim (Bool-cases (ltb 65_535 (length bytes))) [
        | inl e ↦ rw (response, e) refl
        | inr e ↦ elim (Bool-cases (is_ok enqueued)) [
          | inl f ↦ rw (response, e, async_lwip, f, gone) refl
          | inr f ↦ rw (response, e, async_lwip, f) refl
        ]
      ]

  -- Once lwIP has reported a failure, by which it has freed the control block, nothing that the
  -- connection does touches a block any more: not over any further callbacks and requests, not in a
  -- response, and not in `drop`.
  pub gone-untouched :
      (l : List (Event P)) (s : Session P C) (enqueued written put_out : ErrT) (bytes : Bytes)
      (refused : Option P)
      → let t = run channel total_len (fails ∷ l) s in
        (touched t.acts ≡ touched s.acts)
        × ((response {P = P} enqueued written put_out bytes t.conn).1 ≡ [])
        × (touched (close channel total_len refused t.conn) ≡ [])
  gone-untouched l s enqueued written put_out bytes refused =
      let t = run channel total_len (fails ∷ l) s in
      let (gone, same) =
        run-IsGone (touched s.acts) l (step channel total_len fails s)
          (fails-IsGone (touched s.acts) s refl) in
      (
        same,
        response_gone enqueued written put_out bytes t.conn gone,
        close_gone refused t.conn gone,
      )
