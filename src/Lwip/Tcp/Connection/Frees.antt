-- ===== src/Lwip/Tcp/Connection/Frees.antt =====
-- How often the packets of a connection are freed.
use derusting.Prelude.{
  ℕ, ◌+◌, ◌≡◌, ◌∙◌, ap, inl, inr, refl, Bool, Option, none, some, List, [], ◌∷◌, ◌++◌, append-nil,
  arith, Option-cases, if◌then◌else◌,
}
use derusting.Heapless.Channel.{Channel}
use derusting.Lwip.Bindings.{ErrT, Pcb}
use derusting.Lwip.Tcp.Connection.{TcpConnection, Act, frees, acknowledge, received, close}
use derusting.Lwip.Tcp.Connection.Session.{
  Event, arrives, ends, fails, asks, Session, freed, freed-append, step, run, fresh, packets_in,
}
use derusting.Lwip.Tcp.Connection.Stream.{step-full, step-room, step-asks, stream-IsBalanced}
use derusting.Lwip.Tcp.Connection.Drained.{close_lem, free_all_lem}

-- The packets that the callbacks bring, one for each call.
abbrev pub arrived : {P : Type 0} → List (Event P) → List P
arrived [] = []
arrived (arrives p ∷ l) = p ∷ arrived l
arrived (ev ∷ l) = arrived l

module _ {P : Type 0} (test : P → Bool) where
  abbrev pub one : P → ℕ
  one p = if test p then 1 else 0

  -- How many of the packets pass the test.
  abbrev pub count : List P → ℕ
  count [] = 0
  count (p ∷ l) = one p + count l

  pub count-append : (l l' : List P) → count (l ++ l') ≡ count l + count l'
  count-append [] l' = omega arith
  count-append (p ∷ l) l' = let h = count-append l l' in omega arith

  pub count-freed :
      (l l' : List (Act P)) → count (freed (l ++ l')) ≡ count (freed l) + count (freed l')
  count-freed l l' = ap count (freed-append l l') ∙ count-append (freed l) (freed l')

  module _ {C : Type 0} (channel : Channel (Option P) C) (total_len : P → ℕ) where
    -- The packets that were answered with `ok`, and those that were freed.
    abbrev pub used : Session P C → ℕ
    used s = count s.taken + count (freed s.acts)

    used-arrives :
        (p : P) (s : Session P C) → used (step channel total_len (arrives p) s) ≡ one p + used s
    used-arrives p s = elim (Option-cases (channel.try_send (some p) s.conn.channel)) [
      | inl e ↦
          let more = count-freed s.acts (frees p ∷ []) in
          ap used (step-full channel total_len p s e) ∙ omega arith
      | inr (c, e) ↦
          let more = count-append s.taken (p ∷ []) in
          let same = ap (λ l. count (freed l)) (append-nil s.acts) in
          ap used (step-room channel total_len p s c e) ∙ omega arith
    ]

    freed-acknowledge :
        (block : Option Pcb) (p : P) → freed (acknowledge channel total_len ErrT.ok block p) ≡ []
    unfolding acknowledge
    freed-acknowledge none p = refl
    freed-acknowledge (some pcb) p = refl

    pub used-asks : (s : Session P C) → used (step channel total_len asks s) ≡ used s
    unfolding received
    used-asks s = elim (Option-cases (channel.try_receive s.conn.channel)) [
      | inl e ↦ ap used (step-asks channel total_len s none e)
      | inr ((none, c), e) ↦
          let same = ap (λ l. count (freed l)) (append-nil s.acts) in
          ap used (step-asks channel total_len s (some (none, c)) e) ∙ omega arith
      | inr ((some p, c), e) ↦
          let acts = acknowledge channel total_len ErrT.ok s.conn.pcb p in
          let more = count-freed s.acts acts in
          let nothing = ap count (freed-acknowledge s.conn.pcb p) in
          ap used (step-asks channel total_len s (some (some p, c)) e) ∙ omega arith
    ]

    pub used-run :
        (l : List (Event P)) (s : Session P C)
        → used (run channel total_len l s) ≡ count (arrived l) + used s
    used-run [] s = omega arith
    used-run (arrives p ∷ l) s =
        let now = used-arrives p s in
        let later = used-run l (step channel total_len (arrives p) s) in omega arith
    used-run (ends ∷ l) s = used-run l (step channel total_len ends s)
    used-run (fails ∷ l) s = used-run l (step channel total_len fails s)
    used-run (asks ∷ l) s =
        let now = used-asks s in
        let later = used-run l (step channel total_len asks s) in omega arith

    -- `drop` frees what waits, with a control block or without one.
    pub freed-close :
        (conn : TcpConnection C)
        → freed (close channel total_len none conn) ≡ packets_in channel conn
    unfolding close
    freed-close conn = elim (Option-cases conn.pcb) [
      | inl e ↦ rw (close, e) (free_all_lem (packets_in channel conn)).1
      | inr (pcb, e) ↦ (close_lem channel total_len pcb conn e).1
    ]

    -- Over the whole life of a connection, whatever comes in and however often the task asks, with or
    -- without a failure, once it has been dropped with no data kept back by lwIP: as often as calls of
    -- `_recv` have brought a packet that passes a test, such a packet has been given to the task, which
    -- drops it itself, or been freed by the connection. A call that is answered with `mem` counts as well,
    -- after which lwIP keeps the packet and calls again with it: so a packet that is refused a number of
    -- times and then taken is freed, or given away, once more than it was refused.
    pub each_call_frees :
        (l : List (Event P)) (first : Pcb)
        → let s = run channel total_len l (fresh channel total_len first) in
          count (arrived l)
          ≡ count s.given + count (freed (s.acts ++ close channel total_len none s.conn))
    each_call_frees l first =
        let s = run channel total_len l (fresh channel total_len first) in
        let order = ap count (stream-IsBalanced channel total_len l first).0 in
        let parts = count-append s.given (packets_in channel s.conn) in
        let all = used-run l (fresh channel total_len first) in
        let end = count-freed s.acts (close channel total_len none s.conn) in
        let waiting = ap count (freed-close s.conn) in omega arith
