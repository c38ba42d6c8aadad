-- ===== src/Lwip/Tcp/Connection/Closing.antt =====
-- `drop` of a connection: what becomes of the packets that no task has been given.
use derusting.Prelude.{
  ℕ, suc, ◌≡◌, ◌∙◌, sym, ap, inl, inr, refl, Option, none, some, List, [], ◌∷◌, ◌++◌, append_assoc,
  length, arith, Option-cases,
}
use derusting.Heapless.Channel.{Channel}
use derusting.Lwip.Bindings.{Pcb}
use derusting.Lwip.Tcp.Connection.{
  recv, deliver, TcpConnection, Act, detaches, outputs, closes, packets, free_all, drain,
  process_refused, close_block, close,
}
use derusting.Lwip.Tcp.Connection.Session.{
  arrives, Session, Event, credit, credit-append, freed, run, fresh, total, total-append,
  packets_in,
}
use derusting.Lwip.Tcp.Connection.Stream.{IsBalanced, run-IsBalanced, stream-IsBalanced}
use derusting.Lwip.Tcp.Connection.Drained.{close_at, close_lem}

module _ {P C : Type 0} (channel : Channel (Option P) C) (total_len : P → ℕ) where
  total_split :
      (acts : List (Act P)) (given l taken : List P) (more : List (Act P))
      → taken ≡ given ++ l
      → credit acts ≡ total total_len given
      → credit more ≡ total total_len l
      → credit (acts ++ more) ≡ total total_len taken
  total_split acts given l taken more order window window' =
      let both = credit-append acts more in
      let parts = total-append total_len given l in
      let whole = ap (total total_len) order in omega arith

  recv-pcb : (p : P) (conn : TcpConnection C) → (recv channel (some p) conn).1.0.pcb ≡ conn.pcb
  unfolding recv deliver
  recv-pcb p conn = elim (Option-cases (channel.try_send (some p) conn.channel)) [
    | inl e ↦ rw (deliver, e) refl
    | inr (c, e) ↦ rw (deliver, e) refl
  ]

  close_open :
      (pcb : Pcb) (refused : Option P) (conn : TcpConnection C)
      → conn.pcb ≡ some pcb
      → let (acts, c) = close_block channel total_len refused pcb conn in
        close channel total_len refused conn ≡ acts ++ free_all (packets (channel.waiting c))
  unfolding close
  close_open pcb refused conn e = simp (close, e)

  close_with :
      (pcb : Pcb) (p : P) (conn : TcpConnection C)
      → conn.pcb ≡ some pcb
      → let (conn', acts) = (recv channel (some p) conn).1 in
        let (c, drained) =
          drain channel total_len
            (suc (length (channel.waiting conn'.channel)))
            pcb
            conn'.channel in
        close channel total_len (some p) conn
        ≡ (acts ++ (drained ++ detaches pcb ∷ outputs pcb ∷ closes pcb ∷ []))
          ++ free_all (packets (channel.waiting c))
  unfolding close_block process_refused
  close_with pcb p conn e = close_open pcb (some p) conn e

  -- The data that lwIP has kept back, as it comes in `drop`.
  abbrev pub kept_back : Option P → List (Event P)
  kept_back none = []
  kept_back (some p) = arrives p ∷ []

  -- To drop a connection for which lwIP has kept data back is to take the data and drop it then.
  close_refused :
      (pcb : Pcb) (refused : Option P) (s : Session P C)
      → s.conn.pcb ≡ some pcb
      → let t = run channel total_len (kept_back refused) s in
        (t.conn.pcb ≡ some pcb)
        × (s.acts ++ close channel total_len refused s.conn
            ≡ t.acts ++ close channel total_len none t.conn)
  close_refused pcb none s e = (e, refl)
  close_refused pcb (some p) s e =
      let (conn', acts) = (recv channel (some p) s.conn).1 in
      let fuel = suc (length (channel.waiting conn'.channel)) in
      let (c, drained) = drain channel total_len fuel pcb conn'.channel in
      let rest = drained ++ detaches pcb ∷ outputs pcb ∷ closes pcb ∷ [] in
      let left = free_all (packets (channel.waiting c)) in
      let block = recv-pcb p s.conn ∙ e in
      (
        block,
        ap (◌++◌ s.acts) (
              close_with pcb p s.conn e
              ∙ append_assoc acts rest left
              ∙ ap (◌++◌ acts) (sym (close_at channel total_len pcb conn' block)))
            ∙ sym (append_assoc s.acts acts (close channel total_len none conn')),
      )

  -- The same from any state in which the streams balance.
  balanced-settles :
      (s : Session P C) (pcb : Pcb) (refused : Option P)
      → IsBalanced channel total_len s
      → s.conn.pcb ≡ some pcb
      → let t = run channel total_len (kept_back refused) s in
        (s.acts ++ close channel total_len refused s.conn
          ≡ t.acts ++ close channel total_len none t.conn)
        × (credit (t.acts ++ close channel total_len none t.conn) ≡ total total_len t.taken)
        × (t.taken ≡ t.given ++ freed (close channel total_len none t.conn))
  balanced-settles s pcb refused balanced e =
      let t = run channel total_len (kept_back refused) s in
      let (block, same_acts) = close_refused pcb refused s e in
      let (order, window) = run-IsBalanced channel total_len (kept_back refused) s balanced in
      let (back, gone) = close_lem channel total_len pcb t.conn block in
      elim window [
        | inl lost ↦ cc
        | inr same ↦ (
          same_acts,
          total_split t.acts t.given (packets_in channel t.conn) t.taken
              (close channel total_len none t.conn) order same back,
          order ∙ ap (◌++◌ t.given) (sym gone),
        )
      ]

  -- A connection that still has its control block is dropped, after any callbacks and requests: this is
  -- as if the data that lwIP has kept back, if there is any, came before it. After that, lwIP has got
  -- back exactly the window of all packets that the connection has answered for with `ok`, and `drop`
  -- frees, once each and in order, those of them that the task has not been given.
  pub close-settles :
      (l : List (Event P)) (first pcb : Pcb) (refused : Option P)
      → (run channel total_len l (fresh channel total_len first)).conn.pcb ≡ some pcb
      → let s = run channel total_len l (fresh channel total_len first) in
        let t = run channel total_len (kept_back refused) s in
        (s.acts ++ close channel total_len refused s.conn
          ≡ t.acts ++ close channel total_len none t.conn)
        × (credit (t.acts ++ close channel total_len none t.conn) ≡ total total_len t.taken)
        × (t.taken ≡ t.given ++ freed (close channel total_len none t.conn))
  close-settles l first pcb refused e =
      balanced-settles (run channel total_len l (fresh channel total_len first)) pcb refused
        (stream-IsBalanced channel total_len l first) e
