-- ===== src/Lwip/Tcp/Connection/Session.antt =====
-- The life of a connection: the callbacks and requests in their order, and what has come in and out.
use derusting.Prelude.{
  ℕ, ◌+◌, ◌≡◌, ap, refl, Option, none, some, List, [], ◌∷◌, ◌++◌, arith, if◌then◌else◌,
}
use derusting.Heapless.Channel.{Channel}
use derusting.Lwip.Bindings.{ErrT, Pcb, is_ok}
use derusting.Lwip.Tcp.Connection.{
  TcpConnection, Act, recved, frees, packets, new, recv, failed, receive, detaches, outputs, closes,
}

-- A callback with a packet or at the end of the stream, a failure of the connection, or the task
-- that asks for a packet, where lwIP takes its call.
pub data Event (P : Type 0) : Type 0 where
  arrives : P → Event P
  ends fails asks : Event P

-- A connection with the packets that its callback has answered for with `ok`, those that its task has
-- been given, and all acts.
pub record Session (P C : Type 0) : Type 0 where
  pub conn : TcpConnection C
  pub taken : List P
  pub given : List P
  pub acts : List (Act P)

pub packets-append :
    {P : Type 0} (l l' : List (Option P)) → packets (l ++ l') ≡ packets l ++ packets l'
packets-append [] l' = refl
packets-append (none ∷ l) l' = packets-append l l'
packets-append (some p ∷ l) l' = ap (◌∷◌ p) (packets-append l l')

-- The bytes of the receive window that acts give back.
abbrev pub credit : {P : Type 0} → List (Act P) → ℕ
credit [] = 0
credit (recved pcb n ∷ l) = n + credit l
credit (a ∷ l) = credit l

-- The packets that acts free.
abbrev pub freed : {P : Type 0} → List (Act P) → List P
freed [] = []
freed (frees p ∷ l) = p ∷ freed l
freed (a ∷ l) = freed l

pub credit-append : {P : Type 0} (l l' : List (Act P)) → credit (l ++ l') ≡ credit l + credit l'
credit-append [] l' = omega arith
credit-append (recved pcb n ∷ l) l' = let h = credit-append l l' in omega arith
credit-append (Act.attaches pcb ∷ l) l' = credit-append l l'
credit-append (detaches pcb ∷ l) l' = credit-append l l'
credit-append (Act.writes pcb b ∷ l) l' = credit-append l l'
credit-append (outputs pcb ∷ l) l' = credit-append l l'
credit-append (closes pcb ∷ l) l' = credit-append l l'
credit-append (frees p ∷ l) l' = credit-append l l'

pub freed-append : {P : Type 0} (l l' : List (Act P)) → freed (l ++ l') ≡ freed l ++ freed l'
freed-append [] l' = refl
freed-append (frees p ∷ l) l' = ap (◌∷◌ p) (freed-append l l')
freed-append (Act.attaches pcb ∷ l) l' = freed-append l l'
freed-append (detaches pcb ∷ l) l' = freed-append l l'
freed-append (Act.writes pcb b ∷ l) l' = freed-append l l'
freed-append (outputs pcb ∷ l) l' = freed-append l l'
freed-append (closes pcb ∷ l) l' = freed-append l l'
freed-append (recved pcb n ∷ l) l' = freed-append l l'

module _ {P : Type 0} (total_len : P → ℕ) where
  abbrev pub total : List P → ℕ
  total [] = 0
  total (p ∷ l) = total_len p + total l

  pub total-append : (l l' : List P) → total (l ++ l') ≡ total l + total l'
  total-append [] l' = omega arith
  total-append (p ∷ l) l' = let h = total-append l l' in omega arith

abbrev pub packets_in : {P C : Type 0} → Channel (Option P) C → TcpConnection C → List P
packets_in channel conn = packets (channel.waiting conn.channel)

module _ {P C : Type 0} (channel : Channel (Option P) C) (total_len : P → ℕ) where
  abbrev pub fresh : Pcb → Session P C
  fresh pcb = record { conn = new channel pcb; taken = []; given = []; acts = [] }

  abbrev pub after_recv : P → Session P C → ErrT × (TcpConnection C × List (Act P)) → Session P C
  after_recv p s (e, (conn, acts)) = record {
    conn = conn;
    taken = if is_ok e then s.taken ++ p ∷ [] else s.taken;
    given = s.given;
    acts = s.acts ++ acts;
  }

  abbrev pub after_receive :
      Session P C → Option (Option P × (TcpConnection C × List (Act P))) → Session P C
  after_receive s none = s
  after_receive s (some (none, (conn, acts))) = record s { conn = conn; acts = s.acts ++ acts }
  after_receive s (some (some p, (conn, acts))) = record {
    conn = conn;
    taken = s.taken;
    given = s.given ++ p ∷ [];
    acts = s.acts ++ acts;
  }

  abbrev pub step : Event P → Session P C → Session P C
  step (arrives p) s = after_recv p s (recv channel (some p) s.conn)
  step ends s = record s { conn = (recv channel none s.conn).1.0 }
  step fails s = record s { conn = failed channel s.conn }
  step asks s = after_receive s (receive channel total_len ErrT.ok s.conn)

  abbrev pub run : List (Event P) → Session P C → Session P C
  run [] s = s
  run (ev ∷ l) s = run l (step ev s)
