-- ===== src/Lwip/Tcp/Connection/Full.antt =====
-- What a connection does with the end of the stream when its channel has no room for it.
use derusting.Prelude.{
  ℕ, zero, suc, ◌≤◌, ◌≡◌, ◌∙◌, ap, inl, inr, refl, Option, none, some, List, [], ◌∷◌, length, arith,
  Option-cases,
}
use derusting.Heapless.Channel.{Channel}
use derusting.Lwip.Bindings.{ErrT}
use derusting.Lwip.Tcp.Connection.{TcpConnection, send_end, recv, receive, received}
use derusting.Lwip.Tcp.Connection.Session.{Event, ends, asks, Session, step, run}
use derusting.Lwip.Tcp.Connection.Stream.{step-asks}

-- As many requests.
abbrev pub requests : {P : Type 0} → ℕ → List (Event P)
requests zero = []
requests (suc n) = asks ∷ requests n

module _ {P C : Type 0} (channel : Channel (Option P) C) where
  try_send-full :
      (x : Option P) (c : C)
      → channel.capacity ≤ length (channel.waiting c)
      → channel.try_send x c ≡ none
  try_send-full x c full = elim (Option-cases (channel.try_send x c)) [
    | inl e ↦ e
    | inr (c', e) ↦ let room = channel.try_send_room x c c' e in absurd (omega arith)
  ]

  try_receive-empty : (c : C) → length (channel.waiting c) ≡ 0 → channel.try_receive c ≡ none
  try_receive-empty c empty = elim (Option-cases (channel.try_receive c)) [
    | inl e ↦ e
    | inr ((item, c'), e) ↦
        let front = ap length (channel.waiting-try_receive item c c' e) in absurd (omega arith)
  ]

  send_end-full :
      (conn : TcpConnection C)
      → channel.capacity ≤ length (channel.waiting conn.channel)
      → send_end channel conn ≡ conn
  unfolding send_end
  send_end-full conn full = rw (send_end, try_send-full none conn.channel full) refl

  module _ (total_len : P → ℕ) where
    receive-empty :
        (conn : TcpConnection C)
        → length (channel.waiting conn.channel) ≡ 0
        → receive channel total_len ErrT.ok conn ≡ none
    unfolding receive
    receive-empty conn empty = rw (receive, try_receive-empty conn.channel empty) refl

    requests-empty :
        (n : ℕ) (s : Session P C)
        → length (channel.waiting s.conn.channel) ≡ n
        → receive channel total_len ErrT.ok (run channel total_len (requests n) s).conn ≡ none
    unfolding received
    requests-empty zero s e = receive-empty s.conn e
    requests-empty (suc n) s e = elim (Option-cases (channel.try_receive s.conn.channel)) [
      | inl none_left ↦
          let nil = ap length (channel.try_receive_empty s.conn.channel none_left) in
          absurd (omega arith)
      | inr ((item, c), got) ↦ requests-empty n (step channel total_len asks s) (shorter item c got)
    ]
      where
        shorter :
            (item : Option P) (c : C)
            → channel.try_receive s.conn.channel ≡ some (item, c)
            → length (channel.waiting (step channel total_len asks s).conn.channel) ≡ n
        shorter none c got =
            let front : length (channel.waiting s.conn.channel) ≡ suc (length (channel.waiting c)) =
              ap length (channel.waiting-try_receive none s.conn.channel c got) in
            let left : length (channel.waiting c) ≡ n = omega arith in
            ap (λ t. length (channel.waiting t.conn.channel))
              (step-asks channel total_len s (some (none, c)) got)
            ∙ left
        shorter (some p) c got =
            let front : length (channel.waiting s.conn.channel) ≡ suc (length (channel.waiting c)) =
              ap length (channel.waiting-try_receive (some p) s.conn.channel c got) in
            let left : length (channel.waiting c) ≡ n = omega arith in
            ap (λ t. length (channel.waiting t.conn.channel))
              (step-asks channel total_len s (some ((some p), c)) got)
            ∙ left

    -- The end of the stream that comes while the channel is full is lost: after the requests that take
    -- what was waiting, the next one waits, although the peer has closed.
    pub end-lost :
        (s : Session P C)
        → channel.capacity ≤ length (channel.waiting s.conn.channel)
        → receive channel total_len ErrT.ok
            (run channel total_len
              (ends ∷ requests (length (channel.waiting s.conn.channel)))
              s).conn
          ≡ none
    unfolding recv
    end-lost s full =
        ap
          (λ conn.
            receive channel total_len ErrT.ok
              (run channel total_len (requests (length (channel.waiting s.conn.channel)))
                (record s { conn = conn })).conn)
          (send_end-full s.conn full)
        ∙ requests-empty (length (channel.waiting s.conn.channel)) s refl
