-- ===== src/Lwip/Put/Ends.antt =====
-- When the task that waits in `send` goes on.
use derusting.Prelude.{
  ℕ, ◌-◌, ◌≡◌, inl, inr, ◌∙◌, refl, Bool, true, false, ◌||◌, Option, none, some, List, [], ◌∷◌,
  ◌==◌, if◌then◌else◌, arith, Bytes, Bool-cases, Option-cases, length, min, ltb,
}
use derusting.Prelude.Result.{Result, ok, err}
use derusting.Kinds.{Uuid}
use derusting.Heapless.Texts.{Texts}
use derusting.Lwip.Bindings.{ErrT, mem, clsd, Pcb, is_ok}
use derusting.Lwip.Access.{async_lwip}
use derusting.Lwip.Put.{
  buf_cap, PutRequest, Turn, top_up, write_out, offer, pump, after_pump, header_text, on_connected,
  connected, sent, recv, failed, start, await, close,
}
use derusting.Lwip.Put.Life.{Event, on_connect, on_sent, on_recv, on_err, any, step, run, step_lem}
use derusting.Lwip.Put.File.{Attempt, ended, wait, after_start, send}

abbrev pub has_signal : PutRequest → Bool
has_signal this = elim this.signal [ none ↦ false | some e ↦ true ]

-- The other machine's answer or its end of the connection, or a failure of the connection.
abbrev pub is_final : Event → Bool
is_final (on_recv e pbuf) = true
is_final (on_err e) = true
is_final ev = false

top_up-signal : (turn : Turn) (this : PutRequest) → has_signal (top_up turn this) ≡ has_signal this
unfolding top_up
top_up-signal turn this = elim (Bool-cases (ltb 0 (buf_cap - length this.buf))) [
  | inl e ↦ rw e refl
  | inr e ↦ rw e refl
]

write_out-signal :
    (n : ℕ) (e : ErrT) (this : PutRequest)
    → has_signal this ≡ true
    → has_signal (after_pump (write_out n e this)).1.0 ≡ true
unfolding write_out after_pump
write_out-signal n ErrT.ok this h = h
write_out-signal n mem this h = h
write_out-signal n e this h = refl

pump-signal :
    (turn : Turn) (this : PutRequest)
    → has_signal this ≡ true
    → has_signal (after_pump (pump turn this)).1.0 ≡ true
unfolding pump offer after_pump
pump-signal turn this h =
    let p : PutRequest = top_up turn this in
    let n : ℕ = min (length p.buf) turn.sndbuf in
    let before : has_signal p ≡ true = top_up-signal turn this ∙ h in
    elim (Bool-cases (n == 0)) [
      | inl e ↦ rw e before
      | inr e ↦ rw e (write_out-signal n turn.tcp_write p before)
    ]

module _ (texts : Texts) (show : Uuid → Bytes) where
  on_connected-signal :
      (turn : Turn) (this : PutRequest)
      → has_signal this ≡ true
      → has_signal (on_connected texts show turn this).1.0 ≡ true
  unfolding on_connected
  on_connected-signal turn this h =
      elim (Option-cases (texts.write 256 [] (header_text show this.guid this.fsize))) [
        | inl e ↦ rw (on_connected, e) refl
        | inr (headers, e) ↦
            elim (Option-cases (texts.extend_from_slice buf_cap this.buf headers)) [
              | inl f ↦ rw (on_connected, e, f) (pump-signal turn this h)
              | inr (buf, f) ↦
                  rw (on_connected, e, f) (pump-signal turn (record this { buf = buf }) h)
            ]
      ]

  -- A callback keeps a signal, and a final one gives it.
  step-signal :
      (ev : Event) (this : PutRequest)
      → has_signal this || is_final ev ≡ true
      → (p : PutRequest) × (step texts show ev this ≡ some p) × (has_signal p ≡ true)
  unfolding connected sent recv failed
  step-signal (on_connect e turn) this h =
      let before : has_signal this ≡ true = ground arith in
      elim (Bool-cases (is_ok e)) [
        | inl same ↦ (
          (on_connected texts show turn this).1.0,
          ground arith,
          on_connected-signal turn this before,
        )
        | inr same ↦ (record this { signal = some e }, ground arith, refl)
      ]
  step-signal (on_sent turn) this h =
      let before : has_signal this ≡ true = ground arith in
      ((after_pump (pump turn this)).1.0, refl, pump-signal turn this before)
  step-signal (on_recv e none) this h = elim (Bool-cases (is_ok e)) [
    | inl same ↦ (record this { signal = some clsd }, ground arith, refl)
    | inr same ↦ (record this { signal = some e }, ground arith, refl)
  ]
  step-signal (on_recv e (some p)) this h = elim (Bool-cases (is_ok e)) [
    | inl same ↦ (record this { signal = some ErrT.ok }, ground arith, refl)
    | inr same ↦ (record this { signal = some e }, ground arith, refl)
  ]
  step-signal (on_err e) this h = (record this { pcb = none; signal = some e }, refl, refl)

  run-signal :
      (l : List Event) (this : PutRequest)
      → has_signal this || any is_final l ≡ true
      → (p : PutRequest) × (run texts show l this ≡ some p) × (has_signal p ≡ true)
  run-signal [] this h = (this, refl, ground arith)
  run-signal (ev ∷ l) this h = elim (Bool-cases (has_signal this || is_final ev)) [
    | inl now ↦
        let (p, stepped, signal) = step-signal ev this now in
        let (q, ran, final) = run-signal l p (ground arith) in (q, simp (run, stepped, ran), final)
    | inr later ↦
        let (p, (stepped, block, said)) = step_lem texts show ev this in
        let (q, ran, final) = run-signal l p (ground arith) in (q, simp (run, stepped, ran), final)
  ]

  pub await_at :
      (this : PutRequest) (e : ErrT)
      → this.signal ≡ some e
      → (await this).0 ≡ some (if is_ok e then ok tt else err e)
  unfolding await
  await_at this e same = rw (await, same) refl

  wait_ends :
      (this : PutRequest)
      → has_signal this ≡ true
      → (res : Result (Unit {0}) ErrT) × ((pcb : Option Pcb) × (wait texts show (some this)
            ≡ ended res pcb))
  unfolding wait
  wait_ends this h = elim (Option-cases this.signal) [
    | inl e ↦ let none_there : has_signal this ≡ false = rw e refl in cc
    | inr (e, same) ↦ (
      if is_ok e then ok tt else err e,
      ((close (await this).1).0, rw (wait, await_at this e same) refl),
    )
  ]

  after_start_ends :
      (l : List Event) (r : Result (Unit {0}) ErrT × PutRequest)
      → any is_final l ≡ true
      → (res : Result (Unit {0}) ErrT) × ((pcb : Option Pcb) × (after_start texts show l r
            ≡ ended res pcb))
  unfolding after_start
  after_start_ends l (err e, this) h = (err e, ((close this).0, refl))
  after_start_ends l (ok u, this) h =
      let (p, ran, signal) = run-signal l this (ground arith) in
      let (res, (pcb, same)) = wait_ends p signal in (res, (pcb, rw (after_start, ran) same))

  -- A PUT comes to its end, with an answer and the `drop` of its request, as soon as lwIP reports
  -- anything from the other machine, a packet or its end of the connection, or a failure of the
  -- connection, whatever else it calls back before and after.
  pub report_ends_put :
      (lwip : Attempt) (this : PutRequest)
      → any is_final lwip.events ≡ true
      → (res : Result (Unit {0}) ErrT) × ((pcb : Option Pcb) × (send texts show lwip this
            ≡ ended res pcb))
  unfolding send
  report_ends_put lwip this h =
      after_start_ends lwip.events (async_lwip lwip.enqueued (start lwip.new lwip.connect) this) h
