-- ===== src/Lwip/Put/Life.antt =====
-- How a PUT ends, and what becomes of its control block.
use derusting.Prelude.{
  ℕ, ◌≡◌, ◌⊎◌, inl, inr, ◌∙◌, refl, Bool, true, false, ◌||◌, Option, none, some, List, [], ◌∷◌,
  ◌==◌, if◌then◌else◌, arith, Bytes, Bool-cases, Option-cases, length, min, ltb, ◌-◌,
}
use derusting.Prelude.Result.{ok}
use derusting.Kinds.{Uuid}
use derusting.Heapless.Texts.{Texts}
use derusting.Lwip.Bindings.{ErrT, mem, clsd, Pcb, is_ok}
use derusting.Lwip.Put.{
  buf_cap, PutRequest, Turn, top_up, write_out, offer, pump, signalled, after_pump, header_text,
  on_connected, connected, sent, recv, failed, start, await, close,
}

-- What lwIP calls.
pub data Event : Type 0 where
  on_connect : ErrT → Turn → Event
  on_sent : Turn → Event
  on_recv : ErrT → Option Bytes → Event
  on_err : ErrT → Event

-- Another machine's answer, or an error callback that reports no error.
abbrev pub answers : Event → Bool
answers (on_recv e (some p)) = is_ok e
answers (on_err e) = is_ok e
answers ev = false

abbrev pub frees : Event → Bool
frees (on_err e) = true
frees ev = false

abbrev pub any : (Event → Bool) → List Event → Bool
any test [] = false
any test (ev ∷ l) = test ev || any test l

abbrev pub says_ok : Option ErrT → Bool
says_ok none = false
says_ok (some e) = is_ok e

-- The same block, and no new "ok" signalled.
record SameEnds (this p : PutRequest) : Type 0 where
  pcb : p.pcb ≡ this.pcb
  signal : says_ok p.signal ≡ true → says_ok this.signal ≡ true

same_ends : (this : PutRequest) → SameEnds this this
same_ends this = record { pcb = refl; signal = λ h. h }

top_up-ends : (turn : Turn) (this : PutRequest) → SameEnds this (top_up turn this)
unfolding top_up
top_up-ends turn this = elim (Bool-cases (ltb 0 (buf_cap - length this.buf))) [
  | inl e ↦ rw e (record { pcb = refl; signal = λ h. h })
  | inr e ↦ rw e (same_ends this)
]

write_out-ends :
    (n : ℕ) (e : ErrT) (this : PutRequest) → SameEnds this (after_pump (write_out n e this)).1.0
unfolding write_out after_pump
write_out-ends n ErrT.ok this = record { pcb = refl; signal = λ h. h }
write_out-ends n mem this = record { pcb = refl; signal = λ h. h }
write_out-ends n e this = record { pcb = refl; signal = λ h. cc }

pump-ends : (turn : Turn) (this : PutRequest) → SameEnds this (after_pump (pump turn this)).1.0
unfolding pump offer after_pump top_up
pump-ends turn this =
    let p : PutRequest = top_up turn this in
    let n : ℕ = min (length p.buf) turn.sndbuf in
    let before = top_up-ends turn this in
    let out = write_out-ends n turn.tcp_write p in
    elim (Bool-cases (n == 0)) [
      | inl e ↦ rw e before
      | inr e ↦
          rw e (record { pcb = out.pcb ∙ before.pcb; signal = λ h. before.signal (out.signal h) })
    ]

combine-pcb :
    (a b : Bool) (first second third : Option Pcb)
    → second ≡ (if a then none else first)
    → third ≡ (if b then none else second)
    → third ≡ (if a || b then none else first)
combine-pcb true true u v w e f = f
combine-pcb true false u v w e f = f ∙ e
combine-pcb false true u v w e f = f
combine-pcb false false u v w e f = f ∙ e

combine-ok :
    (a b : Bool) {P Q : Type 0} → (P → Q ⊎ (a ≡ true)) → P ⊎ (b ≡ true) → Q ⊎ (a || b ≡ true)
combine-ok true b f g = inr refl
combine-ok false b f (inl p) = elim (f p) [ inl q ↦ inl q | inr h ↦ absurd (cc) ]
combine-ok false b f (inr h) = inr h

-- The answer of `send` is "ok" only if that was signalled.
await-says_ok : (p : PutRequest) → (await p).0 ≡ some (ok tt) → says_ok p.signal ≡ true
unfolding await
await-says_ok p h = ground arith

module _ (texts : Texts) (show : Uuid → Bytes) where
  on_connected-ends :
      (turn : Turn) (this : PutRequest) → SameEnds this (on_connected texts show turn this).1.0
  unfolding on_connected
  on_connected-ends turn this =
      elim (Option-cases (texts.write 256 [] (header_text show this.guid this.fsize))) [
        | inl e ↦ rw (on_connected, e) (record { pcb = refl; signal = λ h. cc })
        | inr (headers, e) ↦
            elim (Option-cases (texts.extend_from_slice buf_cap this.buf headers)) [
              | inl f ↦ rw (on_connected, e, f) (pump-ends turn this)
              | inr (buf, f) ↦
                  let out = pump-ends turn (record this { buf = buf }) in
                  rw (on_connected, e, f) (record { pcb = out.pcb; signal = out.signal })
            ]
      ]

  -- The request after a callback.
  abbrev pub step : Event → PutRequest → Option PutRequest
  step (on_connect e turn) this = (connected texts show e turn (some this)).1.0
  step (on_sent turn) this = (sent turn (some this)).1.0
  step (on_recv e pbuf) this = (recv e pbuf (some this)).1
  step (on_err e) this = failed e (some this)

  -- Callbacks, in order.
  abbrev pub run : List Event → PutRequest → Option PutRequest
  run [] this = some this
  run (ev ∷ l) this = elim (step ev this) [ none ↦ none | some p ↦ run l p ]

  -- What one callback does.
  abbrev Stepped : Event → PutRequest → PutRequest → Type 0
  Stepped ev this p =
      (step ev this ≡ some p)
      × (p.pcb ≡ (if frees ev then none else this.pcb))
      × (says_ok p.signal ≡ true → (says_ok this.signal ≡ true) ⊎ (answers ev ≡ true))

  pub step_lem : (ev : Event) (this : PutRequest) → (p : PutRequest) × Stepped ev this p
  unfolding connected sent recv failed
  step_lem (on_connect e turn) this = elim (Bool-cases (is_ok e)) [
    | inl h ↦
        let ends = on_connected-ends turn this in
        (
          (on_connected texts show turn this).1.0,
          (ground arith, ends.pcb, λ s. inl (ends.signal s)),
        )
    | inr h ↦ (signalled e this, (ground arith, refl, λ s. cc))
  ]
  step_lem (on_sent turn) this =
      let ends = pump-ends turn this in
      ((after_pump (pump turn this)).1.0, (refl, ends.pcb, λ s. inl (ends.signal s)))
  step_lem (on_recv e none) this = elim (Bool-cases (is_ok e)) [
    | inl h ↦ (signalled clsd this, (ground arith, refl, λ s. cc))
    | inr h ↦ (signalled e this, (ground arith, refl, λ s. cc))
  ]
  step_lem (on_recv e (some p)) this = elim (Bool-cases (is_ok e)) [
    | inl h ↦ (signalled ErrT.ok this, (ground arith, refl, λ s. inr h))
    | inr h ↦ (signalled e this, (ground arith, refl, λ s. cc))
  ]
  step_lem (on_err e) this = (signalled e (record this { pcb = none }), (refl, refl, λ s. inr s))

  -- What a run of callbacks does.
  abbrev pub Ran : List Event → PutRequest → PutRequest → Type 0
  Ran l this p =
      (run l this ≡ some p)
      × ((close p).0 ≡ (if any frees l then none else this.pcb))
      × (says_ok p.signal ≡ true → (says_ok this.signal ≡ true) ⊎ (any answers l ≡ true))

  pub through :
      (ev : Event) (l : List Event) (this p q : PutRequest)
      → step ev this ≡ some p
      → run l p ≡ some q
      → run (ev ∷ l) this ≡ some q
  through ev l this p q e f = simp (run, e, f)

  run_lem : (l : List Event) (this : PutRequest) → (p : PutRequest) × Ran l this p
  unfolding close
  run_lem [] this = (this, (refl, refl, λ s. inl s))
  run_lem (ev ∷ l) this =
      let (p, (stepped, pcb, signal)) = step_lem ev this in
      let (q, (ran, pcb', signal')) = run_lem l p in
      (
        q,
        (
          through ev l this p q stepped ran,
          combine-pcb (frees ev) (any frees l) this.pcb p.pcb (close q).0 pcb pcb',
          λ s. combine-ok (answers ev) (any answers l) signal (signal' s),
        ),
      )

  -- Whatever lwIP calls back after a successful start, and in whatever order: the final `tcp_close`
  -- gets the block that `tcp_new` gave, exactly if no error callback has reported it as freed; and
  -- `send` answers `Ok` only if a callback brought a packet from the other machine, or reported "ok"
  -- as an error.
  pub block_and_answer :
      (pcb : Pcb) (this : PutRequest) (l : List Event)
      → this.signal ≡ none
      → (p : PutRequest) × (run l (start (some pcb) ErrT.ok this).1 ≡ some p)
        × ((close p).0 ≡ (if any frees l then none else some pcb))
        × ((await p).0 ≡ some (ok tt) → any answers l ≡ true)
  unfolding start await
  block_and_answer pcb this l h =
      let (p, (ran, closed, signal)) = run_lem l (record this { pcb = some pcb }) in
      (p, ran, closed, λ a. answered (signal (await-says_ok p a)))
    where
      answered : (says_ok this.signal ≡ true) ⊎ (any answers l ≡ true) → any answers l ≡ true
      answered (inl s) = absurd (cc)
      answered (inr s) = s
