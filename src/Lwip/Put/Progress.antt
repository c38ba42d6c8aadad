-- ===== src/Lwip/Put/Progress.antt =====
-- A PUT gets everything out as long as the connection takes some of it.
use derusting.Prelude.{
  ℕ, ◌+◌, ◌-◌, ◌%◌, ◌≤◌, ◌<◌, ◌≡◌, inl, inr, ◌∙◌, sym, ap, refl, min, List, [], ◌∷◌, ◌++◌,
  append-nil, length, length-append, length-take, take, ltb, ◌==◌, arith, Bytes, Bool-cases,
}
use derusting.Lwip.Bindings.{ErrT}
use derusting.Lwip.Put.{buf_cap, PutRequest, Turn, top_up, write_out, offer, pump, after_pump}
use derusting.Lwip.Put.Stream.{rest, Fits, top_up-Fits, after_pump_lem, pump_lem, sends, sends_lem}

-- The file gives a byte, lwIP has room for one, and takes it.
pub record Willing (turn : Turn) : Type 0 where
  pub reads : 0 < turn.read
  pub room : 0 < turn.sndbuf
  pub takes : turn.tcp_write ≡ ErrT.ok

pub data AllWilling : List Turn → Type 0 where
  done : AllWilling []
  next :
      {turn : Turn} {turns : List Turn}
      → Willing turn
      → AllWilling turns
      → AllWilling (turn ∷ turns)

top_up_some :
    (turn : Turn) (this : PutRequest)
    → 0 < turn.read
    → 0 < length (rest this)
    → 0 < length (top_up turn this).buf
unfolding top_up
top_up_some turn this reads some_left =
    let n : ℕ = min turn.read (buf_cap - length this.buf) in
    elim (Bool-cases (ltb 0 (buf_cap - length this.buf))) [
      | inl e ↦
          let room : 0 < buf_cap - length this.buf = ground arith in
          rw e (
            omega (
              arith,
              room,
              length-append this.buf (take n this.fh),
              length-take n this.fh,
              length-append this.buf this.fh,
            ))
      | inr e ↦ let room : buf_cap ≤ length this.buf = ground arith in rw e (omega (arith, room))
    ]

pump_some :
    (turn : Turn) (this : PutRequest)
    → Willing turn
    → Fits (top_up turn this)
    → 0 < length (rest this)
    → 0 < length (after_pump (pump turn this)).1.1
unfolding pump offer write_out after_pump top_up
pump_some turn this w fits some_left =
    let p : PutRequest = top_up turn this in
    let n : ℕ = min (length p.buf) turn.sndbuf in
    let have : 0 < length p.buf = top_up_some turn this w.reads some_left in
    let room : 0 < turn.sndbuf = w.room in
    let small : n % 65_536 ≡ n = omega arith in
    elim (Bool-cases (n == 0)) [
      | inl e ↦ absurd (ground arith)
      | inr e ↦ rw (e, w.takes) (omega (arith, length-take (n % 65_536) p.buf))
    ]

emptied :
    (turns : List Turn) (this : PutRequest)
    → Fits this
    → AllWilling turns
    → length (rest this) ≤ length turns
    → length (rest (sends turns this).0) ≤ 0
emptied [] this fits w enough = enough
emptied (turn ∷ turns) this fits (next w more) enough =
    let step = after_pump_lem turn.sndbuf this (pump turn this) (pump_lem turn this fits) in
    let p : PutRequest = (after_pump (pump turn this)).1.0 in
    let written : Bytes = (after_pump (pump turn this)).1.1 in
    let total : length written + length (rest p) ≡ length (rest this) =
      sym (length-append written (rest p)) ∙ ap length step.kept in
    elim (Bool-cases (ltb 0 (length (rest this)))) [
      | inl e ↦
          let some_out : 0 < length written =
            pump_some turn this w (top_up-Fits turn this fits) (ground arith) in
          emptied turns p step.fits more (omega (arith, some_out, total))
      | inr e ↦
          let nothing : length (rest this) ≤ 0 = ground arith in
          emptied turns p step.fits more (omega (arith, nothing, total))
    ]

-- If every turn reads a byte, has room for one and takes it, as many calls of `_sent` as bytes are left
-- suffice: all of them are handed over, in order, and none is left.
pub sends_all :
    (turns : List Turn) (this : PutRequest)
    → Fits this
    → AllWilling turns
    → length (rest this) ≤ length turns
    → ((sends turns this).1 ≡ rest this) × (rest (sends turns this).0 ≡ [])
sends_all turns this fits w enough =
    let none_left = is_empty (rest (sends turns this).0) (emptied turns this fits w enough) in
    let (kept, fits') = sends_lem turns this fits in
    (
      sym (append-nil (sends turns this).1) ∙ ap (◌++◌ (sends turns this).1) (sym none_left) ∙ kept,
      none_left,
    )
  where
    is_empty : (s : Bytes) → length s ≤ 0 → s ≡ []
    is_empty [] h = refl
    is_empty (c ∷ s) h = absurd (omega arith)
