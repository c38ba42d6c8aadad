-- ===== src/Lwip/Put/Stream.antt =====
-- The bytes that a PUT hands to lwIP.
use derusting.Prelude.{
  ℕ, ◌-◌, ◌%◌, ◌≤◌, ◌≡◌, ◌∙◌, sym, ap, inl, inr, refl, min, some, List, [], ◌∷◌, ◌++◌, append_assoc,
  length, length-append, length-take, length-drop, take, drop, take-append-drop, ltb, ◌==◌, arith,
  Bytes, Bool-cases,
}
use derusting.Prelude.Result.{ok, err}
use derusting.Kinds.{Uuid}
use derusting.Heapless.Texts.{Texts}
use derusting.Lwip.Bindings.{ErrT, mem}
use derusting.Lwip.Put.{
  buf_cap, PutRequest, Turn, top_up, Pumped, write_out, offer, pump, after_pump, header_text,
  on_connected,
}

-- What is still to be handed over.
abbrev pub rest : PutRequest → Bytes
rest this = this.buf ++ this.fh

-- The buffer is within its capacity.
abbrev pub Fits : PutRequest → Type 0
Fits this = length this.buf ≤ buf_cap

rest-top_up : (turn : Turn) (this : PutRequest) → rest (top_up turn this) ≡ rest this
unfolding top_up
rest-top_up turn this =
    let n : ℕ = min turn.read (buf_cap - length this.buf) in
    elim (Bool-cases (ltb 0 (buf_cap - length this.buf))) [
      | inl e ↦ rw e (
          append_assoc this.buf (take n this.fh) (drop n this.fh)
          ∙ ap (◌++◌ this.buf) (take-append-drop n this.fh))
      | inr e ↦ rw e refl
    ]

pub top_up-Fits : (turn : Turn) (this : PutRequest) → Fits this → Fits (top_up turn this)
unfolding top_up
top_up-Fits turn this h =
    let n : ℕ = min turn.read (buf_cap - length this.buf) in
    elim (Bool-cases (ltb 0 (buf_cap - length this.buf))) [
      | inl e ↦ rw e (omega (arith, length-append this.buf (take n this.fh), length-take n this.fh))
      | inr e ↦ rw e h
    ]

-- What one call hands over and what it leaves is what there was.
pub record Conserves (room : ℕ) (this : PutRequest) (r : PutRequest × Bytes) : Type 0 where
  pub kept : r.1 ++ rest r.0 ≡ rest this
  pub fits : Fits r.0
  pub bound : length r.1 ≤ room

Conserves-none : (room : ℕ) (this : PutRequest) → Fits this → Conserves room this (this, [])
Conserves-none room this h = record { kept = refl; fits = h; bound = omega arith }

write_out_lem :
    (room n : ℕ) (e : ErrT) (this : PutRequest)
    → n ≤ room
    → n ≤ length this.buf
    → Fits this
    → Conserves room this (write_out n e this).1
unfolding write_out
write_out_lem room n ErrT.ok this le len h =
    let small : n % 65_536 ≡ n = omega arith in
    rw small (record {
      kept =
          sym (append_assoc (take n this.buf) (drop n this.buf) this.fh)
          ∙ ap (λ b. b ++ this.fh) (take-append-drop n this.buf);
      fits = omega (arith, length-drop n this.buf);
      bound = omega (arith, length-take n this.buf);
    })
write_out_lem room n mem this le len h = Conserves-none room this h
write_out_lem room n e this le len h = Conserves-none room this h

pub pump_lem :
    (turn : Turn) (this : PutRequest) → Fits this → Conserves turn.sndbuf this (pump turn this).1
unfolding pump offer
pump_lem turn this h =
    let p : PutRequest = top_up turn this in
    let n : ℕ = min (length p.buf) turn.sndbuf in
    let fit : Fits p = top_up-Fits turn this h in
    let same : rest p ≡ rest this = rest-top_up turn this in
    let written = write_out_lem turn.sndbuf n turn.tcp_write p (omega arith) (omega arith) fit in
    elim (Bool-cases (n == 0)) [
      | inl e ↦ rw e (record { kept = same; fits = fit; bound = omega arith })
      | inr e ↦
          rw e (record { kept = written.kept ∙ same; fits = written.fits; bound = written.bound })
    ]

-- Signalling does not touch the bytes.
pub after_pump_lem :
    (room : ℕ) (this : PutRequest) (r : Pumped)
    → Conserves room this r.1
    → Conserves room this (after_pump r).1
unfolding after_pump
after_pump_lem room this (err e, (p, w)) c = record {
  kept = c.kept;
  fits = c.fits;
  bound = c.bound;
}
after_pump_lem room this (ok u, r) c = c

-- Calls of `_sent`, in order: the request after them and all bytes handed over.
abbrev pub sends : List Turn → PutRequest → PutRequest × Bytes
sends [] this = (this, [])
sends (turn ∷ turns) this =
    let (p, w) = (after_pump (pump turn this)).1 in let (q, more) = sends turns p in (q, w ++ more)

pub sends_lem :
    (turns : List Turn) (this : PutRequest)
    → Fits this
    → ((sends turns this).1 ++ rest (sends turns this).0 ≡ rest this) × Fits (sends turns this).0
sends_lem [] this h = (refl, h)
sends_lem (turn ∷ turns) this h =
    let step = after_pump_lem turn.sndbuf this (pump turn this) (pump_lem turn this h) in
    let p : PutRequest = (after_pump (pump turn this)).1.0 in
    let (kept, fits) = sends_lem turns p step.fits in
    (
      append_assoc (after_pump (pump turn this)).1.1 (sends turns p).1 (rest (sends turns p).0)
          ∙ ap (◌++◌ (after_pump (pump turn this)).1.1) kept
          ∙ step.kept,
      fits,
    )

module _ (texts : Texts) (show : Uuid → Bytes) where
  started :
      (first : Turn) (this : PutRequest)
      → this.buf ≡ []
      → length (header_text show this.guid this.fsize) ≤ 256
      → on_connected texts show first this
        ≡ after_pump (pump first (record this { buf = header_text show this.guid this.fsize }))
  unfolding on_connected
  started first this empty short =
      let header = header_text show this.guid this.fsize in
      let written : texts.write 256 [] header ≡ some header =
        texts.write_fits 256 [] header (omega arith) in
      let extended : texts.extend_from_slice buf_cap this.buf header ≡ some header =
        ap (λ b. texts.extend_from_slice buf_cap b header) empty
        ∙ texts.extend_from_slice_fits buf_cap [] header (omega arith) in
      ground (arith, written, extended)

  -- After a connection whose header fits the buffers, and any number of `_sent` callbacks, however
  -- much each reads of the file, has room for, or fails: the bytes handed to lwIP, followed by the
  -- buffer and by what is unread of the file, are the header and the file. So nothing is lost,
  -- repeated or reordered, and the staging buffer never exceeds its capacity.
  pub put_conserves :
      (first : Turn) (turns : List Turn) (this : PutRequest)
      → this.buf ≡ []
      → length (header_text show this.guid this.fsize) ≤ 256
      → let (code, (p, written)) = on_connected texts show first this in
        let (q, more) = sends turns p in
        ((written ++ more) ++ (q.buf ++ q.fh) ≡ header_text show this.guid this.fsize ++ this.fh)
        × (length q.buf ≤ buf_cap)
  put_conserves first turns this empty short =
      let header = header_text show this.guid this.fsize in
      let p0 = record this { buf = header } in
      let step = after_pump_lem first.sndbuf p0 (pump first p0) (pump_lem first p0 (omega arith)) in
      let p = (after_pump (pump first p0)).1 in
      let (kept, fits) = sends_lem turns p.0 step.fits in
      rw (started first this empty short) (
        append_assoc p.1 (sends turns p.0).1 (rest (sends turns p.0).0)
            ∙ ap (◌++◌ p.1) kept
            ∙ step.kept,
        fits,
      )
