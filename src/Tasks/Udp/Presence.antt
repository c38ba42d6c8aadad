-- ===== src/Tasks/Udp/Presence.antt =====
-- A machine that keeps sending stays in the address book.
use derusting.Prelude.{
  ◌+◌, ◌*◌, ◌<◌, ◌≡◌, ◌≢◌, ◌∙◌, ap, inl, inr, Bool, false, not, ◌&&◌, Option, none, some, List, [],
  ◌∷◌, ◌==◌, ==_iff, if◌then◌else◌, arith, Bytes, Bool-cases, Option-cases,
}
use derusting.Kinds.{Ipv4Addr, Instant}
use derusting.Heapless.LinearMap.{LinearMap}
use derusting.Heapless.IndexSet.{IndexSet}
use derusting.Heapless.History.{History}
use derusting.Tasks.Messages.{Message}
use derusting.Tasks.Udp.{Packet, Receiver, note_address, lifetime_check, handle, receive}
use derusting.Tasks.Udp.Book.{
  last_heard, last_heard-lifetime_check, note_address_lem, note_address-other,
}

-- A turn of `udp_receiver` with a packet, or a round of the check, at a time.
pub data Event : Type 0 where
  gets : Packet → Event
  checks : Instant → Event

module _ {M : Type 0} (book : LinearMap Instant M) where
  -- A packet of the machine itself, which is in the book.
  heard_again :
      (addr : Ipv4Addr) (since now : Instant) (m : M)
      → last_heard book addr m ≡ some since
      → last_heard book addr (note_address book addr now m) ≡ some now
  heard_again addr since now m h = elim (note_address_lem book addr now m) [
    | inl e ↦ e
    | inr (new, full, same) ↦ absurd (cc)
  ]

  hears_lem :
      (addr other : Ipv4Addr) (since now : Instant) (m : M)
      → last_heard book addr m ≡ some since
      → last_heard book addr (note_address book other now m)
        ≡ some (if other == addr then now else since)
  hears_lem addr other since now m h = elim (Bool-cases (other == addr)) [
    | inl e ↦
        let same : other ≡ addr = (==_iff other addr).0 e in
        rw e (
          ap (λ a. last_heard book addr (note_address book a now m)) same
          ∙ heard_again addr since now m h)
    | inr e ↦
        let apart : addr ≢ other = ground arith in
        rw e (note_address-other book other addr now m apart ∙ h)
  ]

module _ {M S C H : Type 0} (book : LinearMap Instant M) (jobs : IndexSet S) (seen : History H)
    (decode : Bytes → Option (Message S)) where
  abbrev pub step : Event → Receiver M S C H → Receiver M S C H
  step (gets p) r = receive book jobs seen decode p r
  step (checks now) r = record r {
    state = record r.state { addresses = lifetime_check book now r.state.addresses };
  }

  abbrev pub run : List Event → Receiver M S C H → Receiver M S C H
  run [] r = r
  run (ev ∷ l) r = run l (step ev r)

  -- The packet can be read, and is no copy of one that the history still holds.
  unfoldable pub is_new : Packet → Receiver M S C H → Bool
  is_new p r = elim p.chunk [
    | none ↦ false
    | some bytes ↦ elim (decode bytes) [
      | none ↦ false
      | some msg ↦ not (seen.contains r.history msg.idempotency)
    ]
  ]

  -- The time of the machine's last packet, with the packet.
  abbrev pub heard_at : Ipv4Addr → Instant → Packet → Receiver M S C H → Instant
  heard_at addr since p r = if is_new p r && p.addr == addr then p.now else since

  -- Each round of the check comes less than 20 seconds after the last new packet of the machine, of which
  -- the last one before came at the given time.
  abbrev pub IsHeard : Ipv4Addr → Instant → List Event → Receiver M S C H → Type 0
  IsHeard addr since [] r = Unit {0}
  IsHeard addr since (checks now ∷ l) r =
      (now < since + 20 * 1000) × IsHeard addr since l (step (checks now) r)
  IsHeard addr since (gets p ∷ l) r = IsHeard addr (heard_at addr since p r) l (step (gets p) r)

  -- The time of the machine's last new packet.
  abbrev pub last_packet : Ipv4Addr → Instant → List Event → Receiver M S C H → Instant
  last_packet addr since [] r = since
  last_packet addr since (checks now ∷ l) r = last_packet addr since l (step (checks now) r)
  last_packet addr since (gets p ∷ l) r =
      last_packet addr (heard_at addr since p r) l (step (gets p) r)

  -- What a packet does to the address book.
  addresses-receive :
      (p : Packet) (r : Receiver M S C H)
      → (receive book jobs seen decode p r).state.addresses ≡ (
          if is_new p r
          then note_address book p.addr p.now r.state.addresses
          else r.state.addresses)
  unfolding receive handle is_new
  addresses-receive p r = elim (Option-cases p.chunk) [
    | inl e ↦ simp (receive, is_new, e)
    | inr (bytes, e) ↦ elim (Option-cases (decode bytes)) [
      | inl f ↦ simp (receive, is_new, e, f)
      | inr (msg, f) ↦ elim (Bool-cases (seen.contains r.history msg.idempotency)) [
        | inl g ↦ simp (receive, is_new, handle, e, f, g)
        | inr g ↦ simp (receive, is_new, handle, e, f, g)
      ]
    ]
  ]

  gets_lem :
      (addr : Ipv4Addr) (since : Instant) (p : Packet) (r : Receiver M S C H)
      → last_heard book addr r.state.addresses ≡ some since
      → last_heard book addr (receive book jobs seen decode p r).state.addresses
        ≡ some (heard_at addr since p r)
  gets_lem addr since p r h =
      ap (last_heard book addr) (addresses-receive p r) ∙ elim (Bool-cases (is_new p r)) [
        | inl e ↦ rw e (hears_lem book addr p.addr since p.now r.state.addresses h)
        | inr e ↦ rw e h
      ]

  -- Whatever else arrives, and however full the book is: a machine in the book stays there, at the time
  -- of its last new packet, as long as each round of the check comes less than 20 seconds after that
  -- packet. A packet is new if it can be read and is no copy of one that the history of the receiver
  -- still holds; others do not count.
  pub heard_stays :
      (addr : Ipv4Addr) (since : Instant) (l : List Event) (r : Receiver M S C H)
      → last_heard book addr r.state.addresses ≡ some since
      → IsHeard addr since l r
      → last_heard book addr (run l r).state.addresses ≡ some (last_packet addr since l r)
  heard_stays addr since [] r h all = h
  heard_stays addr since (checks now ∷ l) r h (soon, all) =
      heard_stays addr since l (step (checks now) r)
        ((last_heard-lifetime_check book now since addr r.state.addresses).1 (h, soon)) all
  heard_stays addr since (gets p ∷ l) r h all =
      heard_stays addr (heard_at addr since p r) l (step (gets p) r) (gets_lem addr since p r h) all
