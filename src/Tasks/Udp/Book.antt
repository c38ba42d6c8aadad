-- ===== src/Tasks/Udp/Book.antt =====
-- The address book: who is in it, and for how long.
use derusting.Prelude.{
  ◌+◌, ◌*◌, ◌≤◌, ◌<◌, ◌≡◌, ◌≢◌, ◌⊎◌, ◌↔◌, inl, inr, Option, none, some, length, ltb, lookup, arith,
  ◌∙◌, Option-cases,
}
use derusting.Kinds.{Ipv4Addr, Instant, elapsed, as_secs}
use derusting.Heapless.LinearMap.{LinearMap}
use derusting.Tasks.Udp.{note_address, lifetime_check}

module _ {M : Type 0} (book : LinearMap Instant M) where
  -- When the machine was last heard, as the book has it.
  abbrev pub last_heard : Ipv4Addr → M → Option Instant
  last_heard addr m = lookup addr (book.iter m)

  -- A round of the check keeps an entry exactly when less than 20 whole seconds have passed since the
  -- machine was heard, at its time, and adds none.
  pub last_heard-lifetime_check :
      (now since : Instant) (addr : Ipv4Addr) (m : M)
      → (last_heard addr (lifetime_check book now m) ≡ some since)
        ↔ ((last_heard addr m ≡ some since) × (now < since + 20 * 1000))
  unfolding lifetime_check
  last_heard-lifetime_check now since addr m =
      let e = book.iter-retain (λ _ instant. ltb (as_secs (elapsed now instant)) 20) addr m in
      rw e (elim (Option-cases (last_heard addr m)) [
        | inl h ↦ rw h (ground arith, ground arith)
        | inr (v, h) ↦ rw h (ground arith, ground arith)
      ])

  -- The sender of a packet.
  pub note_address_lem :
      (addr : Ipv4Addr) (now : Instant) (m : M)
      → (last_heard addr (note_address book addr now m) ≡ some now)
        ⊎ ((last_heard addr m ≡ none)
            × (book.capacity ≤ length (book.iter m))
            × (note_address book addr now m ≡ m))
  unfolding note_address
  note_address_lem addr now m = elim (Option-cases (book.insert addr now m)) [
    | inl e ↦ inr (
      ground (arith, book.insert_full addr now m e),
      (book.insert_full addr now m e).1,
      ground arith,
    )
    | inr (m', e) ↦
        inl (rw (e, note_address) (book.iter-insert addr addr now m m' e ∙ ground arith))
  ]

  -- All other machines.
  pub note_address-other :
      (addr other : Ipv4Addr) (now : Instant) (m : M)
      → other ≢ addr
      → last_heard other (note_address book addr now m) ≡ last_heard other m
  unfolding note_address
  note_address-other addr other now m ne = elim (Option-cases (book.insert addr now m)) [
    | inl e ↦ rw (e, note_address)
    | inr (m', e) ↦ rw (e, note_address) (book.iter-insert addr other now m m' e ∙ ground arith)
  ]
