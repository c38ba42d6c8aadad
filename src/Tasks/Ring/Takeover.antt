-- ===== src/Tasks/Ring/Takeover.antt =====
-- When a machine takes over a ledger that has got stuck.
use mathlib.Core.Bool.{false≢true}
use derusting.Prelude.{
  ◌*◌, ◌≤◌, ◌<◌, ◌≡◌, ◌≢◌, ◌⊎◌, ◌↔◌, ◌∙◌, sym, ap, inl, inr, refl, false, List, [], ◌∷◌, ◌==◌,
  ==_iff, elem, arith, Bool-cases,
}
use derusting.Kinds.{Ipv4Addr, Instant, LedgerState, elapsed}
use derusting.Tasks.Ring.{min_addr, takeover}
use derusting.Tasks.Ring.Next.{Among, min_addr_lem}

-- The machine knows nobody, or stands in the book itself as the least address there.
abbrev pub IsLeast : Ipv4Addr → List Ipv4Addr → Type 0
IsLeast my addrs = (addrs ≡ []) ⊎ (Among my addrs × ((x : Ipv4Addr) → Among x addrs → my ≤ x))

List-cases {ℓ} : {A : Type ℓ} (l : List A) → (l ≡ []) ⊎ (l ≢ [])
List-cases [] = inl refl
List-cases (x ∷ l) = inr (λ e. cc)

module _ {S : Type 0} (now : Instant) (my : Ipv4Addr) (addrs : List Ipv4Addr)
    (s : LedgerState S) where
  takeover_only_by-IsLeast :
      s.ledger.owner ≢ my
      → (takeover now my addrs s).ledger.owner ≡ my
      → (45 * 1000 < elapsed now s.received) × IsLeast my addrs
  unfolding takeover min_addr
  takeover_only_by-IsLeast ne took = elim (List-cases addrs) [
    | inl e ↦ (ground arith, inl e)
    | inr e ↦
        let (n, (told, among, least)) = min_addr_lem addrs e in
        let same : n ≡ my = ground (arith, told) in
        (ground arith, inr (rw same at among, λ x k. rw same at (least x k)))
  ]

  takeover_by_least :
      45 * 1000 < elapsed now s.received
      → IsLeast my addrs
      → (takeover now my addrs s).ledger.owner ≡ my
  unfolding takeover min_addr elem
  takeover_by_least stale (inl e) = rw e (ground arith)
  takeover_by_least stale (inr (mine, lowest)) =
      let known : addrs ≢ [] = λ e. false≢true (ap (elem my) (sym e) ∙ mine) in
      let (n, (told, among, least)) = min_addr_lem addrs known in
      ground (arith, told, least my mine, lowest n among)

  -- A machine that does not own the ledger takes it over exactly if there was no word of it for more
  -- than 45 seconds and the machine knows nobody or is the least address in its own book.
  pub takeover-IsLeast :
      s.ledger.owner ≢ my
      → ((takeover now my addrs s).ledger.owner ≡ my)
        ↔ ((45 * 1000 < elapsed now s.received) × IsLeast my addrs)
  takeover-IsLeast ne = (λ took. takeover_only_by-IsLeast ne took, λ h. takeover_by_least h.0 h.1)

  -- A machine that knows others, but does not stand in its own book, never takes the ledger over,
  -- however long it has been silent.
  no_takeover_without_self : addrs ≢ [] → elem my addrs ≡ false → takeover now my addrs s ≡ s
  unfolding takeover
  no_takeover_without_self known absent =
      let (n, (told, among, least)) = min_addr_lem addrs known in
      elim (Bool-cases (n == my)) [
        | inl e ↦
            absurd
              (false≢true (sym absent ∙ ap (λ a. elem a addrs) (sym ((==_iff n my).0 e)) ∙ among))
        | inr e ↦ ground (arith, told)
      ]
