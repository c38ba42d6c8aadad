-- ===== src/Tasks/Ring/Tour.antt =====
-- The way of the ledger through a network in which every machine knows every other.
use derusting.Prelude.{
  ℕ, zero, suc, ◌+◌, ◌*◌, ◌≤◌, ◌<◌, ◌≡◌, ◌≢◌, ◌⊎◌, inl, inr, some, List, ◌==◌, elem, sym, ap, ◌∙◌,
  arith, Bool-cases,
}
use mathlib.Core.Bool.{false≢true}
use derusting.Kinds.{Ipv4Addr, last_octet}
use derusting.Tasks.Ring.{next_owner}
use derusting.Tasks.Ring.Next.{Among, IsNext, above, wraps, next_owner-IsNext}

-- The machines `net` are hosts of one /24 network, and the address book of each holds all the others
-- and nobody else (but perhaps the machine itself).
pub record IsMesh (net : List Ipv4Addr) (books : Ipv4Addr → List Ipv4Addr) : Type 0 where
  pub network : ℕ
  pub same_network : (x : Ipv4Addr) → Among x net → x ≡ network * 256 + last_octet x
  pub hosts : (x : Ipv4Addr) → Among x net → (0 < last_octet x) × (last_octet x < 255)
  pub complete : (my x : Ipv4Addr) → Among my net → Among x net → x ≢ my → Among x (books my)
  pub sound : (my x : Ipv4Addr) → Among my net → Among x (books my) → Among x net

-- The ledger comes from one machine to another in some number of turns of its owners.
pub data Reaches (books : Ipv4Addr → List Ipv4Addr) (target : Ipv4Addr) : Ipv4Addr → Type 0 where
  arrived : (a : Ipv4Addr) → a ≡ target → Reaches books target a
  passed :
      (a b : Ipv4Addr)
      → next_owner a (books a) ≡ some b
      → Reaches books target b
      → Reaches books target a

module _ (net : List Ipv4Addr) (books : Ipv4Addr → List Ipv4Addr) (mesh : IsMesh net books)
    (target : Ipv4Addr) (there : Among target net) where
  same_octet : (a : Ipv4Addr) → Among a net → last_octet a ≡ last_octet target → a ≡ target
  same_octet a i e = omega (arith, mesh.same_network a i, mesh.same_network target there)

  below_of_ne :
      (a : Ipv4Addr)
      → Among a net
      → a ≢ target
      → last_octet a ≤ last_octet target
      → last_octet a < last_octet target
  below_of_ne a i ne le = elim (Bool-cases (last_octet a == last_octet target)) [
    | inl e ↦ absurd (ne (same_octet a i (ground arith)))
    | inr e ↦ ground arith
  ]

  in_book : (a : Ipv4Addr) → Among a net → a ≢ target → Among target (books a)
  in_book a i ne = mesh.complete a target i there (λ e. ne (sym e))

  -- Unless the ledger is at its target, it is passed on to a machine of the network.
  IsNext-machine :
      (a : Ipv4Addr)
      → Among a net
      → a ≢ target
      → (b : Ipv4Addr) × (next_owner a (books a) ≡ some b) × IsNext a (books a) b
  unfolding elem
  IsNext-machine a i ne =
      next_owner-IsNext a (books a) (λ e. false≢true (sym (ap (elem target) e) ∙ in_book a i ne))

  -- Below its target, the ledger goes up, and not past the target.
  IsNext-below :
      (a b : Ipv4Addr)
      → Among a net
      → a ≢ target
      → last_octet a < last_octet target
      → IsNext a (books a) b
      → Among b net × (last_octet a < last_octet b) × (last_octet b ≤ last_octet target)
  IsNext-below a b i ne lt (above m up least) =
      (mesh.sound a b i m, up, least target (in_book a i ne) lt)
  IsNext-below a b i ne lt (wraps m least low) =
      absurd (omega (arith, low target (in_book a i ne), mesh.hosts target there))

  -- Above its target, the ledger goes up or comes round to the target or below it.
  IsNext-above :
      (a b : Ipv4Addr)
      → Among a net
      → a ≢ target
      → IsNext a (books a) b
      → Among b net × ((last_octet a < last_octet b) ⊎ (last_octet b ≤ last_octet target))
  IsNext-above a b i ne (above m up least) = (mesh.sound a b i m, inl up)
  IsNext-above a b i ne (wraps m least low) =
      let known = mesh.sound a b i m in
      (
        known,
        inr (
            omega (
              arith,
              least target (in_book a i ne),
              mesh.same_network b known,
              mesh.same_network target there,
            )),
      )

  climb :
      (gap : ℕ) (a : Ipv4Addr)
      → Among a net
      → last_octet a ≤ last_octet target
      → last_octet target ≤ last_octet a + gap
      → Reaches books target a
  climb zero a i le ge = arrived a (same_octet a i (omega arith))
  climb (suc gap) a i le ge = elim (Bool-cases (a == target)) [
    | inl e ↦ arrived a (ground arith)
    | inr e ↦
        let ne : a ≢ target = ground arith in
        let (b, told, n) = IsNext-machine a i ne in
        let (known, up, still) = IsNext-below a b i ne (below_of_ne a i ne le) n in
        passed a b told (climb gap b known still (omega arith))
  ]

  descend :
      (room : ℕ) (a : Ipv4Addr) → Among a net → 255 ≤ last_octet a + room → Reaches books target a
  descend zero a i le = absurd (omega (arith, mesh.hosts a i))
  descend (suc room) a i le = elim (Bool-cases (a == target)) [
    | inl e ↦ arrived a (ground arith)
    | inr e ↦
        let ne : a ≢ target = ground arith in
        let (b, told, n) = IsNext-machine a i ne in
        let (known, way) = IsNext-above a b i ne n in
        let rest : Reaches books target b = elim way [
          | inl up ↦ descend room b known (omega arith)
          | inr down ↦ climb 255 b known down (omega (arith, mesh.hosts target there))
        ] in
        passed a b told rest
  ]

  -- Where the machines are hosts 1 to 254 of one /24 network, and the address book of each holds all the
  -- others and nobody else, but perhaps the machine itself: every machine gets the ledger, from
  -- whichever machine has it now, by the owners' own choices of the next.
  pub every_machine_reached : (a : Ipv4Addr) → Among a net → Reaches books target a
  every_machine_reached a i = descend 255 a i (omega arith)
