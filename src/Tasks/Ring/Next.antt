-- ===== src/Tasks/Ring/Next.antt =====
-- Which machine `manage_ledger` passes the ledger on to.
use derusting.Prelude.{
  ℕ, ◌+◌, ◌-◌, ◌≤◌, ◌<◌, ◌≡◌, ◌≢◌, ◌⊎◌, inl, inr, refl, true, some, List, [], ◌∷◌, min, ◌==◌,
  if◌then◌else◌, elem, arith, Bool-cases,
}
use derusting.Kinds.{Ipv4Addr, last_octet}
use derusting.Tasks.Ring.{min_addr, closer, closest, next_owner}

abbrev pub Among : Ipv4Addr → List Ipv4Addr → Type 0
Among x addrs = elem x addrs ≡ true

-- How far an address lies above ours, by the last byte.
abbrev diff : Ipv4Addr → Ipv4Addr → ℕ
diff my x = last_octet x - last_octet my

-- What the loop over the keys has found: `a`, at the distance `d`.
record Found (my : Ipv4Addr) (addrs : List Ipv4Addr) (na : Ipv4Addr) (nh : ℕ) (a : Ipv4Addr) (d : ℕ)
    : Type 0 where
  least : (x : Ipv4Addr) → Among x addrs → 0 < diff my x → d ≤ diff my x
  bound : d ≤ nh
  source : ((a ≡ na) × (d ≡ nh)) ⊎ (Among a addrs × (d ≡ diff my a) × (0 < d) × (d < nh))

module _ (my : Ipv4Addr) where
  Found-cons :
      (x : Ipv4Addr) (rest : List Ipv4Addr) (na : Ipv4Addr) (nh : ℕ) (a : Ipv4Addr) (d : ℕ)
      → Found my rest
          (if closer (diff my x) nh then x else na)
          (if closer (diff my x) nh then diff my x else nh)
          a
          d
      → Found my (x ∷ rest) na nh a d
  unfolding elem
  Found-cons x rest na nh a d f = record {
    least = λ y h p. elim (Bool-cases (y == x)) [
      | inl e ↦ ground (arith, f.bound)
      | inr e ↦ f.least y (ground arith) p
    ];
    bound = ground arith;
    source = ground arith;
  }

  closest-Found :
      (addrs : List Ipv4Addr) (na : Ipv4Addr) (nh : ℕ)
      → let (a, d) = closest my addrs na nh in Found my addrs na nh a d
  unfolding closest elem
  closest-Found [] na nh = record {
    least = λ x h p. cc;
    bound = omega arith;
    source = inl (refl, refl);
  }
  closest-Found (x ∷ rest) na nh = Found-cons x rest na nh _ _ (closest-Found rest _ _)

abbrev Least : Ipv4Addr → List Ipv4Addr → Type 0
Least n addrs = (min_addr addrs ≡ some n) × Among n addrs × ((x : Ipv4Addr) → Among x addrs → n ≤ x)

min_addr-cons : (a : Ipv4Addr) (l : List Ipv4Addr) → (n : Ipv4Addr) × Least n (a ∷ l)
unfolding min_addr elem
min_addr-cons a [] = (a, (refl, ground arith, λ x k. ground arith))
min_addr-cons a (b ∷ l) =
    let (m, least) = min_addr-cons b l in
    (min a m, (rw (least.0, min_addr), ground (arith, least.1), λ x k. ground (arith, least.2 x)))

-- The least address is among them, and no other is less.
pub min_addr_lem : (addrs : List Ipv4Addr) → addrs ≢ [] → (n : Ipv4Addr) × Least n addrs
min_addr_lem [] h = absurd (h refl)
min_addr_lem (a ∷ l) h = min_addr-cons a l

-- `n` comes after `my` on the way round: the nearest machine above, or the least one where none lies
-- above. (A machine at 255 is not seen from one at 0.)
pub data IsNext (my : Ipv4Addr) (addrs : List Ipv4Addr) (n : Ipv4Addr) : Type 0 where
  above :
      Among n addrs
      → last_octet my < last_octet n
      → ((x : Ipv4Addr)
          → Among x addrs
          → last_octet my < last_octet x
          → last_octet n ≤ last_octet x)
      → IsNext my addrs n
  wraps :
      Among n addrs
      → ((x : Ipv4Addr) → Among x addrs → n ≤ x)
      → ((x : Ipv4Addr)
          → Among x addrs
          → last_octet my + 255 ≤ last_octet x ⊎ last_octet x ≤ last_octet my)
      → IsNext my addrs n

Found-IsNext :
    (my : Ipv4Addr) (addrs : List Ipv4Addr) (a : Ipv4Addr) (d : ℕ)
    → addrs ≢ []
    → Found my addrs 0xffffffff 255 a d
    → (n : Ipv4Addr) × ((if closer d 255 then some a else min_addr addrs) ≡ some n)
      × IsNext my addrs n
Found-IsNext my addrs a d h f = elim (Bool-cases (closer d 255)) [
  | inl e ↦ (
    a,
    rw e,
    above (ground (arith, f.source)) (ground (arith, f.source))
        (λ x k p. ground (arith, f.source, f.least x k)),
  )
  | inr e ↦
      let (n, least) = min_addr_lem addrs h in
      (n, rw e least.0, wraps least.1 least.2 (λ x k. ground (arith, f.source, f.least x k)))
]

-- Over any address book but the empty one, the ledger goes to a machine in the book, the next one on
-- the way round.
pub next_owner-IsNext :
    (my : Ipv4Addr) (addrs : List Ipv4Addr)
    → addrs ≢ []
    → (n : Ipv4Addr) × (next_owner my addrs ≡ some n) × IsNext my addrs n
unfolding next_owner
next_owner-IsNext my addrs h = Found-IsNext my addrs _ _ h (closest-Found my addrs 0xffffffff 255)
