-- ===== src/Tasks/Distribute/Lengths.antt =====
-- The texts that `distribute_file` logs fit their buffers of 128 bytes.
use derusting.Prelude.{
  ℕ, zero, suc, ◌+◌, ◌/◌, ◌%◌, ◌≤◌, ◌≡◌, inl, inr, [], ◌∷◌, ◌++◌, length, length-append, ltb, arith,
  Bytes, codes, Bool-cases,
}
use derusting.Std.Decimal.{show_u32, digits_of}
use derusting.Kinds.{Ipv4Addr}
use derusting.Lwip.Bindings.{ErrT}
use derusting.Tasks.Distribute.{show_err, show_addr, put_text, sent_text, fail_text}

length-digits_of : (fuel n : ℕ) (out : Bytes) → length (digits_of fuel n out) ≤ fuel + length out
unfolding digits_of
length-digits_of zero n out = omega arith
length-digits_of (suc fuel) n out =
    let h = length-digits_of fuel (n / 10) ((b'0' + n % 10) ∷ out) in
    elim (Bool-cases (ltb n 10)) [ inl e ↦ rw e (omega arith) | inr e ↦ rw e (omega arith) ]

length-show_u32 : (n : ℕ) → length (show_u32 n) ≤ 10
unfolding show_u32
length-show_u32 n = length-digits_of 10 n []

length-dotted :
    (a b c d : Bytes)
    → length a ≤ 10
    → length b ≤ 10
    → length c ≤ 10
    → length d ≤ 10
    → length (a ++ (codes "." ++ (b ++ (codes "." ++ (c ++ (codes "." ++ d)))))) ≤ 43
length-dotted a b c d ha hb hc hd =
    let h1 = length-append a (codes "." ++ (b ++ (codes "." ++ (c ++ (codes "." ++ d))))) in
    let h2 = length-append b (codes "." ++ (c ++ (codes "." ++ d))) in
    let h3 = length-append c (codes "." ++ d) in omega arith

pub length-show_addr : (addr : Ipv4Addr) → length (show_addr addr) ≤ 43
unfolding show_addr
length-show_addr addr =
    length-dotted (show_u32 (addr / 16_777_216 % 256)) (show_u32 (addr / 65_536 % 256))
      (show_u32 (addr / 256 % 256)) (show_u32 (addr % 256))
      (length-show_u32 (addr / 16_777_216 % 256)) (length-show_u32 (addr / 65_536 % 256))
      (length-show_u32 (addr / 256 % 256)) (length-show_u32 (addr % 256))

pub length-show_err : (e : ErrT) → length (show_err e) ≤ 38
unfolding show_err
length-show_err ErrT.ok = omega arith
length-show_err e = omega arith

pub length-put_text :
    (guid addr : Bytes) → length guid ≡ 36 → length addr ≤ 43 → length (put_text guid addr) ≤ 128
unfolding put_text
length-put_text guid addr hg ha =
    let h1 = length-append guid (codes " to " ++ (addr ++ codes ":8080")) in
    let h2 = length-append addr (codes ":8080") in omega arith

pub length-sent_text : (addr : Bytes) → length addr ≤ 43 → length (sent_text addr) ≤ 128
unfolding sent_text
length-sent_text addr ha = let h = length-append addr (codes ":8080]") in omega arith

pub length-fail_text :
    (addr e : Bytes) → length addr ≤ 43 → length e ≤ 38 → length (fail_text addr e) ≤ 128
unfolding fail_text
length-fail_text addr e ha he = let h = length-append addr (codes ":8080] " ++ e) in omega arith
