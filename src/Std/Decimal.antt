-- ===== src/Std/Decimal.antt =====
-- `str::parse::<usize>` and `Display` of the unsigned integers. `usize` has 32 bits on the target.
use native.Mathlib.Nat.{pow-suc}
use derusting.Prelude.{
  ℕ, zero, suc, ◌+◌, ◌-◌, ◌*◌, ◌/◌, ◌%◌, ◌^◌, ◌≤◌, ◌<◌, ◌≡◌, ◌∙◌, sym, ap, refl, Bool, true, ◌&&◌,
  ◌||◌, Option, none, some, [], ◌∷◌, ltb, leb, ◌==◌, if◌then◌else◌, arith, codes, Bool-cases, inl,
  inr,
}
use derusting.Std.Utf8.{Str}

abbrev pub usize_max : ℕ
usize_max = 2 ^ 32 - 1

unfoldable pub is_digit : ℕ → Bool
is_digit c = leb b'0' c && leb c b'9'

-- The digits, most significant first, onto `n`; the products and sums are checked.
unfoldable pub digits_onto : ℕ → Str → Option ℕ
digits_onto n [] = some n
digits_onto n (c ∷ s) =
    let m = n * 10 + (c - b'0') in
    let rest = digits_onto m s in if is_digit c && leb m usize_max then rest else none

-- `parse::<usize>().ok()`: a plus sign may stand before the digits.
unfoldable pub parse_usize : Str → Option ℕ
parse_usize [] = none
parse_usize (c ∷ []) = if c == b'+' || c == b'-' then none else digits_onto 0 (c ∷ [])
parse_usize (c ∷ d ∷ s) = if c == b'+' then digits_onto 0 (d ∷ s) else digits_onto 0 (c ∷ d ∷ s)

-- `Display`: the quotients by ten, with enough fuel for any number below ten to that power.
unfoldable pub digits_of : ℕ → ℕ → Str → Str
digits_of zero n out = out
digits_of (suc fuel) n out =
    let rest = digits_of fuel (n / 10) ((b'0' + n % 10) ∷ out) in
    if ltb n 10 then (b'0' + n) ∷ out else rest

-- A `u32` has at most ten digits.
unfoldable pub show_u32 : ℕ → Str
show_u32 n = digits_of 10 n []

show_u32_example : show_u32 1048576 ≡ codes "1048576"
unfolding show_u32 digits_of
show_u32_example = refl

parse_usize_examples :
    (parse_usize (codes "4294967295") ≡ some usize_max)
    × (parse_usize (codes "4294967296") ≡ none)
    × (parse_usize (codes "+7") ≡ some 7)
    × (parse_usize (codes "-7") ≡ none)
    × (parse_usize (codes "+") ≡ none)
unfolding parse_usize digits_onto is_digit
parse_usize_examples = (refl, refl, refl, refl, refl)

tenth : (f n : ℕ) → n < 10 ^ suc f → n / 10 < 10 ^ f
tenth f n h = omega (arith, pow-suc 10 f)

digits_onto-cons :
    (q d : ℕ) (out : Str)
    → d < 10
    → q * 10 + d ≤ usize_max
    → digits_onto q ((b'0' + d) ∷ out) ≡ digits_onto (q * 10 + d) out
unfolding digits_onto is_digit
digits_onto-cons q d out h le =
    let same : q * 10 + (b'0' + d - b'0') ≡ q * 10 + d = omega arith in rw same (ground arith)

digits_onto-digits_of :
    (f n : ℕ) (out : Str)
    → n ≤ usize_max
    → n < 10 ^ f
    → digits_onto 0 (digits_of f n out) ≡ digits_onto n out
unfolding digits_of
digits_onto-digits_of zero n out le lt = ap (λ m. digits_onto m out) (omega arith)
digits_onto-digits_of (suc f) n out le lt = elim (Bool-cases (ltb n 10)) [
  | inl e ↦ rw e (
      digits_onto-cons 0 n out (ground arith) (omega arith)
      ∙ ap (λ m. digits_onto m out) (omega arith))
  | inr e ↦ rw e (
      digits_onto-digits_of f (n / 10) ((b'0' + n % 10) ∷ out) (omega arith) (tenth f n lt)
      ∙ digits_onto-cons (n / 10) (n % 10) out (omega arith) (omega arith)
      ∙ ap (λ m. digits_onto m out) (omega arith))
]

-- A number is written with a digit first.
digits_of-cons :
    (f n : ℕ) (out : Str)
    → n < 10 ^ suc f
    → (c : ℕ) × (s : Str) × (digits_of (suc f) n out ≡ c ∷ s) × (is_digit c ≡ true)
unfolding digits_of is_digit
digits_of-cons zero n out lt = (b'0' + n, out, ground arith, ground arith)
digits_of-cons (suc f) n out lt =
    let (c, s, e, d) = digits_of-cons f (n / 10) ((b'0' + n % 10) ∷ out) (tenth (suc f) n lt) in
    elim (Bool-cases (ltb n 10)) [
      | inl small ↦ (b'0' + n, out, rw small, ground arith)
      | inr large ↦ (c, s, rw large e, d)
    ]

parse_digits : (c : ℕ) (s : Str) → is_digit c ≡ true → parse_usize (c ∷ s) ≡ digits_onto 0 (c ∷ s)
unfolding parse_usize is_digit
parse_digits c [] h = ground arith
parse_digits c (d ∷ s) h = ground arith

finish : (n : ℕ) → digits_onto n [] ≡ some n
unfolding digits_onto
finish n = refl

-- What `Display` writes, `parse` reads back.
pub parse_usize-show_u32 : (n : ℕ) → n ≤ usize_max → parse_usize (show_u32 n) ≡ some n
unfolding show_u32
parse_usize-show_u32 n h =
    let (c, s, e, d) = digits_of-cons 9 n [] (omega arith) in
    ap parse_usize e
    ∙ parse_digits c s d
    ∙ ap (digits_onto 0) (sym e)
    ∙ digits_onto-digits_of 10 n [] h (omega arith)
    ∙ finish n
