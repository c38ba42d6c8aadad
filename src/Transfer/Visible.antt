-- ===== src/Transfer/Visible.antt =====
-- Texts of visible ASCII characters, such as identifiers and numbers.
use derusting.Prelude.{
  ℕ, zero, suc, ◌+◌, ◌/◌, ◌%◌, ◌≤◌, ◌<◌, ◌≡◌, ◌∙◌, ap, refl, true, false, none, [], ◌∷◌, ◌++◌, ltb,
  elem, arith, Bytes, Bool-cases, inl, inr,
}
use derusting.Std.Utf8.{Str, all_ascii}
use derusting.Std.Str.{is_whitespace, trim_start, trim_end, trim}
use derusting.Std.Slice.{starts_with, position}
use derusting.Std.Decimal.{digits_of, show_u32}

-- No blank, no control character, nothing beyond ASCII.
abbrev pub IsVisible : Str → Type 0
IsVisible [] = Unit {0}
IsVisible (c ∷ s) = (33 ≤ c) × (c ≤ 126) × IsVisible s

-- A character below 33 does not occur.
pub elem-IsVisible : (a : ℕ) (s : Str) → a < 33 → IsVisible s → elem a s ≡ false
unfolding elem
elem-IsVisible a [] h v = refl
elem-IsVisible a (c ∷ s) h (low, high, v) = ground (arith, elem-IsVisible a s h v)

pub all_ascii-IsVisible : (s : Str) → IsVisible s → all_ascii s ≡ true
unfolding all_ascii
all_ascii-IsVisible [] v = refl
all_ascii-IsVisible (c ∷ s) (low, high, v) = ground (arith, all_ascii-IsVisible s v)

is_whitespace_visible : (c : ℕ) → 33 ≤ c → c ≤ 126 → is_whitespace c ≡ false
unfolding is_whitespace
is_whitespace_visible c low high = ground arith

trim_end-IsVisible : (s : Str) → IsVisible s → trim_end s ≡ s
unfolding trim_end
trim_end-IsVisible [] v = refl
trim_end-IsVisible (c ∷ s) (low, high, v) =
    ground (arith, trim_end-IsVisible s v, is_whitespace_visible c low high)

trim_start-IsVisible : (s : Str) → IsVisible s → trim_start s ≡ s
unfolding trim_start
trim_start-IsVisible [] v = refl
trim_start-IsVisible (c ∷ s) (low, high, v) = ground (arith, is_whitespace_visible c low high)

trim_start-space : (s : Str) → trim_start (32 ∷ s) ≡ trim_start s
unfolding trim_start is_whitespace
trim_start-space s = refl

-- The blank behind a header's colon is cut off.
pub trim-space : (s : Str) → IsVisible s → trim (32 ∷ s) ≡ s
unfolding trim
trim-space s v =
    ap trim_end (trim_start-space s ∙ trim_start-IsVisible s v) ∙ trim_end-IsVisible s v

digits_of-IsVisible : (f n : ℕ) (out : Str) → IsVisible out → IsVisible (digits_of f n out)
unfolding digits_of
digits_of-IsVisible zero n out v = v
digits_of-IsVisible (suc f) n out v = elim (Bool-cases (ltb n 10)) [
  | inl e ↦ rw e (ground arith)
  | inr e ↦
      rw e (digits_of-IsVisible f (n / 10) ((b'0' + n % 10) ∷ out) (omega arith, omega arith, v))
]

pub show_u32-IsVisible : (n : ℕ) → IsVisible (show_u32 n)
unfolding show_u32
show_u32-IsVisible n = digits_of-IsVisible 10 n [] tt

-- A delimiter does not begin where its first byte does not occur.
pub position_skip :
    (c : ℕ) (delim p s : Bytes)
    → elem c p ≡ false
    → position (c ∷ delim) s ≡ none
    → position (c ∷ delim) (p ++ s) ≡ none
unfolding position starts_with elem
position_skip c delim [] s h e = e
position_skip c delim (d ∷ p) s h e = ground (arith, position_skip c delim p s)
