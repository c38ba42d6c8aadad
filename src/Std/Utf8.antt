-- ===== src/Std/Utf8.antt =====
-- `str::from_utf8`: the code points of well-formed UTF-8, as the Unicode standard's table 3-7 has it.
use derusting.Prelude.{
  ℕ, zero, suc, ◌+◌, ◌-◌, ◌*◌, ◌≡◌, refl, Bool, true, false, ◌&&◌, Option, none, some, List, [],
  ◌∷◌, ◌++◌, ltb, leb, if◌then◌else◌, arith, Bytes, ap,
}

-- A decoded text.
abbrev pub Str : Type 0
Str = List ℕ

-- What the first byte of a character says: how many bytes follow, the range of the next one, and the
-- bits of the code point so far.
pub record Lead : Type 0 where
  pub more : ℕ
  pub low : ℕ
  pub high : ℕ
  pub bits : ℕ

unfoldable pub lead : ℕ → Option Lead
lead b =
    if leb b 0x7f
    then some (record { more = 0; low = 0x80; high = 0xbf; bits = b })
    else if ltb b 0xc2
    then none
    else if leb b 0xdf
    then some (record { more = 1; low = 0x80; high = 0xbf; bits = b - 0xc0 })
    else if leb b 0xef
    then some (record {
      more = 2;
      low = if leb b 0xe0 then 0xa0 else 0x80;
      high = if leb 0xed b && leb b 0xed then 0x9f else 0xbf;
      bits = b - 0xe0;
    })
    else if leb b 0xf4
    then some (record {
      more = 3;
      low = if leb b 0xf0 then 0x90 else 0x80;
      high = if leb b 0xf3 then 0xbf else 0x8f;
      bits = b - 0xf0;
    })
    else none

abbrev pub prepend : ℕ → Option Str → Option Str
prepend c none = none
prepend c (some s) = some (c ∷ s)

-- `more` further bytes of a character are due, the next of them from `low` to `high`.
unfoldable pub decode_from : ℕ → ℕ → ℕ → ℕ → Bytes → Option Str
decode_from zero low high bits [] = some []
decode_from (suc more) low high bits [] = none
decode_from zero low high bits (b ∷ s) = elim (lead b) [
  | none ↦ none
  | some l ↦ elim l.more [
    | zero ↦ prepend b (decode_from 0 0 0 0 s)
    | suc n ↦ decode_from (suc n) l.low l.high l.bits s
  ]
]
decode_from (suc more) low high bits (b ∷ s) = elim (leb low b && leb b high) [
  | false ↦ none
  | true ↦ elim more [
    | zero ↦ prepend (bits * 64 + (b - 0x80)) (decode_from 0 0 0 0 s)
    | suc n ↦ decode_from (suc n) 0x80 0xbf (bits * 64 + (b - 0x80)) s
  ]
]

-- `str::from_utf8(bytes).ok()`
unfoldable pub from_utf8 : Bytes → Option Str
from_utf8 s = decode_from 0 0 0 0 s

-- Every byte is an ASCII character.
unfoldable pub all_ascii : Bytes → Bool
all_ascii [] = true
all_ascii (b ∷ s) = ltb b 128 && all_ascii s

lead_ascii :
    (b : ℕ)
    → ltb b 128 ≡ true
    → lead b ≡ some (record { more = 0; low = 0x80; high = 0xbf; bits = b })
unfolding lead
lead_ascii b h = ground arith

decode_from_ascii : (s : Bytes) → all_ascii s ≡ true → decode_from 0 0 0 0 s ≡ some s
unfolding decode_from all_ascii
decode_from_ascii [] h = refl
decode_from_ascii (b ∷ s) h =
    rw (lead_ascii b (ground arith), decode_from)
      (ap (prepend b) (decode_from_ascii s (ground arith)))

-- ASCII text stands for itself.
pub from_utf8_ascii : (s : Bytes) → all_ascii s ≡ true → from_utf8 s ≡ some s
unfolding from_utf8
from_utf8_ascii = decode_from_ascii

pub all_ascii-append : (s t : Bytes) → all_ascii (s ++ t) ≡ (all_ascii s && all_ascii t)
unfolding all_ascii
all_ascii-append [] t = refl
all_ascii-append (b ∷ s) t = ground (arith, all_ascii-append s t)

-- The euro sign and an overlong slash.
from_utf8_euro : from_utf8 (0xe2 ∷ 0x82 ∷ 0xac ∷ []) ≡ some (0x20ac ∷ [])
unfolding from_utf8 decode_from lead
from_utf8_euro = refl

from_utf8_overlong : from_utf8 (0xc0 ∷ 0xaf ∷ []) ≡ none
unfolding from_utf8 decode_from lead
from_utf8_overlong = refl
