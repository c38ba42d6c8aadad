-- ===== src/Std/Str.antt =====
-- Methods of `str`: `split`, `split_once`, `lines`, `trim`, `eq_ignore_ascii_case`.
use derusting.Prelude.{
  ℕ, ◌+◌, ◌≡◌, ◌∙◌, sym, ap, refl, Bool, true, false, ◌&&◌, ◌||◌, Option, none, some, List, [], ◌∷◌,
  ◌++◌, map, append_assoc, leb, ◌==◌, if◌then◌else◌, is_nil, elem, arith, elem-append, inl, inr,
  Bool-cases,
}
use derusting.Std.Utf8.{Str}

-- `==` on texts
unfoldable pub same_text : Str → Str → Bool
same_text [] [] = true
same_text [] (d ∷ t) = false
same_text (c ∷ s) [] = false
same_text (c ∷ s) (d ∷ t) = c == d && same_text s t

abbrev pub onto_head : ℕ → List Str → List Str
onto_head c [] = (c ∷ []) ∷ []
onto_head c (s ∷ l) = (c ∷ s) ∷ l

-- `split(sep)` for one character: the pieces between its occurrences, never none.
unfoldable pub split : ℕ → Str → List Str
split sep [] = [] ∷ []
split sep (c ∷ s) = let rest = split sep s in if c == sep then [] ∷ rest else onto_head c rest

-- `split_once(sep)`
unfoldable pub split_once : ℕ → Str → Option (Str × Str)
split_once sep [] = none
split_once sep (c ∷ s) =
    let rest : Option (Str × Str) = elim (split_once sep s) [
      | none ↦ none
      | some (a, b) ↦ some (c ∷ a, b)
    ] in
    if c == sep then some ([], s) else rest

-- A line feed takes a carriage return before it along.
unfoldable pub strip_cr : Str → Str
strip_cr [] = []
strip_cr (c ∷ []) = if c == 13 then [] else c ∷ []
strip_cr (c ∷ d ∷ s) = c ∷ strip_cr (d ∷ s)

-- The pieces between line feeds as lines: the last one is no line if it is empty, and keeps a carriage
-- return at its end.
unfoldable pub as_lines : List Str → List Str
as_lines [] = []
as_lines (s ∷ []) = if is_nil s then [] else s ∷ []
as_lines (s ∷ t ∷ l) = strip_cr s ∷ as_lines (t ∷ l)

-- `lines`
unfoldable pub lines : Str → List Str
lines s = as_lines (split 10 s)

-- `char::is_whitespace`: the property White_Space.
unfoldable pub is_whitespace : ℕ → Bool
is_whitespace c =
    (leb 9 c && leb c 13)
    || c == 0x20
    || c == 0x85
    || c == 0xa0
    || c == 0x1680
    || (leb 0x2000 c && leb c 0x200a)
    || c == 0x2028
    || c == 0x2029
    || c == 0x202f
    || c == 0x205f
    || c == 0x3000

unfoldable pub trim_start : Str → Str
trim_start [] = []
trim_start (c ∷ s) = let rest = trim_start s in if is_whitespace c then rest else c ∷ s

unfoldable pub trim_end : Str → Str
trim_end [] = []
trim_end (c ∷ s) = let rest = trim_end s in if is_nil rest && is_whitespace c then [] else c ∷ rest

-- `trim`
unfoldable pub trim : Str → Str
trim s = trim_end (trim_start s)

-- `u8::to_ascii_lowercase`
abbrev pub to_ascii_lowercase : ℕ → ℕ
to_ascii_lowercase c = if leb b'A' c && leb c b'Z' then c + 32 else c

-- `eq_ignore_ascii_case`
unfoldable pub eq_ignore_ascii_case : Str → Str → Bool
eq_ignore_ascii_case s t = same_text (map to_ascii_lowercase s) (map to_ascii_lowercase t)

same_text_refl : (s : Str) → same_text s s ≡ true
unfolding same_text
same_text_refl [] = refl
same_text_refl (c ∷ s) = ground (arith, same_text_refl s)

eq_of_same_text : (s t : Str) → same_text s t ≡ true → s ≡ t
unfolding same_text
eq_of_same_text [] [] h = refl
eq_of_same_text [] (d ∷ t) h = cc
eq_of_same_text (c ∷ s) [] h = cc
eq_of_same_text (c ∷ s) (d ∷ t) h = ground (arith, eq_of_same_text s t)

-- A piece without the separator, and the separator after it, are split off.
split-append :
    (sep : ℕ) (p s : Str) → elem sep p ≡ false → split sep (p ++ sep ∷ s) ≡ p ∷ split sep s
unfolding split elem
split-append sep [] s h = ground arith
split-append sep (c ∷ p) s h = rw (split-append sep p s (ground arith)) (ground arith)

pub split_once-append :
    (sep : ℕ) (p s : Str) → elem sep p ≡ false → split_once sep (p ++ sep ∷ s) ≡ some (p, s)
unfolding split_once elem
split_once-append sep [] s h = ground arith
split_once-append sep (c ∷ p) s h = rw (split_once-append sep p s (ground arith)) (ground arith)

strip_cr-append : (s : Str) → strip_cr (s ++ 13 ∷ []) ≡ s
unfolding strip_cr
strip_cr-append [] = refl
strip_cr-append (c ∷ []) = refl
strip_cr-append (c ∷ d ∷ s) = ap (◌∷◌ c) (strip_cr-append (d ∷ s))

split-cons : (sep : ℕ) (s : Str) → (t : Str) × (l : List Str) × (split sep s ≡ t ∷ l)
unfolding split
split-cons sep [] = ([], [], refl)
split-cons sep (c ∷ s) =
    let (t, l, e) = split-cons sep s in
    elim (Bool-cases (c == sep)) [
      | inl h ↦ ([], t ∷ l, ground arith)
      | inr h ↦ (c ∷ t, l, ground arith)
    ]

no_lf : elem 10 (13 ∷ []) ≡ false
unfolding elem
no_lf = refl

-- A line that ends with a carriage return and a line feed is the first line.
pub lines-crlf : (p s : Str) → elem 10 p ≡ false → lines (p ++ (13 ∷ 10 ∷ s)) ≡ p ∷ lines s
unfolding lines as_lines
lines-crlf p s h =
    let (t, l, e) = split-cons 10 s in
    ap (λ x. as_lines (split 10 x)) (sym (append_assoc p (13 ∷ []) (10 ∷ s)))
    ∙ ap as_lines (split-append 10 (p ++ 13 ∷ []) s (elem-append 10 p (13 ∷ []) ∙ rw h (no_lf)))
    ∙ rw e (rw strip_cr-append)
