-- ===== src/Std/Slice.antt =====
-- Byte slices: `starts_with`, and `windows(delim.len()).position(|win| win == delim)`.
use derusting.Prelude.{
  ℕ, zero, suc, ◌≤◌, ◌≡◌, ◌∙◌, ap, refl, Bool, true, false, ◌&&◌, Option, none, some, [], ◌∷◌, ◌++◌,
  length, take, drop, ◌==◌, if◌then◌else◌, arith, Bytes, append_assoc, length-append,
}

unfoldable pub starts_with : Bytes → Bytes → Bool
starts_with [] s = true
starts_with (c ∷ p) [] = false
starts_with (c ∷ p) (d ∷ s) = c == d && starts_with p s

abbrev pub next_index : Option ℕ → Option ℕ
next_index none = none
next_index (some i) = some (suc i)

-- The first index at which the non-empty `delim` stands.
unfoldable pub position : Bytes → Bytes → Option ℕ
position delim [] = none
position delim (c ∷ s) =
    let later = next_index (position delim s) in if starts_with delim (c ∷ s) then some 0 else later

starts_with-append : (p s : Bytes) → starts_with p (p ++ s) ≡ true
unfolding starts_with
starts_with-append [] s = refl
starts_with-append (c ∷ p) s = ground (arith, starts_with-append p s)

-- What starts with `p` is `p` and a rest.
starts_with-drop : (p s : Bytes) → starts_with p s ≡ true → s ≡ p ++ drop (length p) s
unfolding starts_with
starts_with-drop [] s h = refl
starts_with-drop (c ∷ p) [] h = cc
starts_with-drop (c ∷ p) (d ∷ s) h = ground (arith, starts_with-drop p s)

-- A delimiter that is found splits the text.
pub position-split :
    (delim s : Bytes) (i : ℕ)
    → position delim s ≡ some i
    → s ≡ take i s ++ (delim ++ drop (length delim) (drop i s))
unfolding position
position-split delim [] i h = cc
position-split delim (c ∷ s) zero h = starts_with-drop delim (c ∷ s) (ground arith)
position-split delim (c ∷ s) (suc i) h = ap (◌∷◌ c) (position-split delim s i (ground arith))

-- Whether a text starts with `p` shows in its first bytes.
starts_with-append_left :
    (p x y : Bytes) → length p ≤ length x → starts_with p (x ++ y) ≡ starts_with p x
unfolding starts_with
starts_with-append_left [] x y h = refl
starts_with-append_left (c ∷ p) [] y h = absurd (omega arith)
starts_with-append_left (c ∷ p) (d ∷ x) y h =
    ap (λ b. c == d && b) (starts_with-append_left p x y (omega arith))

position_here : (c : ℕ) (p s : Bytes) → position (c ∷ p) ((c ∷ p) ++ s) ≡ some 0
unfolding position
position_here c p s = rw (starts_with-append (c ∷ p) s)

position_init :
    (delim : Bytes) (last : ℕ) (s : Bytes)
    → position (delim ++ last ∷ []) ((delim ++ last ∷ []) ++ s) ≡ some 0
position_init [] last s = position_here last [] s
position_init (c ∷ delim) last s = position_here c (delim ++ last ∷ []) s

regroup :
    (p delim : Bytes) (last : ℕ) (s : Bytes)
    → p ++ ((delim ++ last ∷ []) ++ s) ≡ (p ++ delim) ++ last ∷ s
regroup p delim last s = simp append_assoc

enough : (p delim : Bytes) (last : ℕ) → length (delim ++ last ∷ []) ≤ suc (length (p ++ delim))
enough p delim last = omega (arith, length-append delim (last ∷ []), length-append p delim)

-- The delimiter first stands behind `p`, if it does not stand in `p` and all of itself but its last
-- byte.
pub position-append :
    (delim : Bytes) (last : ℕ) (p s : Bytes)
    → position (delim ++ last ∷ []) (p ++ delim) ≡ none
    → position (delim ++ last ∷ []) (p ++ ((delim ++ last ∷ []) ++ s)) ≡ some (length p)
unfolding position
position-append delim last [] s h = position_init delim last s
position-append delim last (c ∷ p) s h =
    let same : starts_with (delim ++ last ∷ []) (c ∷ (p ++ ((delim ++ last ∷ []) ++ s)))
        ≡ starts_with (delim ++ last ∷ []) (c ∷ (p ++ delim)) =
      ap (starts_with (delim ++ last ∷ [])) (ap (◌∷◌ c) (regroup p delim last s))
      ∙ starts_with-append_left (delim ++ last ∷ []) (c ∷ (p ++ delim)) (last ∷ s)
          (enough p delim last) in
    ground (arith, same, position-append delim last p s)
