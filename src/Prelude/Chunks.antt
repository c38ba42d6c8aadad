-- ===== src/Prelude/Chunks.antt =====
-- What a bounded buffer takes of a chunk and of what follows it.
use Prim.Native.Nat.{ℕ, zero, suc, ◌-◌, min}
use mathlib.Core.Path.{◌≡◌, refl, sym, ap, ap₂, ◌∙◌}
use mathlib.Core.List.{List, [], ◌∷◌, ◌++◌, append_assoc}
use native.Mathlib.Omega.{arith}
use derusting.Prelude.Lists.{length, take}
use derusting.Prelude.Codes.{Bytes}

-- The first `n` bytes of two texts in a row.
pub take-append : (n : ℕ) (s t : Bytes) → take n (s ++ t) ≡ take n s ++ take (n - length s) t
take-append zero s t =
    let none_left : 0 ≡ 0 - length s = omega arith in ap (λ m. take m t) none_left
take-append (suc n) [] t =
    let all_left : suc n ≡ suc n - 0 = omega arith in ap (λ m. take m t) all_left
take-append (suc n) (c ∷ s) t =
    let same : n - length s ≡ suc n - suc (length s) = omega arith in
    ap (◌∷◌ c) (take-append n s t ∙ ap (λ m. take n s ++ take m t) same)

take-min : (n : ℕ) (s : Bytes) → take (min n (length s)) s ≡ take n s
take-min zero s = let none_left : min 0 (length s) ≡ 0 = omega arith in ap (λ m. take m s) none_left
take-min (suc n) [] =
    let none_left : min (suc n) 0 ≡ 0 = omega arith in ap (λ m. take {A = ℕ} m []) none_left
take-min (suc n) (c ∷ s) =
    let same : min (suc n) (suc (length s)) ≡ suc (min n (length s)) = omega arith in
    rw same (ap (◌∷◌ c) (take-min n s))

-- A chunk and what is taken of the rest.
pub take-chunk :
    (n : ℕ) (chunk rest : Bytes)
    → take (min n (length chunk)) chunk ++ take (n - min n (length chunk)) rest
      ≡ take n (chunk ++ rest)
take-chunk n chunk rest =
    let same : n - min n (length chunk) ≡ n - length chunk = omega arith in
    ap₂ (λ a m. a ++ take m rest) (take-min n chunk) same ∙ sym (take-append n chunk rest)

-- All bytes of a list of pieces.
abbrev pub concat : List Bytes → Bytes
concat [] = []
concat (s ∷ l) = s ++ concat l

abbrev pub concat_all : List (List Bytes) → Bytes
concat_all [] = []
concat_all (p ∷ l) = concat p ++ concat_all l

pub concat-append : (l m : List Bytes) → concat (l ++ m) ≡ concat l ++ concat m
concat-append [] m = refl
concat-append (s ∷ l) m =
    ap (◌++◌ s) (concat-append l m) ∙ sym (append_assoc s (concat l) (concat m))
