-- ===== src/Tasks/Rng/Buffer.antt =====
-- What `getrandom` fills a buffer with.
use derusting.Prelude.{
  ℕ, zero, suc, ◌-◌, ◌≡◌, ◌∙◌, ap, inl, inr, refl, min, Bool, true, false, List, [], ◌∷◌, ◌++◌,
  length, take, take-chunk, leb, ◌==◌, if◌then◌else◌, arith, Bytes, Bool-cases,
}
use derusting.Tasks.Rng.{Fill, filled, unexpected, pending, to_le_bytes, getrandom}

-- The bytes that the generator gives before it fails, where busy answers count for nothing.
abbrev pub random_bytes : List (ℕ × ℕ) → Bytes
random_bytes [] = []
random_bytes ((status, random_val) ∷ answers) =
    let more = random_bytes answers in
    if status == 0 then to_le_bytes random_val ++ more else if status == 2 then more else []

-- Whether one of the answers is neither "ok" nor "busy".
abbrev pub fails : List (ℕ × ℕ) → Bool
fails [] = false
fails ((status, random_val) ∷ answers) =
    let more = fails answers in if status == 0 then more else if status == 2 then more else true

abbrev pub fill_end : ℕ → List (ℕ × ℕ) → Fill
fill_end n answers =
    if leb n (length (random_bytes answers))
    then filled
    else if fails answers
    then unexpected
    else pending

fill_end-zero : (answers : List (ℕ × ℕ)) → filled ≡ fill_end zero answers
fill_end-zero answers = ground arith

fill_end-ok :
    (n v : ℕ) (answers : List (ℕ × ℕ))
    → fill_end (suc n - min (suc n) 4) answers ≡ fill_end (suc n) ((0, v) ∷ answers)
unfolding to_le_bytes
fill_end-ok n v answers = ground arith

take-le_bytes :
    (n v : ℕ) (rest : Bytes)
    → take (min n 4) (to_le_bytes v) ++ take (n - min n 4) rest ≡ take n (to_le_bytes v ++ rest)
unfolding to_le_bytes
take-le_bytes n v rest = take-chunk n (to_le_bytes v) rest

-- A buffer of `n` bytes gets the first `n` random bytes, in order, and the call ends well exactly if
-- that many came before a failure; a failure before ends it with the error, and nothing else ends it.
getrandom_lem :
    (n : ℕ) (answers : List (ℕ × ℕ))
    → ((getrandom n answers).0 ≡ fill_end n answers)
      × ((getrandom n answers).1 ≡ take n (random_bytes answers))
unfolding getrandom
getrandom_lem zero answers = (fill_end-zero answers, refl)
getrandom_lem (suc n) [] = (ground arith, refl)
getrandom_lem (suc n) ((s, v) ∷ answers) =
    let (end, bytes) = getrandom_lem (suc n - min (suc n) 4) answers in
    let (end', bytes') = getrandom_lem (suc n) answers in
    elim (Bool-cases (s == 0)) [
      | inl e ↦ (
        rw e (end ∙ fill_end-ok n v answers),
        rw e (
            ap (◌++◌ (take (min (suc n) 4) (to_le_bytes v))) bytes
            ∙ take-le_bytes (suc n) v (random_bytes answers)),
      )
      | inr e ↦ elim (Bool-cases (s == 2)) [
        | inl f ↦ (rw (e, f) end', rw (e, f) bytes')
        | inr f ↦ (rw (e, f) (ground arith), rw (e, f) refl)
      ]
    ]
