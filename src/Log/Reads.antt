-- ===== src/Log/Reads.antt =====
-- What the firmware's logger reads from the pointer.
use derusting.Prelude.{
  ℕ, zero, suc, ◌≤◌, ◌<◌, ◌≡◌, refl, inl, inr, Bool-cases, Option, none, some, [], ◌∷◌, ◌++◌,
  length, length-append, ltb, ltb→lt, ◌==◌, if◌then◌else◌, arith, Bytes, codes,
}
use derusting.Heapless.Texts.{Texts}
use derusting.Log.{Severity, log}

-- The bytes before the first nul byte; `none` where there is none within `fuel` bytes, or at all.
abbrev pub c_str : ℕ → Bytes → Option Bytes
c_str zero bytes = none
c_str (suc fuel) [] = none
c_str (suc fuel) (b ∷ bytes) =
    let rest = c_str fuel bytes in
    if b == 0 then some [] else elim rest [ none ↦ none | some s ↦ some (b ∷ s) ]

abbrev pub until_nul : Bytes → Bytes
until_nul [] = []
until_nul (b ∷ bytes) = let rest = until_nul bytes in if b == 0 then [] else b ∷ rest

c_str_lem :
    (n : ℕ) (args rest : Bytes)
    → length args < n
    → c_str n (args ++ 0 ∷ rest) ≡ some (until_nul args)
c_str_lem zero args rest h = absurd (omega arith)
c_str_lem (suc n) [] rest h = refl
c_str_lem (suc n) (b ∷ args) rest h =
    let ih = c_str_lem n args rest (omega arith) in
    elim (Bool-cases (b == 0)) [ inl e ↦ rw e refl | inr e ↦ rw (e, ih) refl ]

module _ (texts : Texts) where
  -- A logged text of 63 bytes at most reaches the firmware's logger as it is, up to a nul byte if there
  -- is one; any longer one is replaced by "Message too long...". In both cases the logger finds the
  -- closing nul byte within 64 bytes, and the severity is the one given.
  pub log_lem :
      (severity : Severity) (args : Bytes)
      → ((log texts severity args).severity ≡ severity)
        × (c_str 64 (log texts severity args).msg
            ≡ some (if ltb (length args) 64 then until_nul args else codes "Message too long..."))
  unfolding log
  log_lem severity args =
      let longer = length-append args (0 ∷ []) in
      elim (Bool-cases (ltb (length args) 64)) [
        | inl e ↦
            let less = ltb→lt (length args) 64 e in
            let fits = texts.write_fits 64 [] (args ++ 0 ∷ []) (omega arith) in
            (rw (log, fits) refl, rw (log, fits, e) (c_str_lem 64 args [] less))
        | inr e ↦
            let more : 64 ≤ length args = ground arith in
            let full = texts.write_full 64 [] (args ++ 0 ∷ []) (omega arith) in
            (rw (log, full) refl, rw (log, full, e) refl)
      ]
