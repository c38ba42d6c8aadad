-- ===== src/Fs/File/Errors.antt =====
-- Which errors of stdio a task gets to see.
use derusting.Prelude.{
  ℕ, ◌≤◌, ◌≡◌, inl, inr, refl, Bool, false, [], ◌∷◌, length, if◌then◌else◌, arith, Bytes, ap,
}
use derusting.Prelude.Result.{ok, err}
use derusting.Fs.File.{Stdio, is_positive, Error, flush, read, write}

module _ {F : Type 0} (stdio : Stdio F) where
  flush_at :
      (fp : F) (b : Bool)
      → is_positive (stdio.fflush fp).0 ≡ b
      → (flush stdio fp).0 ≡ (if b then err Error.io_error else ok tt)
  unfolding flush
  flush_at fp b e = rw (flush, e) refl

  -- No call of `read`, `write` or `flush` ever reports an error, whatever stdio answers: a failed
  -- `fflush` returns EOF, which is negative, and only a positive answer is taken as an error; and
  -- `read` and `write` hand on a count that is not greater than what was asked for.
  errors_hidden :
      (n : ℕ) (buf : Bytes) (fp : F)
      → ((flush stdio fp).0 ≡ ok tt)
        × ((count : ℕ) × ((read stdio n fp).0 ≡ ok count) × (count ≤ n))
        × ((count : ℕ) × ((write stdio buf fp).0 ≡ ok count) × (count ≤ length buf))
  unfolding read write
  errors_hidden n buf fp = (
    (elim (stdio.fflush_answer fp) [
      | inl e ↦ flush_at fp false (ap is_positive e)
      | inr (k, e) ↦ flush_at fp false (ap is_positive e)
    ]),
    (length (stdio.fread n fp).0, refl, stdio.fread_size n fp),
    written buf,
  )
    where
      written :
          (bytes : Bytes)
          → (count : ℕ) × ((write stdio bytes fp).0 ≡ ok count) × (count ≤ length bytes)
      written [] = (0, refl, omega arith)
      written (b ∷ bytes) =
          ((stdio.fwrite (b ∷ bytes) fp).0, refl, stdio.fwrite_size (b ∷ bytes) fp)
