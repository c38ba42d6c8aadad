-- ===== src/Fs/File/Seek.antt =====
-- Which positions `seek` can reach.
use derusting.Prelude.{ℕ, ◌-◌, ◌^◌, ◌%◌, ◌≤◌, ◌<◌, ◌≡◌, ◌∙◌, ap, refl, true, false, ltb, arith}
use derusting.Prelude.Result.{ok}
use derusting.Fs.File.{Stdio, pos, negsuc, start, as_c_long, told, seek_by, seek}

as_c_long-small : (o : ℕ) → o < 2 ^ 31 → as_c_long o ≡ pos o
unfolding as_c_long
as_c_long-small o h =
    let same : o % 2 ^ 32 ≡ o = omega arith in
    let low : ltb o (2 ^ 31) ≡ true = ground arith in rw (as_c_long, same, low) refl

as_c_long-large : (o : ℕ) → 2 ^ 31 ≤ o → o < 2 ^ 32 → as_c_long o ≡ negsuc (2 ^ 32 - 1 - o)
unfolding as_c_long
as_c_long-large o low high =
    let same : o % 2 ^ 32 ≡ o = omega arith in
    let above : ltb o (2 ^ 31) ≡ false = ground arith in rw (as_c_long, same, above) refl

module _ {F : Type 0} (stdio : Stdio F) where
  seek_by_at :
      (n : ℕ) (fp : F)
      → (stdio.fseek (pos n) 0 fp).0 ≡ pos 0
      → (seek_by stdio (pos n) 0 fp).0 ≡ ok n
  unfolding seek_by told
  seek_by_at n fp e = rw (seek_by, e, stdio.ftell-fseek n fp e) refl

  -- A seek from the start to a position below 2 GiB asks stdio for exactly this position, and answers
  -- it where stdio gets there; to a position from there up to 4 GiB it asks for a negative one.
  seek_reach :
      (n o : ℕ) (fp : F)
      → n < 2 ^ 31
      → (stdio.fseek (pos n) 0 fp).0 ≡ pos 0
      → 2 ^ 31 ≤ o
      → o < 2 ^ 32
      → ((seek stdio (start n) fp).0 ≡ ok n)
        × (seek stdio (start o) fp ≡ seek_by stdio (negsuc (2 ^ 32 - 1 - o)) 0 fp)
  unfolding seek
  seek_reach n o fp h e low high = (
    ap (λ z. (seek_by stdio z 0 fp).0) (as_c_long-small n h) ∙ seek_by_at n fp e,
    ap (λ z. seek_by stdio z 0 fp) (as_c_long-large o low high),
  )
