-- ===== src/Heapless/Texts.antt =====
-- `heapless::String<n>`, `heapless::CString<n>` and `heapless::Vec<u8, n>`: texts of bounded size.
use derusting.Prelude.{ℕ, ◌+◌, ◌≡◌, ◌≤◌, ◌<◌, false, Option, none, some, ◌++◌, length, elem, Bytes}

pub record Texts : Type 0 where
  -- `write!` on a `String<n>` that holds the first text; the error is `none`.
  pub write : ℕ → Bytes → Bytes → Option Bytes
  -- `CString<n>::extend_from_bytes`, the closing nul byte not shown.
  pub extend : ℕ → Bytes → Bytes → Option Bytes
  -- `CString<n>::from_bytes_with_nul`, which the program also calls without a closing nul byte.
  pub from_bytes : ℕ → Bytes → Option Bytes
  pub write_fits : (n : ℕ) (s t : Bytes) → length s + length t ≤ n → write n s t ≡ some (s ++ t)
  pub write_full : (n : ℕ) (s t : Bytes) → n < length s + length t → write n s t ≡ none
  pub extend_fits :
      (n : ℕ) (s t : Bytes)
      → elem 0 t ≡ false
      → length s + length t < n
      → extend n s t ≡ some (s ++ t)
  pub extend_full :
      (n : ℕ) (s t : Bytes) → elem 0 t ≡ false → n ≤ length s + length t → extend n s t ≡ none
  pub from_bytes_fits :
      (n : ℕ) (t : Bytes) → elem 0 t ≡ false → length t < n → from_bytes n t ≡ some t
  -- `Vec<u8, n>::extend_from_slice`; the error is `none`.
  pub extend_from_slice : ℕ → Bytes → Bytes → Option Bytes
  pub extend_from_slice_fits :
      (n : ℕ) (s t : Bytes) → length s + length t ≤ n → extend_from_slice n s t ≡ some (s ++ t)
