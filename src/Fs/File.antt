-- ===== src/Fs/File.antt =====
-- `File` of src/fs.rs over C's stdio, and `delete` and `rname`.
--
-- `F` is the state of an open file. A `c_long` and a `c_int` have 32 bits on the target; `as` keeps the
-- low bits of a number.
pub mod Errors
pub mod Seek
use derusting.Prelude.{
  ℕ, ◌+◌, ◌-◌, ◌^◌, ◌%◌, ◌≤◌, ◌<◌, ◌≡◌, ◌⊎◌, Bool, true, false, not, Option, none, some, List, [],
  ◌∷◌, ◌++◌, length, take, drop, ltb, ◌==◌, is_nil, if◌then◌else◌, Bytes, codes,
}
use derusting.Prelude.Result.{Result, ok, err}

pub data ℤ : Type 0 where
  pos negsuc : ℕ → ℤ

pub data Mode : Type 0 where
  read_bytes write_bytes : Mode

unfoldable pub as_cstr : Mode → Bytes
as_cstr read_bytes = codes "rb"
as_cstr write_bytes = codes "wb"

-- `Error`
pub data Error : Type 0 where
  io_error : Error

pub data SeekFrom : Type 0 where
  start : ℕ → SeekFrom
  current end_ : ℤ → SeekFrom

-- The bits of an `i64`.
unfoldable pub bits : ℤ → ℕ
bits (pos n) = n
bits (negsuc n) = 2 ^ 64 - 1 - n

-- `as c_long`, of 64 bits.
unfoldable pub as_c_long : ℕ → ℤ
as_c_long n = let m = n % 2 ^ 32 in if ltb m (2 ^ 31) then pos m else negsuc (2 ^ 32 - 1 - m)

abbrev pub is_positive : ℤ → Bool
is_positive (pos n) = ltb 0 n
is_positive (negsuc n) = false

abbrev pub is_zero : ℤ → Bool
is_zero (pos n) = n == 0
is_zero (negsuc n) = false

-- The functions of stdio on an open file, with what C's standard says of them.
pub record Stdio (F : Type 0) : Type 0 where
  -- The bytes that `fread` has put into a buffer of the size.
  pub fread : ℕ → F → Bytes × F
  -- How many bytes `fwrite` has written.
  pub fwrite : Bytes → F → ℕ × F
  pub fflush : F → ℤ × F
  pub fseek : ℤ → ℕ → F → ℤ × F
  pub ftell : F → ℤ
  pub fread_size : (n : ℕ) (f : F) → length (fread n f).0 ≤ n
  pub fwrite_size : (bytes : Bytes) (f : F) → (fwrite bytes f).0 ≤ length bytes
  -- `fflush` returns zero, or EOF, which is negative, where writing has failed.
  pub fflush_answer : (f : F) → ((fflush f).0 ≡ pos 0) ⊎ ((n : ℕ) × ((fflush f).0 ≡ negsuc n))
  -- After a successful `fseek` with SEEK_SET the position is the offset.
  pub ftell-fseek :
      (n : ℕ) (f : F) → (fseek (pos n) 0 f).0 ≡ pos 0 → ftell (fseek (pos n) 0 f).1 ≡ pos n

-- `delete` and `rname` only hand on what `unlink` and `rename` answer.
unfoldable pub delete : (Bytes → ℤ) → Bytes → ℤ
delete unlink path = unlink path

unfoldable pub rname : (Bytes → Bytes → ℤ) → Bytes → Bytes → ℤ
rname rename old_path new_path = rename old_path new_path

module _ {F : Type 0} (stdio : Stdio F) where
  -- `read` into a buffer of the size: how much was read, and what.
  unfoldable pub read : ℕ → F → Result ℕ Error × (Bytes × F)
  read n fp = let (bytes, fp') = stdio.fread n fp in (ok (length bytes), (bytes, fp'))

  unfoldable pub write : Bytes → F → Result ℕ Error × F
  write buf fp =
      if is_nil buf
      then (ok 0, fp)
      else (let (written, fp') = stdio.fwrite buf fp in (ok written, fp'))

  unfoldable pub flush : F → Result (Unit {0}) Error × F
  flush fp =
      let (res, fp') = stdio.fflush fp in (if is_positive res then err io_error else ok tt, fp')

  -- What `ftell` answers, as an `u64`.
  unfoldable pub told : ℤ → Result ℕ Error
  told (pos n) = ok n
  told (negsuc n) = err io_error

  unfoldable pub seek_by : ℤ → ℕ → F → Result ℕ Error × F
  seek_by offset whence fp =
      let (res, fp') = stdio.fseek offset whence fp in
      (if not (is_zero res) then err io_error else told (stdio.ftell fp'), fp')

  unfoldable pub seek : SeekFrom → F → Result ℕ Error × F
  seek (start o) = seek_by (as_c_long o) 0
  seek (current o) = seek_by (as_c_long (bits o)) 1
  seek (end_ o) = seek_by (as_c_long (bits o)) 2
