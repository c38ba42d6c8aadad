-- ===== src/Fs/Clean.antt =====
-- `find_and_delete` and `clean_usb` of src/fs.rs. `D` stands for the drive: `find_first` is `f_findfirst`, whose name is
-- `none` where the returned one is empty, and `unlink` returns its code with the drive afterwards.
-- One turn of the loop is `find_and_delete_once`; the loop runs on fuel.
use derusting.Prelude.{
  ℕ, zero, suc, ◌≤◌, ◌<◌, ◌≡◌, ◌⊎◌, elem, ==_iff, refl, ap, ◌∙◌, false, Option, none, some, ◌++◌,
  [], length, length-append, ◌==◌, if◌then◌else◌, arith, Bytes, codes, Bool-cases, inl, inr,
}
use derusting.Prelude.Result.{Result, ok, err}
use derusting.Std.Utf8.{from_utf8}
use derusting.Heapless.Texts.{Texts}
use derusting.Fs.Path.{prefix}
use derusting.Fs.Stat.{FResult}

pub record Drive (D : Type 0) : Type 0 where
  pub find_first : Bytes → D → Result (Option Bytes) FResult
  pub unlink : Bytes → D → ℕ × D

-- How a turn ends: by `return`, by going on, or by the panic of `unwrap`.
pub data Turn (D : Type 0) : Type 0 where
  returned again : D → Turn D
  panicked : Turn D

-- `name.to_str().unwrap_or("")`
unfoldable pub text_of : Bytes → Bytes
text_of name = elim (from_utf8 name) [ none ↦ [] | some s ↦ name ]

module _ {D : Type 0} (texts : Texts) (drive : Drive D) where
  -- `delete(&path)` and the test of its code.
  unfoldable pub delete_path : Option Bytes → D → Turn D
  delete_path none d = panicked
  delete_path (some path) d =
      let (ret, d') = drive.unlink path d in if ret == 0 then again d' else returned d'

  unfoldable pub delete_found : Bytes → D → Turn D
  delete_found name d = elim (texts.write 64 [] (prefix ++ text_of name)) [
    | none ↦ again d
    | some path ↦ delete_path (texts.from_bytes 64 path) d
  ]

  unfoldable pub on_found : Result (Option Bytes) FResult → D → Turn D
  on_found (err e) d = returned d
  on_found (ok none) d = returned d
  on_found (ok (some name)) d = delete_found name d

  unfoldable pub find_and_delete_once : Bytes → D → Turn D
  find_and_delete_once pattern d = on_found (drive.find_first pattern d) d

  -- `find_and_delete`, for as many turns as there is fuel.
  unfoldable pub find_and_delete : ℕ → Bytes → D → Turn D
  find_and_delete zero pattern d = again d
  find_and_delete (suc fuel) pattern d = elim (find_and_delete_once pattern d) [
    | returned d' ↦ returned d'
    | again d' ↦ find_and_delete fuel pattern d'
    | panicked ↦ panicked
  ]

  -- `clean_usb`, with fuel for each of its two loops.
  unfoldable pub clean_usb : ℕ → ℕ → D → Turn D
  clean_usb fuel fuel' d = elim (find_and_delete fuel (codes "*.gcode") d) [
    | returned d' ↦ find_and_delete fuel' (codes "*.partial") d'
    | again d' ↦ again d'
    | panicked ↦ panicked
  ]

  once_long :
      (pattern name : Bytes) (d : D)
      → drive.find_first pattern d ≡ ok (some name)
      → text_of name ≡ name
      → 59 < length name
      → find_and_delete_once pattern d ≡ again d
  unfolding find_and_delete_once on_found delete_found
  once_long pattern name d found readable long =
      let full : texts.write 64 [] (prefix ++ text_of name) ≡ none =
        ap (λ t. texts.write 64 [] (prefix ++ t)) readable
        ∙ texts.write_full 64 [] (prefix ++ name) (omega (arith, length-append prefix name)) in
      rw (found, delete_found, full) refl

  -- If the first match is a readable name of more than 59 bytes, the loop never ends: after any number
  -- of turns it goes on, with the drive as it was.
  pub long_name_loops :
      (pattern name : Bytes) (d : D)
      → drive.find_first pattern d ≡ ok (some name)
      → text_of name ≡ name
      → 59 < length name
      → (fuel : ℕ) → find_and_delete fuel pattern d ≡ again d
  unfolding find_and_delete
  long_name_loops pattern name d found readable long zero = refl
  long_name_loops pattern name d found readable long (suc fuel) =
      rw (find_and_delete, once_long pattern name d found readable long)
        (long_name_loops pattern name d found readable long fuel)

  found_cases :
      (r : Result (Option Bytes) FResult) (d : D)
      → (on_found r d ≡ returned d) ⊎ ((name : Bytes) × (r ≡ ok (some name)))
  unfolding on_found
  found_cases (err e) d = inl refl
  found_cases (ok none) d = inl refl
  found_cases (ok (some name)) d = inr (name, refl)

  -- What the drive finds for the pattern fits the buffers, and a file that is unlinked is gone.
  pub record Orderly (pattern : Bytes) (remaining : D → ℕ) : Type 0 where
    pub short :
        (d : D) (name : Bytes)
        → drive.find_first pattern d ≡ ok (some name)
        → length (text_of name) ≤ 58
    pub no_nul :
        (d : D) (name : Bytes)
        → drive.find_first pattern d ≡ ok (some name)
        → elem 0 (prefix ++ text_of name) ≡ false
    pub shrinks :
        (path : Bytes) (d : D)
        → (drive.unlink path d).0 ≡ 0
        → remaining (drive.unlink path d).1 < remaining d

  -- A turn returns, or leaves fewer files.
  once_lem :
      (pattern : Bytes) (remaining : D → ℕ) (o : Orderly pattern remaining) (d : D)
      → ((d' : D) × (find_and_delete_once pattern d ≡ returned d'))
        ⊎ ((d' : D) × (find_and_delete_once pattern d ≡ again d') × (remaining d' < remaining d))
  unfolding find_and_delete_once on_found delete_found delete_path
  once_lem pattern remaining o d = elim (found_cases (drive.find_first pattern d) d) [
    | inl e ↦ inl (d, e)
    | inr (name, e) ↦
        let path = prefix ++ text_of name in
        let size = o.short d name e in
        let total = length-append prefix (text_of name) in
        let written = texts.write_fits 64 [] path (omega (arith, size, total)) in
        let made = texts.from_bytes_fits 64 path (o.no_nul d name e) (omega (arith, size, total)) in
        elim (Bool-cases ((drive.unlink path d).0 == 0)) [
          | inl z ↦ inr (
            (drive.unlink path d).1,
            rw (e, delete_found, written, made, z) refl,
            o.shrinks path d ((==_iff (drive.unlink path d).0 0).0 z),
          )
          | inr z ↦ inl ((drive.unlink path d).1, rw (e, delete_found, written, made, z) refl)
        ]
  ]

  -- If all matching names fit, 58 bytes at most, and each successful unlinking leaves fewer files, then
  -- the loop returns, without a panic, after at most one turn more than there are files.
  find_and_delete_returns :
      (pattern : Bytes) (remaining : D → ℕ)
      → Orderly pattern remaining
      → (fuel : ℕ) (d : D) → remaining d < fuel
      → (d' : D) × (find_and_delete fuel pattern d ≡ returned d')
  unfolding find_and_delete
  find_and_delete_returns pattern remaining o zero d h = absurd (omega arith)
  find_and_delete_returns pattern remaining o (suc fuel) d h =
      elim (once_lem pattern remaining o d) [
        | inl (d', e) ↦ (d', rw (find_and_delete, e) refl)
        | inr (d', e, less) ↦
            let (d'', done) =
              find_and_delete_returns pattern remaining o fuel d' (omega (arith, less)) in
            (d'', rw (find_and_delete, e) done)
      ]

  -- Then the stick is cleaned.
  pub clean_usb_returns :
      (remaining : D → ℕ)
      → Orderly (codes "*.gcode") remaining
      → Orderly (codes "*.partial") remaining
      → (fuel : ℕ) (d : D) → remaining d < fuel
      → (fuel' : ℕ) × ((d' : D) × (clean_usb fuel fuel' d ≡ returned d'))
  unfolding clean_usb
  clean_usb_returns remaining o o' fuel d h =
      let (d', e) = find_and_delete_returns (codes "*.gcode") remaining o fuel d h in
      let fuel' = suc (remaining d') in
      let (d'', e') =
        find_and_delete_returns (codes "*.partial") remaining o' fuel' d' (omega arith) in
      (fuel', (d'', rw (clean_usb, e) e'))
