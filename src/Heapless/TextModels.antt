-- ===== src/Heapless/TextModels.antt =====
-- Lists of bytes as texts of a bounded size.
use derusting.Prelude.{
  ℕ, ◌≡◌, ◌≤◌, ◌<◌, false, Option, none, some, [], ◌++◌, length, ltb, leb, ◌+◌, Bytes,
  if◌then◌else◌, elem, arith,
}
use derusting.Heapless.Texts.{Texts}

unfoldable pub put_text : ℕ → Bytes → Bytes → Option Bytes
put_text n s t = if leb (length s + length t) n then some (s ++ t) else none

pub put_text_fits : (n : ℕ) (s t : Bytes) → length s + length t ≤ n → put_text n s t ≡ some (s ++ t)
unfolding put_text
put_text_fits n s t h = ground arith

pub put_text_full : (n : ℕ) (s t : Bytes) → n < length s + length t → put_text n s t ≡ none
unfolding put_text
put_text_full n s t h = ground arith

unfoldable pub cut_text : ℕ → Bytes → Bytes → Option Bytes
cut_text n s t = if ltb (length s + length t) n then some (s ++ t) else none

pub cut_text_fits :
    (n : ℕ) (s t : Bytes)
    → elem 0 t ≡ false
    → length s + length t < n
    → cut_text n s t ≡ some (s ++ t)
unfolding cut_text
cut_text_fits n s t z h = ground arith

pub cut_text_full :
    (n : ℕ) (s t : Bytes) → elem 0 t ≡ false → n ≤ length s + length t → cut_text n s t ≡ none
unfolding cut_text
cut_text_full n s t z h = ground arith

abbrev pub list_texts : Texts
list_texts = record {
  write = put_text;
  extend = cut_text;
  from_bytes = λ n t. cut_text n [] t;
  write_fits = put_text_fits;
  write_full = put_text_full;
  extend_fits = cut_text_fits;
  extend_full = cut_text_full;
  from_bytes_fits = λ n t z h. cut_text_fits n [] t z (omega arith);
  extend_from_slice = put_text;
  extend_from_slice_fits = put_text_fits;
}
