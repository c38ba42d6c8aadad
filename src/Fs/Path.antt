-- ===== src/Fs/Path.antt =====
-- `make_path` of src/fs.rs. `show` is `Display` of `Uuid`, of the crate `uuid`.
use derusting.Prelude.{
  ◌+◌, ◌≤◌, ◌≡◌, ◌∙◌, Bool, true, false, Option, none, some, ◌++◌, [], length, length-append, elem,
  elem-append, if◌then◌else◌, arith, Bytes, codes,
}
use derusting.Kinds.{Uuid}
use derusting.Heapless.Texts.{Texts}

abbrev pub prefix : Bytes
prefix = codes "/usb/"

abbrev pub extension : Bool → Bytes
extension partial = if partial then codes ".partial" else codes ".gcode"

-- The text that `make_path` formats.
unfoldable pub path_text : (Uuid → Bytes) → Uuid → Bool → Bytes
path_text show guid partial = prefix ++ (show guid ++ extension partial)

-- `make_path`: `none` where one of its calls of `unwrap` panics.
unfoldable pub make_path : Texts → (Uuid → Bytes) → Uuid → Bool → Option Bytes
unfolding path_text
make_path texts show guid partial = elim (texts.write 64 [] (path_text show guid partial)) [
  | none ↦ none
  | some text ↦ texts.from_bytes 64 text
]

-- The documented form of an identifier: 36 characters, none of them nul.
pub record IsHyphenated (text : Bytes) : Type 0 where
  pub size : length text ≡ 36
  pub no_nul : elem 0 text ≡ false

length-path_text :
    (show : Uuid → Bytes) (guid : Uuid) (partial : Bool)
    → length (path_text show guid partial) ≡ 5 + (length (show guid) + length (extension partial))
unfolding path_text
length-path_text show guid true = omega (
  arith,
  length-append prefix (show guid ++ codes ".partial"),
  length-append (show guid) (codes ".partial"),
)
length-path_text show guid false = omega (
  arith,
  length-append prefix (show guid ++ codes ".gcode"),
  length-append (show guid) (codes ".gcode"),
)

pub no_nul-path_text :
    (show : Uuid → Bytes) (guid : Uuid) (partial : Bool)
    → IsHyphenated (show guid)
    → elem 0 (path_text show guid partial) ≡ false
unfolding path_text elem
no_nul-path_text show guid true h =
    elem-append 0 prefix (show guid ++ codes ".partial")
    ∙ elem-append 0 (show guid) (codes ".partial")
    ∙ ground (arith, h.no_nul)
no_nul-path_text show guid false h =
    elem-append 0 prefix (show guid ++ codes ".gcode")
    ∙ elem-append 0 (show guid) (codes ".gcode")
    ∙ ground (arith, h.no_nul)

pub length-path_text-le :
    (show : Uuid → Bytes) (guid : Uuid) (partial : Bool)
    → IsHyphenated (show guid)
    → length (path_text show guid partial) ≤ 49
length-path_text-le show guid true h = omega (arith, length-path_text show guid true, h.size)
length-path_text-le show guid false h = omega (arith, length-path_text show guid false, h.size)

-- For an identifier in its documented form of 36 characters, no call of `unwrap` in `make_path` panics:
-- both paths fit 64 bytes with their nul.
pub make_path_fits :
    (texts : Texts) (show : Uuid → Bytes) (guid : Uuid) (partial : Bool)
    → IsHyphenated (show guid)
    → make_path texts show guid partial ≡ some (path_text show guid partial)
unfolding make_path
make_path_fits texts show guid partial h =
    let short = length-path_text-le show guid partial h in
    let text = path_text show guid partial in
    rw (texts.write_fits 64 [] text (omega arith), make_path)
      (texts.from_bytes_fits 64 text (no_nul-path_text show guid partial h) (omega arith))
