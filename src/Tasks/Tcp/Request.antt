-- ===== src/Tasks/Tcp/Request.antt =====
-- `split_request`, `check_start_line` and `check_put_header` of src/tasks/tcp.rs. `parse_uuid` is
-- `parse::<Uuid>().ok()`, of the crate `uuid`.
pub mod Split
use derusting.Prelude.{
  ℕ, Bool, true, false, ◌&&◌, Option, none, some, List, [], ◌∷◌, take, drop, if◌then◌else◌, Bytes,
  codes,
}
use derusting.Prelude.Result.{Result, ok, err}
use derusting.Std.Slice.{position}
use derusting.Std.Utf8.{Str, from_utf8}
use derusting.Std.Str.{same_text, split, split_once, lines, trim, eq_ignore_ascii_case}
use derusting.Std.Decimal.{parse_usize}
use derusting.Kinds.{Uuid}
use derusting.Http.{Method, get, put, Response, bad_request, method_not_allowed, crlf}

abbrev pub blank_line : Bytes
blank_line = 13 ∷ 10 ∷ 13 ∷ 10 ∷ []

abbrev pub Parts : Type 0
Parts = Str × Str × Bytes

-- The two conversions at the end of `split_request`.
abbrev pub as_parts : Option Str → Option Str → Bytes → Option Parts
as_parts (some start_line) (some headers) body = some (start_line, headers, body)
as_parts (some start_line) none body = none
as_parts none headers body = none

-- The second half of `split_request`, on what follows the start line and its delimiter.
unfoldable pub split_headers : Bytes → Bytes → Option Parts
split_headers start_line rest = elim (position blank_line rest) [
  | none ↦ none
  | some idx ↦ as_parts (from_utf8 start_line) (from_utf8 (take idx rest)) (drop 4 (drop idx rest))
]

unfoldable pub split_request : Bytes → Option Parts
split_request buf = elim (position crlf buf) [
  | none ↦ none
  | some idx ↦ split_headers (take idx buf) (drop 2 (drop idx buf))
]

-- The `match` on the first token.
unfoldable pub method_of : Str → Result Method Response
method_of m =
    if same_text m (codes "GET")
    then ok get
    else if same_text m (codes "PUT")
    then ok put
    else err method_not_allowed

-- The check of the second token.
unfoldable pub check_url : Method → List Str → Result Method Response
check_url m [] = err bad_request
check_url m (url ∷ rest) = if same_text url (codes "/") then ok m else err bad_request

unfoldable pub check_start_line : Str → Result Method Response
check_start_line start_line = elim (split b' ' start_line) [
  | [] ↦ err bad_request
  | m ∷ rest ↦ elim (method_of m) [ err e ↦ err e | ok found ↦ check_url found rest ]
]

pub record PutInfo : Type 0 where
  pub size : Option ℕ
  pub guid : Option Uuid
  pub is_gcode : Bool

module _ (parse_uuid : Str → Option Uuid) where
  -- What one header field tells, its name and value trimmed.
  unfoldable pub note_field : PutInfo → Str → Str → PutInfo
  note_field info key val =
      if eq_ignore_ascii_case key (codes "content-length")
      then record info { size = parse_usize val }
      else if eq_ignore_ascii_case key (codes "content-type")
          && same_text val (codes "text/x.gcode")
      then record info { is_gcode = true }
      else if eq_ignore_ascii_case key (codes "guid")
      then record info { guid = parse_uuid val }
      else info

  -- One round of the loop: a line with no colon is passed over.
  unfoldable pub note_line : PutInfo → Str → PutInfo
  note_line info line = elim (split_once b':' line) [
    | none ↦ info
    | some (key, val) ↦ note_field info (trim key) (trim val)
  ]

  unfoldable pub note_lines : PutInfo → List Str → PutInfo
  note_lines info [] = info
  note_lines info (line ∷ rest) = note_lines (note_line info line) rest

  unfoldable pub check_put_header : Str → PutInfo
  check_put_header headers =
      note_lines (record { size = none; guid = none; is_gcode = false }) (lines headers)
