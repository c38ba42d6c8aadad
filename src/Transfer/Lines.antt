-- ===== src/Transfer/Lines.antt =====
-- What `check_put_header` reads in the headers of a PUT.
use derusting.Prelude.{
  ℕ, ◌≤◌, ◌≡◌, ◌∙◌, sym, ap, ap₂, refl, true, false, Option, none, some, [], ◌∷◌, ◌++◌,
  append_assoc, elem, elem-append, arith, Bytes, codes,
}
use derusting.Std.Utf8.{Str}
use derusting.Std.Str.{
  same_text, split, split_once, split_once-append, as_lines, lines, lines-crlf, is_whitespace,
  trim_start, trim_end, trim, eq_ignore_ascii_case,
}
use derusting.Std.Decimal.{usize_max, parse_usize, parse_usize-show_u32, show_u32}
use derusting.Kinds.{Uuid}
use derusting.Tasks.Tcp.Request.{PutInfo, note_field, note_line, note_lines, check_put_header}
use derusting.Transfer.Visible.{IsVisible, elem-IsVisible, trim-space, show_u32-IsVisible}

abbrev pub crlf_then : Bytes → Bytes
crlf_then s = 13 ∷ 10 ∷ s

-- The headers, from each line on.
abbrev pub connection_line : Bytes
connection_line = codes "Connection: close"

abbrev pub length_lines : ℕ → Bytes
length_lines fsize = codes "Content-Length: " ++ (show_u32 fsize ++ crlf_then connection_line)

abbrev pub type_lines : ℕ → Bytes
type_lines fsize = codes "Content-Type: text/x.gcode" ++ crlf_then (length_lines fsize)

abbrev pub guid_lines : Bytes → ℕ → Bytes
guid_lines text fsize = codes "guid: " ++ (text ++ crlf_then (type_lines fsize))

connection_lines : lines connection_line ≡ connection_line ∷ []
unfolding lines as_lines split
connection_lines = refl

no_lf_in :
    (name text : Bytes) → elem 10 name ≡ false → IsVisible text → elem 10 (name ++ text) ≡ false
no_lf_in name text h v =
    elem-append 10 name text ∙ rw (h, elem-IsVisible 10 text (omega arith) v) refl

no_lf :
    (elem 10 (codes "guid: ") ≡ false)
    × (elem 10 (codes "Content-Length: ") ≡ false)
    × (elem 10 (codes "Content-Type: text/x.gcode") ≡ false)
unfolding elem
no_lf = (refl, refl, refl)

pub lines-length_lines :
    (n : ℕ)
    → lines (length_lines n) ≡ (codes "Content-Length: " ++ show_u32 n) ∷ connection_line ∷ []
lines-length_lines n =
    ap lines
      (sym (append_assoc (codes "Content-Length: ") (show_u32 n) (crlf_then connection_line)))
    ∙ lines-crlf (codes "Content-Length: " ++ show_u32 n) connection_line
        (no_lf_in (codes "Content-Length: ") (show_u32 n) no_lf.1 (show_u32-IsVisible n))
    ∙ ap (◌∷◌ (codes "Content-Length: " ++ show_u32 n)) connection_lines

-- The headers are four lines.
lines-guid_lines :
    (text : Bytes) (fsize : ℕ)
    → IsVisible text
    → lines (guid_lines text fsize)
      ≡ (codes "guid: " ++ text)
        ∷ codes "Content-Type: text/x.gcode"
        ∷ (codes "Content-Length: " ++ show_u32 fsize)
        ∷ connection_line
        ∷ []
lines-guid_lines text fsize v =
    ap lines (sym (append_assoc (codes "guid: ") text (crlf_then (type_lines fsize))))
    ∙ lines-crlf (codes "guid: " ++ text) (type_lines fsize)
        (no_lf_in (codes "guid: ") text no_lf.0 v)
    ∙ ap (◌∷◌ (codes "guid: " ++ text)) (
        lines-crlf (codes "Content-Type: text/x.gcode") (length_lines fsize) no_lf.2
        ∙ ap (◌∷◌ (codes "Content-Type: text/x.gcode")) (lines-length_lines fsize))

-- The name of a field and its value behind a colon and a blank.
split_guid :
    (text : Bytes) → split_once b':' (codes "guid: " ++ text) ≡ some (codes "guid", 32 ∷ text)
unfolding elem
split_guid text = split_once-append b':' (codes "guid") (32 ∷ text) refl

split_length :
    (text : Bytes)
    → split_once b':' (codes "Content-Length: " ++ text) ≡ some (codes "Content-Length", 32 ∷ text)
unfolding elem
split_length text = split_once-append b':' (codes "Content-Length") (32 ∷ text) refl

trim-names :
    (trim (codes "guid") ≡ codes "guid") × (trim (codes "Content-Length") ≡ codes "Content-Length")
unfolding trim trim_start trim_end is_whitespace
trim-names = (refl, refl)

module _ (parse_uuid : Str → Option Uuid) where
  note_line_at :
      (info : PutInfo) (line key val : Str)
      → split_once b':' line ≡ some (key, val)
      → note_line parse_uuid info line ≡ note_field parse_uuid info (trim key) (trim val)
  unfolding note_line
  note_line_at info line key val e = rw (e, note_line) refl

  note_guid :
      (info : PutInfo) (text : Bytes)
      → IsVisible text
      → note_line parse_uuid info (codes "guid: " ++ text) ≡ record info { guid = parse_uuid text }
  unfolding note_field eq_ignore_ascii_case same_text
  note_guid info text v =
      note_line_at info (codes "guid: " ++ text) (codes "guid") (32 ∷ text) (split_guid text)
      ∙ ap₂ (note_field parse_uuid info) trim-names.0 (trim-space text v)

  pub note_length :
      (info : PutInfo) (text : Bytes)
      → IsVisible text
      → note_line parse_uuid info (codes "Content-Length: " ++ text)
        ≡ record info { size = parse_usize text }
  unfolding note_field eq_ignore_ascii_case same_text
  note_length info text v =
      note_line_at info (codes "Content-Length: " ++ text) (codes "Content-Length") (32 ∷ text)
        (split_length text)
      ∙ ap₂ (note_field parse_uuid info) trim-names.1 (trim-space text v)

  note_type :
      (info : PutInfo)
      → note_line parse_uuid info (codes "Content-Type: text/x.gcode")
        ≡ record info { is_gcode = true }
  unfolding note_line note_field eq_ignore_ascii_case same_text split_once trim trim_start trim_end
      is_whitespace
  note_type info = refl

  pub note_connection : (info : PutInfo) → note_line parse_uuid info connection_line ≡ info
  unfolding note_line note_field eq_ignore_ascii_case same_text split_once trim trim_start trim_end
      is_whitespace
  note_connection info = refl

  -- The headers tell the size, the identifier and the kind of file.
  pub check_put_header-guid_lines :
      (text : Bytes) (fsize : ℕ)
      → IsVisible text
      → fsize ≤ usize_max
      → check_put_header parse_uuid (guid_lines text fsize)
        ≡ record { size = some fsize; guid = parse_uuid text; is_gcode = true }
  unfolding check_put_header note_lines
  check_put_header-guid_lines text fsize v small =
      let i0 : PutInfo = record { size = none; guid = none; is_gcode = false } in
      let i1 : PutInfo = record i0 { guid = parse_uuid text } in
      let i2 : PutInfo = record i1 { is_gcode = true } in
      ap (note_lines parse_uuid i0) (lines-guid_lines text fsize v)
      ∙ rw
          (
            note_guid i0 text v,
            note_type i1,
            note_length i2 (show_u32 fsize) (show_u32-IsVisible fsize),
            note_connection (record i2 { size = parse_usize (show_u32 fsize) }),
            parse_usize-show_u32 fsize small,
          )
          refl
