-- ===== src/Transfer/Header.antt =====
-- The header that `_connected` writes, taken apart by `split_request` and `check_start_line`.
use derusting.Prelude.{
  ℕ, ◌≡◌, ◌∙◌, ap, refl, true, false, none, some, [], ◌∷◌, ◌++◌, append_assoc, elem, arith, Bytes,
  codes,
}
use derusting.Prelude.Result.{ok}
use derusting.Std.Utf8.{all_ascii, from_utf8_ascii, all_ascii-append}
use derusting.Std.Str.{same_text, split}
use derusting.Std.Slice.{starts_with, position}
use derusting.Std.Decimal.{show_u32}
use derusting.Kinds.{Uuid}
use derusting.Http.{put, crlf}
use derusting.Tasks.Tcp.Request.{blank_line, split_request, method_of, check_url, check_start_line}
use derusting.Tasks.Tcp.Request.Split.{split_request_complete}
use derusting.Lwip.Put.{header_text}
use derusting.Transfer.Visible.{
  IsVisible, elem-IsVisible, all_ascii-IsVisible, position_skip, show_u32-IsVisible,
}
use derusting.Transfer.Lines.{crlf_then, connection_line, type_lines, guid_lines}

abbrev pub put_line : Bytes
put_line = codes "PUT / HTTP/1.1"

pub check_put_line : check_start_line put_line ≡ ok put
unfolding check_start_line split method_of check_url same_text
check_put_line = refl

-- The header is the start line and the four lines with an empty line behind them.
header-parts :
    (show : Uuid → Bytes) (guid : Uuid) (fsize : ℕ) (body : Bytes)
    → header_text show guid fsize ++ body
      ≡ put_line ++ (crlf ++ (guid_lines (show guid) fsize ++ (blank_line ++ body)))
unfolding header_text
header-parts show guid fsize body = simp append_assoc

no_break : position crlf (put_line ++ 13 ∷ []) ≡ none
unfolding position starts_with
no_break = refl

-- The last line and what of the empty line may stand behind the headers.
no_blank_in_rest : position blank_line (crlf_then (connection_line ++ (13 ∷ 10 ∷ 13 ∷ []))) ≡ none
unfolding position starts_with
no_blank_in_rest = refl

-- The lines behind the identifier, up to what of the empty line may stand there.
abbrev lines_after : ℕ → Bytes
lines_after fsize = crlf_then (
    codes "Content-Type: text/x.gcode"
    ++ crlf_then (
        codes "Content-Length: "
        ++ (show_u32 fsize ++ crlf_then (connection_line ++ (13 ∷ 10 ∷ 13 ∷ [])))))

no_blank_after : (fsize : ℕ) → position blank_line (lines_after fsize) ≡ none
unfolding position starts_with
no_blank_after fsize =
    rw
      (position_skip 13 (10 ∷ 13 ∷ 10 ∷ []) (show_u32 fsize)
        (crlf_then (connection_line ++ (13 ∷ 10 ∷ 13 ∷ [])))
        (elem-IsVisible 13 (show_u32 fsize) (omega arith) (show_u32-IsVisible fsize))
        no_blank_in_rest)
      refl

no_guid_break : elem 13 (codes "guid: ") ≡ false
unfolding elem
no_guid_break = refl

no_blank :
    (text : Bytes) (fsize : ℕ)
    → IsVisible text
    → position blank_line (guid_lines text fsize ++ (13 ∷ 10 ∷ 13 ∷ [])) ≡ none
no_blank text fsize v =
    let flat : guid_lines text fsize ++ (13 ∷ 10 ∷ 13 ∷ [])
        ≡ codes "guid: " ++ (text ++ lines_after fsize) =
      simp append_assoc in
    ap (position blank_line) flat
    ∙ position_skip 13 (10 ∷ 13 ∷ 10 ∷ []) (codes "guid: ") (text ++ lines_after fsize)
        no_guid_break
        (position_skip 13 (10 ∷ 13 ∷ 10 ∷ []) text (lines_after fsize)
          (elem-IsVisible 13 text (omega arith) v) (no_blank_after fsize))

ascii : (text : Bytes) (fsize : ℕ) → IsVisible text → all_ascii (guid_lines text fsize) ≡ true
unfolding all_ascii
ascii text fsize v =
    rw
      (
        all_ascii-append text (crlf_then (type_lines fsize)),
        all_ascii-IsVisible text v,
        all_ascii-append (show_u32 fsize) (crlf_then connection_line),
        all_ascii-IsVisible (show_u32 fsize) (show_u32-IsVisible fsize),
      )
      refl

-- The server takes the header apart into the start line and the headers, and finds the body.
pub split_request-header_text :
    (show : Uuid → Bytes) (guid : Uuid) (fsize : ℕ) (body : Bytes)
    → IsVisible (show guid)
    → split_request (header_text show guid fsize ++ body)
      ≡ some (put_line, guid_lines (show guid) fsize, body)
unfolding all_ascii
split_request-header_text show guid fsize body v =
    ap split_request (header-parts show guid fsize body)
    ∙ split_request_complete put_line (guid_lines (show guid) fsize) body put_line
        (guid_lines (show guid) fsize) no_break (no_blank (show guid) fsize v)
        (from_utf8_ascii put_line refl)
        (from_utf8_ascii (guid_lines (show guid) fsize) (ascii (show guid) fsize v))
