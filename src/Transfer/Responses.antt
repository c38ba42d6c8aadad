-- ===== src/Transfer/Responses.antt =====
-- The responses of src/http.rs, taken apart by `split_request` and `check_put_header`.
use derusting.Prelude.{
  ℕ, ◌≤◌, ◌≡◌, ◌∙◌, ap, refl, true, false, Option, none, some, [], ◌∷◌, ◌++◌, append_assoc, length,
  elem, arith, Bytes, codes,
}
use derusting.Std.Utf8.{
  Str, all_ascii, from_utf8, from_utf8_ascii, all_ascii-append, decode_from, lead,
}
use derusting.Std.Str.{
  same_text, split, split_once, as_lines, lines, lines-crlf, is_whitespace, trim_start, trim_end,
  trim, eq_ignore_ascii_case, strip_cr,
}
use derusting.Std.Slice.{starts_with, position}
use derusting.Std.Decimal.{
  usize_max, parse_usize, parse_usize-show_u32, show_u32, is_digit, digits_onto,
}
use derusting.Kinds.{Uuid}
use derusting.Http.{Response, crlf, as_bytes}
use derusting.Tasks.Tcp.Request.{
  PutInfo, blank_line, split_headers, split_request, note_field, note_line, note_lines,
  check_put_header,
}
use derusting.Tasks.Tcp.Request.Split.{split_request_complete}
use derusting.Transfer.Visible.{
  elem-IsVisible, all_ascii-IsVisible, position_skip, show_u32-IsVisible,
}
use derusting.Transfer.Lines.{
  crlf_then, connection_line, length_lines, lines-length_lines, note_length, note_connection,
}

abbrev status_line : Bytes
status_line = codes "HTTP/1.1 200 OK"

-- The headers of the index page.
abbrev page_lines : ℕ → Bytes
page_lines n = codes "Content-Type: text/html" ++ crlf_then (length_lines n)

page-parts :
    (html : Bytes)
    → as_bytes html Response.index_html
      ≡ status_line ++ (crlf ++ (page_lines (length html) ++ (blank_line ++ html)))
unfolding as_bytes
page-parts html = simp append_assoc

no_break : position crlf (status_line ++ 13 ∷ []) ≡ none
unfolding position starts_with
no_break = refl

no_blank_in_rest : position blank_line (crlf_then (connection_line ++ (13 ∷ 10 ∷ 13 ∷ []))) ≡ none
unfolding position starts_with
no_blank_in_rest = refl

no_blank : (n : ℕ) → position blank_line (page_lines n ++ (13 ∷ 10 ∷ 13 ∷ [])) ≡ none
unfolding position starts_with
no_blank n =
    let flat : page_lines n ++ (13 ∷ 10 ∷ 13 ∷ [])
        ≡ codes "Content-Type: text/html"
          ++ crlf_then (
              codes "Content-Length: "
              ++ (show_u32 n ++ crlf_then (connection_line ++ (13 ∷ 10 ∷ 13 ∷ [])))) =
      simp append_assoc in
    ap (position blank_line) flat
    ∙ rw
        (position_skip 13 (10 ∷ 13 ∷ 10 ∷ []) (show_u32 n)
          (crlf_then (connection_line ++ (13 ∷ 10 ∷ 13 ∷ [])))
          (elem-IsVisible 13 (show_u32 n) (omega arith) (show_u32-IsVisible n)) no_blank_in_rest)
        refl

ascii : (n : ℕ) → all_ascii (page_lines n) ≡ true
unfolding all_ascii
ascii n =
    rw
      (
        all_ascii-append (show_u32 n) (crlf_then connection_line),
        all_ascii-IsVisible (show_u32 n) (show_u32-IsVisible n),
      )
      refl

-- The index page comes apart into its status line, its headers and the page.
split_request-page :
    (html : Bytes)
    → split_request (as_bytes html Response.index_html)
      ≡ some (status_line, page_lines (length html), html)
unfolding all_ascii
split_request-page html =
    ap split_request (page-parts html)
    ∙ split_request_complete status_line (page_lines (length html)) html status_line
        (page_lines (length html)) no_break (no_blank (length html))
        (from_utf8_ascii status_line refl)
        (from_utf8_ascii (page_lines (length html)) (ascii (length html)))

no_lf : elem 10 (codes "Content-Type: text/html") ≡ false
unfolding elem
no_lf = refl

module _ (parse_uuid : Str → Option Uuid) where
  note_html : (info : PutInfo) → note_line parse_uuid info (codes "Content-Type: text/html") ≡ info
  unfolding note_line note_field eq_ignore_ascii_case same_text split_once trim trim_start trim_end
      is_whitespace
  note_html info = refl

  size-page : (n : ℕ) → n ≤ usize_max → (check_put_header parse_uuid (page_lines n)).size ≡ some n
  unfolding check_put_header note_lines
  size-page n small =
      let i0 : PutInfo = record { size = none; guid = none; is_gcode = false } in
      ap (λ l. (note_lines parse_uuid i0 l).size)
        (lines-crlf (codes "Content-Type: text/html") (length_lines n) no_lf
          ∙ ap (◌∷◌ (codes "Content-Type: text/html")) (lines-length_lines n))
      ∙ rw
          (
            note_html i0,
            note_length parse_uuid i0 (show_u32 n) (show_u32-IsVisible n),
            note_connection parse_uuid (record i0 { size = parse_usize (show_u32 n) }),
          )
          (parse_usize-show_u32 n small)

  -- The bytes come apart into a status line, headers that state a length, and so many bytes.
  abbrev pub IsFramed : Bytes → Type 0
  IsFramed bytes =
      (start headers : Str) × (rest : Bytes) × (split_request bytes ≡ some (start, headers, rest))
      × ((check_put_header parse_uuid headers).size ≡ some (length rest))

  -- Where the index page has less than 2³² bytes: each response, taken apart as the server itself takes a
  -- request apart, is a status line, headers, and exactly as many bytes as the headers state.
  pub responses-AreFramed :
      (html : Bytes) (r : Response) → length html ≤ usize_max → IsFramed (as_bytes html r)
  unfolding as_bytes split_request split_headers position starts_with from_utf8 decode_from lead
      check_put_header note_lines note_line note_field eq_ignore_ascii_case same_text split_once
      trim trim_start trim_end is_whitespace lines as_lines split strip_cr parse_usize digits_onto
      is_digit
  responses-AreFramed html Response.internal_server_error small = (_, _, _, refl, refl)
  responses-AreFramed html Response.ok small = (_, _, _, refl, refl)
  responses-AreFramed html Response.bad_request small = (_, _, _, refl, refl)
  responses-AreFramed html Response.request_timeout small = (_, _, _, refl, refl)
  responses-AreFramed html Response.method_not_allowed small = (_, _, _, refl, refl)
  responses-AreFramed html Response.service_unavailable small = (_, _, _, refl, refl)
  responses-AreFramed html Response.index_html small =
      (_, _, html, split_request-page html, size-page (length html) small)
