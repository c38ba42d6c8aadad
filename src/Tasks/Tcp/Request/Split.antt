-- ===== src/Tasks/Tcp/Request/Split.antt =====
-- Taking a request apart: `split_request` and its inverse.
use derusting.Prelude.{
  ℕ, ◌≡◌, ◌∙◌, sym, ap, refl, Option, none, some, [], ◌∷◌, ◌++◌, length, take, drop, arith, Bytes,
  ap₂, Option-cases, inl, inr,
}
use derusting.Std.Slice.{position, position-split, position-append}
use derusting.Std.Utf8.{Str, from_utf8}
use derusting.Http.{crlf}
use derusting.Tasks.Tcp.Request.{blank_line, as_parts, split_headers, split_request}

take-length : (p s : Bytes) → take (length p) (p ++ s) ≡ p
take-length [] s = refl
take-length (c ∷ p) s = ap (◌∷◌ c) (take-length p s)

drop-length : (p s : Bytes) → drop (length p) (p ++ s) ≡ s
drop-length [] s = refl
drop-length (c ∷ p) s = drop-length p s

split_request_at :
    (buf : Bytes) (idx : ℕ)
    → position crlf buf ≡ some idx
    → split_request buf ≡ split_headers (take idx buf) (drop 2 (drop idx buf))
unfolding split_request
split_request_at buf idx e = rw (e, split_request)

split_headers_at :
    (start rest : Bytes) (idx : ℕ)
    → position blank_line rest ≡ some idx
    → split_headers start rest
      ≡ as_parts (from_utf8 start) (from_utf8 (take idx rest)) (drop 4 (drop idx rest))
unfolding split_headers
split_headers_at start rest idx e = rw (e, split_headers)

as_parts-some :
    (a b : Option Str) (c body : Bytes) (start_line headers : Str)
    → as_parts a b c ≡ some (start_line, headers, body)
    → (a ≡ some start_line) × (b ≡ some headers) × (c ≡ body)
as_parts-some none b c body start_line headers h = cc
as_parts-some (some x) none c body start_line headers h = cc
as_parts-some (some x) (some y) c body start_line headers h = ground arith

split_headers-some :
    (start rest body : Bytes) (start_line headers : Str)
    → split_headers start rest ≡ some (start_line, headers, body)
    → (second : Bytes) × (rest ≡ second ++ (blank_line ++ body))
      × (from_utf8 start ≡ some start_line)
      × (from_utf8 second ≡ some headers)
unfolding split_headers
split_headers-some start rest body start_line headers h =
    elim (Option-cases (position blank_line rest)) [
      | inl e ↦ absurd (ground arith)
      | inr (idx, e) ↦
          let (f, s, b) =
            as_parts-some (from_utf8 start) (from_utf8 (take idx rest)) (drop 4 (drop idx rest))
              body start_line headers (sym (split_headers_at start rest idx e) ∙ h) in
          (
            take idx rest,
            position-split blank_line rest idx e ∙ ap (λ t. take idx rest ++ (blank_line ++ t)) b,
            f,
            s,
          )
    ]

-- The bytes of a request are its parts with the two delimiters between them: a start line and headers
-- in UTF-8, which `split_request` decodes, and the body as it is.
split_request_sound :
    (buf body : Bytes) (start_line headers : Str)
    → split_request buf ≡ some (start_line, headers, body)
    → (first second : Bytes) × (buf ≡ first ++ (crlf ++ (second ++ (blank_line ++ body))))
      × (from_utf8 first ≡ some start_line)
      × (from_utf8 second ≡ some headers)
unfolding split_request
split_request_sound buf body start_line headers h = elim (Option-cases (position crlf buf)) [
  | inl e ↦ absurd (ground arith)
  | inr (idx, e) ↦
      let (second, r, f, s) =
        split_headers-some (take idx buf) (drop 2 (drop idx buf)) body start_line headers
          (sym (split_request_at buf idx e) ∙ h) in
      (
        take idx buf,
        second,
        position-split crlf buf idx e ∙ ap (λ t. take idx buf ++ (crlf ++ t)) r,
        f,
        s,
      )
]

-- A request whose start line holds no line break, and whose headers hold no empty line, comes apart
-- into just these parts.
pub split_request_complete :
    (first second body : Bytes) (start_line headers : Str)
    → position crlf (first ++ 13 ∷ []) ≡ none
    → position blank_line (second ++ (13 ∷ 10 ∷ 13 ∷ [])) ≡ none
    → from_utf8 first ≡ some start_line
    → from_utf8 second ≡ some headers
    → split_request (first ++ (crlf ++ (second ++ (blank_line ++ body))))
      ≡ some (start_line, headers, body)
split_request_complete first second body start_line headers no_break no_blank f s =
    let rest : Bytes = second ++ (blank_line ++ body) in
    let buf : Bytes = first ++ (crlf ++ rest) in
    split_request_at buf (length first) (position-append (13 ∷ []) 10 first rest no_break)
    ∙ ap₂ split_headers (take-length first (crlf ++ rest))
        (ap (drop 2) (drop-length first (crlf ++ rest)))
    ∙ split_headers_at first rest (length second)
        (position-append (13 ∷ 10 ∷ 13 ∷ []) 10 second body no_blank)
    ∙ ap₂ (as_parts (from_utf8 first)) (ap from_utf8 (take-length second (blank_line ++ body)))
        (ap (drop 4) (drop-length second (blank_line ++ body)))
    ∙ rw f (rw s)
