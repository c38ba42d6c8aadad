-- ===== src/Http.antt =====
-- src/http.rs: the responses of the server. `html` is the text of assets/index.html.
use derusting.Prelude.{[], ◌∷◌, ◌++◌, length, Bytes, codes}
use derusting.Std.Decimal.{show_u32}

pub data Method : Type 0 where
  get put : Method

-- The constants of the file, by name.
pub data Response : Type 0 where
  internal_server_error ok bad_request request_timeout method_not_allowed : Response
  service_unavailable index_html : Response

abbrev pub crlf : Bytes
crlf = 13 ∷ 10 ∷ []

-- The lines of a response's head, but for the empty one that ends it.
abbrev pub head_of : Bytes → Bytes → Bytes → Bytes
head_of status first second = status ++ (crlf ++ (first ++ (crlf ++ (second ++ crlf))))

abbrev pub empty_head : Bytes → Bytes
empty_head status = head_of status (codes "Content-length:0") (codes "Connection: close")

module _ (html : Bytes) where
  -- Everything up to the empty line.
  abbrev pub head : Response → Bytes
  head Response.internal_server_error = empty_head (codes "HTTP/1.1 500 Internal Server Error")
  head Response.ok =
      head_of (codes "HTTP/1.1 200 OK") (codes "Content-length:4") (codes "Connection: close")
  head Response.bad_request = empty_head (codes "HTTP/1.1 400 Bad Request")
  head Response.request_timeout = empty_head (codes "HTTP/1.1 408 Request Timeout")
  head Response.method_not_allowed = empty_head (codes "HTTP/1.1 405 Method Not Allowed")
  head Response.service_unavailable = empty_head (codes "HTTP/1.1 503 Service Unavailable")
  head Response.index_html =
      codes "HTTP/1.1 200 OK"
      ++ (crlf
          ++ head_of (codes "Content-Type: text/html")
              (codes "Content-Length: " ++ show_u32 (length html)) (codes "Connection: close"))

  abbrev pub body : Response → Bytes
  body Response.ok = codes "pong"
  body Response.index_html = html
  body r = []

  -- The bytes of the constant.
  unfoldable pub as_bytes : Response → Bytes
  as_bytes r = head r ++ (crlf ++ body r)
