-- ===== src/HttpIo.antt =====
-- http_io/io.go: the handler of ranged requests.
-- The logger is left out: no branch reads it. A response is what the handler hands to the
-- `ResponseWriter`: the status, the headers and the bytes of the body.
pub mod Ranged
use tgcontrib.Base.{
  ℕ, Bool, true, false, not, List, [], ◌∷◌, ◌++◌, Option, none, some, if◌then◌else◌, Bytes,
}
use tgcontrib.Base.Decimal.{append_uint}
use tgcontrib.Base.Text.{codes}
use tgcontrib.HttpRange.{
  Range, Result, ok, err, RangeError, no_overlap, invalid, content_range as content_range_text,
  parse_range,
}

-- The headers that the handler and `http.Error` read or write.
pub data Name : Type 0 where
  content_range content_type accept_ranges content_encoding content_length no_sniff : Name

abbrev same : Name → Name → Bool
same content_range content_range = true
same content_type content_type = true
same accept_ranges accept_ranges = true
same content_encoding content_encoding = true
same content_length content_length = true
same no_sniff no_sniff = true
same _ _ = false

abbrev pub Headers : Type 0
Headers = Name → Option Bytes

-- `Header().Set`
abbrev pub put : Name → Bytes → Headers → Headers
put k v h n = if same k n then some v else h n

-- `Header().Get`, which is empty for a header that is not there, tested against ""
abbrev is_empty : Option Bytes → Bool
is_empty none = true
is_empty (some []) = true
is_empty (some (c ∷ s)) = false

abbrev pub without : Name → Headers → Headers
without k h n = if same k n then none else h n

pub record Response : Type 0 where
  pub status : ℕ
  pub headers : Headers
  pub body : Bytes

pub record Request : Type 0 where
  pub range : Bytes
  pub is_head : Bool

-- `streamer` gives the bytes that `StreamAt` writes from an offset on, and whether it failed.
pub record Handler : Type 0 where
  pub size : ℕ
  pub content_type : Bytes
  pub streamer : ℕ → Bytes × Bool

-- `NewHandler`, `WithContentType`
unfoldable pub new_handler : (ℕ → Bytes × Bool) → ℕ → Handler
new_handler s size = record { size = size; content_type = []; streamer = s }

unfoldable pub with_content_type : Bytes → Handler → Handler
with_content_type t h = record h { content_type = t }

-- `http.Error` of net/http
unfoldable pub http_error : Headers → Bytes → ℕ → Response
http_error h message code = record {
  status = code;
  headers =
      put no_sniff (codes "nosniff")
        (put content_type (codes "text/plain; charset=utf-8") (without content_length h));
  body = message ++ b'\n' ∷ [];
}

abbrev pub partial_content : ℕ
partial_content = 206

abbrev pub not_satisfiable : ℕ
not_satisfiable = 416

abbrev pub unknown_range : ℕ → Bytes
unknown_range size = codes "bytes */" ++ append_uint size

set_content_type : Bytes → Headers → Headers
set_content_type [] h = h
set_content_type (c ∷ t) h = put content_type (c ∷ t) h

set_length : ℕ → Headers → Headers
set_length n h = if is_empty (h content_encoding) then put content_length (append_uint n) h else h

-- From `if h.contentType != ""` to the end. An error of the streamer is logged, and what it wrote
-- stays written.
respond : Handler → Request → Headers → ℕ → ℕ → ℕ → Response
respond h r headers code offset send_size =
    let typed = set_content_type h.content_type headers in
    let sized = set_length send_size (put accept_ranges (codes "bytes") typed) in
    record {
      status = code;
      headers = sized;
      body = if r.is_head then [] else (h.streamer offset).0;
    }

-- `headers` are those that are set before the handler is called.
serve_ranges : Handler → Request → Headers → Result → Response
serve_ranges h r headers (err no_overlap) =
    http_error (put content_range (unknown_range h.size) headers)
      (codes "invalid range: failed to overlap") not_satisfiable
serve_ranges h r headers (err invalid) = http_error headers (codes "invalid range") 400
serve_ranges h r headers (ok []) = respond h r headers 200 0 h.size
serve_ranges h r headers (ok (x ∷ [])) =
    respond h r (put content_range (content_range_text x h.size) headers) partial_content x.start
      x.length
serve_ranges h r headers (ok (x ∷ y ∷ rs)) =
    http_error headers (codes "multiple ranges are not supported") not_satisfiable

unfoldable pub serve_http : Handler → Headers → Request → Response
unfolding serve_ranges respond set_content_type set_length http_error
serve_http h headers r = serve_ranges h r headers (parse_range r.range h.size)
