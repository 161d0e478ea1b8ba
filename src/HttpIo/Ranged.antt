-- ===== src/HttpIo/Ranged.antt =====
-- http_io/io.go: from a `Range` header to the response.
use tgcontrib.Base.{
  ℕ, ◌+◌, ◌-◌, ◌<◌, ◌≤◌, ◌≡◌, ◌∙◌, refl, ap, false, true, [], ◌∷◌, none, some, arith, length, drop,
  length-drop, Bytes,
}
use tgcontrib.Base.Decimal.{append_uint}
use tgcontrib.HttpRange.{Range, make_range, content_range as content_range_text}
use tgcontrib.HttpRange.Specs.{ByteSpec, from_to, suffix, IsSpec, resolve, resolve_within}
use tgcontrib.HttpRange.Header.{header, select, answer, parse_range-header, parse_range_zero_suffix}
use tgcontrib.HttpIo.{
  Name, same, content_type, Headers, Handler, Request, Response, serve_http, serve_ranges, respond,
  set_content_type, set_length, put, content_range, content_length, content_encoding,
  partial_content, not_satisfiable, http_error, unknown_range,
}

-- The request for one spec.
abbrev pub get : ByteSpec → Request
get p = record { range = header (p ∷ []); is_head = false }

serve_http-spec :
    (h : Handler) (headers : Headers) (p : ByteSpec)
    → IsSpec h.size p
    → serve_http h headers (get p)
      ≡ serve_ranges h (get p) headers (answer (select h.size (p ∷ [])))
unfolding serve_http
serve_http-spec h headers p s =
    ap (serve_ranges h (get p) headers) (parse_range-header h.size p [] (s, tt))

-- What the response to one selected range holds.
pub record IsPartial (h : Handler) (r : Range) (a : Response) : Type 0 where
  pub nonempty : 0 < r.length
  pub within : r.start + r.length ≤ h.size
  pub status : a.status ≡ partial_content
  pub range : a.headers content_range ≡ some (content_range_text r h.size)
  pub declared : a.headers content_length ≡ some (append_uint r.length)
  pub body : a.body ≡ (h.streamer r.start).0

set_content_type-other :
    (t : Bytes) (h : Headers) (k : Name)
    → same content_type k ≡ false
    → set_content_type t h k ≡ h k
unfolding set_content_type
set_content_type-other [] h k e = refl
set_content_type-other (c ∷ t) h k e = rw e

respond-IsPartial :
    (h : Handler) (headers : Headers) (p : ByteSpec) (r : Range)
    → headers content_encoding ≡ none
    → (0 < r.length) × (r.start + r.length ≤ h.size)
    → IsPartial h r (
        respond h
          (get p)
          (put content_range (content_range_text r h.size) headers)
          partial_content
          r.start
          r.length)
unfolding respond set_content_type set_length
respond-IsPartial h headers p r plain inside =
    let ranged = put content_range (content_range_text r h.size) headers in
    let typed = set_content_type h.content_type ranged in
    let e : typed content_encoding ≡ none =
      set_content_type-other h.content_type ranged content_encoding refl ∙ plain in
    record {
      nonempty = inside.0;
      within = inside.1;
      status = refl;
      range = rw e (set_content_type-other h.content_type ranged content_range refl);
      declared = rw e refl;
      body = refl;
    }

-- Where no Content-Encoding is set, a header of one spec, whose numbers are int64, whose
-- positions are in order and which, if it is a suffix, is not zero and of content that is not
-- empty, and that selects a range of the content, is answered by 206, with the place of the
-- range and the size in Content-Range and its length in Content-Length, and the body is what
-- the streamer writes from its start. The range is not empty and lies within the content.
pub serve_http-IsPartial :
    (h : Handler) (headers : Headers) (p : ByteSpec) (r : Range)
    → headers content_encoding ≡ none
    → IsSpec h.size p
    → resolve h.size p ≡ some r
    → IsPartial h r (serve_http h headers (get p))
unfolding serve_ranges
serve_http-IsPartial h headers p r plain s e =
    rw (serve_http-spec h headers p s, e)
      (respond-IsPartial h headers p r plain (resolve_within h.size p r s e))

-- Where no Content-Encoding is set, the header bytes=-0 is answered by 206, with the Content-
-- Range of an empty range behind the last byte and the Content-Length 0, for content of any
-- size.
pub serve_http_zero_suffix :
    (h : Handler) (headers : Headers)
    → headers content_encoding ≡ none
    → ((serve_http h headers (get (suffix 0))).status ≡ partial_content)
      × ((serve_http h headers (get (suffix 0))).headers content_range
          ≡ some (content_range_text (make_range h.size 0) h.size))
      × ((serve_http h headers (get (suffix 0))).headers content_length ≡ some (append_uint 0))
unfolding serve_http serve_ranges respond set_content_type set_length
serve_http_zero_suffix h headers plain =
    let ranged = put content_range (content_range_text (make_range h.size 0) h.size) headers in
    let typed = set_content_type h.content_type ranged in
    let e : typed content_encoding ≡ none =
      set_content_type-other h.content_type ranged content_encoding refl ∙ plain in
    rw (parse_range_zero_suffix h.size, serve_ranges)
      (refl, rw e (set_content_type-other h.content_type ranged content_range refl), rw e refl)

-- A header of one well-formed spec that selects no range of the content is answered by 416,
-- with the size in Content-Range.
pub serve_http_unsatisfied :
    (h : Handler) (headers : Headers) (p : ByteSpec)
    → IsSpec h.size p
    → resolve h.size p ≡ none
    → ((serve_http h headers (get p)).status ≡ not_satisfiable)
      × ((serve_http h headers (get p)).headers content_range ≡ some (unknown_range h.size))
unfolding serve_ranges http_error
serve_http_unsatisfied h headers p s e = rw (serve_http-spec h headers p s, e) (refl, refl)

-- A handler whose streamer writes the file from the offset to its end.
abbrev pub file_handler : Bytes → Bytes → Handler
file_handler file t = record {
  size = length file;
  content_type = t;
  streamer = λ o. (drop o file, true);
}

-- With a streamer that writes the file from an offset to its end, and where no Content-Encoding
-- is set, a range that ends before the last byte gets more bytes in the body than Content-
-- Length declares: the stream is not cut at the end of the range.
pub serve_http_overlong :
    (file t : Bytes) (headers : Headers) (a b : ℕ)
    → headers content_encoding ≡ none
    → IsSpec (length file) (from_to a b)
    → b + 1 < length file
    → (n : ℕ) × ((serve_http (file_handler file t) headers (get (from_to a b))).headers
          content_length
        ≡ some (append_uint n))
      × (n < length (serve_http (file_handler file t) headers (get (from_to a b))).body)
serve_http_overlong file t headers a b plain s short =
    let h = file_handler file t in
    let r = make_range a (b + 1 - a) in
    let e : resolve (length file) (from_to a b) ≡ some r = ground arith in
    let q = serve_http-IsPartial h headers (from_to a b) r plain s e in
    (b + 1 - a, q.declared, rw q.body (omega (arith, length-drop a file)))
