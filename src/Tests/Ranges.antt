-- ===== src/Tests/Ranges.antt =====
-- http_range/range.go and http_io/io.go at concrete headers.
use tgcontrib.Base.{ℕ, ◌≡◌, ◌<◌, refl, [], ◌∷◌, none, some, arith, length, Bytes}
use tgcontrib.Base.Decimal.{append_uint, append_int}
use tgcontrib.Base.Text.{codes}
use tgcontrib.HttpRange.{make_range, parse_range, content_range as content_range_text}
use tgcontrib.HttpRange.Bounds.{IsWithin, All, parse_range-IsWithin}
use tgcontrib.HttpRange.Header.{header, select, answer, parse_range-header}
use tgcontrib.HttpRange.Specs.{from_to, from, suffix}
use tgcontrib.HttpIo.{
  Handler, Headers, content_range, content_length, partial_content, not_satisfiable, unknown_range,
  serve_http,
}
use tgcontrib.HttpIo.Ranged.{
  get, IsPartial, file_handler, serve_http-IsPartial, serve_http_unsatisfied, serve_http_overlong,
  serve_http_zero_suffix,
}

parse_range-header_example :
    parse_range (header (from_to 2 5 ∷ suffix 3 ∷ [])) 10
    ≡ answer (select 10 (from_to 2 5 ∷ suffix 3 ∷ []))
parse_range-header_example =
    parse_range-header 10 (from_to 2 5) (suffix 3 ∷ [])
      ((omega arith, omega arith), ((omega arith, omega arith, omega arith), tt))

two_ranges :
    select 10 (from_to 2 5 ∷ from 12 ∷ suffix 3 ∷ []) ≡ make_range 2 4 ∷ make_range 7 3 ∷ []
two_ranges = refl

parse_range-IsWithin_example : All (IsWithin 10) (make_range 2 4 ∷ make_range 7 3 ∷ [])
parse_range-IsWithin_example =
    parse_range-IsWithin (header (from_to 2 5 ∷ suffix 3 ∷ [])) 10
      (make_range 2 4 ∷ make_range 7 3 ∷ []) parse_range-header_example

abbrev file : Bytes
file = codes "abcdefgh"

abbrev handler : Handler
handler = file_handler file (codes "text/plain")

abbrev no_headers : Headers
no_headers = λ n. none

serve_http-IsPartial_example :
    IsPartial handler (make_range 2 2) (serve_http handler no_headers (get (from_to 2 3)))
serve_http-IsPartial_example =
    serve_http-IsPartial handler no_headers (from_to 2 3) (make_range 2 2) refl
      (omega arith, omega arith) refl

serve_http_unsatisfied_run :
    ((serve_http handler no_headers (get (from 8))).status ≡ not_satisfiable)
    × ((serve_http handler no_headers (get (from 8))).headers content_range
        ≡ some (unknown_range 8))
serve_http_unsatisfied_run = serve_http_unsatisfied handler no_headers (from 8) (omega arith) refl

serve_http_overlong_run :
    (n : ℕ) × ((serve_http handler no_headers (get (from_to 2 3))).headers content_length
      ≡ some (append_uint n))
    × (n < length (serve_http handler no_headers (get (from_to 2 3))).body)
serve_http_overlong_run =
    serve_http_overlong file (codes "text/plain") no_headers 2 3 refl (omega arith, omega arith)
      (omega arith)

serve_http_zero_suffix_example :
    ((serve_http handler no_headers (get (suffix 0))).status ≡ partial_content)
    × ((serve_http handler no_headers (get (suffix 0))).headers content_range
        ≡ some (codes "bytes 8-7/8"))
    × ((serve_http handler no_headers (get (suffix 0))).headers content_length
        ≡ some (append_uint 0))
unfolding content_range_text append_uint append_int
serve_http_zero_suffix_example = serve_http_zero_suffix handler no_headers refl
