-- ===== src/Fastcgi/Cgi/Tests.antt =====
-- Runs of the reading of responses in core-rs/crates/nc-fastcgi/src/lib.rs, and its law at a response
-- in three records.
use nc_server_rs.Prelude.{Option, ◌≡◌, refl, true, none, some, List, [], ◌∷◌, ◌++◌, arith}
use nc_server_rs.Prelude.Parse.{parse_unsigned, parse_digits}
use nc_server_rs.Prelude.Search.{find_subsequence}
use nc_server_rs.Prelude.Text.{
  Text, codes, text_eq, starts_with, strip_prefix, split, split_parts, split_once, text_lines, trim,
  trim_by, trim_start_by, trim_end_by,
}
use nc_server_rs.Fastcgi.Cgi.{
  Event, stdout, stderr, failed, separator, first_word, until_space, read_status, header_lines,
  parse_cgi_header_block, parse_streaming_headers, relayed, error_response, proxy_handler, Upstream,
  done, refused, timed_out, buffered, over_limit, resolve_lines, parse_resolve_response,
}
use nc_server_rs.Fastcgi.Cgi.Chunks.{output, Agrees, parse_streaming_headers-Agrees}

abbrev same : Text → Text
same s = s

abbrev line_break : Text
line_break = 13 ∷ 10 ∷ []

headers_read :
    parse_cgi_header_block same (
      codes "Status: 404 Not Found"
      ++ (line_break ++ (codes "X-A:  b" ++ (line_break ++ codes "junk"))))
    ≡ (404, (codes "X-A", codes "b") ∷ [])
unfolding parse_cgi_header_block header_lines read_status first_word until_space text_lines split
    split_parts split_once parse_unsigned parse_digits trim trim_by trim_start_by trim_end_by
    text_eq
headers_read = refl

statuses :
    (read_status 200 (codes "42 x") ≡ 500)
    × (read_status 200 (codes "x") ≡ 200)
    × (read_status 200 (codes " 302 Found") ≡ 302)
unfolding read_status first_word until_space parse_unsigned parse_digits trim_start_by
statuses = (refl, refl, refl)

-- The separator is cut in two.
abbrev events : List Event
events =
    stdout (codes "X-A: b" ++ (13 ∷ 10 ∷ 13 ∷ []))
    ∷ stderr (codes "warning")
    ∷ stdout (10 ∷ codes "bo")
    ∷ stdout (codes "dy")
    ∷ []

abbrev up : Upstream
up = record { body = buffered; connect = done; execute = done; events = events; in_time = true }

relays :
    proxy_handler same (λ status headers. true) up
    ≡ relayed 200
        ((codes "X-A", codes "b") ∷ [])
        (record { prefix = codes "bo"; inner = stdout (codes "dy") ∷ [] })
unfolding proxy_handler parse_streaming_headers parse_cgi_header_block header_lines read_status
    text_lines split split_parts split_once find_subsequence starts_with strip_prefix trim trim_by
    trim_start_by trim_end_by text_eq
relays = refl

errors :
    (proxy_handler same (λ status headers. true) (record up { body = over_limit })
      ≡ error_response 413)
    × (proxy_handler same (λ status headers. true) (record up { connect = refused })
        ≡ error_response 502)
    × (proxy_handler same (λ status headers. true) (record up { execute = timed_out })
        ≡ error_response 504)
    × (proxy_handler same
          (λ status headers. true)
          (record up { events = stdout (codes "a") ∷ failed ∷ [] })
        ≡ error_response 502)
unfolding proxy_handler parse_streaming_headers find_subsequence starts_with strip_prefix
errors = (refl, refl, refl, refl)

abbrev json_al : Text → Option (Option Text × Option Text)
json_al body = some (some body, none)

resolved :
    parse_resolve_response same json_al
      (codes "Set-Cookie: nc_token=n" ++ (separator ++ codes "al"))
    ≡ some (record {
      identity = record { uid = codes "al"; dav_authenticated_uid = none };
      set_cookies = codes "nc_token=n" ∷ [];
    })
unfolding parse_resolve_response resolve_lines first_word until_space text_lines split split_parts
    split_once find_subsequence starts_with strip_prefix parse_unsigned parse_digits trim trim_by
    trim_start_by trim_end_by text_eq
resolved = refl

forbidden :
    parse_resolve_response same json_al (codes "Status: 403 Forbidden" ++ (separator ++ codes "al"))
    ≡ none
unfolding parse_resolve_response resolve_lines first_word until_space text_lines split split_parts
    split_once find_subsequence starts_with strip_prefix parse_unsigned parse_digits trim trim_by
    trim_start_by trim_end_by text_eq
forbidden = refl

parse_streaming_headers-Agrees_example :
    Agrees same (parse_streaming_headers same [] events) (output events)
parse_streaming_headers-Agrees_example = parse_streaming_headers-Agrees same events tt (omega arith)
