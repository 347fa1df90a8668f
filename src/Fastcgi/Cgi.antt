-- ===== src/Fastcgi/Cgi.antt =====
-- core-rs/crates/nc-fastcgi/src/lib.rs: what PHP answers, read record by record. The stream of a
-- connection is the list of what it yields; lossy UTF-8 and JSON are parameters.
pub mod Chunks
mod Tests
use nc_server_rs.Prelude.{
  ℕ, zero, suc, ◌+◌, ◌*◌, ◌==◌, Bool, true, false, ◌&&◌, ◌||◌, not, Option, none, some, List, [],
  ◌∷◌, ◌++◌, leb, ltb, if◌then◌else◌, map, take, drop, length, ◌>>=◌,
}
use nc_server_rs.Prelude.Parse.{parse_unsigned}
use nc_server_rs.Prelude.Search.{find_subsequence}
use nc_server_rs.Prelude.Text.{
  Text, codes, text_eq, split_once, text_lines, trim, trim_start_by, is_whitespace, to_ascii_lower,
}
use nc_server_rs.Auth.Session.{SessionResolveResult}

abbrev pub separator : Text
separator = 13 ∷ 10 ∷ 13 ∷ 10 ∷ []

abbrev pub max_header_block : ℕ
max_header_block = 64 * 1024

pub data Event : Type 0 where
  stdout : Text → Event
  stderr : Text → Event
  failed : Event

abbrev is_ascii_space : ℕ → Bool
is_ascii_space c = c == 32 || c == 9 || c == 10 || c == 12 || c == 13

unfoldable pub until_space : Text → Text
until_space [] = []
until_space (c ∷ s) = let rest = until_space s in if is_ascii_space c then [] else c ∷ rest

-- `split_ascii_whitespace().next()`.
unfoldable pub first_word : Text → Option Text
first_word s = elim (until_space (trim_start_by is_ascii_space s)) [
  | [] ↦ none
  | c ∷ w ↦ some (c ∷ w)
]

abbrev pub is_named : Text → Text → Bool
is_named name expected = text_eq (map to_ascii_lower name) (map to_ascii_lower expected)

abbrev pub valid_status : ℕ → ℕ
valid_status code = if leb 100 code && leb code 999 then code else 500

-- The status behind a `Status` line; one without a number changes nothing.
unfoldable pub read_status : ℕ → Text → ℕ
read_status status value = elim (first_word value >>= parse_unsigned 65_535) [
  | none ↦ status
  | some code ↦ valid_status code
]

unfoldable pub header_lines : ℕ → List Text → ℕ × List (Text × Text)
header_lines status [] = (status, [])
header_lines status (line ∷ lines) = elim (split_once b':' line) [
  | none ↦ header_lines status lines
  | some (name, rest) ↦
      let value = trim_start_by is_whitespace rest in
      elim (is_named (trim name) (codes "Status")) [
        | true ↦ header_lines (read_status status value) lines
        | false ↦
            let (last, headers) = header_lines status lines in (last, (trim name, value) ∷ headers)
      ]
]

pub data HeaderError : Type 0 where
  too_large : HeaderError
  stream_error : HeaderError
  missing_separator : HeaderError

-- The bytes behind the headers that came with them, and what is still to come.
pub record CgiBodyStream : Type 0 where
  pub prefix : Text
  pub inner : List Event

pub data HeaderPhase : Type 0 where
  ready : ℕ → List (Text × Text) → CgiBodyStream → HeaderPhase
  broken : HeaderError → HeaderPhase

module _ (lossy : Text → Text) where
  unfoldable pub parse_cgi_header_block : Text → ℕ × List (Text × Text)
  parse_cgi_header_block header_bytes = header_lines 200 (text_lines (lossy header_bytes))

  abbrev pub split_at : Text → ℕ → List Event → HeaderPhase
  split_at accum at stream =
      let (status, headers) = parse_cgi_header_block (take at accum) in
      ready status headers (record { prefix = drop (at + 4) accum; inner = stream })

  -- With what is accumulated so far.
  unfoldable pub parse_streaming_headers : Text → List Event → HeaderPhase
  parse_streaming_headers accum [] = broken missing_separator
  parse_streaming_headers accum (failed ∷ stream) = broken stream_error
  parse_streaming_headers accum (stderr b ∷ stream) = parse_streaming_headers accum stream
  parse_streaming_headers accum (stdout chunk ∷ stream) =
      let more = accum ++ chunk in
      if ltb max_header_block (length more)
      then broken too_large
      else elim (find_subsequence separator more) [
        | some at ↦ split_at more at stream
        | none ↦ parse_streaming_headers more stream
      ]

pub data Chunk : Type 0 where
  bytes : Text → Chunk
  pipe_error : Chunk

-- Records of the error log and empty ones are passed over.
unfoldable pub pull : List Event → Option Chunk × List Event
pull [] = (none, [])
pull (failed ∷ stream) = (some pipe_error, stream)
pull (stderr b ∷ stream) = pull stream
pull (stdout [] ∷ stream) = pull stream
pull (stdout (c ∷ b) ∷ stream) = (some (bytes (c ∷ b)), stream)

abbrev prefix_first : Text → List Event → Option Chunk × CgiBodyStream
prefix_first [] stream =
    let (chunk, rest) = pull stream in (chunk, record { prefix = []; inner = rest })
prefix_first (c ∷ b) stream = (some (bytes (c ∷ b)), record { prefix = []; inner = stream })

unfoldable pub poll_next : CgiBodyStream → Option Chunk × CgiBodyStream
poll_next s = prefix_first s.prefix s.inner

-- What a reader has from a body in so many rounds: up to an error or the end.
unfoldable pub read_body : ℕ → CgiBodyStream → Text × Bool
read_body zero s = ([], false)
read_body (suc rounds) s =
    let (chunk, rest) = poll_next s in
    elim chunk [
      | none ↦ ([], true)
      | some pipe_error ↦ ([], false)
      | some (bytes b) ↦ let (more, whole) = read_body rounds rest in (b ++ more, whole)
    ]

pub data Io : Type 0 where
  done : Io
  refused : Io
  timed_out : Io

pub data RequestBody : Type 0 where
  buffered : RequestBody
  over_limit : RequestBody
  unreadable : RequestBody

-- How the steps towards PHP end, and whether the headers come in time.
pub record Upstream : Type 0 where
  pub body : RequestBody
  pub connect : Io
  pub execute : Io
  pub events : List Event
  pub in_time : Bool

pub data ProxyReply : Type 0 where
  relayed : ℕ → List (Text × Text) → CgiBodyStream → ProxyReply
  error_response : ℕ → ProxyReply

abbrev pub io_then : Io → ProxyReply → ProxyReply
io_then done next = next
io_then refused next = error_response 502
io_then timed_out next = error_response 504

-- `builds` is whether a response can have these headers.
module _ (lossy : Text → Text) (builds : ℕ → List (Text × Text) → Bool) where
  abbrev pub relay : HeaderPhase → ProxyReply
  relay (broken e) = error_response 502
  relay (ready status headers body) =
      if builds status headers then relayed status headers body else error_response 502

  abbrev pub with_body : RequestBody → ProxyReply → ProxyReply
  with_body buffered next = next
  with_body over_limit next = error_response 413
  with_body unreadable next = error_response 502

  unfoldable pub proxy_handler : Upstream → ProxyReply
  proxy_handler up = with_body up.body (
      io_then up.connect (
        io_then up.execute (
          if up.in_time
          then relay (parse_streaming_headers lossy [] up.events)
          else error_response 504)))

-- `json` reads the texts of `uid` and `dav_authenticated_uid`, where the body is JSON.
module _ (lossy : Text → Text) (json : Text → Option (Option Text × Option Text)) where
  -- The cookies of the header lines; `none` behind a status that is not 200.
  unfoldable pub resolve_lines : List Text → Option (List Text)
  resolve_lines [] = some []
  resolve_lines (line ∷ lines) =
      let rest = resolve_lines lines in
      elim (split_once b':' line) [
        | none ↦ rest
        | some (name, after) ↦
            let value = trim_start_by is_whitespace after in
            let code : ℕ = elim (first_word value >>= parse_unsigned 65_535) [
              | some n ↦ n
              | none ↦ 0
            ] in
            if is_named (trim name) (codes "Set-Cookie")
            then (rest >>= λ cookies. some (value ∷ cookies))
            else if is_named (trim name) (codes "Status") && not (code == 200)
            then none
            else rest
      ]

  unfoldable pub parse_resolve_response : Text → Option SessionResolveResult
  parse_resolve_response raw = find_subsequence separator raw >>= λ at.
      resolve_lines (text_lines (lossy (take at raw))) >>= λ set_cookies.
      json (drop (at + 4) raw) >>= λ (uid, dav_uid). uid >>= λ name. some (record {
        identity = record { uid = name; dav_authenticated_uid = dav_uid };
        set_cookies = set_cookies;
      })

  unfoldable pub collect_output : List Event → Option Text
  collect_output [] = some []
  collect_output (failed ∷ stream) = none
  collect_output (stderr b ∷ stream) = collect_output stream
  collect_output (stdout b ∷ stream) = collect_output stream >>= λ rest. some (b ++ rest)

  unfoldable pub resolve_session : Io → Io → List Event → Option SessionResolveResult
  resolve_session done done events = collect_output events >>= parse_resolve_response
  resolve_session done refused events = none
  resolve_session done timed_out events = none
  resolve_session refused executed events = none
  resolve_session timed_out executed events = none
