-- ===== src/Dav/Multipart.antt =====
-- core-rs/crates/nc-dav/src/bulk_handler.rs: the parser of multipart bodies. A body is the list of
-- its bytes, a position in it what follows there. `from_utf8` and `to_lowercase` are parameters.
pub mod Parts
mod Tests
use nc_server_rs.Prelude.{
  ℕ, zero, suc, ◌+◌, ◌==◌, Bool, true, false, ◌||◌, Option, none, some, List, [], ◌∷◌, ◌++◌,
  if◌then◌else◌, take, drop, length, map, ◌>>=◌,
}
use nc_server_rs.Prelude.Search.{find_subsequence}
use nc_server_rs.Prelude.Text.{
  chomp, Text, codes, strip_prefix, starts_with, split, split_once, trim, trim_by, text_eq,
  is_whitespace, trim_start_by,
}

abbrev pub crlf : Text
crlf = 13 ∷ 10 ∷ []

abbrev pub is_some {ℓ} : {A : Type ℓ} → Option A → Bool
is_some none = false
is_some (some a) = true

pub record Header : Type 0 where
  pub key : Text
  pub value : Text

pub record MultipartPart : Type 0 where
  pub headers : List Header
  pub body : Text

pub data Item : Type 0 where
  part : MultipartPart → Item
  missing_separator : Item
  invalid_encoding : Item

pub record MultipartParser : Type 0 where
  pub boundary : Text
  pub rest : Text
  pub is_first : Bool
  pub done : Bool

abbrev pub boundary_start : Text → Text
boundary_start boundary = codes "--" ++ boundary

abbrev pub boundary_crlf : Text → Text
boundary_crlf boundary = crlf ++ (codes "--" ++ boundary)

abbrev pub boundary_close : Text → Text
boundary_close boundary = crlf ++ (codes "--" ++ (boundary ++ codes "--"))

abbrev pub new_parser : Text → Text → MultipartParser
new_parser body boundary = record {
  boundary = boundary;
  rest = body;
  is_first = true;
  done = false;
}

unfoldable pub insert_header : Header → List Header → List Header
insert_header new [] = new ∷ []
insert_header new (h ∷ hs) =
    let rest = insert_header new hs in if text_eq h.key new.key then new ∷ hs else h ∷ rest

-- `unwrap_or`, through `or_else`.
abbrev pub first_of : Option ℕ → Option ℕ → ℕ → ℕ
first_of (some i) other otherwise = i
first_of none (some i) otherwise = i
first_of none none otherwise = otherwise

module _ (from_utf8 : Text → Option Text) (lower : Text → Text) where
  unfoldable pub insert_lines : List Header → List Text → List Header
  insert_lines headers [] = headers
  insert_lines headers (line ∷ lines) = elim (split_once b':' (chomp line)) [
    | none ↦ insert_lines headers lines
    | some (key, value) ↦
        insert_lines (insert_header (record { key = lower (trim key); value = trim value }) headers)
          lines
  ]

  -- A last line that is empty has no colon.
  unfoldable pub parse_headers : Text → List Header
  parse_headers header_text = insert_lines [] (split 10 header_text)

  -- From the body of a part on.
  unfoldable pub read_body : MultipartParser → Text → Text → Option Item × MultipartParser
  read_body p header_text rest =
      let end_pos =
        first_of (find_subsequence (boundary_crlf p.boundary) rest)
          (find_subsequence (boundary_close p.boundary) rest) (length rest) in
      (
        some (part (record { headers = parse_headers header_text; body = take end_pos rest })),
        record p { rest = drop end_pos rest },
      )

  -- From the headers of a part on.
  unfoldable pub read_headers : MultipartParser → Text → Option Item × MultipartParser
  read_headers p rest = elim (find_subsequence (crlf ++ crlf) rest) [
    | none ↦ (some missing_separator, record p { rest = rest; done = true })
    | some h ↦ elim (from_utf8 (take h rest)) [
      | none ↦ (some invalid_encoding, record p { rest = rest; done = true })
      | some header_text ↦ read_body p header_text (drop (h + 4) rest)
    ]
  ]

  -- From behind a boundary on.
  unfoldable pub after_boundary : MultipartParser → Text → Option Item × MultipartParser
  after_boundary p rest =
      if starts_with (codes "--") rest
      then (none, record p { rest = rest; done = true })
      else read_headers p (if starts_with crlf rest then drop 2 rest else rest)

  unfoldable pub next : MultipartParser → Option Item × MultipartParser
  next p =
      let marker = if p.is_first then boundary_start p.boundary else boundary_crlf p.boundary in
      if p.done || text_eq p.rest [] then (none, p) else elim (find_subsequence marker p.rest) [
        | none ↦ (none, record p { is_first = false; done = true })
        | some start ↦
            after_boundary (record p { is_first = false }) (drop (start + length marker) p.rest)
      ]

  -- What a loop over the parser sees, for at most so many rounds.
  unfoldable pub items : ℕ → MultipartParser → List Item
  items zero p = []
  items (suc rounds) p =
      let (item, after) = next p in
      let later = items rounds after in elim item [ none ↦ [] | some i ↦ i ∷ later ]
