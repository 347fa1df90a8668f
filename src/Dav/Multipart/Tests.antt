-- ===== src/Dav/Multipart/Tests.antt =====
-- Runs of the parser of core-rs/crates/nc-dav/src/bulk_handler.rs, and its law at a body of two parts.
use nc_server_rs.Prelude.{All, leb, ◌+◌, ◌≡◌, refl, ◌&&◌, some, [], ◌∷◌, ◌++◌, map, if◌then◌else◌}
use nc_server_rs.Prelude.Search.{find_subsequence}
use nc_server_rs.Prelude.Text.{
  Text, codes, text_eq, strip_prefix, starts_with, split, split_parts, split_once, trim, trim_by,
  trim_start_by, trim_end_by,
}
use nc_server_rs.Dav.Multipart.{
  missing_separator, new_parser, insert_header, insert_lines, parse_headers, read_headers,
  after_boundary, next, items, crlf,
}
use nc_server_rs.Dav.Multipart.Parts.{Piece, serialize, IsSendable, received, items-serialize}

abbrev ascii_lower : Text → Text
ascii_lower s = map (λ c. if leb 65 c && leb c 90 then c + 32 else c) s

abbrev first_piece : Piece
first_piece = record {
  head = codes "Path: a" ++ crlf ++ codes "X-Size:2";
  head_text = codes "Path: a" ++ crlf ++ codes "X-Size:2";
  content = codes "h" ++ crlf;
}

abbrev second_piece : Piece
second_piece = record { head = codes "path: b"; head_text = codes "path: b"; content = [] }

header_lines : parse_headers some ascii_lower first_piece.head_text ≡ (
    record { key = codes "path"; value = codes "a" }
    ∷ record { key = codes "x-size"; value = codes "2" }
    ∷ [])
unfolding parse_headers insert_lines insert_header split split_parts split_once trim trim_by
    trim_start_by trim_end_by text_eq
header_lines = refl

no_separator :
    items some ascii_lower 2 (new_parser (codes "--b" ++ crlf ++ codes "Path: a") (codes "b"))
    ≡ missing_separator ∷ []
unfolding items next after_boundary read_headers find_subsequence starts_with strip_prefix text_eq
no_separator = refl

second-IsSendable : All (IsSendable some ascii_lower (codes "b")) (second_piece ∷ [])
unfolding find_subsequence starts_with strip_prefix
second-IsSendable = (record { decodes = refl; head_ends = refl; content_ends = refl }, tt)

items-serialize_example :
    items some ascii_lower 3
      (new_parser (serialize (codes "b") (first_piece ∷ second_piece ∷ [])) (codes "b"))
    ≡ received some ascii_lower first_piece ∷ received some ascii_lower second_piece ∷ []
unfolding find_subsequence starts_with strip_prefix
items-serialize_example =
    items-serialize some ascii_lower (codes "b") (first_piece ∷ second_piece ∷ [])
      (record { decodes = refl; head_ends = refl; content_ends = refl }, second-IsSendable)
