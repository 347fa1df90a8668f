-- ===== src/Dav/Multipart/Parts.antt =====
-- core-rs/crates/nc-dav/src/bulk_handler.rs: the parts of a well-formed body are read one by one.
use nc_server_rs.Prelude.{
  ℕ, zero, suc, ◌+◌, ◌<◌, ◌≡◌, refl, ◌∙◌, ap, Bool, true, false, Option, none, some, List, [], ◌∷◌,
  ◌++◌, arith, if◌then◌else◌, length, drop, take, map, All,
}
use nc_server_rs.Prelude.Text.{Text, codes, starts_with, text_eq, strip_prefix}
use nc_server_rs.Dav.Multipart.{
  Item, part, MultipartParser, boundary_start, boundary_crlf, new_parser, parse_headers, read_body,
  read_headers, after_boundary, next, items, crlf,
}
use nc_server_rs.Prelude.Search.{
  find_subsequence, found_at_once, drop-length, take-length, drop-both, found_before,
}

-- A part as a client sends it: the bytes of its headers, what they decode to, and its body.
pub record Piece : Type 0 where
  pub head : Text
  pub head_text : Text
  pub content : Text

-- What follows the first boundary.
unfoldable pub following : Text → List Piece → Text
following boundary [] = codes "--" ++ crlf
following boundary (p ∷ ps) =
    crlf
    ++ (p.head
        ++ ((crlf ++ crlf) ++ (p.content ++ (boundary_crlf boundary ++ following boundary ps))))

unfoldable pub serialize : Text → List Piece → Text
serialize boundary ps = boundary_start boundary ++ following boundary ps

module _ (from_utf8 : Text → Option Text) (lower : Text → Text) where
  -- The headers decode, and neither they nor the body hold what ends them.
  pub record IsSendable (boundary : Text) (p : Piece) : Type 0 where
    pub decodes : from_utf8 p.head ≡ some p.head_text
    pub head_ends :
        find_subsequence (crlf ++ crlf) (p.head ++ (crlf ++ crlf)) ≡ some (length p.head)
    pub content_ends :
        find_subsequence (boundary_crlf boundary) (p.content ++ boundary_crlf boundary)
        ≡ some (length p.content)

  abbrev pub received : Piece → Item
  received p =
      part (record { headers = parse_headers from_utf8 lower p.head_text; body = p.content })

  abbrev pub at : Text → Text → Bool → MultipartParser
  at boundary rest first = record {
    boundary = boundary;
    rest = rest;
    is_first = first;
    done = false;
  }

  body_read :
      (b text content tail old : Text)
      → find_subsequence (boundary_crlf b) (content ++ boundary_crlf b) ≡ some (length content)
      → read_body from_utf8 lower (at b old false) text (content ++ (boundary_crlf b ++ tail)) ≡ (
        some (part (record { headers = parse_headers from_utf8 lower text; body = content })),
        at b (boundary_crlf b ++ tail) false,
      )
  unfolding read_body
  body_read b text content tail old ends =
      let found = found_before (boundary_crlf b) content tail (length content) ends in
      let front = take-length content (boundary_crlf b ++ tail) in
      let back = drop-length content (boundary_crlf b ++ tail) in rw (found, front, back) refl

  read_headers-some :
      (p : MultipartParser) (rest text : Text) (h : ℕ)
      → find_subsequence (crlf ++ crlf) rest ≡ some h
      → from_utf8 (take h rest) ≡ some text
      → read_headers from_utf8 lower p rest ≡ read_body from_utf8 lower p text (drop (h + 4) rest)
  unfolding read_headers
  read_headers-some p rest text h found decoded = ground arith

  headers_read :
      (b : Text) (p : Piece) (tail old : Text)
      → IsSendable b p
      → read_headers from_utf8 lower
          (at b old false)
          (p.head ++ ((crlf ++ crlf) ++ (p.content ++ (boundary_crlf b ++ tail))))
        ≡ (some (received p), at b (boundary_crlf b ++ tail) false)
  headers_read b p tail old sendable =
      let more = p.content ++ (boundary_crlf b ++ tail) in
      let found = found_before (crlf ++ crlf) p.head more (length p.head) sendable.head_ends in
      let decoded = ap from_utf8 (take-length p.head ((crlf ++ crlf) ++ more)) ∙ sendable.decodes in
      let back : drop (length p.head + 4) (p.head ++ ((crlf ++ crlf) ++ more)) ≡ more =
        drop-both p.head (crlf ++ crlf) more in
      read_headers-some (at b old false) (p.head ++ ((crlf ++ crlf) ++ more)) p.head_text
        (length p.head) found decoded
      ∙ ap (read_body from_utf8 lower (at b old false) p.head_text) back
      ∙ body_read b p.head_text p.content tail old sendable.content_ends

  abbrev pub marker_of : Text → Bool → Text
  marker_of b first = if first then boundary_start b else boundary_crlf b

  next_found :
      (b rest : Text) (first : Bool)
      → next from_utf8 lower (at b (marker_of b first ++ rest) first)
        ≡ after_boundary from_utf8 lower (at b (marker_of b first ++ rest) false) rest
  unfolding next text_eq
  next_found b rest true =
      let found = found_at_once 45 (45 ∷ b) rest in
      let back = drop-length (boundary_start b) rest in ground (arith, found, back)
  next_found b rest false =
      let found = found_at_once 13 (10 ∷ 45 ∷ 45 ∷ b) rest in
      let back = drop-length (boundary_crlf b) rest in ground (arith, found, back)

  part_after :
      (b old rest : Text)
      → after_boundary from_utf8 lower (at b old false) (crlf ++ rest)
        ≡ read_headers from_utf8 lower (at b old false) rest
  unfolding after_boundary starts_with strip_prefix
  part_after b old rest = refl

  close_after :
      (b old rest : Text)
      → after_boundary from_utf8 lower (at b old false) (codes "--" ++ rest)
        ≡ (none, record { boundary = b; rest = codes "--" ++ rest; is_first = false; done = true })
  unfolding after_boundary starts_with strip_prefix
  close_after b old rest = refl

  next_part :
      (b : Text) (p : Piece) (tail : Text) (first : Bool)
      → IsSendable b p
      → next from_utf8 lower (
          at b
            (marker_of b first
              ++ (crlf ++ (p.head ++ ((crlf ++ crlf) ++ (p.content ++ (boundary_crlf b ++ tail))))))
            first)
        ≡ (some (received p), at b (boundary_crlf b ++ tail) false)
  next_part b p tail first sendable =
      let rest = p.head ++ ((crlf ++ crlf) ++ (p.content ++ (boundary_crlf b ++ tail))) in
      let old = marker_of b first ++ (crlf ++ rest) in
      next_found b (crlf ++ rest) first ∙ part_after b old rest ∙ headers_read b p tail old sendable

  items-none :
      (rounds : ℕ) (p after : MultipartParser)
      → next from_utf8 lower p ≡ (none, after)
      → items from_utf8 lower (suc rounds) p ≡ []
  unfolding items
  items-none rounds p after e = ground arith

  items-some :
      (rounds : ℕ) (p after : MultipartParser) (i : Item)
      → next from_utf8 lower p ≡ (some i, after)
      → items from_utf8 lower (suc rounds) p ≡ i ∷ items from_utf8 lower rounds after
  unfolding items
  items-some rounds p after i e = ground arith

  items-following :
      (b : Text) (ps : List Piece) (first : Bool) (rounds : ℕ)
      → length ps < rounds
      → All (IsSendable b) ps
      → items from_utf8 lower rounds (at b (marker_of b first ++ following b ps) first)
        ≡ map received ps
  unfolding following
  items-following b ps first zero h sendable = absurd (omega arith)
  items-following b [] first (suc rounds) h sendable =
      let old = marker_of b first ++ (codes "--" ++ crlf) in
      items-none rounds (at b old first)
        (record { boundary = b; rest = codes "--" ++ crlf; is_first = false; done = true })
        (next_found b (codes "--" ++ crlf) first ∙ close_after b old crlf)
  items-following b (p ∷ ps) first (suc rounds) h (sendable, more) =
      let old = marker_of b first ++ following b (p ∷ ps) in
      items-some rounds (at b old first) (at b (boundary_crlf b ++ following b ps) false)
        (received p) (next_part b p (following b ps) first sendable)
      ∙ ap (λ (l : List Item). received p ∷ l)
          (items-following b ps false rounds (omega arith) more)

  -- A body that a client writes from parts whose headers decode to a text, where no
  -- headers and no body of a part hold the mark that ends them, is read as these parts
  -- in their order, each with the headers parsed and the bytes of its body, and nothing after
  -- them, in one round more than there are parts.
  pub items-serialize :
      (b : Text) (ps : List Piece)
      → All (IsSendable b) ps
      → items from_utf8 lower (suc (length ps)) (new_parser (serialize b ps) b) ≡ map received ps
  unfolding serialize
  items-serialize b ps sendable = items-following b ps true (suc (length ps)) (omega arith) sendable
