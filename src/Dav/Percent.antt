-- ===== src/Dav/Percent.antt =====
-- Percent coding in core-rs/crates/nc-dav/src/path_utils.rs and handler.rs. A text is the list of
-- its bytes, as both routines walk it.
pub mod Laws
use Prim.Native.Nat.{bit_or}
use nc_server_rs.Prelude.{
  ℕ, ◌+◌, ◌-◌, ◌*◌, ◌/◌, ◌%◌, Bool, ◌&&◌, ◌||◌, Option, none, some, List, [], ◌∷◌, ◌++◌, ◌==◌, leb,
  ltb, if◌then◌else◌,
}
use nc_server_rs.Prelude.Text.{Text}

-- `char::from_digit(d, 16)` in upper case, for d < 16.
abbrev pub upper_digit : ℕ → ℕ
upper_digit d = if ltb d 10 then b'0' + d else b'A' + (d - 10)

abbrev pub is_alphanumeric : ℕ → Bool
is_alphanumeric c = leb b'A' c && leb c b'Z' || leb b'a' c && leb c b'z' || leb b'0' c && leb c b'9'

-- The bytes that `percent_encode_path` copies.
unfoldable pub is_path_byte : ℕ → Bool
is_path_byte c =
    is_alphanumeric c
    || c == b'-'
    || c == b'.'
    || c == b'_'
    || c == b'~'
    || c == b'/'
    || c == b':'
    || c == b'@'
    || c == b'!'
    || c == b'$'
    || c == b'&'
    || c == 39
    || c == b'('
    || c == b')'
    || c == b'*'
    || c == b'+'
    || c == b','
    || c == b';'
    || c == b'='

-- The bytes that `percent_encode_filename` copies.
unfoldable pub is_unreserved : ℕ → Bool
is_unreserved c = is_alphanumeric c || c == b'-' || c == b'_' || c == b'.' || c == b'~'

-- What one round of the loop appends.
unfoldable pub encode_byte : (ℕ → Bool) → ℕ → Text
encode_byte keep byte =
    if keep byte then byte ∷ [] else b'%' ∷ upper_digit (byte / 16) ∷ upper_digit (byte % 16) ∷ []

encode_with : (ℕ → Bool) → Text → Text → Text
encode_with keep [] out = out
encode_with keep (byte ∷ path) out = encode_with keep path (out ++ encode_byte keep byte)

unfoldable pub percent_encode_path : Text → Text
unfolding encode_with encode_byte is_path_byte
percent_encode_path path = encode_with is_path_byte path []

unfoldable pub percent_encode_filename : Text → Text
unfolding encode_with encode_byte is_unreserved
percent_encode_filename name = encode_with is_unreserved name []

unfoldable pub hex_nibble : ℕ → Option ℕ
hex_nibble b =
    if leb b'0' b && leb b b'9'
    then some (b - b'0')
    else if leb b'A' b && leb b b'F'
    then some (b - b'A' + 10)
    else if leb b'a' b && leb b b'f'
    then some (b - b'a' + 10)
    else none

-- The value of an escape's two digits: `h << 4 | l` in a byte.
unfoldable pub escape_value : ℕ → ℕ → Option ℕ
unfolding hex_nibble
escape_value a b = elim (hex_nibble a) [
  | none ↦ none
  | some h ↦ elim (hex_nibble b) [ none ↦ none | some l ↦ some (bit_or (h * 16 % 256) l) ]
]

-- The loop of `percent_decode_path`.
unfoldable pub decode_from : Text → Text → Text
unfolding escape_value
decode_from out [] = out
decode_from out (c ∷ []) = out ++ c ∷ []
decode_from out (c ∷ a ∷ []) = out ++ c ∷ a ∷ []
decode_from out (c ∷ a ∷ b ∷ s) =
    let copied = decode_from (out ++ c ∷ []) (a ∷ b ∷ s) in
    elim (if c == b'%' then escape_value a b else none) [
      | some byte ↦ decode_from (out ++ byte ∷ []) s
      | none ↦ copied
    ]

-- `lossy` is `String::from_utf8_lossy`, which replaces what is not UTF-8.
unfoldable pub percent_decode_path : (Text → Text) → Text → Text
unfolding decode_from
percent_decode_path lossy path = lossy (decode_from [] path)
