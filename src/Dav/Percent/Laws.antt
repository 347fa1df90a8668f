-- ===== src/Dav/Percent/Laws.antt =====
-- core-rs/crates/nc-dav/src/path_utils.rs, handler.rs: decoding undoes both encoders, and what an
-- encoded text holds.
use nc_server_rs.Prelude.{
  ℕ, ◌/◌, ◌%◌, ◌<◌, ◌≡◌, refl, sym, ◌≢◌, Bool, true, ◌||◌, some, [], ◌∷◌, ◌++◌, append-nil,
  append_assoc, arith, All, All-append, Bool-cases, inl, inr, ◌==◌,
}
use nc_server_rs.Prelude.Bits.{bit_or-eq-add}
use nc_server_rs.Prelude.Text.{Text}
use nc_server_rs.Dav.Percent.{
  upper_digit, is_path_byte, is_unreserved, encode_byte, encode_with, percent_encode_path,
  percent_encode_filename, hex_nibble, escape_value, decode_from, percent_decode_path,
  is_alphanumeric,
}

hex_nibble-upper_digit : (d : ℕ) → d < 16 → hex_nibble (upper_digit d) ≡ some d
unfolding hex_nibble
hex_nibble-upper_digit d h = ground arith

escape_value-digits :
    (byte : ℕ)
    → byte < 256
    → escape_value (upper_digit (byte / 16)) (upper_digit (byte % 16)) ≡ some byte
unfolding escape_value
escape_value-digits byte h = ground (
  arith,
  hex_nibble-upper_digit (byte / 16) (omega arith),
  hex_nibble-upper_digit (byte % 16) (omega arith),
  bit_or-eq-add 4 (byte / 16) (byte % 16) (omega arith),
)

abbrev pub IsByte : ℕ → Type 0
IsByte b = b < 256

-- What the loop writes, without its accumulator.
encoded : (ℕ → Bool) → Text → Text
encoded keep [] = []
encoded keep (byte ∷ s) = encode_byte keep byte ++ encoded keep s

encode_with-encoded :
    (keep : ℕ → Bool) (s out : Text) → encode_with keep s out ≡ out ++ encoded keep s
unfolding encode_with encoded
encode_with-encoded keep [] out = sym (append-nil out)
encode_with-encoded keep (byte ∷ s) out = simp (encode_with-encoded keep s, append_assoc)

decode_copy :
    (c : ℕ) (s out : Text) → c ≢ b'%' → decode_from out (c ∷ s) ≡ decode_from (out ++ c ∷ []) s
unfolding decode_from
decode_copy c [] out h = refl
decode_copy c (a ∷ []) out h = simp append_assoc
decode_copy c (a ∷ b ∷ s) out h = ground arith

decode_escape :
    (a b byte : ℕ) (s out : Text)
    → escape_value a b ≡ some byte
    → decode_from out (b'%' ∷ a ∷ b ∷ s) ≡ decode_from (out ++ byte ∷ []) s
unfolding decode_from
decode_escape a b byte s out e = ground arith

module _ (keep : ℕ → Bool) (keeps : (c : ℕ) → keep c ≡ true → c ≢ b'%') where
  decode-encode_byte :
      (byte : ℕ) (s out : Text)
      → byte < 256
      → decode_from out (encode_byte keep byte ++ s) ≡ decode_from (out ++ byte ∷ []) s
  unfolding encode_byte
  decode-encode_byte byte s out h = elim (Bool-cases (keep byte)) [
    | inl copied ↦ rw copied (decode_copy byte s out (keeps byte copied))
    | inr escaped ↦ rw escaped (decode_escape _ _ byte s out (escape_value-digits byte h))
  ]

  decode-encoded : (s out : Text) → All IsByte s → decode_from out (encoded keep s) ≡ out ++ s
  unfolding encoded
  decode-encoded [] out h = unfold decode_from in sym (append-nil out)
  decode-encoded (byte ∷ s) out (p, h) =
      rw (decode-encode_byte byte (encoded keep s) out p, decode-encoded s (out ++ byte ∷ []) h)
        (append_assoc out (byte ∷ []) s)

path_keeps : (c : ℕ) → is_path_byte c ≡ true → c ≢ b'%'
unfolding is_path_byte
path_keeps c h = ground arith

name_keeps : (c : ℕ) → is_unreserved c ≡ true → c ≢ b'%'
unfolding is_unreserved
name_keeps c h = ground arith

-- Decoding an encoded path gives the bytes of the path, and hands them to the UTF-8 conversion.
pub percent_decode_path-percent_encode_path :
    (lossy : Text → Text) (path : Text)
    → All IsByte path
    → percent_decode_path lossy (percent_encode_path path) ≡ lossy path
unfolding percent_decode_path percent_encode_path
percent_decode_path-percent_encode_path lossy path h =
    rw (encode_with-encoded is_path_byte path [], decode-encoded is_path_byte path_keeps path [] h)

-- So does decoding an encoded file name.
percent_decode_path-percent_encode_filename :
    (lossy : Text → Text) (name : Text)
    → All IsByte name
    → percent_decode_path lossy (percent_encode_filename name) ≡ lossy name
unfolding percent_decode_path percent_encode_filename
percent_decode_path-percent_encode_filename lossy name h =
    rw
      (encode_with-encoded is_unreserved name [], decode-encoded is_unreserved name_keeps name [] h)

-- A character that may stand in a header's file name parameter: unreserved, or of an escape.
abbrev pub IsHeaderSafe : ℕ → Type 0
IsHeaderSafe c =
    (is_alphanumeric c || c == b'-' || c == b'_' || c == b'.' || c == b'~' || c == b'%') ≡ true

encode_byte-IsHeaderSafe : (b : ℕ) → b < 256 → All IsHeaderSafe (encode_byte is_unreserved b)
unfolding encode_byte is_unreserved
encode_byte-IsHeaderSafe b h = ground arith

encoded-IsHeaderSafe : (s : Text) → All IsByte s → All IsHeaderSafe (encoded is_unreserved s)
unfolding encoded
encoded-IsHeaderSafe [] h = tt
encoded-IsHeaderSafe (b ∷ s) (p, h) =
    All-append IsHeaderSafe (encode_byte is_unreserved b) (encoded is_unreserved s)
      (encode_byte-IsHeaderSafe b p) (encoded-IsHeaderSafe s h)

-- Whatever the bytes of the name, the encoded file name holds letters, digits, - _ . ~ and %
-- alone: no quote, control character or separator reaches the header.
percent_encode_filename-IsHeaderSafe :
    (name : Text) → All IsByte name → All IsHeaderSafe (percent_encode_filename name)
unfolding percent_encode_filename
percent_encode_filename-IsHeaderSafe name h =
    rw (encode_with-encoded is_unreserved name []) (encoded-IsHeaderSafe name h)
