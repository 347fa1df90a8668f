-- ===== src/Preview/Snowflake/Layout.antt =====
-- core-rs/crates/nc-preview/src/snowflake.rs: the fields of an id do not overlap.
use Prim.Native.Nat.{bit_or}
use nc_server_rs.Prelude.{ℕ, ◌+◌, ◌*◌, ◌%◌, ◌^◌, ◌<◌, ◌≡◌, refl, arith}
use nc_server_rs.Prelude.Bits.{bit_or-add_at}
use nc_server_rs.Preview.Snowflake.{encode, decode}

or_fields :
    (m s c q : ℕ)
    → s < 2 ^ 9
    → c < 2
    → q < 2 ^ 12
    → bit_or (bit_or (bit_or (m * 2 ^ 22) (s * 2 ^ 13)) (c * 2 ^ 12)) q
      ≡ m * 2 ^ 22 + s * 2 ^ 13 + c * 2 ^ 12 + q
or_fields m s c q hs hc hq =
    let a = bit_or-add_at 22 m (m * 2 ^ 22) (s * 2 ^ 13) refl (omega arith) in
    let b =
      bit_or-add_at 13 (m * 2 ^ 9 + s) (m * 2 ^ 22 + s * 2 ^ 13) (c * 2 ^ 12) (omega arith)
        (omega arith) in
    let d =
      bit_or-add_at 12 (m * 2 ^ 10 + s * 2 + c) (m * 2 ^ 22 + s * 2 ^ 13 + c * 2 ^ 12) q
        (omega arith) (omega arith) in
    rw (a, b, d)

-- An id is the sum of its masked fields, each at its place.
pub encode-eq-sum :
    (seconds ms server_id is_cli seq : ℕ)
    → encode seconds ms server_id is_cli seq
      ≡ seconds % 2 ^ 31 * 2 ^ 32
        + (ms % 2 ^ 10 * 2 ^ 22 + server_id % 2 ^ 9 * 2 ^ 13 + is_cli % 2 * 2 ^ 12 + seq % 2 ^ 12)
unfolding encode
encode-eq-sum seconds ms server_id is_cli seq =
    let e : ms % 2 ^ 10 * 2 ^ 22 % 2 ^ 64 ≡ ms % 2 ^ 10 * 2 ^ 22 = omega arith in
    let f : server_id % 2 ^ 9 * 2 ^ 13 % 2 ^ 64 ≡ server_id % 2 ^ 9 * 2 ^ 13 = omega arith in
    let g : is_cli % 2 * 2 ^ 12 % 2 ^ 64 ≡ is_cli % 2 * 2 ^ 12 = omega arith in
    let h : seconds % 2 ^ 31 * 2 ^ 32 % 2 ^ 64 ≡ seconds % 2 ^ 31 * 2 ^ 32 = omega arith in
    let low =
      or_fields (ms % 2 ^ 10) (server_id % 2 ^ 9) (is_cli % 2) (seq % 2 ^ 12) (omega arith)
        (omega arith) (omega arith) in
    let high =
      bit_or-add_at 32 (seconds % 2 ^ 31) (seconds % 2 ^ 31 * 2 ^ 32)
        (ms % 2 ^ 10 * 2 ^ 22 + server_id % 2 ^ 9 * 2 ^ 13 + is_cli % 2 * 2 ^ 12 + seq % 2 ^ 12)
        refl (omega arith) in
    rw (e, f, g, h, low) high

-- `decode` gives back every field of an encoded id, each cut to its width.
decode-encode :
    (seconds ms server_id is_cli seq : ℕ)
    → decode (encode seconds ms server_id is_cli seq)
      ≡ (seconds % 2 ^ 31, ms % 2 ^ 10, server_id % 2 ^ 9, is_cli % 2, seq % 2 ^ 12)
unfolding decode
decode-encode seconds ms server_id is_cli seq =
    ground (arith, encode-eq-sum seconds ms server_id is_cli seq)

-- The sign bit of an id is clear.
pub encode-lt :
    (seconds ms server_id is_cli seq : ℕ) → encode seconds ms server_id is_cli seq < 2 ^ 63
encode-lt seconds ms server_id is_cli seq =
    ground (arith, encode-eq-sum seconds ms server_id is_cli seq)
