-- ===== src/Preview/Snowflake.antt =====
-- core-rs/crates/nc-preview/src/snowflake.rs: the 64-bit layout and the sequence generator.
-- An `i64` or `u32` is its bit pattern, below 2 ^ 64 or 2 ^ 32.
pub mod Layout
pub mod Sequence
pub mod Calls
pub mod Repeats
mod Tests
use Prim.Native.Nat.{bit_or}
use nc_server_rs.Prelude.{
  ℕ, ◌+◌, ◌*◌, ◌/◌, ◌%◌, ◌^◌, ◌-◌, Option, none, some, List, [], ◌∷◌, ◌&&◌, ◌==◌, leb, ltb,
  if◌then◌else◌,
}

abbrev pub ts_offset : ℕ
ts_offset = 1_759_276_800

abbrev pub seq_max : ℕ
seq_max = 0xfff

-- `x & (2 ^ k - 1)` is `x % 2 ^ k`; `x << k` drops what leaves the word.
unfoldable pub encode : ℕ → ℕ → ℕ → ℕ → ℕ → ℕ
encode seconds ms server_id is_cli seq =
    let first_half : ℕ = seconds % 2 ^ 31 in
    let second_half : ℕ =
      bit_or
        (bit_or (bit_or (ms % 2 ^ 10 * 2 ^ 22 % 2 ^ 64) (server_id % 2 ^ 9 * 2 ^ 13 % 2 ^ 64))
          (is_cli % 2 * 2 ^ 12 % 2 ^ 64))
        (seq % 2 ^ 12) in
    bit_or (first_half * 2 ^ 32 % 2 ^ 64) second_half

-- The fields of an id whose sign bit is clear; `>>` on such an `i64` is a division.
unfoldable pub decode : ℕ → ℕ × ℕ × ℕ × ℕ × ℕ
decode id =
    let seq : ℕ = id % 2 ^ 12 in
    let is_cli : ℕ = id / 2 ^ 12 % 2 in
    let server_id : ℕ = id / 2 ^ 13 % 2 ^ 9 in
    let ms : ℕ = id / 2 ^ 22 % 2 ^ 10 in
    let seconds : ℕ = id / 2 ^ 32 % 2 ^ 31 in (seconds, ms, server_id, is_cli, seq)

-- `config_serverid` as a bit pattern: it is positive if it is not 0 and its sign bit is clear.
unfoldable pub resolve_server_id : (List ℕ → ℕ) → Option ℕ → List ℕ → ℕ
resolve_server_id crc32 none hostname = crc32 hostname % 2 ^ 9
resolve_server_id crc32 (some id) hostname =
    if ltb 0 id && ltb id (2 ^ 63) then id % 2 ^ 32 % 2 ^ 9 else crc32 hostname % 2 ^ 9

-- A reading of the system clock: whole seconds since 1970 and the millisecond.
pub record Reading : Type 0 where
  pub secs : ℕ
  pub millis : ℕ

abbrev pub now_relative : Reading → ℕ × ℕ
now_relative now = ((now.secs + 2 ^ 64 - ts_offset) % 2 ^ 64, now.millis)

pub record SeqState : Type 0 where
  pub seconds : ℕ
  pub ms : ℕ
  pub server_id : ℕ
  pub counter : ℕ

pub record SnowflakeGenerator : Type 0 where
  pub server_id : ℕ
  pub is_cli : ℕ
  pub seq : SeqState

unfoldable pub new : ℕ → ℕ → SnowflakeGenerator
new server_id is_cli = record {
  server_id = server_id % 2 ^ 9;
  is_cli = is_cli % 2;
  seq = record { seconds = 0; ms = 0; server_id = 0; counter = 0 };
}

-- The state of the sequence after the lock is released, and the number it gives.
unfoldable pub next_seq : ℕ → SeqState → ℕ → ℕ → SeqState
next_seq server_id st seconds ms =
    if st.seconds == seconds && st.ms == ms && st.server_id == server_id
    then record st { counter = (st.counter + 1) % 2 ^ 32 }
    else record { seconds = seconds; ms = ms; server_id = server_id; counter = 0 }

unfoldable pub alloc : SnowflakeGenerator → ℕ → ℕ → SnowflakeGenerator × Option ℕ
unfolding next_seq
alloc g seconds ms =
    let st : SeqState = next_seq g.server_id g.seq seconds ms in
    (record g { seq = st }, if leb st.counter seq_max then some st.counter else none)

-- One round of `next_id`: the clock is read before the lock is taken, and other calls may take it
-- in between, with what they have read.
pub record Turn : Type 0 where
  pub now : Reading
  pub between : List Reading

abbrev pub alone : Reading → Turn
alone now = record { now = now; between = [] }

unfoldable pub others : SnowflakeGenerator → List Reading → SnowflakeGenerator
others g [] = g
others g (now ∷ more) = let (seconds, ms) = now_relative now in others (alloc g seconds ms).0 more

-- The loop of `next_id` over the rounds that it makes: the generator, the id, and the rounds that
-- are left; no id if every reading falls in an exhausted millisecond.
unfoldable pub next_id : SnowflakeGenerator → List Turn → SnowflakeGenerator × Option ℕ × List Turn
next_id g [] = (g, none, [])
next_id g (turn ∷ later) =
    let (seconds, ms) = now_relative turn.now in
    let here = others g turn.between in
    let spun = next_id (alloc here seconds ms).0 later in
    elim (alloc here seconds ms).1 [
      | some seq ↦ (
        (alloc here seconds ms).0,
        some (encode seconds ms here.server_id here.is_cli seq),
        later,
      )
      | none ↦ spun
    ]
