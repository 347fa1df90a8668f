-- ===== src/Preview/Snowflake/Tests.antt =====
-- Runs of core-rs/crates/nc-preview/src/snowflake.rs at the inputs of its own tests, and the laws
-- at concrete inputs.
use nc_server_rs.Prelude.{ℕ, ◌<◌, ◌^◌, ◌≡◌, refl, ap, ◌≢◌, some, List, [], ◌∷◌, arith}
use nc_server_rs.Preview.Snowflake.{
  encode, Reading, SnowflakeGenerator, new, alloc, next_seq, now_relative, resolve_server_id,
  next_id, Turn, alone, others,
}
use nc_server_rs.Preview.Snowflake.Layout.{encode-lt}
use nc_server_rs.Preview.Snowflake.Repeats.{next_id-repeats}
use nc_server_rs.Preview.Snowflake.Sequence.{issued, IsIncreasing}
use nc_server_rs.Preview.Snowflake.Calls.{calls, calls-IsIncreasing}

encode_golden : encode 25_469_234 904 223 1 0 ≡ 109_389_530_877_652_992
unfolding encode
encode_golden = refl

abbrev reading : ℕ → ℕ → Reading
reading secs millis = record { secs = secs; millis = millis }

abbrev clock : List Reading
clock = reading 1_759_276_900 500 ∷ reading 1_759_276_900 500 ∷ reading 1_759_276_900 501 ∷ []

issued-IsClock :
    issued (new 7 0) clock ≡ encode 100 500 7 0 0 ∷ encode 100 500 7 0 1 ∷ encode 100 501 7 0 0 ∷ []
unfolding issued new alloc next_seq encode
issued-IsClock = refl

encode-lt_example : encode 0x7fff_ffff 999 0x1ff 1 0xfff < 2 ^ 63
encode-lt_example = encode-lt 0x7fff_ffff 999 0x1ff 1 0xfff

-- Two calls, and one of another thread between.
abbrev turns : List Turn
turns =
    alone (reading 1_759_276_900 500)
    ∷ record { now = reading 1_759_276_900 501; between = reading 1_759_276_900 500 ∷ [] }
    ∷ []

two_calls : calls 2 (new 7 0) turns ≡ encode 100 500 7 0 0 ∷ encode 100 501 7 0 0 ∷ []
unfolding calls next_id others new alloc next_seq encode
two_calls = refl

calls-IsIncreasing_example : IsIncreasing (calls 2 (new 7 0) turns)
calls-IsIncreasing_example = calls-IsIncreasing 2 7 0 turns (omega arith) (omega arith)

abbrev exhausted : SnowflakeGenerator
exhausted = record {
  server_id = 7;
  is_cli = 0;
  seq = record { seconds = 100; ms = 500; server_id = 7; counter = 0xfff };
}

other_moment : now_relative (reading 1_759_276_900 501) ≢ (100, 500)
other_moment e = absurd (omega (arith, ap (λ (p : ℕ × ℕ). p.1) e))

server_id_masked : resolve_server_id (λ _. 223) (some 600) [] ≡ 88
unfolding resolve_server_id
server_id_masked = refl

-- A second call reads the 500th millisecond, and is overtaken by a third, which reads the next.
overtaken :
    ((next_id (new 7 0) (alone (reading 1_759_276_900 500) ∷ [])).1 ≡ some (encode 100 500 7 0 0))
    × ((next_id (next_id (new 7 0) (alone (reading 1_759_276_900 500) ∷ [])).0 (
          record { now = reading 1_759_276_900 500; between = reading 1_759_276_900 501 ∷ [] }
          ∷ [])).1
        ≡ some (encode 100 500 7 0 0))
unfolding new
overtaken =
    next_id-repeats (new 7 0) (reading 1_759_276_900 500) (reading 1_759_276_900 500)
      (reading 1_759_276_900 501) [] [] (λ e. absurd (omega (arith, ap (λ (p : ℕ × ℕ). p.1) e)))
      refl (λ e. absurd (omega (arith, ap (λ (p : ℕ × ℕ). p.1) e)))
