-- ===== src/Preview/Snowflake/Repeats.antt =====
-- core-rs/crates/nc-preview/src/snowflake.rs: an id that comes twice, where a call reads the clock
-- and another takes the lock before it.
use nc_server_rs.Prelude.{◌≡◌, ◌≢◌, some, List, [], ◌∷◌, arith}
use nc_server_rs.Preview.Snowflake.{
  encode, Reading, now_relative, SnowflakeGenerator, next_seq, alloc, Turn, alone, others, next_id,
}

-- If a call is the first with a moment, and a later call has read the same moment but another
-- call takes the lock before it, with a reading of another, then both return the same id: the
-- one of the moment's sequence number 0.
pub next_id-repeats :
    (g : SnowflakeGenerator) (now same other : Reading) (later rest : List Turn)
    → now_relative now ≢ (g.seq.seconds, g.seq.ms)
    → now_relative same ≡ now_relative now
    → now_relative other ≢ now_relative now
    → ((next_id g (alone now ∷ later)).1
        ≡ some (encode (now_relative now).0 (now_relative now).1 g.server_id g.is_cli 0))
      × ((next_id
            (next_id g (alone now ∷ later)).0
            (record { now = same; between = other ∷ [] } ∷ rest)).1
          ≡ some (encode (now_relative now).0 (now_relative now).1 g.server_id g.is_cli 0))
unfolding next_id others alloc next_seq
next_id-repeats g now same other later rest first again differs = ground arith
