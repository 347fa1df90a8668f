-- ===== src/Preview/Snowflake/Sequence.antt =====
-- core-rs/crates/nc-preview/src/snowflake.rs: the ids that a generator issues while its readings
-- do not go back, and the end of the spin in `next_id`.
use nc_server_rs.Prelude.{
  ℕ, ◌+◌, ◌-◌, ◌*◌, ◌^◌, ◌≤◌, ◌<◌, min, ◌≡◌, refl, ◌∙◌, sym, Option, none, some, List, [], ◌∷◌,
  arith, length, All,
}
use nc_server_rs.Preview.Snowflake.{
  ts_offset, seq_max, encode, Reading, now_relative, SnowflakeGenerator, new, next_seq, alloc,
}
use nc_server_rs.Preview.Snowflake.Layout.{encode-eq-sum}

-- Every id that a generator gives, over the readings in the order in which they take the lock.
abbrev pub consed : Option ℕ → List ℕ → List ℕ
consed none ids = ids
consed (some id) ids = id ∷ ids

abbrev pub id_of : SnowflakeGenerator → ℕ → ℕ → Option ℕ → Option ℕ
id_of g seconds ms none = none
id_of g seconds ms (some seq) = some (encode seconds ms g.server_id g.is_cli seq)

unfoldable pub issued : SnowflakeGenerator → List Reading → List ℕ
issued g [] = []
issued g (now ∷ later) =
    let (seconds, ms) = now_relative now in
    consed (id_of g seconds ms (alloc g seconds ms).1) (issued (alloc g seconds ms).0 later)

-- A clock that does not go back behind a second and a millisecond, read within the 31 bits.
abbrev pub IsClock : ℕ → ℕ → List Reading → Type 0
IsClock seconds ms [] = Unit
IsClock seconds ms (now ∷ later) =
    (ts_offset ≤ now.secs)
    × (now.secs < ts_offset + 2 ^ 31)
    × (now.millis < 1000)
    × (seconds * 1000 + ms ≤ (now.secs - ts_offset) * 1000 + now.millis)
    × IsClock (now.secs - ts_offset) now.millis later

abbrev pub IsIncreasing : List ℕ → Type 0
IsIncreasing [] = Unit
IsIncreasing (id ∷ ids) = All (λ later. id < later) ids × IsIncreasing ids

-- What every later id exceeds: the id of the last sequence number, or of the last of its
-- millisecond once that is exhausted.
abbrev floor : SnowflakeGenerator → ℕ
floor g =
    g.seq.seconds * 2 ^ 32
    + g.seq.ms * 2 ^ 22
    + g.server_id * 2 ^ 13
    + g.is_cli * 2 ^ 12
    + min g.seq.counter seq_max

All-weaken :
    (low high : ℕ) (ids : List ℕ)
    → low ≤ high
    → All (λ id. high < id) ids
    → All (λ id. low < id) ids
All-weaken low high [] h a = tt
All-weaken low high (id ∷ ids) h (p, a) = (omega arith, All-weaken low high ids h a)

record IsGenerator (g : SnowflakeGenerator) : Type 0 where
  server : g.server_id < 2 ^ 9
  cli : g.is_cli < 2
  seconds_fit : g.seq.seconds < 2 ^ 31
  ms_fit : g.seq.ms < 1000

abbrev pub read_next : SnowflakeGenerator → Reading → SnowflakeGenerator
read_next g now = (alloc g (now_relative now).0 (now_relative now).1).0

abbrev pub read_id : SnowflakeGenerator → Reading → Option ℕ
read_id g now =
    id_of g (now_relative now).0 (now_relative now).1
      (alloc g (now_relative now).0 (now_relative now).1).1

module _ (g : SnowflakeGenerator) (now : Reading) (later : List Reading) (h : IsGenerator g)
    (c : IsClock g.seq.seconds g.seq.ms (now ∷ later)) where
  next-IsGenerator : IsGenerator (read_next g now)
  unfolding alloc next_seq
  next-IsGenerator = ground arith

  next_state :
      ((read_next g now).seq.seconds ≡ now.secs - ts_offset)
      × ((read_next g now).seq.ms ≡ now.millis)
      × ((read_next g now).seq.server_id ≡ g.server_id)
      × ((read_next g now).server_id ≡ g.server_id)
      × ((read_next g now).is_cli ≡ g.is_cli)
  unfolding alloc next_seq
  next_state = ground arith

  floor_grows :
      g.seq.server_id ≡ g.server_id
      → g.seq.counter + 1 < 2 ^ 32
      → (floor g ≤ floor (read_next g now)) × ((read_next g now).seq.counter ≤ g.seq.counter + 1)
  unfolding alloc next_seq
  floor_grows e f = ground arith

  id_floor : (id : ℕ) → read_id g now ≡ some id → id ≡ floor (read_next g now)
  unfolding alloc next_seq
  id_floor id e = ground (
    arith,
    encode-eq-sum (now_relative now).0 (now_relative now).1 g.server_id g.is_cli
        (read_next g now).seq.counter,
  )

  id-above :
      (id : ℕ)
      → g.seq.server_id ≡ g.server_id
      → g.seq.counter + 1 < 2 ^ 32
      → read_id g now ≡ some id
      → floor g < id
  unfolding alloc next_seq
  id-above id e f m = ground (
    arith,
    encode-eq-sum (now_relative now).0 (now_relative now).1 g.server_id g.is_cli
        (read_next g now).seq.counter,
  )

consed-IsIncreasing :
    (low high : ℕ) (o : Option ℕ) (ids : List ℕ)
    → ((id : ℕ) → o ≡ some id → (low < id) × (id ≡ high))
    → low ≤ high
    → All (λ later. high < later) ids
    → IsIncreasing ids
    → All (λ later. low < later) (consed o ids) × IsIncreasing (consed o ids)
consed-IsIncreasing low high none ids new h a i = (All-weaken low high ids h a, i)
consed-IsIncreasing low high (some id) ids new h a i =
    let (lt, e) = new id refl in ((lt, All-weaken low high ids h a), (rw e a, i))

issued_from :
    (g : SnowflakeGenerator) (clock : List Reading)
    → IsGenerator g
    → g.seq.server_id ≡ g.server_id
    → IsClock g.seq.seconds g.seq.ms clock
    → g.seq.counter + length clock < 2 ^ 32
    → All (λ id. floor g < id) (issued g clock) × IsIncreasing (issued g clock)
unfolding issued
issued_from g [] h e c f = (tt, tt)
issued_from g (now ∷ later) h e c f =
    let (secs, millis, state_server, server, cli) = next_state g now later h c in
    let (up, counted) = floor_grows g now later h c e (omega arith) in
    let (above, increasing) =
      issued_from (read_next g now) later (next-IsGenerator g now later h c)
        (state_server ∙ sym server) (rw (secs, millis) (c.4)) (omega arith) in
    consed-IsIncreasing (floor g) (floor (read_next g now)) (read_id g now)
      (issued (read_next g now) later)
      (λ id m. (id-above g now later h c id e (omega arith) m, id_floor g now later h c id m)) up
      above increasing

IsIncreasing-consed :
    (high : ℕ) (o : Option ℕ) (ids : List ℕ)
    → ((id : ℕ) → o ≡ some id → id ≡ high)
    → All (λ later. high < later) ids
    → IsIncreasing ids
    → IsIncreasing (consed o ids)
IsIncreasing-consed high none ids new a i = i
IsIncreasing-consed high (some id) ids new a i = (rw (new id refl) a, i)

new-IsGenerator : (server_id is_cli : ℕ) → IsGenerator (new server_id is_cli)
unfolding new
new-IsGenerator server_id is_cli = ground arith

new_counter :
    (server_id is_cli : ℕ) (now : Reading) → (read_next (new server_id is_cli) now).seq.counter ≤ 1
unfolding new alloc next_seq
new_counter server_id is_cli now = ground arith

new_start :
    (server_id is_cli : ℕ)
    → ((new server_id is_cli).seq.seconds ≡ 0) × ((new server_id is_cli).seq.ms ≡ 0)
unfolding new
new_start server_id is_cli = (refl, refl)

pub issued-IsIncreasing :
    (server_id is_cli : ℕ) (clock : List Reading)
    → IsClock 0 0 clock
    → length clock < 2 ^ 32 - 1
    → IsIncreasing (issued (new server_id is_cli) clock)
unfolding issued
issued-IsIncreasing server_id is_cli [] c f = tt
issued-IsIncreasing server_id is_cli (now ∷ later) c f =
    let g = new server_id is_cli in
    let h = new-IsGenerator server_id is_cli in
    let (zero_secs, zero_ms) = new_start server_id is_cli in
    let start : IsClock g.seq.seconds g.seq.ms (now ∷ later) = rw (zero_secs, zero_ms) c in
    let (secs, millis, state_server, server, cli) = next_state g now later h start in
    let (above, increasing) =
      issued_from (read_next g now) later (next-IsGenerator g now later h start)
        (state_server ∙ sym server) (rw (secs, millis) (c.4))
        (omega (arith, new_counter server_id is_cli now)) in
    IsIncreasing-consed (floor (read_next g now)) (read_id g now) (issued (read_next g now) later)
      (λ id m. id_floor g now later h start id m) above increasing
