-- ===== src/Preview/Snowflake/Calls.antt =====
-- core-rs/crates/nc-preview/src/snowflake.rs: calls of `next_id` between which other calls take the
-- lock, and the end of the spin in it.
use nc_server_rs.Prelude.{
  ℕ, zero, suc, ◌+◌, ◌-◌, ◌^◌, ◌≤◌, ◌<◌, ◌≡◌, refl, ◌≢◌, Option, none, some, List, [], ◌∷◌, ◌++◌,
  arith, length, All, map, subst,
}
use nc_server_rs.Preview.Snowflake.{
  seq_max, encode, Reading, now_relative, SnowflakeGenerator, new, next_seq, alloc, Turn, alone,
  others, next_id,
}
use nc_server_rs.Preview.Snowflake.Sequence.{
  consed, id_of, issued, IsClock, IsIncreasing, read_next, read_id, issued-IsIncreasing,
}

-- The ids that so many calls of `next_id` return.
unfoldable pub calls : ℕ → SnowflakeGenerator → List Turn → List ℕ
calls zero g turns = []
calls (suc n) g turns = let (after, id, left) = next_id g turns in consed id (calls n after left)

-- The readings of all calls, in the order in which they take the lock.
abbrev pub locked : List Turn → List Reading
locked [] = []
locked (turn ∷ later) = turn.between ++ turn.now ∷ locked later

-- The ids of every round.
abbrev called : SnowflakeGenerator → List Turn → List ℕ
called g [] = []
called g (turn ∷ later) =
    let here = others g turn.between in
    let (seconds, ms) = now_relative turn.now in
    consed (id_of here seconds ms (alloc here seconds ms).1)
      (called (alloc here seconds ms).0 later)

abbrev continued : SnowflakeGenerator × Option ℕ × List Turn → List ℕ
continued (g, id, left) = consed id (called g left)

called-next_id :
    (g : SnowflakeGenerator) (turns : List Turn) → called g turns ≡ continued (next_id g turns)
unfolding next_id
called-next_id g [] = refl
called-next_id g (turn ∷ later) =
    let here = others g turn.between in
    ground (
      arith,
      called-next_id (alloc here (now_relative turn.now).0 (now_relative turn.now).1).0 later,
    )

All-consed :
    (P : ℕ → Type 0) (o : Option ℕ) (ids ids' : List ℕ)
    → (All P ids → All P ids')
    → All P (consed o ids)
    → All P (consed o ids')
All-consed P none ids ids' f a = f a
All-consed P (some id) ids ids' f (p, a) = (p, f a)

IsIncreasing-consed :
    (o : Option ℕ) (ids ids' : List ℕ)
    → ((P : ℕ → Type 0) → All P ids → All P ids')
    → (IsIncreasing ids → IsIncreasing ids')
    → IsIncreasing (consed o ids)
    → IsIncreasing (consed o ids')
IsIncreasing-consed none ids ids' f g i = g i
IsIncreasing-consed (some id) ids ids' f g (a, i) = (f (λ later. id < later) a, g i)

All-tail : (P : ℕ → Type 0) (o : Option ℕ) (ids : List ℕ) → All P (consed o ids) → All P ids
All-tail P none ids a = a
All-tail P (some id) ids (p, a) = a

IsIncreasing-tail : (o : Option ℕ) (ids : List ℕ) → IsIncreasing (consed o ids) → IsIncreasing ids
IsIncreasing-tail none ids i = i
IsIncreasing-tail (some id) ids (a, i) = i

-- What other calls are given goes before.
All-others :
    (P : ℕ → Type 0) (g : SnowflakeGenerator) (between later : List Reading)
    → All P (issued g (between ++ later))
    → All P (issued (others g between) later)
unfolding issued others
All-others P g [] later a = a
All-others P g (now ∷ between) later a =
    All-others P (read_next g now) between later (All-tail P _ _ a)

IsIncreasing-others :
    (g : SnowflakeGenerator) (between later : List Reading)
    → IsIncreasing (issued g (between ++ later))
    → IsIncreasing (issued (others g between) later)
unfolding issued others
IsIncreasing-others g [] later i = i
IsIncreasing-others g (now ∷ between) later i =
    IsIncreasing-others (read_next g now) between later (IsIncreasing-tail _ _ i)

All-called :
    (P : ℕ → Type 0) (g : SnowflakeGenerator) (turns : List Turn)
    → All P (issued g (locked turns))
    → All P (called g turns)
unfolding issued
All-called P g [] a = tt
All-called P g (turn ∷ later) a =
    let here = others g turn.between in
    let after = read_next here turn.now in
    All-consed P (read_id here turn.now) (issued after (locked later)) (called after later)
      (All-called P after later) (All-others P g turn.between (turn.now ∷ locked later) a)

called-IsIncreasing :
    (g : SnowflakeGenerator) (turns : List Turn)
    → IsIncreasing (issued g (locked turns))
    → IsIncreasing (called g turns)
unfolding issued
called-IsIncreasing g [] i = tt
called-IsIncreasing g (turn ∷ later) i =
    let here = others g turn.between in
    let after = read_next here turn.now in
    IsIncreasing-consed (read_id here turn.now) (issued after (locked later)) (called after later)
      (λ P. All-called P after later) (called-IsIncreasing after later)
      (IsIncreasing-others g turn.between (turn.now ∷ locked later) i)

All-calls :
    (P : ℕ → Type 0) (n : ℕ) (g : SnowflakeGenerator) (turns : List Turn)
    → All P (called g turns)
    → All P (calls n g turns)
unfolding calls
All-calls P zero g turns a = tt
All-calls P (suc n) g turns a =
    let (after, id, left) = next_id g turns in
    All-consed P id (called after left) (calls n after left) (All-calls P n after left)
      (subst (All P) (called-next_id g turns) a)

calls-called :
    (n : ℕ) (g : SnowflakeGenerator) (turns : List Turn)
    → IsIncreasing (called g turns)
    → IsIncreasing (calls n g turns)
unfolding calls
calls-called zero g turns i = tt
calls-called (suc n) g turns i =
    let (after, id, left) = next_id g turns in
    IsIncreasing-consed id (called after left) (calls n after left) (λ P. All-calls P n after left)
      (calls-called n after left) (subst IsIncreasing (called-next_id g turns) i)

-- If the readings of the clock, those of other calls included, take the lock in the order of
-- their times, as they do where calls come one after another and the clock does not go back, then
-- the ids that any number of calls of `next_id` on a new generator return are strictly increasing,
-- so none comes twice: the clock is read in the 31 bits of seconds, and less than 2 ^ 32 - 1
-- times.
pub calls-IsIncreasing :
    (n server_id is_cli : ℕ) (turns : List Turn)
    → IsClock 0 0 (locked turns)
    → length (locked turns) < 2 ^ 32 - 1
    → IsIncreasing (calls n (new server_id is_cli) turns)
calls-IsIncreasing n server_id is_cli turns clock few =
    let g = new server_id is_cli in
    calls-called n g turns
      (called-IsIncreasing g turns (issued-IsIncreasing server_id is_cli (locked turns) clock few))

-- The readings of a clock that all fall in one second and millisecond.
abbrev InMoment : ℕ → ℕ → List Reading → Type 0
InMoment seconds ms = All (λ now. now_relative now ≡ (seconds, ms))

-- In a millisecond whose numbers are used up `next_id` spins, and it returns at the first reading
-- of another moment, with the sequence number 0: here after any readings of the exhausted
-- millisecond, without other calls, as long as the count of the calls stays below 2 ^ 32.
next_id_after_spin :
    (g : SnowflakeGenerator) (spun : List Reading) (now : Reading) (later : List Reading)
    → g.seq.server_id ≡ g.server_id
    → seq_max ≤ g.seq.counter
    → g.seq.counter + length spun < 2 ^ 32
    → InMoment g.seq.seconds g.seq.ms spun
    → now_relative now ≢ (g.seq.seconds, g.seq.ms)
    → (next_id g (map alone (spun ++ now ∷ later))).1
      ≡ some (encode (now_relative now).0 (now_relative now).1 g.server_id g.is_cli 0)
unfolding next_id others alloc next_seq
next_id_after_spin g [] now later e full f m d = ground arith
next_id_after_spin g (one ∷ spun) now later e full f (m, ms) d =
    ground (arith, next_id_after_spin (read_next g one) spun now later)
