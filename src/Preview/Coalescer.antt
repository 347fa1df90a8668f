-- ===== src/Preview/Coalescer.antt =====
-- core-rs/crates/nc-preview/src/concurrency.rs: how many previews are generated at a time, and how
-- the requests for one preview share its generation. A generation is known by its number.
pub mod Single
pub mod Permits
mod Tests
use nc_server_rs.Prelude.{
  ℕ, suc, ◌*◌, max, ◌≡◌, refl, Bool, true, false, ◌&&◌, Option, none, some, List, [], ◌∷◌, ◌++◌,
  ◌==◌, ltb, if◌then◌else◌, any,
}
use nc_server_rs.Prelude.Int.{ℤ, pos, negsuc, ltb_ℤ, pos_part}

-- A configured value that is positive.
abbrev pub positive : Option ℤ → Option ℕ
positive none = none
positive (some v) = if ltb_ℤ (pos 0) v then some (pos_part v) else none

abbrev pub or_else : Option ℕ → ℕ → ℕ
or_else none fallback = fallback
or_else (some n) fallback = n

unfoldable pub concurrency_new : Option ℤ → ℕ → ℕ
concurrency_new configured hw = or_else (positive configured) (if ltb 0 hw then hw else 4)

unfoldable pub concurrency_all : Option ℤ → ℕ → ℕ → ℕ
concurrency_all configured_all new hw =
    max (or_else (positive configured_all) (if ltb 0 hw then hw * 2 else 8)) new

unfoldable pub generation_permits : Option ℤ → ℕ → ℕ
generation_permits configured_new hw = max (concurrency_new configured_new hw) 1

-- File, width, height, whether cropped, and version, as the numbers of the machine's words.
pub record CoalesceKey : Type 0 where
  pub file_id : ℕ
  pub width : ℕ
  pub height : ℕ
  pub cropped : ℕ
  pub version_id : ℕ

abbrev pub same_key : CoalesceKey → CoalesceKey → Bool
same_key a b =
    a.file_id == b.file_id
    && a.width == b.width
    && a.height == b.height
    && a.cropped == b.cropped
    && a.version_id == b.version_id

-- A key with a generation: an entry of the map in flight, or a driver that has been spawned.
pub record Flight : Type 0 where
  pub key : CoalesceKey
  pub generation : ℕ

-- The map in flight, the drivers that still run, the generations that have settled, and the number
-- of the next one.
pub record State : Type 0 where
  pub in_flight : List Flight
  pub drivers : List Flight
  pub settled : List ℕ
  pub next : ℕ

abbrev pub initial : State
initial = record { in_flight = []; drivers = []; settled = []; next = 0 }

unfoldable pub get : CoalesceKey → List Flight → Option ℕ
get key [] = none
get key (f ∷ fs) = let rest = get key fs in if same_key f.key key then some f.generation else rest

unfoldable pub remove : CoalesceKey → List Flight → List Flight
remove key [] = []
remove key (f ∷ fs) = let rest = remove key fs in if same_key f.key key then fs else f ∷ rest

-- The locked part of `run`: the generation to await, and the state after it.
unfoldable pub run : CoalesceKey → State → ℕ × State
run key s = elim (get key s.in_flight) [
  | some existing ↦ (existing, s)
  | none ↦ (
    s.next,
    record {
      in_flight = record { key = key; generation = s.next } ∷ s.in_flight;
      drivers = record { key = key; generation = s.next } ∷ s.drivers;
      settled = s.settled;
      next = suc s.next;
    },
  )
]

-- A driver between others.
pub data Among : Flight → List Flight → List Flight → Type 0 where
  here : (f : Flight) (fs : List Flight) → Among f (f ∷ fs) fs
  there : (f g : Flight) (fs rest : List Flight) → Among f fs rest → Among f (g ∷ fs) (g ∷ rest)

abbrev pub is_settled : Flight → State → Bool
is_settled f s = any (λ g. g == f.generation) s.settled

-- What happens, one thing at a time: a request, the end of a generation, and the end of a driver
-- whose generation has settled, which drops the key it was spawned with.
pub data Step : State → State → Type 0 where
  request : (key : CoalesceKey) (s t : State) → t ≡ (run key s).1 → Step s t
  settle :
      (f : Flight) (rest : List Flight) (s t : State)
      → Among f s.drivers rest
      → is_settled f s ≡ false
      → t ≡ record s { settled = f.generation ∷ s.settled }
      → Step s t
  finish :
      (f : Flight) (rest : List Flight) (s t : State)
      → Among f s.drivers rest
      → is_settled f s ≡ true
      → t ≡ record s { in_flight = remove f.key s.in_flight; drivers = rest }
      → Step s t

pub data Reachable : State → Type 0 where
  start : Reachable initial
  step : (s t : State) → Reachable s → Step s t → Reachable t
