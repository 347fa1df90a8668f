-- ===== src/Preview/Coalescer/Tests.antt =====
-- Runs of core-rs/crates/nc-preview/src/concurrency.rs at numbers of its own tests, and the laws
-- after two requests for one preview.
use nc_server_rs.Prelude.{◌≡◌, refl, none, some, [], ◌∷◌}
use nc_server_rs.Prelude.Int.{pos, negsuc}
use nc_server_rs.Preview.Coalescer.{
  CoalesceKey, State, initial, get, remove, run, here, request, settle, finish, Reachable, start,
  step, concurrency_new, concurrency_all, Flight,
}
use nc_server_rs.Preview.Coalescer.Single.{IsConsistent, Reachable-IsConsistent}

permits :
    (concurrency_new (some (pos 3)) 8 ≡ 3)
    × (concurrency_new (some (negsuc 4)) 8 ≡ 8)
    × (concurrency_new none 0 ≡ 4)
    × (concurrency_all (some (pos 2)) 5 4 ≡ 5)
    × (concurrency_all none 4 4 ≡ 8)
unfolding concurrency_new concurrency_all
permits = (refl, refl, refl, refl, refl)

abbrev key : CoalesceKey
key = record { file_id = 1; width = 256; height = 256; cropped = 1; version_id = 0 }

abbrev flight : Flight
flight = record { key = key; generation = 0 }

abbrev running : State
running = record { in_flight = flight ∷ []; drivers = flight ∷ []; settled = []; next = 1 }

first_runs : running ≡ (run key initial).1
unfolding run get
first_runs = refl

second_joins : (run key running).0 ≡ 0
unfolding run get
second_joins = refl

reached : Reachable running
reached = step initial running start (request key initial running first_runs)

reached_end : Reachable (record { in_flight = []; drivers = []; settled = 0 ∷ []; next = 1 })
unfolding remove
reached_end =
    step (record running { settled = 0 ∷ [] }) _
      (step running _ reached (settle flight [] running _ (here flight []) refl refl))
      (finish flight [] (record running { settled = 0 ∷ [] }) _ (here flight []) refl refl)

Reachable-IsConsistent_example : IsConsistent running
Reachable-IsConsistent_example = Reachable-IsConsistent running reached
