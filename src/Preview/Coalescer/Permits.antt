-- ===== src/Preview/Coalescer/Permits.antt =====
-- core-rs/crates/nc-preview/src/concurrency.rs: the number of permits.
use nc_server_rs.Prelude.{ℕ, ◌≤◌, ◌≡◌, Option, none, some, arith}
use nc_server_rs.Prelude.Int.{ℤ, pos, negsuc}
use nc_server_rs.Preview.Coalescer.{concurrency_new, concurrency_all, generation_permits}

-- The semaphore always has a permit; a configured value that is positive is the number itself, and
-- the number for all previews is never below the one for new ones.
pub permits_lem :
    (configured configured_all : Option ℤ) (hw n : ℕ)
    → (1 ≤ generation_permits configured hw)
      × (generation_permits configured hw ≡ concurrency_new configured hw)
      × (1 ≤ n → concurrency_new (some (pos n)) hw ≡ n)
      × (concurrency_new configured hw
          ≤ concurrency_all configured_all (concurrency_new configured hw) hw)
unfolding generation_permits concurrency_new concurrency_all
permits_lem none configured_all hw n = ground arith
permits_lem (some (pos m)) configured_all hw n = ground arith
permits_lem (some (negsuc m)) configured_all hw n = ground arith
