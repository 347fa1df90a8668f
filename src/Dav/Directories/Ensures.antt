-- ===== src/Dav/Directories/Ensures.antt =====
-- core-rs/crates/nc-dav/src/mutations.rs: `ensure_parent_dir` leaves the rows a tree, and the row
-- that it gives is there.
use nc_server_rs.Prelude.{List}
use nc_server_rs.Prelude.Text.{Text}
use nc_server_rs.Dav.Propagator.{Row}
use nc_server_rs.Dav.Directories.{World, Tables, Ensured}
use nc_server_rs.Dav.Directories.Linked.{Keeps, IsLinked, HasRow}

module _ (w : World) where
  -- The tree is one, nothing in it is lost, and a row that was given is there.
  pub record IsSound (path : Text) (before : List Row) (result : Ensured × Tables) : Type 0 where
    pub kept : Keeps w before result.1.rows
    pub linked : IsLinked w result.1.rows
    pub has_row : HasRow w result.0 path result.1.rows
