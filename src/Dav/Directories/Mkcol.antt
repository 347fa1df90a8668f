-- ===== src/Dav/Directories/Mkcol.antt =====
-- core-rs/crates/nc-dav/src/mutations.rs: what `create_dir_row` does to the tree of the rows.
use nc_server_rs.Prelude.{◌≡◌, Option, none, some, List}
use nc_server_rs.Prelude.Int.{pos}
use nc_server_rs.Prelude.Text.{Text}
use nc_server_rs.Dav.Paths.{parent_fc_path}
use nc_server_rs.Dav.Propagator.{Row}
use nc_server_rs.Dav.Directories.Tree.{Node, node_of}
use nc_server_rs.Dav.Directories.{FsError, World, Tables}
use nc_server_rs.Dav.Directories.Linked.{Keeps, IsLinked}

module _ (w : World) where
  -- What MKCOL owes: it succeeds only where there was no row, and then the new row is the
  -- child of the row of its parent's path.
  pub record IsMade (fc_path : Text) (before : List Row) (result : Option FsError × Tables)
      : Type 0 where
    pub kept : Keeps w before result.1.rows
    pub linked : IsLinked w result.1.rows
    pub made :
        result.0 ≡ none
        → (node_of w fc_path before ≡ none)
          × ((m : Node) × (node_of w (parent_fc_path fc_path) result.1.rows ≡ some m)
              × (node_of w fc_path result.1.rows ≡ some (w.new_id fc_path, pos m.0)))
