-- ===== src/Dav/Directories/Linked.antt =====
-- core-rs/crates/nc-dav/src/mutations.rs: the tree of the rows, and a row that comes to it.
use nc_server_rs.Prelude.{
  ◌==◌, ◌≡◌, refl, sym, ◌∙◌, ap, true, false, ◌&&◌, none, some, List, ◌∷◌, arith, Bool-cases, inl,
  inr,
}
use nc_server_rs.Prelude.Int.{ℤ, pos}
use nc_server_rs.Prelude.Text.{Text, text_eq, text_eq_sound, text_eq_refl, contains}
use nc_server_rs.Dav.Paths.{parent_fc_path}
use nc_server_rs.Dav.Propagator.{Row, lookup_by_hash, lookup_by_path}
use nc_server_rs.Dav.Directories.Tree.{Node, node, node_if, node_by_hash, node_of}
use nc_server_rs.Dav.Directories.{World, Ensured, row_of, error, find}

module _ (w : World) where
  -- No row goes away, or goes to another parent.
  abbrev pub Keeps : List Row → List Row → Type 0
  Keeps before after =
      (path : Text) (n : Node) → node_of w path before ≡ some n → node_of w path after ≡ some n

  -- The parent of a row below the top is the row of the path that its path is below.
  abbrev pub IsLinked : List Row → Type 0
  IsLinked rows =
      (path : Text) (n : Node)
      → contains b'/' path ≡ true
      → node_of w path rows ≡ some n
      → (m : Node) × (node_of w (parent_fc_path path) rows ≡ some m) × (n.1 ≡ pos m.0)

  -- What other requests do keeps the rows and leaves a tree a tree.
  abbrev pub IsFair : Type 0
  IsFair =
      (path : Text) (rows : List Row)
      → Keeps rows (w.arrives path rows) × (IsLinked rows → IsLinked (w.arrives path rows))

  abbrev pub HasRow : Ensured → Text → List Row → Type 0
  HasRow (row_of row) path rows = node_of w path rows ≡ some (node row)
  HasRow (error e) path rows = Unit

  abbrev pub SameNodes : List Row → List Row → Type 0
  SameNodes before after = (path : Text) → node_of w path after ≡ node_of w path before

  pub same-Keeps : (before after : List Row) → SameNodes before after → Keeps before after
  same-Keeps before after same path n there = same path ∙ there

  pub same-IsLinked :
      (before after : List Row) → SameNodes before after → IsLinked before → IsLinked after
  same-IsLinked before after same linked path n below there =
      let (m, up, link) = linked path n below (sym (same path) ∙ there) in
      (m, same (parent_fc_path path) ∙ up, link)

  pub found-node :
      (path : Text) (rows : List Row) (row : Row)
      → find w path rows ≡ some row
      → node_of w path rows ≡ some (node row)
  unfolding lookup_by_path
  found-node path rows row there = ap node_if there

  pub insert-here :
      (path : Text) (row : Row) (rows : List Row)
      → row.storage ≡ w.storage
      → row.path_hash ≡ w.hash path
      → node_of w path (row ∷ rows) ≡ some (node row)
  unfolding lookup_by_hash
  insert-here path row rows s h =
      let same_hash : text_eq row.path_hash (w.hash path) ≡ true =
        ap (λ (t : Text). text_eq t (w.hash path)) h ∙ text_eq_refl (w.hash path) in
      let hit : (row.storage == w.storage && text_eq row.path_hash (w.hash path)) ≡ true =
        ground arith in
      rw hit refl

  insert-other :
      (path : Text) (row : Row) (rows : List Row)
      → text_eq row.path_hash (w.hash path) ≡ false
      → node_of w path (row ∷ rows) ≡ node_of w path rows
  unfolding lookup_by_hash
  insert-other path row rows other =
      let miss : (row.storage == w.storage && text_eq row.path_hash (w.hash path)) ≡ false =
        ground arith in
      rw miss refl

  pub missing-node :
      (path : Text) (rows : List Row) → find w path rows ≡ none → node_of w path rows ≡ none
  unfolding lookup_by_path
  missing-node path rows gone = ap node_if gone

  -- A row for a path that has none.
  pub insert-Keeps :
      (path : Text) (row : Row) (rows : List Row)
      → row.path_hash ≡ w.hash path
      → node_of w path rows ≡ none
      → Keeps rows (row ∷ rows)
  insert-Keeps path row rows h gone other n there =
      elim (Bool-cases (text_eq row.path_hash (w.hash other))) [
        | inr apart ↦ insert-other other row rows apart ∙ there
        | inl same ↦
            let e : w.hash other ≡ w.hash path =
              sym (text_eq_sound row.path_hash (w.hash other) same) ∙ h in
            let both : none ≡ some n =
              sym gone ∙ (ap (λ (t : Text). node_by_hash w.storage t rows) (sym e) ∙ there) in
            absurd (cc)
      ]

  -- A parent that fits the path.
  abbrev pub HasParent : Text → ℤ → List Row → Type 0
  HasParent path parent rows =
      contains b'/' path ≡ true
      → (m : Node) × (node_of w (parent_fc_path path) rows ≡ some m) × (parent ≡ pos m.0)

  pub trans-Keeps : (a b c : List Row) → Keeps a b → Keeps b c → Keeps a c
  trans-Keeps a b c first second path n there = second path n (first path n there)

  pub HasParent-Keeps :
      (path : Text) (parent : ℤ) (before after : List Row)
      → Keeps before after
      → HasParent path parent before
      → HasParent path parent after
  HasParent-Keeps path parent before after keeps has below =
      let (m, up, link) = has below in (m, keeps (parent_fc_path path) m up, link)

  module _ (injective : (a b : Text) → w.hash a ≡ w.hash b → a ≡ b) where
    pub insert-IsLinked :
        (path : Text) (row : Row) (rows : List Row)
        → row.storage ≡ w.storage
        → row.path_hash ≡ w.hash path
        → node_of w path rows ≡ none
        → HasParent path row.parent rows
        → IsLinked rows
        → IsLinked (row ∷ rows)
    insert-IsLinked path row rows s h gone has linked other n below there =
        let keeps = insert-Keeps path row rows h gone in
        elim (Bool-cases (text_eq row.path_hash (w.hash other))) [
          | inr apart ↦
              let (m, up, link) =
                linked other n below (sym (insert-other other row rows apart) ∙ there) in
              (m, keeps (parent_fc_path other) m up, link)
          | inl same ↦
              let e : other ≡ path =
                injective other path (sym (text_eq_sound row.path_hash (w.hash other) same) ∙ h) in
              let e_node : some n ≡ some (node row) =
                sym there
                ∙ (ap (λ (t : Text). node_of w t (row ∷ rows)) e ∙ insert-here path row rows s h) in
              let e_n : n ≡ node row = cc in
              let (m, up, link) = has (ap (contains b'/') (sym e) ∙ below) in
              (
                m,
                ap (λ (t : Text). node_of w (parent_fc_path t) (row ∷ rows)) e
                    ∙ keeps (parent_fc_path path) m up,
                ap (λ (x : Node). x.1) e_n ∙ link,
              )
        ]
