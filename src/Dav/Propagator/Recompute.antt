-- ===== src/Dav/Propagator/Recompute.antt =====
-- core-rs/crates/nc-dav/src/propagator.rs: the recomputation of a folder's size.
use nc_server_rs.Prelude.{
  ℕ, ◌≡◌, refl, sym, ◌∙◌, Bool, true, false, ◌&&◌, ◌||◌, ap, if◌then◌else◌, Option, none, some,
  List, [], ◌∷◌, ◌==◌, arith, All, Bool-cases, inl, inr, any,
}
use nc_server_rs.Prelude.Int.{eq_ℤ, ℤ, pos, eq_of_parts, ◌≤ℤ◌, ◌+ℤ◌}
use nc_server_rs.Prelude.Text.{Text}
use nc_server_rs.Dav.Propagator.{
  Row, lookup_by_hash, lookup_by_path, set_size, folder_size, total_size, min_size, min_ℤ,
  unscanned, recompute_folder_size, is_child,
}
use nc_server_rs.Dav.Propagator.Update.{HasKeys}

set_size_absent :
    (id other : ℕ) (size : ℤ) (rows : List Row)
    → any (λ r. r.fileid == id) (set_size other size rows) ≡ any (λ r. r.fileid == id) rows
unfolding set_size
set_size_absent id other size [] = refl
set_size_absent id other size (row ∷ rows) = ground (arith, set_size_absent id other size rows)

pub set_size-HasKeys :
    (id : ℕ) (size : ℤ) (rows : List Row) → HasKeys rows → HasKeys (set_size id size rows)
unfolding set_size
set_size-HasKeys id size [] k = tt
set_size-HasKeys id size (row ∷ rows) (own, k) = elim (Bool-cases (row.fileid == id)) [
  | inl here ↦
      rw here (set_size_absent row.fileid id size rows ∙ own, set_size-HasKeys id size rows k)
  | inr other ↦
      rw other (set_size_absent row.fileid id size rows ∙ own, set_size-HasKeys id size rows k)
]

-- A row with the key is no child of it.
abbrev pub NotOwnChild : ℕ → ℕ → Row → Type 0
NotOwnChild storage id row = (row.fileid == id) ≡ true → is_child storage id row ≡ false

-- The sizes of the rows of a storage whose parent is a folder.
abbrev pub child_sizes : ℕ → ℕ → List Row → List ℤ
child_sizes storage id [] = []
child_sizes storage id (row ∷ rows) =
    let rest = child_sizes storage id rows in
    if eq_ℤ row.parent (pos id) && row.storage == storage then row.size ∷ rest else rest

-- The children of a folder do not change with the folder's own size.
child_sizes-set_size :
    (storage id : ℕ) (size : ℤ) (rows : List Row)
    → All (NotOwnChild storage id) rows
    → child_sizes storage id (set_size id size rows) ≡ child_sizes storage id rows
unfolding set_size
child_sizes-set_size storage id size [] h = refl
child_sizes-set_size storage id size (row ∷ rows) (p, h) =
    ground (arith, child_sizes-set_size storage id size rows h, p)

abbrev pub sum : List ℤ → ℤ
sum [] = pos 0
sum (size ∷ sizes) = size +ℤ sum sizes

-- The size that the sizes of its children give a folder.
pub data Summary (sizes : List ℤ) (size : ℤ) : Type 0 where
  incomplete : any (λ s. eq_ℤ s unscanned) sizes ≡ true → size ≡ unscanned → Summary sizes size
  complete : any (λ s. eq_ℤ s unscanned) sizes ≡ false → size ≡ sum sizes → Summary sizes size

-- A size is -1 or a number of bytes.
abbrev pub IsSize : Row → Type 0
IsSize row = unscanned ≤ℤ row.size

abbrev least_of : Option ℤ → ℤ
least_of least = elim least [ some size ↦ size | none ↦ pos 0 ]

-- `MIN` of one more size.
abbrev joined : ℤ → Option ℤ → Option ℤ
joined size least = elim least [ some other ↦ some (min_ℤ other size) | none ↦ some size ]

min_ℤ-unscanned :
    (a b : ℤ)
    → unscanned ≤ℤ a
    → unscanned ≤ℤ b
    → eq_ℤ (min_ℤ a b) unscanned ≡ (eq_ℤ b unscanned || eq_ℤ a unscanned)
min_ℤ-unscanned a b h k = ground arith

joined-unscanned :
    (size : ℤ) (least : Option ℤ)
    → unscanned ≤ℤ size
    → unscanned ≤ℤ least_of least
    → eq_ℤ (least_of (joined size least)) unscanned
      ≡ (eq_ℤ size unscanned || eq_ℤ (least_of least) unscanned)
joined-unscanned size none h k = elim (Bool-cases (eq_ℤ size unscanned)) [
  | inl it ↦ rw it refl
  | inr other ↦ rw other refl
]
joined-unscanned size (some least) h k = min_ℤ-unscanned least size k h

module _ (storage id : ℕ) where
  total_size-sum :
      (rows : List Row) → total_size storage id rows ≡ sum (child_sizes storage id rows)
  unfolding total_size
  total_size-sum [] = refl
  total_size-sum (row ∷ rows) = ground (arith, total_size-sum rows)

  least-IsSize :
      (rows : List Row) → All IsSize rows → unscanned ≤ℤ least_of (min_size storage id rows)
  unfolding min_size
  least-IsSize [] h = omega arith
  least-IsSize (row ∷ rows) (p, h) = ground (arith, least-IsSize rows h, p)

  least-unscanned :
      (rows : List Row)
      → All IsSize rows
      → eq_ℤ (least_of (min_size storage id rows)) unscanned
        ≡ any (λ s. eq_ℤ s unscanned) (child_sizes storage id rows)
  unfolding min_size
  least-unscanned [] h = refl
  least-unscanned (row ∷ rows) (p, h) =
      let rest = least-unscanned rows h in
      let least = min_size storage id rows in
      elim (Bool-cases (eq_ℤ row.parent (pos id) && row.storage == storage)) [
        | inl child ↦ rw child (
            joined-unscanned row.size least p (least-IsSize rows h)
            ∙ ap (λ (b : Bool). eq_ℤ row.size unscanned || b) rest)
        | inr other ↦ rw other rest
      ]

  folder_size-Summary :
      (rows : List Row)
      → All IsSize rows
      → Summary (child_sizes storage id rows) (folder_size storage id rows)
  unfolding folder_size
  folder_size-Summary rows h =
      let least = least-unscanned rows h in
      elim (Bool-cases (eq_ℤ (least_of (min_size storage id rows)) unscanned)) [
        | inl missing ↦ incomplete (sym least ∙ missing) (ground arith)
        | inr all ↦ complete (sym least ∙ all) (ground (arith, total_size-sum rows))
      ]

lookup_after :
    (storage : ℕ) (hash : Text) (size : ℤ) (rows : List Row) (folder : Row)
    → lookup_by_hash storage hash rows ≡ some folder
    → lookup_by_hash storage hash (set_size folder.fileid size rows)
      ≡ some (record folder { size = size })
unfolding lookup_by_hash set_size
lookup_after storage hash size [] folder e = absurd (cc)
lookup_after storage hash size (row ∷ rows) folder e =
    ground (arith, lookup_after storage hash size rows folder)

eq_ℤ_sound : (a b : ℤ) → eq_ℤ a b ≡ true → a ≡ b
eq_ℤ_sound a b h = ground (arith, eq_of_parts a b)

module _ (hash : Text → Text) (storage : ℕ) where
  -- A folder's row is there, with the size that its children give.
  pub record Current (path : Text) (rows : List Row) : Type 0 where
    pub folder : Row
    pub found : lookup_by_path hash storage path rows ≡ some folder
    pub size_is : Summary (child_sizes storage folder.fileid rows) folder.size

  -- After a recomputation that succeeds, a folder that has a row, and is not its own child, has
  -- the size that its children give, where no size is below -1: -1 if one of them has it, else
  -- their sum.
  pub recompute_folder_size-Current :
      (query_ok : Text → Bool) (path : Text) (rows : List Row) (folder : Row)
      → lookup_by_path hash storage path rows ≡ some folder
      → All (NotOwnChild storage folder.fileid) rows
      → All IsSize rows
      → query_ok path ≡ true
      → Current path (recompute_folder_size hash storage query_ok path rows).1
  unfolding recompute_folder_size lookup_by_path
  recompute_folder_size-Current query_ok path rows folder e apart sizes queried =
      let new_size = folder_size storage folder.fileid rows in
      let children = folder_size-Summary storage folder.fileid rows sizes in
      elim (Bool-cases (eq_ℤ new_size folder.size)) [
        | inl same ↦
            let kept : (recompute_folder_size hash storage query_ok path rows).1 ≡ rows =
              ground arith in
            rw kept (record {
              folder = folder;
              found = e;
              size_is = rw (eq_ℤ_sound new_size folder.size same) at children;
            })
        | inr other ↦
            let moved : (recompute_folder_size hash storage query_ok path rows).1
                ≡ set_size folder.fileid new_size rows =
              ground arith in
            rw moved (record {
              folder = record folder { size = new_size };
              found = lookup_after storage (hash path) new_size rows folder e;
              size_is =
                  rw (child_sizes-set_size storage folder.fileid new_size rows apart) children;
            })
      ]
