-- ===== src/Db/Mime.antt =====
-- core-rs/crates/nc-db/src/mime.rs: the cache of the table of mimetypes. The maps are functions from
-- their keys, the table is the list of its rows.
pub mod Faithful
mod Tests
use nc_server_rs.Prelude.{
  ℕ, ◌==◌, Bool, true, false, not, ◌&&◌, Option, none, some, List, [], ◌∷◌, if◌then◌else◌, any,
}
use nc_server_rs.Prelude.Text.{Text, text_eq}

pub record MimeCache : Type 0 where
  pub by_name : Text → Option ℕ
  pub by_id : ℕ → Option Text

abbrev pub empty_cache : MimeCache
empty_cache = record { by_name = λ mime. none; by_id = λ id. none }

unfoldable pub get_id : MimeCache → Text → Option ℕ
get_id cache mime = cache.by_name mime

unfoldable pub get_name : MimeCache → ℕ → Option Text
get_name cache id = cache.by_id id

unfoldable pub insert : MimeCache → ℕ → Text → MimeCache
insert cache id mime = record {
  by_name = λ m. if text_eq m mime then some id else cache.by_name m;
  by_id = λ i. if i == id then some mime else cache.by_id i;
}

abbrev pub MimeTable : Type 0
MimeTable = List (ℕ × Text)

unfoldable pub select_id : Text → MimeTable → Option ℕ
select_id mime [] = none
select_id mime ((id, m) ∷ table) =
    let rest = select_id mime table in if text_eq m mime then some id else rest

-- Refused where the type is there: the index on it is unique.
unfoldable pub insert_mime : ℕ → Text → MimeTable → MimeTable
insert_mime new_id mime table = elim (select_id mime table) [
  | some id ↦ table
  | none ↦ (new_id, mime) ∷ table
]

-- Another request may have put the type into the cache before.
unfoldable pub remember : MimeCache → ℕ → Text → MimeCache
remember cache id mime = elim (get_id cache mime) [
  | some known ↦ cache
  | none ↦ insert cache id mime
]

abbrev pub or_first : Option ℕ → ℕ
or_first (some id) = id
or_first none = 1

-- `inserts` and `queries` say whether the database answers the two statements.
unfoldable pub get_or_insert_mime_id :
    Bool → Bool → ℕ → MimeCache → Text → MimeTable → ℕ × MimeCache × MimeTable
get_or_insert_mime_id inserts queries new_id cache mime table = elim (get_id cache mime) [
  | some id ↦ (id, cache, table)
  | none ↦
      let rows = if inserts then insert_mime new_id mime table else table in
      let id = or_first (if queries then select_id mime rows else none) in
      (id, remember cache id mime, rows)
]

unfoldable pub fill : MimeTable → MimeCache → MimeCache
fill [] cache = cache
fill ((id, mime) ∷ table) cache = fill table (insert cache id mime)

unfoldable pub load_mime_cache : MimeTable → MimeCache
load_mime_cache table = fill table empty_cache

-- A load that fails leaves the cache.
unfoldable pub refresh_mime_cache : Bool → MimeTable → MimeCache → MimeCache
refresh_mime_cache loads table cache = if loads then load_mime_cache table else cache
