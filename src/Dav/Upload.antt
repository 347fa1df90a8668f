-- ===== src/Dav/Upload.antt =====
-- core-rs/crates/nc-dav/src/upload.rs: the sessions of chunked uploads. A map is the list of its
-- entries, one for each key, in the map's order.
pub mod Chunks
pub mod Sessions
mod Tests
use nc_server_rs.Prelude.{
  ℕ, suc, ◌+◌, ◌^◌, ◌%◌, Bool, true, false, ◌==◌, Option, none, some, List, [], ◌∷◌, if◌then◌else◌,
  ◌>>=◌, length, leb,
}
use nc_server_rs.Prelude.Int.{ℤ, leb_ℤ, pos, negsuc, pos_part, neg_part}
use nc_server_rs.Prelude.Text.{Text, text_eq}

pub record Chunk : Type 0 where
  pub part_id : ℤ
  pub size : ℕ

pub record UploadMetadata : Type 0 where
  pub upload_id : Text
  pub target_path : Text
  pub target_id : Option ℤ
  pub chunks : List Chunk
  pub expected_size : Option ℕ

abbrev pub Store : Type 0
Store = List UploadMetadata

abbrev pub same_part : ℤ → ℤ → Bool
same_part a b = if pos_part a == pos_part b then neg_part a == neg_part b else false

unfoldable pub insert_chunk : ℤ → ℕ → List Chunk → List Chunk
insert_chunk part_id size [] = record { part_id = part_id; size = size } ∷ []
insert_chunk part_id size (c ∷ cs) =
    let rest = insert_chunk part_id size cs in
    if same_part c.part_id part_id then record { part_id = part_id; size = size } ∷ cs else c ∷ rest

unfoldable pub find_session : Text → Store → Option UploadMetadata
find_session upload_id [] = none
find_session upload_id (m ∷ ms) =
    let rest = find_session upload_id ms in if text_eq m.upload_id upload_id then some m else rest

-- Replaces the entry of its key, or adds one.
unfoldable pub put_session : UploadMetadata → Store → Store
put_session new [] = new ∷ []
put_session new (m ∷ ms) =
    let rest = put_session new ms in
    if text_eq m.upload_id new.upload_id then new ∷ ms else m ∷ rest

unfoldable pub create_session : Text → Text → Option ℤ → Store → Store
create_session upload_id target_path target_id store =
    put_session
      (record {
        upload_id = upload_id;
        target_path = target_path;
        target_id = target_id;
        chunks = [];
        expected_size = none;
      })
      store

-- Whether the session is there, and the store after it.
unfoldable pub add_chunk : Text → ℤ → ℕ → Store → Bool × Store
add_chunk upload_id part_id size store = elim (find_session upload_id store) [
  | none ↦ (false, store)
  | some m ↦ (true, put_session (record m { chunks = insert_chunk part_id size m.chunks }) store)
]

unfoldable pub set_expected_size : Text → ℕ → Store → Bool × Store
set_expected_size upload_id size store = elim (find_session upload_id store) [
  | none ↦ (false, store)
  | some m ↦ (true, put_session (record m { expected_size = some size }) store)
]

unfoldable pub total : List Chunk → ℕ
total [] = 0
total (c ∷ cs) = c.size + total cs

-- The sum of the sizes, which in a release build wraps at 64 bits.
unfoldable pub get_total_chunk_size : Text → Store → Option ℕ
get_total_chunk_size upload_id store =
    find_session upload_id store >>= λ m. some (total m.chunks % 2 ^ 64)

unfoldable pub insert_sorted : ℤ → List ℤ → List ℤ
insert_sorted id [] = id ∷ []
insert_sorted id (i ∷ ids) =
    let rest = insert_sorted id ids in if leb_ℤ id i then id ∷ i ∷ ids else i ∷ rest

unfoldable pub sorted_ids : List Chunk → List ℤ
sorted_ids [] = []
sorted_ids (c ∷ cs) = insert_sorted c.part_id (sorted_ids cs)

unfoldable pub get_sorted_part_ids : Text → Store → Option (List ℤ)
get_sorted_part_ids upload_id store =
    find_session upload_id store >>= λ m. some (sorted_ids m.chunks)

unfoldable pub drop_session : Text → Store → Store
drop_session upload_id [] = []
drop_session upload_id (m ∷ ms) =
    let rest = drop_session upload_id ms in if text_eq m.upload_id upload_id then ms else m ∷ rest

unfoldable pub remove_session : Text → Store → Option UploadMetadata × Store
remove_session upload_id store = (find_session upload_id store, drop_session upload_id store)

unfoldable pub session_exists : Text → Store → Bool
session_exists upload_id store = elim (find_session upload_id store) [
  | none ↦ false
  | some m ↦ true
]

unfoldable pub session_count : Store → ℕ
session_count store = length store
