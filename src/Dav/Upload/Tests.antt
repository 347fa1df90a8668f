-- ===== src/Dav/Upload/Tests.antt =====
-- Runs of core-rs/crates/nc-dav/src/upload.rs, and the laws at a session with one chunk.
use nc_server_rs.Prelude.{◌≡◌, refl, false, none, some, [], ◌∷◌}
use nc_server_rs.Prelude.Int.{pos}
use nc_server_rs.Prelude.Text.{Text, codes, text_eq}
use nc_server_rs.Dav.Upload.{
  UploadMetadata, Store, find_session, put_session, insert_chunk, add_chunk, create_session,
  get_total_chunk_size, get_sorted_part_ids, sorted_ids, insert_sorted, total, session_exists,
  remove_session, drop_session,
}

abbrev id : Text
id = codes "u1"

abbrev session : UploadMetadata
session = record {
  upload_id = id;
  target_path = codes "f";
  target_id = none;
  chunks = record { part_id = pos 2; size = 7 } ∷ [];
  expected_size = none;
}

abbrev store : Store
store = session ∷ []

uploads :
    ((add_chunk id (pos 2) 7 (create_session id (codes "f") none [])).1 ≡ store)
    × (get_sorted_part_ids id (add_chunk id (pos 1) 5 store).1 ≡ some (pos 1 ∷ pos 2 ∷ []))
    × (get_total_chunk_size id (add_chunk id (pos 2) 5 store).1 ≡ some 5)
    × ((remove_session id store).1 ≡ [])
unfolding add_chunk create_session put_session find_session insert_chunk get_sorted_part_ids
    sorted_ids insert_sorted get_total_chunk_size total remove_session drop_session text_eq
uploads = (refl, refl, refl, refl)

there : find_session id store ≡ some session
unfolding find_session text_eq
there = refl

nowhere : session_exists id [] ≡ false
unfolding session_exists find_session
nowhere = refl
