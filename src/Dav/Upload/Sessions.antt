-- ===== src/Dav/Upload/Sessions.antt =====
-- core-rs/crates/nc-dav/src/upload.rs: what an operation on one session leaves in the store.
use nc_server_rs.Prelude.{
  ℕ, ◌+◌, ◌≡◌, refl, true, false, Option, none, some, List, [], ◌∷◌, arith, if◌then◌else◌,
  Option-cases, inl, inr,
}
use nc_server_rs.Prelude.Int.{ℤ}
use nc_server_rs.Prelude.Text.{Text, text_eq, text_eq_sound, text_eq_refl}
use nc_server_rs.Dav.Upload.{
  UploadMetadata, Store, find_session, put_session, add_chunk, create_session, set_expected_size,
  insert_chunk, total, get_total_chunk_size, get_sorted_part_ids, sorted_ids, session_exists,
}
use nc_server_rs.Dav.Upload.Chunks.{
  size_of, total-insert_chunk, IsSorted, sorted_ids-IsSorted, times, times_stored, times-sorted_ids,
}

pub find_session-put_session :
    (id : Text) (new : UploadMetadata) (store : Store)
    → find_session id (put_session new store)
      ≡ (if text_eq new.upload_id id then some new else find_session id store)
unfolding find_session put_session
find_session-put_session id new [] = refl
find_session-put_session id new (m ∷ ms) = ground (
  arith,
  find_session-put_session id new ms,
  text_eq_sound m.upload_id new.upload_id,
  text_eq_sound m.upload_id id,
  text_eq_sound new.upload_id id,
  text_eq_refl id,
)

found_id :
    (id : Text) (store : Store) (m : UploadMetadata)
    → find_session id store ≡ some m
    → text_eq m.upload_id id ≡ true
unfolding find_session
found_id id [] m e = absurd (cc)
found_id id (m' ∷ ms) m e = ground (arith, found_id id ms m)

-- What a chunk does to the store of a session that is there.
pub record Counted (id other : Text) (part_id : ℤ) (size : ℕ) (m : UploadMetadata)
    (before after : Store) : Type 0 where
  pub session : UploadMetadata
  pub found : find_session id after ≡ some session
  pub grown : total session.chunks + size_of part_id m.chunks ≡ total m.chunks + size
  pub kept : (session.target_path ≡ m.target_path) × (session.expected_size ≡ m.expected_size)
  pub apart : text_eq id other ≡ false → find_session other after ≡ find_session other before

-- A chunk for a session that is there is accepted: the total grows by its size, less the size that
-- the same part had before, the target and the expected size stay, and every other session stays.
add_chunk-Counted :
    (id other : Text) (part_id : ℤ) (size : ℕ) (store : Store) (m : UploadMetadata)
    → find_session id store ≡ some m
    → ((add_chunk id part_id size store).0 ≡ true)
      × Counted id other part_id size m store (add_chunk id part_id size store).1
unfolding add_chunk
add_chunk-Counted id other part_id size store m e =
    let same = text_eq_sound m.upload_id id (found_id id store m e) in
    let new : UploadMetadata = record m { chunks = insert_chunk part_id size m.chunks } in
    let result : add_chunk id part_id size store ≡ (true, put_session new store) = ground arith in
    rw result (
      refl,
      record {
        session = new;
        found = ground (arith, find_session-put_session id new store, found_id id store m e);
        grown = total-insert_chunk part_id size m.chunks;
        kept = (refl, refl);
        apart = λ h. ground (arith, find_session-put_session other new store, same);
      },
    )

-- A chunk or a size for a session that is not there is refused, and the store stays.
pub absent_session :
    (id : Text) (part_id : ℤ) (size : ℕ) (store : Store)
    → session_exists id store ≡ false
    → (add_chunk id part_id size store ≡ (false, store))
      × (set_expected_size id size store ≡ (false, store))
      × (get_total_chunk_size id store ≡ none)
      × (get_sorted_part_ids id store ≡ none)
unfolding session_exists add_chunk set_expected_size get_total_chunk_size get_sorted_part_ids
absent_session id part_id size store h = elim (Option-cases (find_session id store)) [
  | inl missed ↦ (ground arith, ground arith, ground arith, ground arith)
  | inr (m, found) ↦ absurd (ground arith)
]

-- The part ids of a session come in ascending order, each as often as a chunk of the session has
-- it, whatever the order of the map is.
get_sorted_part_ids_lem :
    (id : Text) (store : Store) (m : UploadMetadata)
    → find_session id store ≡ some m
    → (ids : List ℤ) × (get_sorted_part_ids id store ≡ some ids)
      × IsSorted ids
      × ((part_id : ℤ) → times part_id ids ≡ times_stored part_id m.chunks)
unfolding get_sorted_part_ids
get_sorted_part_ids_lem id store m e = (
  sorted_ids m.chunks,
  ground arith,
  sorted_ids-IsSorted m.chunks,
  λ part_id. times-sorted_ids part_id m.chunks,
)

-- A created session is found with no chunk and no expected size, whatever was there before it, and
-- every other session stays.
pub create_session_lem :
    (id other path : Text) (target_id : Option ℤ) (store : Store)
    → ((m : UploadMetadata) × (find_session id (create_session id path target_id store) ≡ some m)
        × (m.target_path ≡ path)
        × (m.chunks ≡ [])
        × (m.expected_size ≡ none))
      × (text_eq id other ≡ false
          → find_session other (create_session id path target_id store) ≡ find_session other store)
unfolding create_session
create_session_lem id other path target_id store =
    let new : UploadMetadata = record {
      upload_id = id;
      target_path = path;
      target_id = target_id;
      chunks = [];
      expected_size = none;
    } in
    (
      (
        new,
        ground (arith, find_session-put_session id new store, text_eq_refl id),
        refl,
        refl,
        refl,
      ),
      λ h. ground (arith, find_session-put_session other new store),
    )
