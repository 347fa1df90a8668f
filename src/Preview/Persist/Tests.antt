-- ===== src/Preview/Persist/Tests.antt =====
-- Runs of core-rs/crates/nc-preview/src/persist.rs and store.rs on a table with a preview of one file,
-- and the laws there. The digest of every text is one text.
use nc_server_rs.Prelude.{◌≡◌, refl, true, false, Option, some, List, [], ◌∷◌, arith}
use nc_server_rs.Prelude.Int.{ℤ, pos, negsuc}
use nc_server_rs.Prelude.Text.{Text, codes, text_eq}
use nc_server_rs.Prelude.Decimal.{decimal, signed_decimal}
use nc_server_rs.Preview.Store.{
  PreviewRow, Stored, postgres, sqlite, extension_for_mime, version_part, preview_name, first_row,
  etag_projection, read_row, rows_of, load_preview_rows, md5_shard, preview_root, preview_byte_path,
}
use nc_server_rs.Preview.Persist.{
  NewPreview, to_row, matches_row, ok, bound, conflicts, fetch_by_key, insert_preview, byte_paths,
  invalidate_previews,
}
use nc_server_rs.Preview.Persist.Written.{IsFound, IsUnique, insert_preview-IsFound}
use nc_server_rs.Preview.Persist.Cleared.{served_paths, IsCleared, invalidate_previews-IsCleared}

abbrev preview : NewPreview
preview = record {
  file_id = pos 123;
  storage_id = pos 1;
  width = 256;
  height = 192;
  mimetype_id = pos 7;
  source_mimetype_id = pos 9;
  max = false;
  cropped = true;
  etag = codes "abc";
  mtime = pos 1000;
  size = pos 2048;
  version_id = negsuc 0;
}

abbrev whole : NewPreview
whole = record preview { width = 4096; height = 3072; max = true; cropped = false }

abbrev table : List Stored
table = bound whole (pos 10) ∷ []

abbrev md5 : Text → Text
md5 text = codes "202cb962"

abbrev get_name : ℤ → Option Text
get_name id = some (codes "image/jpeg")

table-IsUnique : IsUnique table
table-IsUnique = (refl, tt)

insert_preview-IsFound_example :
    (row : PreviewRow) × ((insert_preview postgres true true preview (pos 11) table).0 ≡ ok row)
    × IsFound postgres preview
        (pos 11)
        (omega arith)
        (omega arith)
        (insert_preview postgres true true preview (pos 11) table).1
        row
    × IsUnique (insert_preview postgres true true preview (pos 11) table).1
insert_preview-IsFound_example =
    insert_preview-IsFound postgres preview (pos 11) (omega arith) (omega arith) table
      table-IsUnique

abbrev whole_path : Text
whole_path = codes "/data/appdata_oc1/preview/2/0/2/c/b/9/6/123/4096-3072-max.jpg"

whole_path_lem :
    byte_paths md5 (codes "/data") (codes "oc1") get_name (pos 123) (rows_of sqlite (pos 123) table)
    ≡ whole_path ∷ []
unfolding byte_paths rows_of read_row etag_projection preview_byte_path preview_root md5_shard
    preview_name version_part extension_for_mime text_eq to_row signed_decimal decimal
whole_path_lem = refl

invalidate_previews-IsCleared_example :
    IsCleared sqlite
      (λ path. true)
      (pos 123)
      table
      (whole_path ∷ codes "/data/other" ∷ [])
      (served_paths md5
        (codes "/data")
        (codes "oc1")
        get_name
        (load_preview_rows sqlite true (pos 123) table))
      (invalidate_previews md5
        (codes "/data")
        (codes "oc1")
        get_name
        sqlite
        true
        true
        (λ path. true)
        (pos 123)
        table
        (whole_path ∷ codes "/data/other" ∷ []))
invalidate_previews-IsCleared_example =
    invalidate_previews-IsCleared md5 (codes "/data") (codes "oc1") get_name sqlite (λ path. true)
      (pos 123) table (whole_path ∷ codes "/data/other" ∷ []) refl

-- The other writer's row answers.
conflict :
    insert_preview sqlite true true (record whole { max = false }) (pos 11) table
    ≡ (ok (read_row sqlite (bound whole (pos 10))), table)
unfolding insert_preview fetch_by_key load_preview_rows rows_of read_row to_row matches_row
    conflicts first_row etag_projection
conflict = refl

refused : (insert_preview sqlite true false whole (pos 11) table).1 ≡ table
unfolding insert_preview conflicts to_row
refused = refl
