-- ===== src/Preview/Store.antt =====
-- core-rs/crates/nc-preview/src/store.rs: the rows of the table of previews, their file names and
-- the choice among them. The hexadecimal MD5 of a text is a parameter.
pub mod Names
mod Tests
use nc_server_rs.Prelude.{
  ℕ, zero, suc, ◌-◌, ◌^◌, ◌%◌, ◌==◌, Bool, true, false, not, ◌&&◌, Option, none, some, List, [],
  ◌∷◌, ◌++◌, if◌then◌else◌, take, length, ltb,
}
use nc_server_rs.Prelude.Int.{ℤ, pos, negsuc, eq_ℤ}
use nc_server_rs.Prelude.Decimal.{decimal, signed_decimal}
use nc_server_rs.Prelude.Text.{Text, codes, text_eq}

pub record PreviewRow : Type 0 where
  pub id : ℤ
  pub file_id : ℤ
  pub storage_id : ℤ
  pub width : ℕ
  pub height : ℕ
  pub mimetype_id : ℤ
  pub source_mimetype_id : ℤ
  pub mtime : ℤ
  pub size : ℤ
  pub max : Bool
  pub cropped : Bool
  pub encrypted : Bool
  pub etag : Text
  pub version_id : ℤ

unfoldable pub extension_for_mime : Text → Text
extension_for_mime output_mime =
    if text_eq output_mime (codes "image/png")
    then codes "png"
    else if text_eq output_mime (codes "image/gif")
    then codes "gif"
    else if text_eq output_mime (codes "image/jpeg")
    then codes "jpg"
    else if text_eq output_mime (codes "image/webp")
    then codes "webp"
    else codes "png"

-- The prefix of a version, from 0 on.
unfoldable pub version_part : ℤ → Text
version_part (pos n) = decimal n ++ b'-' ∷ []
version_part (negsuc n) = []

abbrev pub flag_part : Bool → Text → Text
flag_part true text = text
flag_part false text = []

unfoldable pub preview_name : ℤ → ℕ → ℕ → Bool → Bool → Text → Text
preview_name version_id width height cropped max output_mime =
    version_part version_id
    ++ (decimal width
        ++ (b'-'
            ∷ (decimal height
                ++ (flag_part cropped (codes "-crop")
                    ++ (flag_part max (codes "-max") ++ (b'.' ∷ extension_for_mime output_mime))))))

unfoldable pub name : PreviewRow → Text → Text
name row output_mime =
    preview_name row.version_id row.width row.height row.cropped row.max output_mime

abbrev pub eq_bool : Bool → Bool → Bool
eq_bool true b = b
eq_bool false b = not b

unfoldable pub matches : PreviewRow → ℕ → ℕ → Bool → ℤ → ℤ → Bool
matches row width height cropped max_mimetype_id version_id =
    row.width == width
    && row.height == height
    && eq_bool row.cropped cropped
    && eq_ℤ row.mimetype_id max_mimetype_id
    && eq_ℤ row.version_id version_id

unfoldable pub first_row : (PreviewRow → Bool) → List PreviewRow → Option PreviewRow
first_row test [] = none
first_row test (row ∷ rows) = let rest = first_row test rows in if test row then some row else rest

unfoldable pub find_max : List PreviewRow → ℤ → Option PreviewRow
find_max rows version_id = first_row (λ r. r.max && eq_ℤ r.version_id version_id) rows

unfoldable pub find_match : List PreviewRow → ℕ → ℕ → Bool → ℤ → ℤ → Option PreviewRow
find_match rows width height cropped max_mimetype_id version_id =
    first_row (λ r. matches r width height cropped max_mimetype_id version_id) rows

-- A `u32` in an `integer` column, and back.
abbrev pub as_i32 : ℕ → ℤ
as_i32 n = let low = n % 2 ^ 32 in if ltb low (2 ^ 31) then pos low else negsuc (2 ^ 32 - 1 - low)

abbrev pub as_u32 : ℤ → ℕ
as_u32 (pos n) = n % 2 ^ 32
as_u32 (negsuc n) = 2 ^ 32 - 1 - n % 2 ^ 32

abbrev pub low_i32 : ℤ → ℤ
low_i32 z = as_i32 (as_u32 z)

-- A row as the table has it: the sizes are `integer`.
pub record Stored : Type 0 where
  pub row : PreviewRow
  pub column_width : ℤ
  pub column_height : ℤ

pub data Backend : Type 0 where
  postgres : Backend
  sqlite : Backend

abbrev spaces : ℕ → Text
spaces zero = []
spaces (suc n) = 32 ∷ spaces n

-- `RPAD` to the width of the column, on Postgres.
unfoldable pub etag_projection : Backend → Text → Text
etag_projection postgres etag = take 40 (etag ++ spaces (40 - length etag))
etag_projection sqlite etag = etag

unfoldable pub read_row : Backend → Stored → PreviewRow
read_row backend stored = record stored.row {
  width = as_u32 stored.column_width;
  height = as_u32 stored.column_height;
  etag = etag_projection backend stored.row.etag;
}

unfoldable pub rows_of : Backend → ℤ → List Stored → List PreviewRow
rows_of backend file_id [] = []
rows_of backend file_id (stored ∷ table) =
    let rest = rows_of backend file_id table in
    if eq_ℤ stored.row.file_id file_id then read_row backend stored ∷ rest else rest

-- Nothing, if the query fails.
unfoldable pub load_preview_rows : Backend → Bool → ℤ → List Stored → List PreviewRow
load_preview_rows backend query_ok file_id table =
    if query_ok then rows_of backend file_id table else []

abbrev joined_by_slash : Text → Text
joined_by_slash [] = []
joined_by_slash (c ∷ []) = c ∷ []
joined_by_slash (c ∷ d ∷ s) = c ∷ b'/' ∷ joined_by_slash (d ∷ s)

module _ (md5_hex : Text → Text) where
  unfoldable pub md5_shard : ℤ → Text
  md5_shard file_id = joined_by_slash (take 7 (md5_hex (signed_decimal file_id)))

  unfoldable pub preview_root : Text → Text → Text
  preview_root datadir instanceid =
      datadir ++ (codes "/appdata_" ++ (instanceid ++ codes "/preview"))

  unfoldable pub preview_byte_path : Text → Text → ℤ → Text → Text
  preview_byte_path datadir instanceid file_id file_name =
      preview_root datadir instanceid
      ++ (b'/' ∷ md5_shard file_id ++ (b'/' ∷ signed_decimal file_id ++ (b'/' ∷ file_name)))

  unfoldable pub byte_path : PreviewRow → Text → Text → Text → Text
  byte_path row datadir instanceid output_mime =
      preview_byte_path datadir instanceid row.file_id (name row output_mime)
