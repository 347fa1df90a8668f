-- ===== src/Dav/Paths.antt =====
-- The path helpers of core-rs/crates/nc-dav: src/path_utils.rs, src/row/paths.rs, and those of
-- src/handler.rs, src/trashbin.rs and src/propagator.rs. A text is the list of its characters.
pub mod Prefix
pub mod Names
pub mod Parents
mod Tests
use nc_server_rs.Prelude.{
  ℕ, ◌+◌, ◌-◌, ◌≤◌, Bool, true, false, not, ◌&&◌, ◌||◌, Option, none, some, List, [], ◌∷◌, ◌++◌,
  ◌==◌, leb, ltb, if◌then◌else◌, length, all, ◌>>=◌, zero, suc,
}
use nc_server_rs.Prelude.Int.{ℤ, pos, negsuc}
use nc_server_rs.Prelude.Decimal.{decimal, signed_decimal}
use nc_server_rs.Prelude.Text.{
  Text, codes, text_eq, strip_prefix, starts_with, split_once, rsplit_once, split, trim_by,
  trim_end_by, is_digit,
}
use nc_server_rs.Dav.Percent.{percent_decode_path, is_alphanumeric}

unfoldable pub parent_fc_path : Text → Text
parent_fc_path fc_path = elim (rsplit_once b'/' fc_path) [ some (parent, _) ↦ parent | none ↦ [] ]

-- `rsplit(c).next()`: what stands behind the last `c`, or the whole text.
abbrev pub last_part : ℕ → Text → Text
last_part c s = elim (rsplit_once c s) [ some (_, part) ↦ part | none ↦ s ]

unfoldable pub extension : Text → Text
extension name = last_part b'.' name

unfoldable pub is_trash_extension : Text → Bool
is_trash_extension [] = false
is_trash_extension (c ∷ []) = false
is_trash_extension (c ∷ d ∷ ext) = c == b'd' && all is_digit (d ∷ ext)

abbrev pub zeros : ℕ → Text
zeros zero = []
zeros (suc n) = b'0' ∷ zeros n

-- `{:08}`: zeros up to the width, behind the sign.
abbrev pub zero_padded : ℕ → ℤ → Text
zero_padded width (pos n) = let s = decimal n in zeros (width - length s) ++ s
zero_padded width (negsuc n) = let s = decimal (suc n) in b'-' ∷ zeros (width - 1 - length s) ++ s

unfoldable pub dav_file_id : ℤ → Text → Text
dav_file_id fileid instance_id = zero_padded 8 fileid ++ instance_id

unfoldable pub trash_fc_name : Text → ℤ → Text
trash_fc_name basename timestamp =
    codes "files_trashbin/files/" ++ (basename ++ (codes ".d" ++ signed_decimal timestamp))

abbrev pub is_slash : ℕ → Bool
is_slash c = c == b'/'

unfoldable pub dav_to_fc_path : Text → Text
dav_to_fc_path dav_path =
    let trimmed = trim_by is_slash dav_path in
    elim trimmed [ [] ↦ codes "files" | c ∷ s ↦ codes "files/" ++ (c ∷ s) ]

-- The loop of `get_parents`: the ancestor so far is pushed before the part is joined to it.
parents_from : Text → List Text → List Text
parents_from parent [] = []
parents_from parent (part ∷ parts) =
    parent ∷ parents_from (elim parent [ [] ↦ part | c ∷ s ↦ (c ∷ s) ++ b'/' ∷ part ]) parts

unfoldable pub get_parents : Text → List Text
unfolding parents_from
get_parents path = parents_from [] (split b'/' path)

unfoldable pub determine_prefix : Text → Text → Text
determine_prefix path uid =
    if starts_with (codes "/remote.php/webdav") path
    then codes "/remote.php/webdav"
    else if starts_with (codes "/remote.php/dav/files/" ++ uid) path
    then codes "/remote.php/dav/files/" ++ uid
    else if starts_with (codes "/remote.php/dav") path
    then codes "/remote.php/dav"
    else if starts_with (codes "/dav/files/" ++ uid) path
    then codes "/dav/files/" ++ uid
    else if starts_with (codes "/dav") path
    then codes "/dav"
    else []

-- The path behind the authority, from its first slash on.
abbrev pub path_of_rest : Text → Text
path_of_rest rest = elim (split_once b'/' rest) [ some (_, path) ↦ b'/' ∷ path | none ↦ codes "/" ]

unfoldable pub url_to_path : Text → Text
url_to_path url = elim (strip_prefix (codes "https://") url) [
  | some rest ↦ path_of_rest rest
  | none ↦ elim (strip_prefix (codes "http://") url) [ some rest ↦ path_of_rest rest | none ↦ url ]
]

unfoldable pub build_download_started_cookie : Text → Option Text
build_download_started_cookie [] = none
build_download_started_cookie (c ∷ s) =
    let token = c ∷ s in
    if ltb 32 (length token) || not (all is_alphanumeric token)
    then none
    else some (codes "ocDownloadStarted=" ++ (token ++ codes "; Max-Age=20; Path=/"))

abbrev pub named : Text → Option Text
named [] = none
named (c ∷ s) = some (c ∷ s)

-- The last segment of a path, decoded.
unfoldable pub decoded_name : (Text → Text) → Text → Option Text
decoded_name lossy path =
    named (last_part b'/' (percent_decode_path lossy (trim_end_by is_slash path)))

abbrev pub dav_path_of : Text → Text → Text
dav_path_of prefix req_path = elim (strip_prefix prefix req_path) [
  | some dav_path ↦ dav_path
  | none ↦ req_path
]

unfoldable pub write_target_name : (Text → Text) → Text → Text → Text → Option Text → Option Text
write_target_name lossy method req_path prefix destination =
    if text_eq method (codes "PUT") || text_eq method (codes "MKCOL")
    then decoded_name lossy (dav_path_of prefix req_path)
    else if text_eq method (codes "MOVE") || text_eq method (codes "COPY")
    then (destination >>= λ dest. decoded_name lossy (url_to_path dest))
    else none
