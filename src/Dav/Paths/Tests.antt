-- ===== src/Dav/Paths/Tests.antt =====
-- Runs of the path helpers of core-rs/crates/nc-dav at the inputs of their own tests, and the laws
-- at concrete inputs.
use nc_server_rs.Prelude.{◌≡◌, refl, true, false, some, none, List, [], ◌∷◌, ◌++◌, arith}
use nc_server_rs.Prelude.Int.{pos}
use nc_server_rs.Prelude.Text.{
  Text, codes, split, split_once, rsplit_once, strip_prefix, text_eq, trim_by, trim_end_by,
}
use nc_server_rs.Prelude.Decimal.{decimal}
use nc_server_rs.Dav.Percent.{percent_encode_path, percent_decode_path}
use nc_server_rs.Dav.Percent.Laws.{percent_decode_path-percent_encode_path}
use nc_server_rs.Dav.Paths.{
  parent_fc_path, extension, is_trash_extension, dav_file_id, dav_to_fc_path, get_parents,
  url_to_path, write_target_name, decoded_name,
}
use nc_server_rs.Dav.Paths.Parents.{IsChain, get_parents-IsChain}
use nc_server_rs.Dav.Paths.Names.{IsName, write_target_name-IsName}

encode_space : percent_encode_path (codes "a b/c%") ≡ codes "a%20b/c%25"
unfolding percent_encode_path
encode_space = refl

decode_incomplete : percent_decode_path (λ s. s) (codes "%4a%4%zz%2") ≡ codes "J%4%zz%2"
unfolding percent_decode_path
decode_incomplete = refl

parents_deep :
    get_parents (codes "files/a/b/c")
    ≡ [] ∷ codes "files" ∷ codes "files/a" ∷ codes "files/a/b" ∷ []
unfolding get_parents split
parents_deep = refl

padded : dav_file_id (pos 408337) (codes "ocecf7uk5jlr") ≡ codes "00408337ocecf7uk5jlr"
unfolding dav_file_id decimal
padded = refl

trash_extensions :
    (is_trash_extension (extension (codes "a.b.d1634567890")) ≡ true)
    × (is_trash_extension (codes "dx123") ≡ false)
    × (extension (codes "Makefile") ≡ codes "Makefile")
unfolding is_trash_extension extension rsplit_once
trash_extensions = (refl, refl, refl)

fc_paths :
    (dav_to_fc_path (codes "/Photos/img.jpg/") ≡ codes "files/Photos/img.jpg")
    × (dav_to_fc_path (codes "/") ≡ codes "files")
unfolding dav_to_fc_path trim_by
fc_paths = (refl, refl)

parent_of_nested :
    (parent_fc_path (codes "files/a/b") ≡ codes "files/a") × (parent_fc_path (codes "files") ≡ [])
unfolding parent_fc_path rsplit_once
parent_of_nested = (refl, refl)

target_of_put :
    write_target_name
      (λ s. s)
      (codes "PUT")
      (codes "/dav/files/al/a%20b/")
      (codes "/dav/files/al")
      none
    ≡ some (codes "a b")
unfolding write_target_name decoded_name text_eq strip_prefix trim_end_by percent_decode_path
    rsplit_once url_to_path split_once
target_of_put = refl

percent_decode_path-percent_encode_path_example :
    percent_decode_path (λ s. s) (percent_encode_path (codes "a b")) ≡ codes "a b"
percent_decode_path-percent_encode_path_example =
    percent_decode_path-percent_encode_path (λ s. s) (codes "a b") (omega arith)

get_parents-IsChain_example :
    (rest : List Text) × (get_parents (codes "files/a") ≡ [] ∷ rest)
    × IsChain ([] ∷ rest ++ codes "files/a" ∷ [])
get_parents-IsChain_example = get_parents-IsChain (codes "files/a") (omega arith)

write_target_name-IsName_example : IsName (codes "a b")
write_target_name-IsName_example =
    write_target_name-IsName (λ s. s) (codes "PUT") (codes "/dav/files/al/a%20b/")
      (codes "/dav/files/al") none (codes "a b") target_of_put
