-- ===== src/Db/Filename/Tests.antt =====
-- Runs of core-rs/crates/nc-db/src/filename_validator.rs at names of its own tests, and the laws at
-- a configuration with one entry in each list.
use nc_server_rs.Prelude.{◌≡◌, refl, ◌≢◌, ◌↔◌, [], ◌∷◌, map, All}
use nc_server_rs.Prelude.Text.{
  Text, codes, to_ascii_lower, text_eq, trim, contains, split_once, ends_with,
}
use nc_server_rs.Db.Filename.{
  accepted, rejected, panics, empty, dot_directory, forbidden_char, forbidden_name,
  forbidden_basename, forbidden_extension, Config, from_config, validate, check_name,
  check_basename, check_extension, find_forbidden, push_all, push_new, with_extension, basename_of,
}
use nc_server_rs.Db.Filename.Gates.{Plain}
use nc_server_rs.Db.Filename.Accepts.{Unlisted, Cuts, validate-accepted_iff, validate-panics_iff}

abbrev config : Config
config = record {
  forbidden_filenames = codes ".htaccess" ∷ [];
  forbidden_filename_basenames = codes "con" ∷ [];
  forbidden_filename_characters = codes "*\\" ∷ [];
  forbidden_filename_extensions = codes ".EXE" ∷ [];
}

abbrev lower : Text → Text
lower = map to_ascii_lower

names :
    (validate lower (from_config lower config) (codes "  ") ≡ rejected empty)
    × (validate lower (from_config lower config) (codes "..") ≡ rejected dot_directory)
    × (validate lower (from_config lower config) (codes "a/b") ≡ rejected (forbidden_char b'/'))
    × (validate lower (from_config lower config) (codes "a*") ≡ rejected (forbidden_char b'*'))
    × (validate lower (from_config lower config) (codes ".HTACCESS") ≡ rejected forbidden_name)
    × (validate lower (from_config lower config) (codes "Con.txt") ≡ rejected forbidden_basename)
    × (validate lower (from_config lower config) (codes "a.part") ≡ rejected forbidden_extension)
    × (validate lower (from_config lower config) (codes "a.txt") ≡ accepted)
    × (validate lower (from_config lower config) (codes "été") ≡ panics)
unfolding validate check_name check_basename check_extension find_forbidden push_all push_new
    with_extension basename_of from_config text_eq trim contains split_once ends_with
names = (refl, refl, refl, refl, refl, refl, refl, refl, refl)

validate-accepted_iff_example :
    (validate lower (from_config lower config) (codes "a.txt") ≡ accepted)
    ↔ (Plain config (codes "a.txt") × Unlisted lower config (codes "a.txt"))
validate-accepted_iff_example = validate-accepted_iff lower config (codes "a.txt")

validate-panics_iff_example : (validate lower (from_config lower config) (codes "été") ≡ panics) ↔ (
    Plain config (codes "été")
    × All (λ s. lower s ≢ lower (codes "été")) (codes ".htaccess" ∷ [])
    × Cuts lower (codes "con" ∷ []) (lower (codes "été")))
validate-panics_iff_example = validate-panics_iff lower config (codes "été")
