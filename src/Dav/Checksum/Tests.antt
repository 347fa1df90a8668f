-- ===== src/Dav/Checksum/Tests.antt =====
-- Runs of the hash check of core-rs/crates/nc-dav/src/bulk_handler.rs, and its law at a part with a
-- checksum. The digest here writes the bytes themselves.
use nc_server_rs.Prelude.{
  leb, ◌+◌, ◌↔◌, ◌≡◌, refl, ◌&&◌, none, some, [], map, if◌then◌else◌, length,
}
use nc_server_rs.Prelude.Text.{Text, codes, text_eq, split_once}
use nc_server_rs.Dav.Checksum.{
  Algorithm, valid, wrong_length, null_headers, unknown_algorithm, incorrect_hash, compute_hash,
  compare_hash, check_md5, check_headers, validate_part_hash,
}
use nc_server_rs.Dav.Checksum.Valid.{IsHashed, validate_part_hash-valid_iff}

abbrev plain : Algorithm → Text → Text
plain algorithm content = content

abbrev ascii_lower : Text → Text
ascii_lower s = map (λ c. if leb 65 c && leb c 90 then c + 32 else c) s

checksum_first :
    validate_part_hash plain ascii_lower
      (codes "xy")
      2
      (some (codes "other"))
      (some (codes "SHA-1:xy"))
    ≡ valid
unfolding validate_part_hash check_headers compare_hash compute_hash split_once text_eq
checksum_first = refl

md5_where_empty :
    validate_part_hash plain ascii_lower (codes "xy") 2 (some (codes "other")) (some [])
    ≡ incorrect_hash (codes "md5") (codes "xy")
unfolding validate_part_hash check_headers check_md5 compare_hash compute_hash text_eq
md5_where_empty = refl

other_algorithm :
    validate_part_hash plain ascii_lower (codes "xy") 2 none (some (codes "crc:xy"))
    ≡ unknown_algorithm (codes "crc")
unfolding validate_part_hash check_headers compare_hash compute_hash split_once text_eq
other_algorithm = refl

no_header : validate_part_hash plain ascii_lower [] 0 none none ≡ null_headers
unfolding validate_part_hash check_headers check_md5
no_header = refl

short_body : validate_part_hash plain ascii_lower (codes "x") 2 none none ≡ wrong_length 2 1
unfolding validate_part_hash
short_body = refl

validate_part_hash-valid_iff_example :
    (validate_part_hash plain ascii_lower (codes "xy") 2 none (some (codes "SHA-1:xy")) ≡ valid) ↔ (
      (length (codes "xy") ≡ 2)
      × IsHashed plain ascii_lower (codes "xy") none (some (codes "SHA-1:xy")))
validate_part_hash-valid_iff_example =
    validate_part_hash-valid_iff plain ascii_lower (codes "xy") 2 none (some (codes "SHA-1:xy"))
