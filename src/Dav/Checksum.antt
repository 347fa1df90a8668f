-- ===== src/Dav/Checksum.antt =====
-- core-rs/crates/nc-dav/src/bulk_handler.rs: the check of a part against the hash that its headers
-- declare. The digests, each with its print in hexadecimal, and `to_lowercase` are parameters.
pub mod Valid
mod Tests
use nc_server_rs.Prelude.{
  ℕ, ◌==◌, Bool, true, false, ◌||◌, Option, none, some, [], ◌∷◌, if◌then◌else◌, length,
}
use nc_server_rs.Prelude.Text.{Text, codes, text_eq, split_once}

pub data Algorithm : Type 0 where
  md5 : Algorithm
  sha1 : Algorithm
  sha256 : Algorithm
  sha384 : Algorithm
  sha512 : Algorithm
  adler32 : Algorithm

pub data HashCheck : Type 0 where
  valid : HashCheck
  wrong_length : (expected actual : ℕ) → HashCheck
  no_hash : HashCheck
  null_headers : HashCheck
  invalid_format : HashCheck
  unknown_algorithm : Text → HashCheck
  incorrect_hash : (algorithm computed : Text) → HashCheck

abbrev named : Text → Text → Text → Bool
named name short long = text_eq name short || text_eq name long

-- The arms of the match, for a name in lower case.
abbrev pub algorithm_of : Text → Option Algorithm
algorithm_of name =
    if text_eq name (codes "md5")
    then some md5
    else if named name (codes "sha1") (codes "sha-1")
    then some sha1
    else if named name (codes "sha256") (codes "sha-256")
    then some sha256
    else if named name (codes "sha384") (codes "sha-384")
    then some sha384
    else if named name (codes "sha512") (codes "sha-512")
    then some sha512
    else if named name (codes "adler32") (codes "adler-32")
    then some adler32
    else none

module _ (digest : Algorithm → Text → Text) (lower : Text → Text) where
  unfoldable pub compute_hash : Text → Text → Option Text
  compute_hash algorithm content = elim (algorithm_of (lower algorithm)) [
    | none ↦ none
    | some known ↦ some (digest known content)
  ]

  unfoldable pub compare_hash : Text → Text → Text → HashCheck
  compare_hash content algorithm expected = elim (compute_hash algorithm content) [
    | none ↦ unknown_algorithm algorithm
    | some computed ↦ if text_eq expected computed then valid else incorrect_hash algorithm computed
  ]

  -- The arms that look at `X-File-MD5`, with what a missing header gives.
  unfoldable pub check_md5 : Text → Option Text → HashCheck → HashCheck
  check_md5 content none missing = missing
  check_md5 content (some []) missing = no_hash
  check_md5 content (some (c ∷ hash)) missing = compare_hash content (codes "md5") (c ∷ hash)

  unfoldable pub check_headers : Text → Option Text → Option Text → HashCheck
  check_headers content x_file_md5 none = check_md5 content x_file_md5 null_headers
  check_headers content x_file_md5 (some []) = check_md5 content x_file_md5 no_hash
  check_headers content x_file_md5 (some (c ∷ checksum)) = elim (split_once b':' (c ∷ checksum)) [
    | none ↦ invalid_format
    | some (algorithm, hash) ↦ compare_hash content algorithm hash
  ]

  unfoldable pub validate_part_hash : Text → ℕ → Option Text → Option Text → HashCheck
  validate_part_hash content content_length x_file_md5 oc_checksum =
      if length content == content_length
      then check_headers content x_file_md5 oc_checksum
      else wrong_length content_length (length content)
