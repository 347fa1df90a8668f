-- ===== src/Server/Routes.antt =====
-- core-rs/crates/nc-server/src/router.rs: which requests Rust serves itself, and which paths the
-- check of the guard cookies covers.
mod Tests
use nc_server_rs.Prelude.{
  ℕ, zero, suc, Bool, true, false, ◌&&◌, ◌||◌, Option, none, some, List, [], ◌∷◌, if◌then◌else◌,
  length, any,
}
use nc_server_rs.Prelude.Text.{Text, codes, text_eq, starts_with, strip_prefix}

-- `trim_start_matches`, for a prefix that is not empty: each round takes at least one character.
unfoldable pub trim_rounds : ℕ → Text → Text → Text
trim_rounds zero prefix s = s
trim_rounds (suc rounds) prefix s = elim (strip_prefix prefix s) [
  | none ↦ s
  | some rest ↦ trim_rounds rounds prefix rest
]

unfoldable pub trim_start_matches : Text → Text → Text
unfolding trim_rounds
trim_start_matches prefix s = trim_rounds (length s) prefix s

abbrev pub proxied_dav_subtrees : List Text
proxied_dav_subtrees =
    codes "/versions"
    ∷ codes "/comments"
    ∷ codes "/trashbin"
    ∷ codes "/principals"
    ∷ codes "/calendars"
    ∷ codes "/public-calendars"
    ∷ codes "/system-calendars"
    ∷ codes "/addressbooks"
    ∷ codes "/avatars"
    ∷ codes "/access-control"
    ∷ []

abbrev pub remainder_of : Text → Text
remainder_of path =
    trim_start_matches (codes "/dav") (trim_start_matches (codes "/remote.php/dav") path)

unfoldable pub dav_served_by_rust : Text → Text → Bool
dav_served_by_rust path method =
    let remainder = remainder_of path in
    if any (λ p. starts_with p remainder) proxied_dav_subtrees
      || text_eq method (codes "SEARCH")
      || text_eq method (codes "REPORT")
    then false
    else if starts_with (codes "/uploads") remainder
    then true
    else if text_eq remainder (codes "/bulk") && text_eq method (codes "POST")
    then true
    else starts_with (codes "/files/") remainder || text_eq remainder (codes "/files")

abbrev pub samesite_gated_prefixes : List Text
samesite_gated_prefixes =
    codes "/remote.php"
    ∷ codes "/dav"
    ∷ codes "/ocs/v1.php"
    ∷ codes "/ocs/v2.php"
    ∷ codes "/core/preview"
    ∷ codes "/index.php/core/preview"
    ∷ codes "/apps/files/api/v1/thumbnail/"
    ∷ codes "/index.php/apps/files/api/v1/thumbnail/"
    ∷ []
