-- ===== src/Dav/Permissions/Letters.antt =====
-- core-rs/crates/nc-dav/src/props.rs: what the letters say, and that they say everything.
use nc_server_rs.Prelude.{
  ℕ, ◌≡◌, refl, Bool, true, false, not, ◌&&◌, ◌||◌, ◌++◌, [], ◌∷◌, arith, if◌then◌else◌,
}
use nc_server_rs.Prelude.Text.{Text, codes, contains}
use nc_server_rs.Dav.Permissions.{letter, has_bit, encode_permissions}

-- What each letter stands for.
pub record Says (text : Text) (perms : ℕ) (is_dir is_mounted is_shared can_rename : Bool)
    : Type 0 where
  pub shared : contains b'S' text ≡ is_shared
  pub shareable : contains b'R' text ≡ has_bit 16 perms
  pub mounted : contains b'M' text ≡ is_mounted
  pub readable : contains b'G' text ≡ has_bit 1 perms
  pub deletable : contains b'D' text ≡ has_bit 8 perms
  pub renamable : contains b'N' text ≡ can_rename
  pub updateable : contains b'V' text ≡ has_bit 2 perms
  pub writable : contains b'W' text ≡ (not is_dir && has_bit 2 perms)
  pub creatable : contains b'C' text ≡ (is_dir && has_bit 4 perms)
  pub collection : contains b'K' text ≡ (is_dir && has_bit 4 perms)

contains-append : (d : ℕ) (s t : Text) → contains d (s ++ t) ≡ (contains d s || contains d t)
unfolding contains
contains-append d [] t = refl
contains-append d (c ∷ s) t = ground (arith, contains-append d s t)

contains-letter : (d : ℕ) (b : Bool) (s : Text) → contains d (letter b s) ≡ (b && contains d s)
unfolding contains
contains-letter d true s = refl
contains-letter d false s = refl

and_false : (b : Bool) → (b && false) ≡ false
and_false true = refl
and_false false = refl

and_true : (b : Bool) → (b && true) ≡ b
and_true true = refl
and_true false = refl

or_nothing : (b : Bool) → (b || false) ≡ b
or_nothing true = refl
or_nothing false = refl

-- The last letters, for a directory or a file.
abbrev last_letters : Bool → Bool → Bool → Text
last_letters is_dir creates updates =
    if is_dir then letter creates (codes "CK") else letter updates (codes "W")

contains-last :
    (d : ℕ) (is_dir creates updates : Bool)
    → contains d (last_letters is_dir creates updates) ≡ (
        is_dir && creates && contains d (codes "CK")
        || not is_dir && updates && contains d (codes "W"))
unfolding contains
contains-last d true creates updates = ground (arith, contains-letter d creates (codes "CK"))
contains-last d false creates updates = contains-letter d updates (codes "W")

ruleset letters = (contains-append, contains-letter, contains-last, and_false, and_true, or_nothing)

-- Each letter of the permissions is there exactly if its bit or its flag is set; `W` is for files
-- and `CK` for directories.
encode_permissions-Says :
    (perms : ℕ) (is_dir is_mounted is_shared can_rename : Bool)
    → Says
        (encode_permissions perms is_dir is_mounted is_shared can_rename)
        perms
        is_dir
        is_mounted
        is_shared
        can_rename
unfolding encode_permissions contains
encode_permissions-Says perms is_dir is_mounted is_shared can_rename = record {
  shared = simp letters refl;
  shareable = simp letters refl;
  mounted = simp letters refl;
  readable = simp letters refl;
  deletable = simp letters refl;
  renamable = simp letters refl;
  updateable = simp letters refl;
  writable = simp letters refl;
  creatable = simp letters refl;
  collection = simp letters refl;
}
