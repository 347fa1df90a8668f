-- ===== src/Dav/Permissions.antt =====
-- core-rs/crates/nc-dav/src/props.rs: the letters of `oc:permissions`. A mask is the number of an
-- `i32` that is not negative; `perms & 2 ^ k != 0` is its k-th binary digit.
pub mod Letters
mod Tests
use nc_server_rs.Prelude.{ℕ, ◌/◌, ◌%◌, Bool, true, false, ◌==◌, ◌++◌, [], if◌then◌else◌}
use nc_server_rs.Prelude.Text.{Text, codes}

abbrev pub letter : Bool → Text → Text
letter b s = if b then s else []

-- `perms & mask != 0`, for a mask of one bit.
abbrev pub has_bit : ℕ → ℕ → Bool
has_bit mask perms = perms / mask % 2 == 1

unfoldable pub encode_permissions : ℕ → Bool → Bool → Bool → Bool → Text
encode_permissions perms is_dir is_mounted is_shared can_rename =
    letter is_shared (codes "S")
    ++ (letter (has_bit 16 perms) (codes "R")
        ++ (letter is_mounted (codes "M")
            ++ (letter (has_bit 1 perms) (codes "G")
                ++ (letter (has_bit 8 perms) (codes "D")
                    ++ (letter can_rename (codes "N")
                        ++ (letter (has_bit 2 perms) (codes "V")
                            ++ (if is_dir
                                then letter (has_bit 4 perms) (codes "CK")
                                else letter (has_bit 2 perms) (codes "W"))))))))
