-- ===== src/Auth/Users/Tests.antt =====
-- Runs of core-rs/crates/nc-auth/src/lib.rs and twofa.rs at the groups of a user.
use nc_server_rs.Prelude.{◌≡◌, refl, true, false, none, some, [], ◌∷◌}
use nc_server_rs.Prelude.Int.{pos}
use nc_server_rs.Prelude.Text.{
  codes, text_eq, split, split_parts, trim, trim_by, trim_start_by, trim_end_by,
}
use nc_server_rs.Auth.Users.{
  UserTables, requires_2fa, sharing_disabled_for_user, listed_groups, barred_by_list, shares_barred,
  groups_of, lookup_user_display_name, account_name,
}

abbrev tables : UserTables
tables = record {
  memberships = some (record { gid = codes "staff"; uid = codes "bo" } ∷ []);
  providers =
      some
        (record { uid = codes "bo"; enabled = 0 } ∷ record { uid = codes "bo"; enabled = 1 } ∷ []);
  exclude_groups = some (codes "allow");
  exclude_groups_list = some (codes "guests, staff");
  displayname = some [];
  account = some (codes "Bo B.");
}

groups :
    (sharing_disabled_for_user (λ s. none) some tables (codes "bo") ≡ false)
    × (sharing_disabled_for_user (λ s. none) some tables (codes "cy") ≡ true)
    × (sharing_disabled_for_user
          (λ s. none)
          some
          (record tables { exclude_groups = some (codes "yes") })
          (codes "bo")
        ≡ true)
    × (sharing_disabled_for_user
          (λ s. none)
          some
          (record tables { exclude_groups = some (codes "yes") })
          (codes "cy")
        ≡ false)
unfolding sharing_disabled_for_user listed_groups barred_by_list shares_barred groups_of split
    split_parts trim trim_by trim_start_by trim_end_by text_eq
groups = (refl, refl, refl, refl)

factors :
    (requires_2fa tables (codes "bo") (pos 0) ≡ some true)
    × (requires_2fa tables (codes "bo") (pos 1) ≡ some false)
    × (requires_2fa (record tables { providers = none }) (codes "bo") (pos 0) ≡ none)
unfolding requires_2fa text_eq
factors = (refl, refl, refl)

names : lookup_user_display_name (λ s. none) some tables (codes "bo") ≡ codes "Bo B."
unfolding lookup_user_display_name account_name text_eq
names = refl
