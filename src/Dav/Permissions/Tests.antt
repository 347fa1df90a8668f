-- ===== src/Dav/Permissions/Tests.antt =====
-- Runs of core-rs/crates/nc-dav/src/props.rs at masks of its own tests.
use nc_server_rs.Prelude.{◌≡◌, refl, true, false}
use nc_server_rs.Prelude.Text.{codes}
use nc_server_rs.Dav.Permissions.{encode_permissions}

masks :
    (encode_permissions 27 false false false true ≡ codes "RGDNVW")
    × (encode_permissions 31 true false false true ≡ codes "RGDNVCK")
    × (encode_permissions 1 false true true false ≡ codes "SMG")
unfolding encode_permissions
masks = (refl, refl, refl)
