-- ===== src/Server/Routes/Tests.antt =====
-- Runs of core-rs/crates/nc-server/src/router.rs: the requests of its own tests.
use nc_server_rs.Prelude.{◌≡◌, refl, true, false}
use nc_server_rs.Prelude.Text.{codes, text_eq, starts_with, strip_prefix}
use nc_server_rs.Server.Routes.{dav_served_by_rust, trim_start_matches, trim_rounds}

served :
    (dav_served_by_rust (codes "/dav/files") (codes "GET") ≡ true)
    × (dav_served_by_rust (codes "/remote.php/dav/files/admin/") (codes "PROPFIND") ≡ true)
    × (dav_served_by_rust (codes "/dav/uploads/admin/chunk-1") (codes "PUT") ≡ true)
    × (dav_served_by_rust (codes "/dav/bulk") (codes "POST") ≡ true)
unfolding dav_served_by_rust trim_start_matches trim_rounds starts_with strip_prefix text_eq
served = (refl, refl, refl, refl)

proxied :
    (dav_served_by_rust (codes "/dav/bulk") (codes "GET") ≡ false)
    × (dav_served_by_rust (codes "/dav/files/admin") (codes "SEARCH") ≡ false)
    × (dav_served_by_rust (codes "/dav/trashbin/admin") (codes "GET") ≡ false)
    × (dav_served_by_rust (codes "/remote.php/webdav/x") (codes "GET") ≡ false)
unfolding dav_served_by_rust trim_start_matches trim_rounds starts_with strip_prefix text_eq
proxied = (refl, refl, refl, refl)
