-- ===== src/Server/Maintenance/Tests.antt =====
-- Runs of core-rs/crates/nc-server/src/middleware/maintenance.rs.
use nc_server_rs.Prelude.{◌≡◌, refl, true, false, none, some}
use nc_server_rs.Prelude.Text.{codes, text_eq, starts_with}
use nc_server_rs.Server.Maintenance.{ocs_envelope, plain_text, maintenance_check}

pages :
    (maintenance_check true (codes "/heartbeat") ≡ none)
    × (maintenance_check true (codes "/ocs/v1.php/x") ≡ some ocs_envelope)
    × (maintenance_check true (codes "/dav") ≡ some plain_text)
    × (maintenance_check false (codes "/dav") ≡ none)
unfolding maintenance_check text_eq starts_with
pages = (refl, refl, refl, refl)
