-- ===== src/Server/Maintenance.antt =====
-- core-rs/crates/nc-server/src/middleware/maintenance.rs: what is served in maintenance mode.
mod Tests
use nc_server_rs.Prelude.{
  ℕ, ◌≡◌, refl, ◌≢◌, ◌↔◌, Bool, true, false, not, ◌||◌, Option, none, some, arith, if◌then◌else◌,
}
use nc_server_rs.Prelude.Text.{Text, codes, text_eq, starts_with, text_eq_sound, text_eq_refl}

-- The body of the answer with status 503, `Retry-After: 120` and the header of the mode.
pub data Body : Type 0 where
  ocs_envelope : Body
  plain_text : Body

unfoldable pub maintenance_check : Bool → Text → Option Body
maintenance_check maintenance path =
    if text_eq path (codes "/status.php") || text_eq path (codes "/heartbeat")
    then none
    else if not maintenance
    then none
    else if starts_with (codes "/ocs/") path
    then some ocs_envelope
    else some plain_text

-- A request is answered by the maintenance page exactly when the mode is on and the path is neither
-- the status page nor the heartbeat.
maintenance_check_iff :
    (maintenance : Bool) (path : Text)
    → (maintenance_check maintenance path ≢ none)
      ↔ ((maintenance ≡ true) × (path ≢ codes "/status.php") × (path ≢ codes "/heartbeat"))
unfolding maintenance_check
maintenance_check_iff maintenance path = ground (
  arith,
  text_eq_sound path (codes "/status.php"),
  text_eq_sound path (codes "/heartbeat"),
  text_eq_refl (codes "/status.php"),
  text_eq_refl (codes "/heartbeat"),
)
