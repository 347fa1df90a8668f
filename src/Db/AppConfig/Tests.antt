-- ===== src/Db/AppConfig/Tests.antt =====
-- Runs of core-rs/crates/nc-db/src/appconfig.rs, and the laws at a cache with two entries.
use nc_server_rs.Prelude.{◌≡◌, refl, true, none, some, List, [], ◌∷◌, Option}
use nc_server_rs.Prelude.Int.{pos}
use nc_server_rs.Prelude.Parse.{parse_i64, parse_digits}
use nc_server_rs.Prelude.Text.{Text, codes, text_eq, starts_with}
use nc_server_rs.Db.AppConfig.{
  get_raw, set_raw, get_int, is_maintenance, get_bool, values_with_prefix, load_rows,
}

abbrev rows : List (Text × Text × Option Text)
rows =
    (codes "core", codes "maintenance", some (codes "true"))
    ∷ (codes "auth", codes "max", some (codes "5"))
    ∷ (codes "auth", codes "none", none)
    ∷ (codes "auth", codes "max", some (codes "7"))
    ∷ []

reads :
    (is_maintenance (load_rows [] rows) ≡ true)
    × (get_int (load_rows [] rows) (codes "auth") (codes "max") ≡ some (pos 7))
    × (get_raw (load_rows [] rows) (codes "auth") (codes "none") ≡ none)
    × (values_with_prefix (load_rows [] rows) (codes "auth") (codes "ma") ≡ codes "7" ∷ [])
unfolding load_rows set_raw is_maintenance get_bool get_int get_raw values_with_prefix text_eq
    starts_with parse_i64 parse_digits
reads = (refl, refl, refl, refl)
