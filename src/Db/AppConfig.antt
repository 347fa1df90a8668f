-- ===== src/Db/AppConfig.antt =====
-- core-rs/crates/nc-db/src/appconfig.rs: the cache of the table `oc_appconfig`, a map from an
-- application and a key to a value, as the list of its entries in the map's order.
pub mod Laws
mod Tests
use nc_server_rs.Prelude.{
  ℕ, Bool, true, false, not, ◌&&◌, ◌||◌, Option, none, some, List, [], ◌∷◌, if◌then◌else◌, ◌>>=◌,
}
use nc_server_rs.Prelude.Int.{ℤ}
use nc_server_rs.Prelude.Parse.{parse_i64}
use nc_server_rs.Prelude.Text.{Text, codes, text_eq, starts_with}

pub record Entry : Type 0 where
  pub app : Text
  pub key : Text
  pub value : Text

-- The map of the cache; a key has one entry.
abbrev pub AppConfigCache : Type 0
AppConfigCache = List Entry

abbrev pub is_at : Text → Text → Entry → Bool
is_at app key e = text_eq e.app app && text_eq e.key key

unfoldable pub get_raw : AppConfigCache → Text → Text → Option Text
get_raw [] app key = none
get_raw (e ∷ es) app key =
    let rest = get_raw es app key in if is_at app key e then some e.value else rest

unfoldable pub get_bool : AppConfigCache → Text → Text → Bool
get_bool ac app key = elim (get_raw ac app key) [
  | none ↦ false
  | some v ↦ text_eq v (codes "1") || text_eq v (codes "true") || text_eq v (codes "yes")
]

unfoldable pub get_int : AppConfigCache → Text → Text → Option ℤ
get_int ac app key = get_raw ac app key >>= parse_i64

unfoldable pub is_maintenance : AppConfigCache → Bool
is_maintenance ac = get_bool ac (codes "core") (codes "maintenance")

unfoldable pub set_raw : AppConfigCache → Text → Text → Text → AppConfigCache
set_raw [] app key value = record { app = app; key = key; value = value } ∷ []
set_raw (e ∷ es) app key value =
    let rest = set_raw es app key value in
    if is_at app key e then record { app = app; key = key; value = value } ∷ es else e ∷ rest

unfoldable pub remove : AppConfigCache → Text → Text → AppConfigCache
remove [] app key = []
remove (e ∷ es) app key = let rest = remove es app key in if is_at app key e then es else e ∷ rest

unfoldable pub values_with_prefix : AppConfigCache → Text → Text → List Text
values_with_prefix [] app key_prefix = []
values_with_prefix (e ∷ es) app key_prefix =
    let rest = values_with_prefix es app key_prefix in
    if text_eq e.app app && starts_with key_prefix e.key then e.value ∷ rest else rest

-- One row of the query at the start: application, key and a value that may be NULL.
unfoldable pub load_rows : AppConfigCache → List (Text × Text × Option Text) → AppConfigCache
load_rows cache [] = cache
load_rows cache ((app, key, none) ∷ rows) = load_rows cache rows
load_rows cache ((app, key, some v) ∷ rows) = load_rows (set_raw cache app key v) rows
