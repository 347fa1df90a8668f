-- ===== src/Db/AppConfig/Laws.antt =====
-- core-rs/crates/nc-db/src/appconfig.rs: what is read after a write, with one entry for each key.
use nc_server_rs.Prelude.{
  ◌≡◌, refl, ◌↔◌, inl, inr, true, ◌&&◌, Option, none, some, List, [], ◌∷◌, arith, Bool-cases,
  if◌then◌else◌,
}
use nc_server_rs.Prelude.Text.{Text, text_eq, text_eq_sound, text_eq_refl}
use nc_server_rs.Db.AppConfig.{AppConfigCache, is_at, get_raw, set_raw, remove, load_rows}

-- No two entries have one key.
abbrev pub IsKeyed : AppConfigCache → Type 0
IsKeyed [] = Unit
IsKeyed (e ∷ es) = (get_raw es e.app e.key ≡ none) × IsKeyed es

same_text : (s t : Text) → (text_eq s t ≡ true) ↔ (s ≡ t)
same_text s t = (text_eq_sound s t, λ e. rw e (text_eq_refl t))

-- A write changes what its own key reads as, and no other key's value.
get_raw-set_raw :
    (ac : AppConfigCache) (app key value app' key' : Text)
    → get_raw (set_raw ac app key value) app' key'
      ≡ (if text_eq app app' && text_eq key key' then some value else get_raw ac app' key')
unfolding get_raw set_raw
get_raw-set_raw [] app key value app' key' = refl
get_raw-set_raw (e ∷ es) app key value app' key' = ground (
  arith,
  get_raw-set_raw es app key value app' key',
  same_text e.app app,
  same_text e.key key,
  same_text e.app app',
  same_text e.key key',
  same_text app app',
  same_text key key',
)

-- After a removal, in a map with one entry for each key, the key reads as absent, and every other
-- key as before.
get_raw-remove :
    (ac : AppConfigCache) (app key app' key' : Text)
    → IsKeyed ac
    → get_raw (remove ac app key) app' key'
      ≡ (if text_eq app app' && text_eq key key' then none else get_raw ac app' key')
unfolding get_raw remove
get_raw-remove [] app key app' key' k = ground arith
get_raw-remove (e ∷ es) app key app' key' (absent, k) = ground (
  arith,
  get_raw-remove es app key app' key' k,
  same_text e.app app,
  same_text e.key key,
  same_text e.app app',
  same_text e.key key',
  same_text app app',
  same_text key key',
)

set_raw-IsKeyed :
    (ac : AppConfigCache) (app key value : Text) → IsKeyed ac → IsKeyed (set_raw ac app key value)
unfolding get_raw set_raw
set_raw-IsKeyed [] app key value k = (refl, tt)
set_raw-IsKeyed (e ∷ es) app key value (absent, k) = elim (Bool-cases (is_at app key e)) [
  | inl here ↦
      let same_app : e.app ≡ app = ground (arith, same_text e.app app) in
      let same_key : e.key ≡ key = ground (arith, same_text e.key key) in
      rw here (rw (same_app, same_key) at absent, k)
  | inr other ↦
      let later = get_raw-set_raw es app key value e.app e.key in
      let still : get_raw (set_raw es app key value) e.app e.key ≡ none = ground (
        arith,
        same_text app e.app,
        same_text key e.key,
        same_text e.app app,
        same_text e.key key,
      ) in
      rw other (still, set_raw-IsKeyed es app key value k)
]

-- The load of any rows, in any order and with repetitions, leaves one entry for each key.
load_rows-IsKeyed :
    (rows : List (Text × Text × Option Text)) (cache : AppConfigCache)
    → IsKeyed cache
    → IsKeyed (load_rows cache rows)
unfolding load_rows
load_rows-IsKeyed [] cache k = k
load_rows-IsKeyed ((app, key, none) ∷ rows) cache k = load_rows-IsKeyed rows cache k
load_rows-IsKeyed ((app, key, some v) ∷ rows) cache k =
    load_rows-IsKeyed rows (set_raw cache app key v) (set_raw-IsKeyed cache app key v k)
