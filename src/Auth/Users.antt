-- ===== src/Auth/Users.antt =====
-- core-rs/crates/nc-auth/src/lib.rs and twofa.rs: what is known of a user, and its cache. The
-- tables are lists of their rows; a query that fails gives `none`. JSON is a parameter.
mod Tests
use nc_server_rs.Prelude.{
  ℕ, ◌-◌, ◌*◌, ◌+◌, suc, ◌==◌, Bool, true, false, ◌&&◌, ◌||◌, not, Option, none, some, List, [],
  ◌∷◌, ltb, if◌then◌else◌, any, all, map,
}
use nc_server_rs.Prelude.Int.{ℤ, pos, negsuc}
use nc_server_rs.Prelude.Text.{Text, codes, text_eq, split, trim}

pub data AuthMethod : Type 0 where
  bearer : AuthMethod
  basic : AuthMethod
  session : AuthMethod

pub record AuthInfo : Type 0 where
  pub uid : Text
  pub is_admin : Bool
  pub method : AuthMethod
  pub token_id : Option ℤ
  pub raw_token : Option Text

pub record UserState : Type 0 where
  pub is_admin : Bool
  pub twofa_enabled : Bool
  pub sharing_disabled : Bool
  pub display_name : Text

-- In milliseconds.
abbrev pub user_state_ttl : ℕ
user_state_ttl = 60 * 1_000

abbrev pub UserStateCache : Type 0
UserStateCache = Text → Option (UserState × ℕ)

-- A row of `group_user`, and one of `twofactor_providers`.
pub record Membership : Type 0 where
  pub gid : Text
  pub uid : Text

pub record Provider : Type 0 where
  pub uid : Text
  pub enabled : ℕ

-- What the queries for a user answer.
pub record UserTables : Type 0 where
  pub memberships : Option (List Membership)
  pub providers : Option (List Provider)
  pub exclude_groups : Option Text
  pub exclude_groups_list : Option Text
  pub displayname : Option Text
  pub account : Option Text

abbrev pub is_member : Text → Text → Membership → Bool
is_member gid uid m = text_eq m.gid gid && text_eq m.uid uid

unfoldable pub is_admin_user : UserTables → Text → Bool
is_admin_user t uid = elim t.memberships [
  | none ↦ false
  | some rows ↦ any (is_member (codes "admin") uid) rows
]

abbrev pub is_enabled : Text → Provider → Bool
is_enabled uid p = text_eq p.uid uid && p.enabled == 1

-- The type of an app token.
abbrev pub is_permanent : ℤ → Bool
is_permanent (pos n) = n == 1
is_permanent (negsuc n) = false

-- `SELECT COUNT(*)` is above 0.
unfoldable pub requires_2fa : UserTables → Text → ℤ → Option Bool
requires_2fa t uid token_type =
    if is_permanent token_type
    then some false
    else elim t.providers [ none ↦ none | some rows ↦ some (any (is_enabled uid) rows) ]

unfoldable pub groups_of : Text → List Membership → List Text
groups_of uid [] = []
groups_of uid (m ∷ rows) =
    let rest = groups_of uid rows in if text_eq m.uid uid then m.gid ∷ rest else rest

abbrev pub is_listed : List Text → Text → Bool
is_listed groups g = any (λ k. text_eq k g) groups

-- The last tests, for the groups of the setting and those of the user.
unfoldable pub shares_barred : Bool → List Text → List Text → Bool
shares_barred allow listed [] = allow
shares_barred allow listed (g ∷ groups) =
    if allow then not (any (is_listed listed) (g ∷ groups)) else all (is_listed listed) (g ∷ groups)

-- `json_list` reads a list of texts, `json_name` the text at `displayname.value`.
module _ (json_list : Text → Option (List Text)) (json_name : Text → Option Text) where
  unfoldable pub listed_groups : Option Text → List Text
  listed_groups none = []
  listed_groups (some []) = []
  listed_groups (some (c ∷ s)) = elim (json_list (c ∷ s)) [
    | some groups ↦ groups
    | none ↦ map trim (split b',' (c ∷ s))
  ]

  unfoldable pub barred_by_list : UserTables → Text → Bool → List Text → Bool
  barred_by_list t uid allow [] = false
  barred_by_list t uid allow (l ∷ listed) = elim t.memberships [
    | none ↦ false
    | some rows ↦ shares_barred allow (l ∷ listed) (groups_of uid rows)
  ]

  unfoldable pub sharing_disabled_for_user : UserTables → Text → Bool
  sharing_disabled_for_user t uid = elim t.exclude_groups [
    | none ↦ false
    | some mode ↦
        if text_eq mode (codes "yes") || text_eq mode (codes "allow")
        then barred_by_list t uid (text_eq mode (codes "allow"))
            (listed_groups t.exclude_groups_list)
        else false
  ]

  unfoldable pub account_name : UserTables → Text → Text
  account_name t uid = elim t.account [
    | none ↦ uid
    | some account ↦ elim (json_name account) [
      | none ↦ uid
      | some name ↦ if text_eq name [] then uid else name
    ]
  ]

  unfoldable pub lookup_user_display_name : UserTables → Text → Text
  lookup_user_display_name t uid = elim t.displayname [
    | none ↦ account_name t uid
    | some name ↦ if text_eq name [] then account_name t uid else name
  ]

  -- The answer of the tables; `none` where the query of the providers fails.
  unfoldable pub read_user_state : UserTables → Text → Option UserState
  read_user_state t uid = elim (requires_2fa t uid (pos 0)) [
    | none ↦ none
    | some twofa ↦ some (record {
      is_admin = is_admin_user t uid;
      twofa_enabled = twofa;
      sharing_disabled = sharing_disabled_for_user t uid;
      display_name = lookup_user_display_name t uid;
    })
  ]

  unfoldable pub refresh_user_state :
      UserTables → UserStateCache → Text → ℕ → Option UserState × UserStateCache
  refresh_user_state t cache uid instant = elim (read_user_state t uid) [
    | none ↦ (none, cache)
    | some state ↦ (some state, λ u. if text_eq uid u then some (state, instant) else cache u)
  ]

  unfoldable pub cached_user_state :
      UserTables → UserStateCache → Text → ℕ → Option UserState × UserStateCache
  cached_user_state t cache uid instant = elim (cache uid) [
    | none ↦ refresh_user_state t cache uid instant
    | some (state, read_at) ↦
        if ltb (instant - read_at) user_state_ttl
        then (some state, cache)
        else refresh_user_state t cache uid instant
  ]
