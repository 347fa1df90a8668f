-- ===== src/Db/Filename/Gates.antt =====
-- core-rs/crates/nc-db/src/filename_validator.rs: what lies behind each of the tests of a name.
use nc_server_rs.Prelude.{
  ℕ, ◌≤◌, ◌≡◌, refl, ◌≢◌, ◌↔◌, Bool, true, false, ◌||◌, Option, none, some, [], ltb, if◌then◌else◌,
  map, any, All, arith,
}
use nc_server_rs.Prelude.Text.{Text, codes, text_eq, contains, trim, ends_with}
use nc_server_rs.Db.Filename.{
  FilenameError, Outcome, accepted, rejected, panics, empty, dot_directory, too_long, control_char,
  forbidden_char, forbidden_name, forbidden_extension, Config, byte_len, push_all, with_extension,
  always_forbidden_chars, find_forbidden, from_config, check_extension, check_basename, check_name,
  validate,
}
use nc_server_rs.Db.Filename.Rules.{
  text_ne, any-false, All-imp, All-map, push_all-All, with_extension-All, find_forbidden-none,
}

-- The rules before the configured names, on the name as it is.
pub record Plain (config : Config) (name : Text) : Type 0 where
  pub visible : trim name ≢ []
  pub not_here : name ≢ codes "."
  pub not_parent : name ≢ codes ".."
  pub short : byte_len name ≤ 250
  pub printable : All (λ c. 32 ≤ c) name
  pub no_backslash : contains b'\\' name ≡ false
  pub no_slash : contains b'/' name ≡ false
  pub characters :
      All (λ s. All (λ c. contains c name ≡ false) s) config.forbidden_filename_characters

-- `Ok(())` and the panic are the outcomes that no test rejects with.
abbrev pub NotRejected : Outcome → Type 0
NotRejected r = (e : FilenameError) → rejected e ≢ r

pub accepted-NotRejected : NotRejected accepted
accepted-NotRejected e h = absurd (cc)

pub panics-NotRejected : NotRejected panics
panics-NotRejected e h = absurd (cc)

module _ (r : Outcome) (unrejected : NotRejected r) where
  guarded :
      (b : Bool) (e : FilenameError) (rest : Outcome)
      → ((if b then rejected e else rest) ≡ r) ↔ ((b ≡ false) × (rest ≡ r))
  guarded true e rest = ((λ h. absurd (unrejected e h)), (λ h. absurd (cc)))
  guarded false e rest = ((λ h. (refl, h)), (λ h. h.1))

  guarded_char :
      (found : Option ℕ) (rest : Outcome)
      → (elim found [ some c ↦ rejected (forbidden_char c) | none ↦ rest ] ≡ r)
        ↔ ((found ≡ none) × (rest ≡ r))
  guarded_char (some c) rest = ((λ h. absurd (unrejected (forbidden_char c) h)), (λ h. absurd (cc)))
  guarded_char none rest = ((λ h. (refl, h)), (λ h. h.1))

-- The tests before the configured names.
abbrev Passes : Config → Text → Type 0
Passes config name =
    (text_eq (trim name) [] ≡ false)
    × ((text_eq name (codes ".") || text_eq name (codes "..")) ≡ false)
    × (ltb 250 (byte_len name) ≡ false)
    × (any (λ c. ltb c 32) name ≡ false)
    × (find_forbidden (push_all always_forbidden_chars config.forbidden_filename_characters) name
        ≡ none)

or_false : (a b : Bool) → ((a || b) ≡ false) ↔ ((a ≡ false) × (b ≡ false))
or_false true b = ((λ h. absurd (cc)), (λ h. absurd (cc)))
or_false false b = ((λ h. (refl, h)), (λ h. h.1))

not_ltb : (a b : ℕ) → (ltb a b ≡ false) ↔ (b ≤ a)
not_ltb a b = ground arith

Plain-tests : (config : Config) (name : Text) → Passes config name ↔ Plain config name
Plain-tests config name =
    let (or_to, or_from) = or_false (text_eq name (codes ".")) (text_eq name (codes "..")) in
    let (any_to, any_from) = any-false (λ c. ltb c 32) name in
    let (find_to, find_from) =
      find_forbidden-none (push_all always_forbidden_chars config.forbidden_filename_characters)
        name in
    let (push_to, push_from) =
      push_all-All (λ c. contains c name ≡ false) always_forbidden_chars
        config.forbidden_filename_characters in
    (
      λ h.
          let (always, characters) = push_to (find_to h.4) in
          record {
            visible = (text_ne (trim name) []).0 h.0;
            not_here = (text_ne name (codes ".")).0 (or_to h.1).0;
            not_parent = (text_ne name (codes "..")).0 (or_to h.1).1;
            short = (not_ltb 250 (byte_len name)).0 h.2;
            printable = All-imp (λ c. (not_ltb c 32).0) name (any_to h.3);
            no_backslash = always.0;
            no_slash = always.1.0;
            characters = characters;
          },
      λ p. (
        (text_ne (trim name) []).1 p.visible,
        or_from
            ((text_ne name (codes ".")).1 p.not_here, (text_ne name (codes "..")).1 p.not_parent),
        (not_ltb 250 (byte_len name)).1 p.short,
        any_from (All-imp (λ c. (not_ltb c 32).1) name p.printable),
        find_from (push_from ((p.no_backslash, (p.no_slash, tt)), p.characters)),
      ),
    )

module _ (lower : Text → Text) where
  pub check_extension-accepted :
      (config : Config) (name_lc : Text)
      → (check_extension lower (from_config lower config) name_lc ≡ accepted) ↔ (
          All (λ ext. ends_with (lower ext) name_lc ≡ false) config.forbidden_filename_extensions
          × (ends_with (codes ".part") name_lc ≡ false)
          × (ends_with (codes ".filepart") name_lc ≡ false))
  unfolding check_extension from_config
  check_extension-accepted config name_lc =
      let exts = map lower config.forbidden_filename_extensions in
      let Clear : Text → Type 0 = λ ext. ends_with ext name_lc ≡ false in
      let with_part = with_extension exts (codes ".part") in
      let (guard_to, guard_from) =
        guarded accepted accepted-NotRejected
          (any (λ ext. ends_with ext name_lc) (with_extension with_part (codes ".filepart")))
          forbidden_extension accepted in
      let (any_to, any_from) =
        any-false (λ ext. ends_with ext name_lc) (with_extension with_part (codes ".filepart")) in
      let (last_to, last_from) = with_extension-All Clear with_part (codes ".filepart") in
      let (part_to, part_from) = with_extension-All Clear exts (codes ".part") in
      let (map_to, map_from) = All-map Clear lower config.forbidden_filename_extensions in
      (
        λ e.
            let (parts, filepart) = last_to (any_to (guard_to e).0) in
            let (mapped, part) = part_to parts in (map_to mapped, part, filepart),
        λ h. guard_from (any_from (last_from (part_from (map_from h.0, h.1), h.2)), refl),
      )

  pub validate-Plain :
      (r : Outcome)
      → NotRejected r
      → (config : Config) (name : Text)
      → (validate lower (from_config lower config) name ≡ r)
        ↔ (Plain config name × (check_name lower (from_config lower config) (lower name) ≡ r))
  unfolding validate from_config
  validate-Plain r unrejected config name =
      let characters = push_all always_forbidden_chars config.forbidden_filename_characters in
      let rest = check_name lower (from_config lower config) (lower name) in
      let (to, from) = Plain-tests config name in
      (
        λ e.
            let (a, e1) = (guarded r unrejected (text_eq (trim name) []) empty _).0 e in
            let (b, e2) =
              (guarded r unrejected (text_eq name (codes ".") || text_eq name (codes ".."))
                  dot_directory _).0
                e1 in
            let (c, e3) = (guarded r unrejected (ltb 250 (byte_len name)) too_long _).0 e2 in
            let (d, e4) = (guarded r unrejected (any (λ c. ltb c 32) name) control_char _).0 e3 in
            let (f, e5) = (guarded_char r unrejected (find_forbidden characters name) rest).0 e4 in
            (to (a, b, c, d, f), e5),
        λ h.
            let (a, b, c, d, f) = from h.0 in
            (guarded r unrejected (text_eq (trim name) []) empty _).1 (
              a,
              (guarded r unrejected (text_eq name (codes ".") || text_eq name (codes ".."))
                    dot_directory _).1
                  (
                    b,
                    (guarded r unrejected (ltb 250 (byte_len name)) too_long _).1 (
                      c,
                      (guarded r unrejected (any (λ c. ltb c 32) name) control_char _).1 (
                        d,
                        (guarded_char r unrejected (find_forbidden characters name) rest).1
                            (f, h.1),
                      ),
                    ),
                  ),
            ),
      )

  pub check_name_lem :
      (r : Outcome)
      → NotRejected r
      → (config : Config) (name : Text)
      → (check_name lower (from_config lower config) (lower name) ≡ r) ↔ (
          All (λ s. lower s ≢ lower name) config.forbidden_filenames
          × (check_basename lower (from_config lower config) (lower name) ≡ r))
  unfolding check_name from_config
  check_name_lem r unrejected config name =
      let known = map lower config.forbidden_filenames in
      let (any_to, any_from) = any-false (λ s. text_eq s (lower name)) known in
      let (map_to, map_from) =
        All-map (λ s. text_eq s (lower name) ≡ false) lower config.forbidden_filenames in
      let (to, from) =
        guarded r unrejected (any (λ s. text_eq s (lower name)) known) forbidden_name
          (check_basename lower (from_config lower config) (lower name)) in
      (
        λ e. (
          All-imp (λ s. (text_ne (lower s) (lower name)).0) config.forbidden_filenames
              (map_to (any_to (to e).0)),
          (to e).1,
        ),
        λ h. from (
          any_from (
              map_from
                (All-imp (λ s. (text_ne (lower s) (lower name)).1) config.forbidden_filenames h.0)),
          h.1,
        ),
      )
