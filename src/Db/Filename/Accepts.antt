-- ===== src/Db/Filename/Accepts.antt =====
-- core-rs/crates/nc-db/src/filename_validator.rs: exactly which names pass, and which panic, in
-- terms of the configuration.
use nc_server_rs.Prelude.{
  ℕ, ◌≤◌, ◌<◌, ◌≡◌, refl, sym, ◌∙◌, ◌≢◌, ◌↔◌, Bool, true, false, List, [], ◌∷◌, leb, if◌then◌else◌,
  map, any, All, arith,
}
use nc_server_rs.Prelude.Text.{Text, codes, text_eq, ends_with}
use nc_server_rs.Db.Filename.{
  Outcome, accepted, rejected, panics, forbidden_basename, Config, FilenameValidator, basename_of,
  from_config, check_extension, check_basename, validate,
}
use nc_server_rs.Db.Filename.Rules.{text_ne, any-false, All-imp, All-map}
use nc_server_rs.Db.Filename.Gates.{
  Plain, accepted-NotRejected, panics-NotRejected, check_extension-accepted, validate-Plain,
  check_name_lem,
}

tested :
    (cut listed : Bool) (next : Outcome)
    → ((if cut then panics else if listed then rejected forbidden_basename else next) ≡ accepted)
      ↔ ((cut ≡ false) × (listed ≡ false) × (next ≡ accepted))
tested true listed next = ((λ h. absurd (cc)), (λ h. absurd (cc)))
tested false true next = ((λ h. absurd (cc)), (λ h. absurd (cc)))
tested false false next = ((λ h. (refl, refl, h)), (λ h. h.2))

cut_only :
    (cut listed : Bool) (next : Outcome)
    → next ≢ panics
    → ((if cut then panics else if listed then rejected forbidden_basename else next) ≡ panics)
      ↔ (cut ≡ true)
cut_only true listed next ne = ((λ h. refl), (λ h. refl))
cut_only false true next ne = ((λ h. absurd (cc)), (λ h. absurd (cc)))
cut_only false false next ne = ((λ h. absurd (ne h)), (λ h. absurd (cc)))

not_leb : (a b : ℕ) → leb a b ≡ false → b < a
not_leb a b h = ground arith

module _ (lower : Text → Text) where
  -- There is no list of basenames, or the lower-cased name starts with one byte and its basename
  -- is not on the list.
  abbrev pub Clears : List Text → Text → Type 0
  Clears [] lc = Unit
  Clears (b ∷ bs) [] = ⊥
  Clears (b ∷ bs) (c ∷ s) = (c < 128) × All (λ base. lower base ≢ basename_of c s) (b ∷ bs)

  -- There is a list of basenames, and the lower-cased name does not start with one byte.
  abbrev pub Cuts : List Text → Text → Type 0
  Cuts [] lc = ⊥
  Cuts (b ∷ bs) [] = Unit
  Cuts (b ∷ bs) (c ∷ s) = 128 ≤ c

  -- The rules on the lower-cased name.
  pub record Unlisted (config : Config) (name : Text) : Type 0 where
    pub filenames : All (λ s. lower s ≢ lower name) config.forbidden_filenames
    pub basenames : Clears config.forbidden_filename_basenames (lower name)
    pub extensions :
        All (λ ext. ends_with (lower ext) (lower name) ≡ false) config.forbidden_filename_extensions
    pub no_part : ends_with (codes ".part") (lower name) ≡ false
    pub no_filepart : ends_with (codes ".filepart") (lower name) ≡ false

  clear_names :
      (base_lc : Text) (bases : List Text)
      → (any (λ base. text_eq base base_lc) (map lower bases) ≡ false)
        ↔ All (λ base. lower base ≢ base_lc) bases
  clear_names base_lc bases =
      let (any_to, any_from) = any-false (λ base. text_eq base base_lc) (map lower bases) in
      let (map_to, map_from) = All-map (λ base. text_eq base base_lc ≡ false) lower bases in
      (
        λ h. All-imp (λ base. (text_ne (lower base) base_lc).0) bases (map_to (any_to h)),
        λ h. any_from (map_from (All-imp (λ base. (text_ne (lower base) base_lc).1) bases h)),
      )

  -- The seventh rule on a lower-cased name, by the list's and the name's shape.
  basename_rule : List Text → Text → (Text → Outcome) → Outcome
  basename_rule [] lc next = next lc
  basename_rule (b ∷ bs) [] next = panics
  basename_rule (b ∷ bs) (c ∷ s) next =
      if leb 128 c
      then panics
      else if any (λ base. text_eq base (basename_of c s)) (map lower (b ∷ bs))
      then rejected forbidden_basename
      else next (c ∷ s)

  check_basename_rule :
      (config : Config) (lc : Text) (bases : List Text)
      → config.forbidden_filename_basenames ≡ bases
      → check_basename lower (from_config lower config) lc
        ≡ basename_rule bases lc (check_extension lower (from_config lower config))
  unfolding check_basename from_config basename_rule
  check_basename_rule config lc [] e = rw e refl
  check_basename_rule config [] (b ∷ bs) e = rw e refl
  check_basename_rule config (c ∷ s) (b ∷ bs) e = rw e refl

  rule-accepted :
      (bases : List Text) (lc : Text) (next : Text → Outcome)
      → (basename_rule bases lc next ≡ accepted) ↔ (Clears bases lc × (next lc ≡ accepted))
  unfolding basename_rule
  rule-accepted [] lc next = ((λ h. (tt, h)), (λ h. h.1))
  rule-accepted (b ∷ bs) [] next = ((λ h. absurd (cc)), (λ h. absurd h.0))
  rule-accepted (b ∷ bs) (c ∷ s) next =
      let listed = any (λ base. text_eq base (basename_of c s)) (map lower (b ∷ bs)) in
      let (any_to, any_from) = clear_names (basename_of c s) (b ∷ bs) in
      (
        λ h.
            let (start, clear, rest) = (tested (leb 128 c) listed (next (c ∷ s))).0 h in
            ((omega (arith, not_leb 128 c start), any_to clear), rest),
        λ h.
            (tested (leb 128 c) listed (next (c ∷ s))).1
              (ground (arith, h.0.0), any_from h.0.1, h.1),
      )

  check_extension-panics : (v : FilenameValidator) (lc : Text) → check_extension lower v lc ≢ panics
  unfolding check_extension
  check_extension-panics v lc h = ground arith

  rule-panics :
      (bases : List Text) (lc : Text) (next : Text → Outcome)
      → ((t : Text) → next t ≢ panics)
      → (basename_rule bases lc next ≡ panics) ↔ Cuts bases lc
  unfolding basename_rule
  rule-panics [] lc next ne = ((λ h. ne lc h), (λ h. absurd h))
  rule-panics (b ∷ bs) [] next ne = ((λ h. tt), (λ h. refl))
  rule-panics (b ∷ bs) (c ∷ s) next ne =
      let listed = any (λ base. text_eq base (basename_of c s)) (map lower (b ∷ bs)) in
      let (to, from) = cut_only (leb 128 c) listed (next (c ∷ s)) (ne (c ∷ s)) in
      ((λ h. ground (arith, to h)), (λ h. from (ground (arith, h))))

  -- A validator built from a configuration accepts exactly the names that are not blank, not `.`
  -- nor `..`, at most 250 bytes long (the documentation says characters, of which a name of
  -- several bytes each has fewer), without control characters, backslashes, slashes or
  -- configured characters, and whose lower-cased form is no configured name, has no configured
  -- basename (and starts with a one-byte character if basenames are configured), and ends in no
  -- configured extension, nor in `.part` or `.filepart`.
  pub validate-accepted_iff :
      (config : Config) (name : Text)
      → (validate lower (from_config lower config) name ≡ accepted)
        ↔ (Plain config name × Unlisted config name)
  validate-accepted_iff config name =
      let (plain_to, plain_from) = validate-Plain lower accepted accepted-NotRejected config name in
      let (name_to, name_from) = check_name_lem lower accepted accepted-NotRejected config name in
      let bases = config.forbidden_filename_basenames in
      let next = check_extension lower (from_config lower config) in
      let same = check_basename_rule config (lower name) bases refl in
      let (rule_to, rule_from) = rule-accepted bases (lower name) next in
      let (ext_to, ext_from) = check_extension-accepted lower config (lower name) in
      (
        λ h.
            let (plain, rest) = plain_to h in
            let (filenames, rest') = name_to rest in
            let (clears, rest'') = rule_to (sym same ∙ rest') in
            let (extensions, no_part, no_filepart) = ext_to rest'' in
            (
              plain,
              record {
                filenames = filenames;
                basenames = clears;
                extensions = extensions;
                no_part = no_part;
                no_filepart = no_filepart;
              },
            ),
        λ h.
            let u = h.1 in
            plain_from (
              h.0,
              name_from (
                u.filenames,
                same ∙ rule_from (u.basenames, ext_from (u.extensions, u.no_part, u.no_filepart)),
              ),
            ),
      )

  -- The validation panics exactly on a name that passes the first five rules, is no configured
  -- name, and whose lower-cased form does not start with a one-byte character, where basenames
  -- are configured.
  pub validate-panics_iff :
      (config : Config) (name : Text)
      → (validate lower (from_config lower config) name ≡ panics) ↔ (
          Plain config name
          × All (λ s. lower s ≢ lower name) config.forbidden_filenames
          × Cuts config.forbidden_filename_basenames (lower name))
  validate-panics_iff config name =
      let (plain_to, plain_from) = validate-Plain lower panics panics-NotRejected config name in
      let (name_to, name_from) = check_name_lem lower panics panics-NotRejected config name in
      let bases = config.forbidden_filename_basenames in
      let v = from_config lower config in
      let same = check_basename_rule config (lower name) bases refl in
      let (rule_to, rule_from) =
        rule-panics bases (lower name) (check_extension lower v) (check_extension-panics v) in
      (
        λ h.
            let (plain, rest) = plain_to h in
            let (filenames, rest') = name_to rest in (plain, filenames, rule_to (sym same ∙ rest')),
        λ h. plain_from (h.0, name_from (h.1, same ∙ rule_from h.2)),
      )
