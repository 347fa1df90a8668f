-- ===== src/Db/Filename.antt =====
-- core-rs/crates/nc-db/src/filename_validator.rs: the rules for a file's name. The table of
-- `to_lowercase` is a parameter. A text is the list of its code points.
pub mod Rules
pub mod Gates
pub mod Accepts
mod Tests
use nc_server_rs.Prelude.{
  ℕ, ◌+◌, Bool, true, false, not, ◌&&◌, ◌||◌, Option, none, some, List, [], ◌∷◌, ◌++◌, ◌==◌, leb,
  ltb, if◌then◌else◌, map, any, all,
}
use nc_server_rs.Prelude.Text.{Text, codes, text_eq, contains, split_once, trim, ends_with}

pub data FilenameError : Type 0 where
  empty : FilenameError
  dot_directory : FilenameError
  too_long : FilenameError
  control_char : FilenameError
  forbidden_char : ℕ → FilenameError
  forbidden_name : FilenameError
  forbidden_basename : FilenameError
  forbidden_extension : FilenameError

-- `Ok(())`, an error, or the panic of a slice that cuts a character.
pub data Outcome : Type 0 where
  accepted : Outcome
  rejected : FilenameError → Outcome
  panics : Outcome

-- The lists of the configuration.
pub record Config : Type 0 where
  pub forbidden_filenames : List Text
  pub forbidden_filename_basenames : List Text
  pub forbidden_filename_characters : List Text
  pub forbidden_filename_extensions : List Text

pub record FilenameValidator : Type 0 where
  pub filenames : List Text
  pub basenames : List Text
  pub characters : List ℕ
  pub extensions : List Text

-- Bytes of a character, and of a text, in UTF-8.
abbrev pub len_utf8 : ℕ → ℕ
len_utf8 c = if ltb c 128 then 1 else if ltb c 2048 then 2 else if ltb c 65_536 then 3 else 4

abbrev pub byte_len : Text → ℕ
byte_len [] = 0
byte_len (c ∷ s) = len_utf8 c + byte_len s

unfoldable pub push_new : List ℕ → Text → List ℕ
push_new known [] = known
push_new known (c ∷ s) =
    if any (λ k. k == c) known then push_new known s else push_new (known ++ (c ∷ [])) s

unfoldable pub push_all : List ℕ → List Text → List ℕ
push_all known [] = known
push_all known (s ∷ rest) = push_all (push_new known s) rest

unfoldable pub with_extension : List Text → Text → List Text
with_extension known ext = if any (λ e. text_eq e ext) known then known else known ++ (ext ∷ [])

abbrev pub always_forbidden_chars : List ℕ
always_forbidden_chars = b'\\' ∷ b'/' ∷ []

-- The first of the characters that a name holds.
unfoldable pub find_forbidden : List ℕ → Text → Option ℕ
find_forbidden [] name = none
find_forbidden (c ∷ cs) name =
    let rest = find_forbidden cs name in if contains c name then some c else rest

-- Up to the first dot that does not lead the name.
unfoldable pub basename_of : ℕ → Text → Text
basename_of c s = elim (split_once b'.' s) [ some (before, _) ↦ c ∷ before | none ↦ c ∷ s ]

module _ (lower : Text → Text) where
  unfoldable pub from_config : Config → FilenameValidator
  from_config config = record {
    filenames = map lower config.forbidden_filenames;
    basenames = map lower config.forbidden_filename_basenames;
    characters = push_all always_forbidden_chars config.forbidden_filename_characters;
    extensions =
        with_extension
          (with_extension (map lower config.forbidden_filename_extensions) (codes ".part"))
          (codes ".filepart");
  }

  -- The eighth rule.
  unfoldable pub check_extension : FilenameValidator → Text → Outcome
  check_extension v name_lc =
      if any (λ ext. ends_with ext name_lc) v.extensions
      then rejected forbidden_extension
      else accepted

  -- The seventh rule slices the lower-cased name behind its first byte.
  unfoldable pub check_basename : FilenameValidator → Text → Outcome
  check_basename v name_lc = elim v.basenames [
    | [] ↦ check_extension v name_lc
    | b ∷ bs ↦ elim name_lc [
      | [] ↦ panics
      | c ∷ s ↦
          if leb 128 c
          then panics
          else if any (λ base. text_eq base (basename_of c s)) (b ∷ bs)
          then rejected forbidden_basename
          else check_extension v (c ∷ s)
    ]
  ]

  unfoldable pub check_name : FilenameValidator → Text → Outcome
  check_name v name_lc =
      if any (λ known. text_eq known name_lc) v.filenames
      then rejected forbidden_name
      else check_basename v name_lc

  unfoldable pub validate : FilenameValidator → Text → Outcome
  validate v filename =
      if text_eq (trim filename) []
      then rejected empty
      else if text_eq filename (codes ".") || text_eq filename (codes "..")
      then rejected dot_directory
      else if ltb 250 (byte_len filename)
      then rejected too_long
      else if any (λ c. ltb c 32) filename
      then rejected control_char
      else elim (find_forbidden v.characters filename) [
        | some c ↦ rejected (forbidden_char c)
        | none ↦ check_name v (lower filename)
      ]
