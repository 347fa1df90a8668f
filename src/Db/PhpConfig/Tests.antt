-- ===== src/Db/PhpConfig/Tests.antt =====
-- Runs of `extract_config_body` of core-rs/crates/nc-db/src/config.rs, and the laws there.
use nc_server_rs.Prelude.{◌<◌, ◌≡◌, refl, false, some, List, [], ◌∷◌, ◌++◌}
use nc_server_rs.Prelude.Text.{codes, contains, split_once, starts_with}
use nc_server_rs.Prelude.Search.{find_subsequence}
use nc_server_rs.Db.PhpConfig.{
  step, scan, slice_to, body, panics, missing, array_body, extract_config_body,
}
use nc_server_rs.Db.PhpConfig.Nested.{
  char, pair, Token, plain, literal, opening, closing, show, bytes, extract_config_body-nested,
  array_body-short,
}

-- `'a]'=>['\\'']`: brackets and an escaped quote in literals, and an array inside.
abbrev tokens : List Token
tokens =
    literal b'\'' (char b'a' ∷ char b']' ∷ [])
    ∷ plain b'='
    ∷ plain b'>'
    ∷ opening
    ∷ literal b'\'' (pair b'\'' ∷ [])
    ∷ closing
    ∷ []

found :
    find_subsequence (codes "$CONFIG") (
      codes "<?php "
      ++ (codes "$CONFIG" ++ (codes " = " ++ b'[' ∷ (show tokens ++ b']' ∷ codes ";"))))
    ≡ some 6
unfolding find_subsequence starts_with
found = refl

clean : contains b'[' (codes " = ") ≡ false
unfolding contains
clean = refl

extract_config_body-nested_example :
    extract_config_body (
      codes "<?php "
      ++ (codes "$CONFIG" ++ (codes " = " ++ b'[' ∷ (show tokens ++ b']' ∷ codes ";"))))
    ≡ body (show tokens)
extract_config_body-nested_example =
    extract_config_body-nested (codes "<?php ") (codes " = ") (codes ";") tokens found clean refl
      refl

-- A literal of an umlaut and a letter.
abbrev umlaut : List Token
umlaut = literal b'\'' (char 252 ∷ char b'b' ∷ []) ∷ []

cut_short : array_body (show umlaut ++ b']' ∷ []) ≡ body (b'\'' ∷ 252 ∷ b'b' ∷ [])
unfolding array_body scan step slice_to
cut_short = refl

array_body-short_example : bytes (b'\'' ∷ 252 ∷ b'b' ∷ []) < bytes (show umlaut)
array_body-short_example = array_body-short [] umlaut refl refl (b'\'' ∷ 252 ∷ b'b' ∷ []) cut_short

-- The end of the text of an array that is never closed.
not_closed : extract_config_body (codes "$CONFIG = ['a'") ≡ body []
unfolding extract_config_body find_subsequence starts_with split_once array_body scan step slice_to
not_closed = refl

inside_a_character : array_body (codes "a" ++ 8364 ∷ b']' ∷ []) ≡ panics
unfolding array_body scan step slice_to
inside_a_character = refl

old_syntax : extract_config_body (codes "$CONFIG = array('a' => 1);") ≡ missing
unfolding extract_config_body find_subsequence starts_with split_once
old_syntax = refl
