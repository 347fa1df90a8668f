-- ===== src/Db/PhpConfig.antt =====
-- core-rs/crates/nc-db/src/config.rs: where the array of a `config.php` ends. A text is the list of its
-- characters, but a slice of it is cut by bytes of UTF-8, as the source does.
pub mod Nested
mod Tests
use nc_server_rs.Prelude.{
  ℕ, zero, suc, ◌+◌, ◌-◌, ◌==◌, Bool, ◌||◌, Option, none, some, List, [], ◌∷◌, ◌++◌, if◌then◌else◌,
  drop, ltb, leb,
}
use nc_server_rs.Prelude.Search.{find_subsequence}
use nc_server_rs.Prelude.Text.{Text, codes, split_once}

-- In the array's text, in a literal with this quote, or behind a backslash in it.
pub data Mode : Type 0 where
  code : Mode
  quoted : ℕ → Mode
  escaped : ℕ → Mode

abbrev pub is_quote : ℕ → Bool
is_quote c = c == b'\'' || c == b'"'

-- One character; `none` at the bracket that closes the array.
unfoldable pub step : Mode → ℕ → ℕ → Option (Mode × ℕ)
step (escaped q) depth c = some (quoted q, depth)
step (quoted q) depth c =
    if c == b'\\'
    then some (escaped q, depth)
    else if c == q
    then some (code, depth)
    else some (quoted q, depth)
step code depth c =
    if c == b'['
    then some (code, suc depth)
    else if c == b']'
    then (if depth - 1 == 0 then none else some (code, depth - 1))
    else if is_quote c
    then some (quoted c, depth)
    else some (code, depth)

-- The index of the closing bracket from an index on, and 0 if there is none.
unfoldable pub scan : Mode → ℕ → ℕ → Text → ℕ
scan state depth i [] = 0
scan state depth i (c ∷ s) = elim (step state depth c) [
  | none ↦ i
  | some (next, deep) ↦ scan next deep (i + 1) s
]

abbrev pub utf8_width : ℕ → ℕ
utf8_width c = if ltb c 128 then 1 else if ltb c 2048 then 2 else if ltb c 65_536 then 3 else 4

-- `&s[..bytes]`; `none` is the panic of an index inside a character or behind the end.
unfoldable pub slice_to : ℕ → Text → Option Text
slice_to zero s = some []
slice_to (suc bytes) [] = none
slice_to (suc bytes) (c ∷ s) =
    let rest = slice_to (suc bytes - utf8_width c) s in
    if leb (utf8_width c) (suc bytes)
    then elim rest [ some t ↦ some (c ∷ t) | none ↦ none ]
    else none

pub data Extracted : Type 0 where
  missing : Extracted
  panics : Extracted
  body : Text → Extracted

-- The index counts characters, and the slice takes it for bytes.
unfoldable pub array_body : Text → Extracted
array_body text = elim (slice_to (scan code 1 0 text) text) [ some t ↦ body t | none ↦ panics ]

unfoldable pub extract_config_body : Text → Extracted
extract_config_body src = elim (find_subsequence (codes "$CONFIG") src) [
  | none ↦ missing
  | some at ↦ elim (split_once b'[' (drop (at + 7) src)) [
    | none ↦ missing
    | some (_, text) ↦ array_body text
  ]
]
