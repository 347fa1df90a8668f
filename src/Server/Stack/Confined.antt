-- ===== src/Server/Stack/Confined.antt =====
-- core-rs/crates/nc-server/src/router.rs: what the stack serves as a file, before it asks who the
-- client is.
use nc_server_rs.Prelude.{◌≡◌, ◌≢◌, ◌⊎◌, Bool, true, false, ◌||◌, ◌==◌, List, [], ◌∷◌, ◌++◌, All}
use nc_server_rs.Prelude.Text.{Text, codes, split, contains_text, text_eq, trim_start_by}
use nc_server_rs.Server.Stack.{Arrival, is_static}

-- A text stands somewhere in another.
abbrev IsInfix : Text → Text → Type 0
IsInfix s part = (before : Text) × (after : Text) × (s ≡ before ++ (part ++ after))

-- The first part stands at the front of a text, the others in it.
record Parted (s first : Text) (others : List Text) : Type 0 where
  rest : Text
  front : s ≡ first ++ rest
  each : All (IsInfix s) others

-- A path begins with one of the prefixes.
abbrev pub Below : List Text → Text → Type 0
Below [] path = ⊥
Below (prefix ∷ prefixes) path = ((rest : Text) × (path ≡ prefix ++ rest)) ⊎ Below prefixes path

-- What is owed of a file that is served without asking who the client is.
pub record Confined (is_file : Text → Bool) (prefixes : List Text) (a : Arrival) (path : Text)
    : Type 0 where
  pub asked : path ≡ a.path
  pub reads : (a.method ≡ codes "GET") ⊎ (a.method ≡ codes "HEAD")
  pub public : Below prefixes path ⊎ (path ≡ codes "/robots.txt") ⊎ (path ≡ codes "/index.html")
  pub no_ascent : All (λ segment. segment ≢ codes "..") (split b'/' path)
  pub no_script : All (λ segment. (stem : Text) → segment ≢ stem ++ codes ".php") (split b'/' path)
  pub there : is_file (trim_start_by (λ c. c == b'/') path) ≡ true

-- What the stack asks before it serves a file.
record Checked (is_file : Text → Bool) (prefixes : List Text) (method path : Text) : Type 0 where
  asks : (text_eq method (codes "GET") || text_eq method (codes "HEAD")) ≡ true
  static : is_static prefixes path ≡ true
  no_php : contains_text (codes ".php") path ≡ false
  no_dots : contains_text (codes "..") path ≡ false
  file : is_file (trim_start_by (λ c. c == b'/') path) ≡ true
