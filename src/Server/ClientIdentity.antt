-- ===== src/Server/ClientIdentity.antt =====
-- core-rs/crates/nc-server/src/client_identity.rs: who sent a request, behind trusted proxies, and
-- whether the host is trusted. Headers are what the header map answers for a name in lower case;
-- the regular expressions and the table of `to_lowercase` are parameters.
pub mod Cidr
pub mod Remote
pub mod Trust
mod Tests
use nc_server_rs.Prelude.{
  ℕ, ◌-◌, Bool, true, false, not, ◌&&◌, ◌||◌, Option, none, some, List, [], ◌∷◌, ◌++◌, ◌==◌, leb,
  ltb, if◌then◌else◌, map, any, all, ◌>>=◌, suc, zero, ◌+◌,
}
use Prim.Native.Nat.{bit_and}
use mathlib.Core.List.{reverse}
use nc_server_rs.Prelude.Masks.{mask}
use nc_server_rs.Prelude.Net.{IpAddr, v4, v6, bits_v6, parse_ip, print_ip}
use nc_server_rs.Prelude.Parse.{parse_unsigned}
use nc_server_rs.Prelude.Text.{
  Text, codes, text_eq, strip_prefix, starts_with, ends_with, split_once, rsplit_once, split, trim,
  is_digit, to_ascii_lower,
}

-- The configuration's values that the resolution reads.
pub record Config : Type 0 where
  pub installed : Bool
  pub trusted_proxies : Option (List Text)
  pub forwarded_for_headers : Option (List Text)
  pub overwritecondaddr : Option Text
  pub overwriteprotocol : Option Text
  pub overwritehost : Option Text
  pub trusted_domains : Option (List Text)

-- `HeaderMap::get` with `to_str`: the text of the first header of a name.
abbrev pub Headers : Type 0
Headers = Text → Option Text

-- The crate regex-lite.
pub record Regexes : Type 1 where
  pub Regex : Type 0
  pub new : Text → Option Regex
  pub is_match : Regex → Text → Bool
  pub escape : Text → Text

abbrev pub to_ascii_upper : ℕ → ℕ
to_ascii_upper c = if leb b'a' c && leb c b'z' then c - 32 else c

abbrev pub dashed : ℕ → ℕ
dashed c = if c == b'_' then b'-' else c

unfoldable pub forwarded_header_wire_name : Text → Option Text
forwarded_header_wire_name server_param =
    strip_prefix (codes "HTTP_") (map to_ascii_upper server_param) >>= λ rest.
    some (map to_ascii_lower (map dashed rest))

abbrev pub non_empty : Text → Option Text
non_empty [] = none
non_empty (c ∷ s) = some (c ∷ s)

unfoldable pub header_value : Headers → Text → Option Text
header_value headers name = headers name >>= λ v. non_empty (trim v)

-- Whether two addresses agree under the mask of the first `bits` of `width` bits.
unfoldable pub masked_eq : ℕ → ℕ → ℕ → ℕ → Bool
masked_eq width bits net ip =
    let m = if bits == 0 then 0 else mask width (width - bits) in bit_and net m == bit_and ip m

unfoldable pub match_prefix : Option ℕ → IpAddr → IpAddr → Option Bool
match_prefix bits (v4 net) (v4 ip) =
    let n : ℕ = elim bits [ some b ↦ b | none ↦ 32 ] in
    if ltb 32 n then none else some (masked_eq 32 n net ip)
match_prefix bits (v6 net) (v6 ip) =
    let n : ℕ = elim bits [ some b ↦ b | none ↦ 128 ] in
    if ltb 128 n then none else some (masked_eq 128 n (bits_v6 net) (bits_v6 ip))
match_prefix bits (v4 net) (v6 ip) = some false
match_prefix bits (v6 net) (v4 ip) = some false

-- The address and the prefix length of an entry, which a length that is no `u8` spoils.
unfoldable pub entry_parts : Text → Option (Text × Option ℕ)
entry_parts entry = elim (split_once b'/' entry) [
  | some (a, b) ↦ (parse_unsigned 255 b >>= λ bits. some (a, some bits))
  | none ↦ some (entry, none)
]

unfoldable pub cidr_matches : Text → IpAddr → Option Bool
cidr_matches entry ip =
    entry_parts entry >>= λ parts. parse_ip parts.0 >>= λ parsed. match_prefix parts.1 parsed ip

abbrev pub or_false : Option Bool → Bool
or_false none = false
or_false (some b) = b

unfoldable pub is_trusted_proxy : Config → IpAddr → Bool
is_trusted_proxy cfg ip = elim cfg.trusted_proxies [
  | none ↦ false
  | some list ↦ any (λ entry. or_false (cidr_matches entry ip)) list
]

abbrev pub count : ℕ → Text → ℕ
count d [] = 0
count d (c ∷ s) = if c == d then suc (count d s) else count d s

-- Up to the first `d`, or everything.
abbrev pub before : ℕ → Text → Text
before d s = elim (split_once d s) [ some (a, _) ↦ a | none ↦ s ]

-- An entry without the brackets or the port around its address.
unfoldable pub candidate_of : Text → Text
candidate_of raw =
    let candidate = trim raw in
    let colons = count b':' candidate in
    if ltb 1 colons
    then elim (strip_prefix (codes "[") candidate) [
      | some rest ↦ elim (split_once b']' rest) [ some (a, _) ↦ a | none ↦ candidate ]
      | none ↦ candidate
    ]
    else if colons == 1
    then before b':' candidate
    else candidate

-- The first entry that reads as an address and is no trusted proxy.
unfoldable pub first_untrusted : Config → List Text → Option IpAddr
first_untrusted cfg [] = none
first_untrusted cfg (raw ∷ raws) =
    let rest = first_untrusted cfg raws in
    elim (parse_ip (candidate_of raw)) [
      | none ↦ rest
      | some ip ↦ if is_trusted_proxy cfg ip then rest else some ip
    ]

-- The entries of one header, the last first.
unfoldable pub header_entries : Headers → Text → List Text
header_entries headers server_param =
    elim (forwarded_header_wire_name server_param >>= λ wire. header_value headers wire) [
      | none ↦ []
      | some value ↦ reverse (split b',' value)
    ]

unfoldable pub walk_headers : Config → Headers → List Text → Option IpAddr
walk_headers cfg headers [] = none
walk_headers cfg headers (server_param ∷ params) =
    let rest = walk_headers cfg headers params in
    elim (first_untrusted cfg (header_entries headers server_param)) [
      | some ip ↦ some ip
      | none ↦ rest
    ]

abbrev pub forwarded_headers : Config → List Text
forwarded_headers cfg = elim cfg.forwarded_for_headers [
  | some params ↦ params
  | none ↦ codes "HTTP_X_FORWARDED_FOR" ∷ []
]

unfoldable pub remote_address : IpAddr → Headers → Config → IpAddr
remote_address peer headers cfg =
    if not (is_trusted_proxy cfg peer)
    then peer
    else elim (walk_headers cfg headers (reverse (forwarded_headers cfg))) [
      | some ip ↦ ip
      | none ↦ peer
    ]

-- Numeric port behind the last colon, or the scheme's.
unfoldable pub host_port : Text → Bool → ℕ
host_port host https = elim (rsplit_once b':' host >>= λ parts. parse_unsigned 65_535 parts.1) [
  | some p ↦ p
  | none ↦ if https then 443 else 80
]

unfoldable pub domain_without_port : Text → Text
domain_without_port host = elim (rsplit_once b':' host) [
  | none ↦ host
  | some (head, tail) ↦ if all is_digit tail then head else host
]

unfoldable pub is_localhost : Text → Bool
is_localhost domain =
    text_eq domain (codes "127.0.0.1")
    || text_eq domain (codes "localhost")
    || text_eq domain (codes "[::1]")

unfoldable pub contains_dots : Text → Bool
contains_dots [] = false
contains_dots (c ∷ s) = starts_with (codes "..") (c ∷ s) || contains_dots s

abbrev pub is_set : Option Text → Bool
is_set none = false
is_set (some []) = false
is_set (some (c ∷ s)) = true

-- The first part of a comma list, trimmed.
abbrev pub first_listed : Text → Text
first_listed value = trim (before b',' value)

abbrev pub joined : Text → List Text → Text
joined sep [] = []
joined sep (s ∷ []) = s
joined sep (s ∷ t ∷ rest) = s ++ (sep ++ joined sep (t ∷ rest))

-- `regex_lite::Regex::new` of a trusted domain, each `*` of which stands for a class.
unfoldable pub domain_pattern : (Text → Text) → Text → Text
domain_pattern escape trusted =
    codes "(?i)^"
    ++ (joined (codes "[-\\.a-zA-Z0-9]*") (map escape (split b'*' trusted)) ++ codes "$")

pub record ClientIdentity : Type 0 where
  pub ip : IpAddr
  pub https : Bool
  pub host : Text
  pub port : ℕ

-- The answers to a request with an untrusted host, all with status 400.
pub data Refusal : Type 0 where
  trusted_domain_json : Refusal
  bad_request_page : Refusal

module _ (rx : Regexes) (lower : Text → Text) where
  open rx use {new, is_match, escape}

  unfoldable pub is_overwrite_condition : IpAddr → Config → Bool
  is_overwrite_condition peer cfg = elim cfg.overwritecondaddr [
    | none ↦ true
    | some [] ↦ true
    | some (c ∷ s) ↦ elim (new (c ∷ s)) [ none ↦ false | some re ↦ is_match re (print_ip peer) ]
  ]

  unfoldable pub server_proto : IpAddr → Headers → Config → Text
  server_proto peer headers cfg = elim cfg.overwriteprotocol [
    | some overwrite ↦
        if not (text_eq overwrite []) && is_overwrite_condition peer cfg
        then lower overwrite
        else codes "http"
    | none ↦
        if is_trusted_proxy cfg peer
        then elim (header_value headers (codes "x-forwarded-proto")) [
          | some xfp ↦ lower (first_listed xfp)
          | none ↦ codes "http"
        ]
        else codes "http"
  ]

  unfoldable pub server_protocol : IpAddr → Headers → Config → Bool
  server_protocol peer headers cfg = text_eq (server_proto peer headers cfg) (codes "https")

  unfoldable pub get_overwrite_host : IpAddr → Config → Option Text
  get_overwrite_host peer cfg = elim cfg.overwritehost [
    | none ↦ none
    | some h ↦ if not (text_eq h []) && is_overwrite_condition peer cfg then some h else none
  ]

  unfoldable pub insecure_server_host : IpAddr → Headers → Config → Text
  insecure_server_host peer headers cfg =
      if is_trusted_proxy cfg peer
      then elim (get_overwrite_host peer cfg) [
        | some host ↦ host
        | none ↦ elim (header_value headers (codes "x-forwarded-host")) [
          | some xfh ↦ first_listed xfh
          | none ↦ codes "localhost"
        ]
      ]
      else elim (header_value headers (codes "host")) [ some h ↦ h | none ↦ codes "localhost" ]

  unfoldable pub resolve : Headers → IpAddr → Config → ClientIdentity
  resolve headers peer cfg =
      let https = server_protocol peer headers cfg in
      let host = insecure_server_host peer headers cfg in
      record {
        ip = remote_address peer headers cfg;
        https = https;
        host = host;
        port = host_port host https;
      }

  unfoldable pub domain_matches : Text → Text → Text → Bool
  domain_matches domain domain_with_port trusted = elim (new (domain_pattern escape trusted)) [
    | none ↦ false
    | some re ↦ is_match re domain || is_match re domain_with_port
  ]

  unfoldable pub is_trusted_domain : Config → Text → Bool
  is_trusted_domain cfg domain_with_port =
      let domain = domain_without_port domain_with_port in
      let trusted_list : List Text = elim cfg.trusted_domains [ some l ↦ l | none ↦ [] ] in
      if is_set cfg.overwritehost
      then true
      else if is_localhost domain
      then true
      else if starts_with (codes "-") domain || contains_dots domain
      then false
      else any (domain_matches domain domain_with_port) trusted_list

  unfoldable pub trusted_domains_response : Config → IpAddr → Headers → Text → Text → Option Refusal
  trusted_domains_response cfg peer headers uri_path_and_query path_info =
      if not cfg.installed
      then none
      else if is_trusted_domain cfg (insecure_server_host peer headers cfg)
      then none
      else if starts_with (codes "/css/") path_info
      then none
      else if ends_with (codes "/status.php") uri_path_and_query
      then some trusted_domain_json
      else some bad_request_page
