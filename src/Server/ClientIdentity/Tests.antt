-- ===== src/Server/ClientIdentity/Tests.antt =====
-- Runs of core-rs/crates/nc-server/src/client_identity.rs behind the proxies 10.0.0.0/8, and the
-- laws at concrete requests. The regular expressions of these runs are plain texts.
use nc_server_rs.Prelude.{◌≡◌, refl, ◌↔◌, true, false, none, some, [], ◌∷◌, arith, if◌then◌else◌}
use nc_server_rs.Prelude.Net.{IpAddr, v4, v6, parse_ip, print_ip}
use nc_server_rs.Prelude.Parse.{parse_unsigned, parse_digits}
use nc_server_rs.Prelude.Decimal.{decimal}
use nc_server_rs.Prelude.Text.{Text, codes, text_eq, split_once, trim, strip_prefix}
use nc_server_rs.Server.ClientIdentity.{
  Config, Headers, Regexes, cidr_matches, entry_parts, match_prefix, is_trusted_proxy,
  remote_address, first_untrusted, candidate_of,
}
use nc_server_rs.Server.ClientIdentity.Cidr.{Covers, cidr_matches-Covers}
use nc_server_rs.Server.ClientIdentity.Remote.{Origin, remote_address-Origin}

parsed :
    (parse_ip (codes "10.1.2.3") ≡ some (v4 167_838_211))
    × (parse_ip (codes "10.1.2.03") ≡ none)
    × (parse_ip (codes "::1") ≡ some (v6 (0 ∷ 0 ∷ 0 ∷ 0 ∷ 0 ∷ 0 ∷ 0 ∷ 1 ∷ [])))
    × (parse_ip (codes "::ffff:1.2.3.4") ≡ some (v6 (0 ∷ 0 ∷ 0 ∷ 0 ∷ 0 ∷ 65_535 ∷ 258 ∷ 772 ∷ [])))
    × (print_ip (v6 (8193 ∷ 3512 ∷ 0 ∷ 0 ∷ 1 ∷ 0 ∷ 0 ∷ 1 ∷ [])) ≡ codes "2001:db8::1:0:0:1")
    × (print_ip (v4 167_838_211) ≡ codes "10.1.2.3")
unfolding parse_ip print_ip decimal
parsed = (refl, refl, refl, refl, refl, refl)

abbrev cfg : Config
cfg = record {
  installed = true;
  trusted_proxies = some (codes "10.0.0.0/8" ∷ codes "bad/x" ∷ []);
  forwarded_for_headers = none;
  overwritecondaddr = none;
  overwriteprotocol = none;
  overwritehost = none;
  trusted_domains = some (codes "cloud.example" ∷ []);
}

abbrev headers : Headers
headers name =
    if text_eq name (codes "x-forwarded-for")
    then some (codes "1.1.1.1, 9.9.9.9:80, [x], 10.0.0.2")
    else none

abbrev plain : Regexes
plain = record { Regex = Text; new = λ s. some s; is_match = text_eq; escape = λ s. s }

abbrev proxy : IpAddr
proxy = v4 167_772_161

abbrev other : IpAddr
other = v6 (8193 ∷ 3512 ∷ 0 ∷ 0 ∷ 0 ∷ 0 ∷ 0 ∷ 1 ∷ [])

mask_run : cidr_matches (codes "10.0.0.0/8") proxy ≡ some true
unfolding entry_parts parse_ip parse_unsigned parse_digits split_once
mask_run = (cidr_matches-Covers (codes "10.0.0.0/8") 167_772_161 (omega arith)).1 (record {
  address = codes "10.0.0.0";
  bits = some 8;
  network = 167_772_160;
  parts = refl;
  reads = refl;
  short = omega arith;
  agree = refl;
})

walk_run :
    first_untrusted cfg (codes " x" ∷ codes "[::1]:80" ∷ codes "1.1.1.1" ∷ [])
    ≡ some (v6 (0 ∷ 0 ∷ 0 ∷ 0 ∷ 0 ∷ 0 ∷ 0 ∷ 1 ∷ []))
unfolding first_untrusted candidate_of is_trusted_proxy cidr_matches entry_parts match_prefix
    parse_ip parse_unsigned parse_digits split_once strip_prefix trim
walk_run = refl

is_direct : is_trusted_proxy cfg other ≡ false
unfolding is_trusted_proxy cidr_matches entry_parts match_prefix parse_ip parse_unsigned
    parse_digits split_once
is_direct = refl

cidr_matches-Covers_example :
    (cidr_matches (codes "10.0.0.0/8") (v4 167_772_161) ≡ some true)
    ↔ Covers (codes "10.0.0.0/8") 167_772_161
cidr_matches-Covers_example = cidr_matches-Covers (codes "10.0.0.0/8") 167_772_161 (omega arith)

remote_address-Origin_example : Origin cfg proxy headers (remote_address proxy headers cfg)
remote_address-Origin_example = remote_address-Origin cfg proxy headers
