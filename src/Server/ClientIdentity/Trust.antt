-- ===== src/Server/ClientIdentity/Trust.antt =====
-- core-rs/crates/nc-server/src/client_identity.rs: what an untrusted peer can say of itself, and
-- which hosts are served.
use nc_server_rs.Prelude.{◌≡◌, ◌⊎◌, ◌↔◌, ◌≢◌, true, false, none, some, List, arith, any}
use nc_server_rs.Prelude.Net.{IpAddr}
use nc_server_rs.Prelude.Text.{Text, codes, starts_with}
use nc_server_rs.Server.ClientIdentity.{
  Config, Headers, Regexes, is_trusted_proxy, remote_address, header_value, server_proto,
  server_protocol, insecure_server_host, resolve, is_set, domain_without_port, is_localhost,
  contains_dots, is_trusted_domain, trusted_domains_response, domain_matches,
}

module _ (rx : Regexes) (lower : Text → Text) where
  direct_host :
      (cfg : Config) (peer : IpAddr) (headers others : Headers)
      → is_trusted_proxy cfg peer ≡ false
      → headers (codes "host") ≡ others (codes "host")
      → insecure_server_host rx lower peer headers cfg
        ≡ insecure_server_host rx lower peer others cfg
  unfolding insecure_server_host header_value
  direct_host cfg peer headers others direct same = ground arith

  direct_proto :
      (cfg : Config) (peer : IpAddr) (headers others : Headers)
      → is_trusted_proxy cfg peer ≡ false
      → server_protocol rx lower peer headers cfg ≡ server_protocol rx lower peer others cfg
  unfolding server_protocol server_proto
  direct_proto cfg peer headers others direct = ground arith

  direct_address :
      (cfg : Config) (peer : IpAddr) (headers : Headers)
      → is_trusted_proxy cfg peer ≡ false
      → remote_address peer headers cfg ≡ peer
  unfolding remote_address
  direct_address cfg peer headers direct = ground arith

  -- A peer that is no trusted proxy is taken at its own address, and no header but `Host` has a
  -- part in its identity: two requests of it with the same `Host` have the same identity.
  resolve-direct :
      (cfg : Config) (peer : IpAddr) (headers others : Headers)
      → is_trusted_proxy cfg peer ≡ false
      → headers (codes "host") ≡ others (codes "host")
      → (resolve rx lower headers peer cfg ≡ resolve rx lower others peer cfg)
        × ((resolve rx lower headers peer cfg).ip ≡ peer)
  unfolding resolve
  resolve-direct cfg peer headers others direct same = ground (
    arith,
    direct_host cfg peer headers others direct same,
    direct_proto cfg peer headers others direct,
    direct_address cfg peer headers direct,
    direct_address cfg peer others direct,
  )

  -- With `overwritehost` set every host is trusted. Otherwise a host is trusted exactly if its
  -- domain is a local one, or is well-formed (it starts with no hyphen and holds no two dots in a
  -- row) and it matches a trusted domain with or without its port.
  is_trusted_domain_iff :
      (cfg : Config) (domains : List Text) (host : Text)
      → cfg.trusted_domains ≡ some domains
      → (is_trusted_domain rx lower cfg host ≡ true) ↔ (
          (is_set cfg.overwritehost ≡ true)
          ⊎ ((is_localhost (domain_without_port host) ≡ true)
              ⊎ ((starts_with (codes "-") (domain_without_port host) ≡ false)
                  × (contains_dots (domain_without_port host) ≡ false)
                  × (any (domain_matches rx lower (domain_without_port host) host) domains
                      ≡ true))))
  unfolding is_trusted_domain
  is_trusted_domain_iff cfg domains host listed = ground arith

  -- A request is refused exactly when the instance is installed, the host it names is not trusted,
  -- and its path is not below `/css/`.
  pub trusted_domains_response_iff :
      (cfg : Config) (peer : IpAddr) (headers : Headers) (uri path_info : Text)
      → (trusted_domains_response rx lower cfg peer headers uri path_info ≢ none) ↔ (
          (cfg.installed ≡ true)
          × (is_trusted_domain rx lower cfg (insecure_server_host rx lower peer headers cfg)
              ≡ false)
          × (starts_with (codes "/css/") path_info ≡ false))
  unfolding trusted_domains_response
  trusted_domains_response_iff cfg peer headers uri path_info = ground arith
