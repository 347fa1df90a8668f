-- ===== src/Fastcgi/Params/Tests.antt =====
-- Runs of the parameters of core-rs/crates/nc-fastcgi/src/lib.rs, and the laws at two requests.
use nc_server_rs.Prelude.{◌≡◌, refl, false, none, some, [], ◌∷◌}
use nc_server_rs.Prelude.Search.{find_subsequence}
use nc_server_rs.Prelude.Text.{codes, text_eq, starts_with, strip_prefix, contains}
use nc_server_rs.Auth.Users.{AuthInfo, session}
use nc_server_rs.Fastcgi.Params.{
  FastCgiState, Parts, get_param, derive_script_info, build_fcgi_params, proxy_params,
}
use nc_server_rs.Fastcgi.Params.Trust.{
  trusted_params, identity_param, proxy_params-Trusted, proxy_params-underscore,
}

scripts :
    (derive_script_info (codes "/index.php/apps/files") ≡ (codes "/index.php", codes "/apps/files"))
    × (derive_script_info (codes "/ocs/v2.php/cloud/cap")
        ≡ (codes "/ocs/v2.php", codes "/cloud/cap"))
    × (derive_script_info (codes "/apps/files/api") ≡ (codes "/index.php", codes "/apps/files/api"))
unfolding derive_script_info find_subsequence starts_with strip_prefix
scripts = (refl, refl, refl)

forwarded :
    build_fcgi_params (
      (codes "x-nc-user", some (codes "eve"))
      ∷ (codes "accept-language", some (codes "de"))
      ∷ (codes "content-type", some (codes "text/plain"))
      ∷ (codes "x-raw", none)
      ∷ [])
    ≡ (codes "HTTP_ACCEPT_LANGUAGE", codes "de") ∷ []
unfolding build_fcgi_params text_eq
forwarded = refl

abbrev fpm : FastCgiState
fpm = record { nc_root = codes "/srv/nc"; shim_path = codes "/srv/shim.php" }

abbrev al : AuthInfo
al = record {
  uid = codes "al";
  is_admin = false;
  method = session;
  token_id = none;
  raw_token = none;
}

abbrev honest : Parts
honest = record {
  method = codes "GET";
  uri_path = codes "/index.php/apps/files";
  query = none;
  headers = (codes "x-nc-user", some (codes "eve")) ∷ (codes "accept", some (codes "a")) ∷ [];
  identity = none;
  auth_info = some al;
}

abbrev spoofed : Parts
spoofed = record honest {
  headers = (codes "x_nc_user", some (codes "admin")) ∷ (codes "accept", some (codes "a")) ∷ [];
  auth_info = none;
}

proxy_params-Trusted_example :
    (trusted_params (proxy_params fpm honest) ≡ identity_param (some al))
    × (get_param (proxy_params fpm honest) (codes "HTTP_X_NC_PROXIED") ≡ some (codes "1"))
unfolding contains
proxy_params-Trusted_example = proxy_params-Trusted fpm honest (refl, (refl, tt))

proxy_params-underscore_example :
    get_param (proxy_params fpm spoofed) (codes "HTTP_X_NC_USER") ≡ some (codes "admin")
unfolding contains
proxy_params-underscore_example =
    proxy_params-underscore fpm spoofed (codes "admin") ((codes "accept", some (codes "a")) ∷ [])
      (refl, tt) refl refl
