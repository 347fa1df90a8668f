-- ===== src/Fastcgi/Params/Trust.antt =====
-- core-rs/crates/nc-fastcgi/src/lib.rs: who decides what PHP takes as the identity of a request.
use nc_server_rs.Prelude.{
  ℕ, ◌==◌, ◌≡◌, refl, ◌∙◌, ap, Bool, true, false, Option, none, some, [], ◌∷◌, ◌++◌, arith,
  if◌then◌else◌, map, any, All, Bool-cases, Option-cases, inl, inr,
}
use nc_server_rs.Prelude.Text.{Text, codes, text_eq, text_eq_sound, contains, to_ascii_lower}
use nc_server_rs.Auth.Users.{AuthInfo}
use nc_server_rs.Fastcgi.Params.{
  Params, get_param, HeaderList, stripped, is_stripped, key_char, param_key, build_fcgi_params,
  insert_all, FastCgiState, Parts, request_params, inject_identity, proxy_params, flag,
}

-- The header that a parameter stands for, for a name without underscores.
abbrev pub header_char : ℕ → ℕ
header_char c = if c == b'_' then b'-' else to_ascii_lower c

char_back : (c t : ℕ) → (c == b'_') ≡ false → key_char c ≡ t → to_ascii_lower c ≡ header_char t
char_back c t clean e = ground arith

name_back :
    (n t : Text)
    → contains b'_' n ≡ false
    → map key_char n ≡ t
    → map to_ascii_lower n ≡ map header_char t
unfolding contains
name_back [] t clean e = ap (map header_char) e
name_back (c ∷ n) [] clean e = absurd (ground arith)
name_back (c ∷ n) (d ∷ t) clean e =
    let first = char_back c d (ground arith) (ground arith) in
    let rest = name_back n t (ground arith) (ground arith) in cc

-- A header without an underscore in its name.
abbrev pub IsHyphenated : Text × Option Text → Type 0
IsHyphenated (name, value) = contains b'_' name ≡ false

abbrev pub is_guarded : Text → Bool
is_guarded t = any (λ s. text_eq s (map header_char t)) stripped

-- No hyphenated name that is let through has the key of a guarded parameter.
other_key :
    (name t : Text)
    → is_guarded t ≡ true
    → contains b'_' name ≡ false
    → is_stripped name ≡ false
    → text_eq (map key_char name) t ≡ false
other_key name t guarded clean passes = elim (Bool-cases (text_eq (map key_char name) t)) [
  | inr other ↦ other
  | inl same ↦
      let back = name_back name t clean (text_eq_sound (map key_char name) t same) in
      let stripped_too : is_stripped name ≡ true =
        ap (λ (n : Text). any (λ s. text_eq s n) stripped) back ∙ guarded in
      absurd (cc)
]

build-none :
    (headers : HeaderList) (t : Text)
    → is_guarded t ≡ true
    → All IsHyphenated headers
    → (params : Params)
    → get_param (insert_all (build_fcgi_params headers) params) (codes "HTTP_" ++ t)
      ≡ get_param params (codes "HTTP_" ++ t)
unfolding build_fcgi_params insert_all
build-none [] t guarded clean params = refl
build-none ((name, none) ∷ headers) t guarded (c, clean) params =
    let rest = build-none headers t guarded clean params in
    elim (Bool-cases (is_stripped name)) [
      | inl dropped ↦ rw dropped rest
      | inr passes ↦ rw passes rest
    ]
build-none ((name, some v) ∷ headers) t guarded (c, clean) params =
    elim (Bool-cases (is_stripped name)) [
      | inl dropped ↦ rw dropped (build-none headers t guarded clean params)
      | inr passes ↦
          let rest = build-none headers t guarded clean ((param_key name, v) ∷ params) in
          let other = other_key name t guarded c passes in
          let skip : get_param ((param_key name, v) ∷ params) (codes "HTTP_" ++ t)
              ≡ get_param params (codes "HTTP_" ++ t) =
            unfold get_param text_eq in rw other refl in
          rw passes (rest ∙ skip)
    ]

abbrev pub nc_user : Text
nc_user = codes "X_NC_USER"

abbrev pub nc_is_admin : Text
nc_is_admin = codes "X_NC_IS_ADMIN"

abbrev pub nc_session_token : Text
nc_session_token = codes "X_NC_SESSION_TOKEN"

-- What the middleware found, as the parameters that PHP trusts.
abbrev pub identity_param : Option AuthInfo → Option Text × Option Text × Option Text
identity_param none = (none, none, none)
identity_param (some info) =
    (some info.uid, some (flag info.is_admin (codes "1") (codes "0")), info.raw_token)

abbrev pub trusted_params : Params → Option Text × Option Text × Option Text
trusted_params params = (
  get_param params (codes "HTTP_" ++ nc_user),
  get_param params (codes "HTTP_" ++ nc_is_admin),
  get_param params (codes "HTTP_" ++ nc_session_token),
)

injected :
    (auth_info : Option AuthInfo) (params : Params)
    → trusted_params params ≡ (none, none, none)
    → trusted_params ((codes "HTTP_X_NC_PROXIED", codes "1") ∷ inject_identity auth_info params)
      ≡ identity_param auth_info
unfolding inject_identity get_param text_eq
injected none params e = e
injected (some info) params e = elim (Option-cases info.raw_token) [
  | inl bare ↦
      rw bare (λ i. (some info.uid, some (flag info.is_admin (codes "1") (codes "0")), (e i).2))
  | inr (token, held) ↦ rw held refl
]

base_params :
    (fpm : FastCgiState) (parts : Parts)
    → trusted_params (request_params fpm parts) ≡ (none, none, none)
unfolding request_params get_param text_eq
base_params fpm parts = refl

-- No request whose header names have hyphens only decides what PHP trusts: the user, the admin
-- flag and the session token are those that the middleware found, each missing if it found none,
-- and the mark of the proxy is set.
pub proxy_params-Trusted :
    (fpm : FastCgiState) (parts : Parts)
    → All IsHyphenated parts.headers
    → (trusted_params (proxy_params fpm parts) ≡ identity_param parts.auth_info)
      × (get_param (proxy_params fpm parts) (codes "HTTP_X_NC_PROXIED") ≡ some (codes "1"))
unfolding proxy_params text_eq
proxy_params-Trusted fpm parts clean =
    let base = request_params fpm parts in
    let user = build-none parts.headers nc_user refl clean base in
    let admin = build-none parts.headers nc_is_admin refl clean base in
    let token = build-none parts.headers nc_session_token refl clean base in
    let forwarded : trusted_params (insert_all (build_fcgi_params parts.headers) base)
        ≡ (none, none, none) =
      (λ i. (user i, admin i, token i)) ∙ base_params fpm parts in
    (
      injected parts.auth_info (insert_all (build_fcgi_params parts.headers) base) forwarded,
      unfold get_param text_eq in refl,
    )

underscore_passes :
    (uid : Text) (headers : HeaderList) (params : Params)
    → All IsHyphenated headers
    → get_param
        (insert_all (build_fcgi_params ((codes "x_nc_user", some uid) ∷ headers)) params)
        (codes "HTTP_" ++ nc_user)
      ≡ some uid
unfolding build_fcgi_params insert_all text_eq
underscore_passes uid headers params clean =
    build-none headers nc_user refl clean ((codes "HTTP_X_NC_USER", uid) ∷ params)
    ∙ unfold get_param in refl

-- A name with underscores passes the list of stripped names and has the same key: a request that
-- nobody has authenticated, with a header `X_NC_User` and else hyphenated ones behind it,
-- reaches PHP as a request of the user of its choice.
pub proxy_params-underscore :
    (fpm : FastCgiState) (parts : Parts) (uid : Text) (headers : HeaderList)
    → All IsHyphenated headers
    → parts.headers ≡ (codes "x_nc_user", some uid) ∷ headers
    → parts.auth_info ≡ none
    → get_param (proxy_params fpm parts) (codes "HTTP_X_NC_USER") ≡ some uid
unfolding proxy_params inject_identity get_param text_eq request_params
proxy_params-underscore fpm parts uid headers clean given nobody =
    let base = request_params fpm parts in
    rw nobody (
      ap
        (λ (h : HeaderList).
          get_param (insert_all (build_fcgi_params h) base) (codes "HTTP_X_NC_USER"))
        given
      ∙ underscore_passes uid headers base clean)
