-- ===== src/Dav/Quota/Check.antt =====
-- core-rs/crates/nc-dav/src/quota.rs: exactly when a write is refused, and what a full home allows.
use nc_server_rs.Prelude.{
  ℕ, ◌+◌, ◌^◌, ◌≤◌, ◌<◌, ◌≡◌, refl, sym, ◌∙◌, ◌↔◌, false, Option, none, some, arith, Option-cases,
  Bool-cases, inl, inr, ◌>>=◌, >>=-eq-some, [], ◌||◌,
}
use nc_server_rs.Prelude.Int.{ℤ, pos, negsuc, ◌-ℤ◌, pos_part, neg_part}
use nc_server_rs.Prelude.Parse.{Floats, FitsI64, parse_i64, parse_i64-FitsI64}
use nc_server_rs.Prelude.Text.{Text, trim, text_eq, codes}
use nc_server_rs.Dav.Quota.{
  Answers, check_quota, compute_free_space, parse_quota_string, parse_human,
  resolve_effective_quota, lookup_used_bytes, non_negative, saturating_sub, space_unlimited,
  multiplier, eq_ignore_ascii_case, split_after_digit,
}

-- A byte count that an `i64` holds.
abbrev pub IsCount : ℤ → Type 0
IsCount z = (n : ℕ) × (z ≡ pos n) × (n < 2 ^ 63)

non_negative-IsCount : (x z : ℤ) → FitsI64 x → non_negative x ≡ some z → IsCount z
non_negative-IsCount (pos n) z h e = (n, ground arith, h.0)
non_negative-IsCount (negsuc n) z h e = cc

-- The file cache keeps its sizes in 64 bits.
abbrev pub SizesFit : Answers → Type 0
SizesFit db = (storage_id : ℕ) (z : ℤ) → db.files_size storage_id ≡ some z → FitsI64 z

bind_non_negative :
    (o : Option ℤ)
    → ((z : ℤ) → o ≡ some z → FitsI64 z)
    → IsCount (elim (o >>= non_negative) [ some used ↦ used | none ↦ pos 0 ])
bind_non_negative none fits = (0, refl, omega arith)
bind_non_negative (some (pos n)) fits = (n, refl, (fits (pos n) refl).0)
bind_non_negative (some (negsuc n)) fits = (0, refl, omega arith)

lookup_used_bytes-IsCount :
    (db : Answers) (storage_id : ℕ) → SizesFit db → IsCount (lookup_used_bytes db storage_id)
unfolding lookup_used_bytes
lookup_used_bytes-IsCount db storage_id fits =
    bind_non_negative (db.files_size storage_id) (fits storage_id)

-- The decision once the free space is known.
abbrev Refuses : ℤ → ℤ → Type 0
Refuses free upload =
    (neg_part upload < pos_part upload) × (neg_part free ≡ 0) × (pos_part free < pos_part upload)

saturating_sub_counts :
    (q u n : ℕ)
    → q < 2 ^ 63
    → u < 2 ^ 63
    → Refuses (saturating_sub (pos q) (pos u)) (pos n) ↔ ((u ≤ q) × (q < u + n))
unfolding ◌-ℤ◌
saturating_sub_counts q u n hq hu = ground arith

positive : (z : ℤ) → neg_part z < pos_part z → z ≡ pos (pos_part z)
positive (pos n) h = refl
positive (negsuc n) h = absurd (omega arith)

module _ (fl : Floats) where
  open fl use {parse_f64, of_ℤ, mul, to_i64, to_i64_fits}

  parse_human-IsCount : (s : Text) (z : ℤ) → parse_human fl s ≡ some z → IsCount z
  unfolding parse_human
  parse_human-IsCount s z e =
      let (parts, _, e1) = >>=-eq-some (split_after_digit s) _ e in
      let (num, _, e2) = >>=-eq-some (parse_f64 (trim parts.0)) _ e1 in
      let (m, _, e3) = >>=-eq-some (multiplier (trim parts.1)) _ e2 in
      non_negative-IsCount (to_i64 (mul num (of_ℤ (pos m)))) z
        (to_i64_fits (mul num (of_ℤ (pos m)))) e3

  parse_quota_string-IsCount : (s : Text) (z : ℤ) → parse_quota_string fl s ≡ some z → IsCount z
  unfolding parse_quota_string
  parse_quota_string-IsCount s z e =
      elim (Bool-cases (text_eq (trim s) [] || eq_ignore_ascii_case (trim s) (codes "none"))) [
        | inl unlimited ↦ absurd (ground arith)
        | inr limited ↦ elim (Option-cases (parse_i64 (trim s))) [
          | inl other ↦ parse_human-IsCount (trim s) z (ground arith)
          | inr (n, plain) ↦
              non_negative-IsCount n z (parse_i64-FitsI64 (trim s) plain) (ground arith)
        ]
      ]

  check_quota-Refuses :
      (db : Answers) (uid : Text) (storage_id : ℕ) (upload : ℤ)
      → (check_quota fl db uid storage_id upload ≡ false)
        ↔ Refuses (compute_free_space fl db uid storage_id) upload
  unfolding check_quota
  check_quota-Refuses db uid storage_id upload = ground arith

  -- Why a write is refused: there is a finite quota, the home is within it, and the write is not.
  pub record Exceeds (db : Answers) (uid : Text) (storage_id : ℕ) (upload : ℤ) : Type 0 where
    pub quota : ℕ
    pub used : ℕ
    pub size : ℕ
    pub quota_is : parse_quota_string fl (resolve_effective_quota db uid) ≡ some (pos quota)
    pub used_is : lookup_used_bytes db storage_id ≡ pos used
    pub size_is : upload ≡ pos size
    pub within : used ≤ quota
    pub exceeds : quota < used + size

  free_of_finite :
      (db : Answers) (uid : Text) (storage_id : ℕ) (q u : ℕ)
      → parse_quota_string fl (resolve_effective_quota db uid) ≡ some (pos q)
      → lookup_used_bytes db storage_id ≡ pos u
      → compute_free_space fl db uid storage_id ≡ saturating_sub (pos q) (pos u)
  unfolding compute_free_space
  free_of_finite db uid storage_id q u e f = ground arith

  free_of_unlimited :
      (db : Answers) (uid : Text) (storage_id : ℕ)
      → parse_quota_string fl (resolve_effective_quota db uid) ≡ none
      → compute_free_space fl db uid storage_id ≡ space_unlimited
  unfolding compute_free_space
  free_of_unlimited db uid storage_id e = ground arith

  Refuses-Exceeds :
      (db : Answers) (uid : Text) (storage_id : ℕ) (upload : ℤ)
      → SizesFit db
      → Refuses (compute_free_space fl db uid storage_id) upload
      → Exceeds db uid storage_id upload
  Refuses-Exceeds db uid storage_id upload fits r =
      elim (Option-cases (parse_quota_string fl (resolve_effective_quota db uid))) [
        | inl unlimited ↦ absurd (ground (arith, free_of_unlimited db uid storage_id unlimited))
        | inr (z, finite) ↦
            let (q, quota_is, q_fits) = parse_quota_string-IsCount _ z finite in
            let (u, used_is, u_fits) = lookup_used_bytes-IsCount db storage_id fits in
            let parsed : parse_quota_string fl (resolve_effective_quota db uid) ≡ some (pos q) =
              rw quota_is at finite in
            let free = free_of_finite db uid storage_id q u parsed used_is in
            let r' = rw free at r in
            let size : upload ≡ pos (pos_part upload) = positive upload r.0 in
            let r'' : Refuses (saturating_sub (pos q) (pos u)) (pos (pos_part upload)) =
              rw size at r' in
            let (within, exceeds) =
              (saturating_sub_counts q u (pos_part upload) q_fits u_fits).0 r'' in
            record {
              quota = q;
              used = u;
              size = pos_part upload;
              quota_is = parsed;
              used_is = used_is;
              size_is = size;
              within = within;
              exceeds = exceeds;
            }
      ]

  Exceeds-Refuses :
      (db : Answers) (uid : Text) (storage_id : ℕ) (upload : ℤ)
      → SizesFit db
      → Exceeds db uid storage_id upload
      → Refuses (compute_free_space fl db uid storage_id) upload
  Exceeds-Refuses db uid storage_id upload fits x =
      let (q, quota_is, q_fits) = parse_quota_string-IsCount _ (pos x.quota) x.quota_is in
      let (u, used_is, u_fits) = lookup_used_bytes-IsCount db storage_id fits in
      let q_ok : x.quota < 2 ^ 63 = ground arith in
      let same : pos u ≡ pos x.used = sym used_is ∙ x.used_is in
      let u_ok : x.used < 2 ^ 63 = ground arith in
      rw (free_of_finite db uid storage_id x.quota x.used x.quota_is x.used_is, x.size_is)
        ((saturating_sub_counts x.quota x.used x.size q_ok u_ok).1 (x.within, x.exceeds))

  -- A write is refused exactly when its size is known and positive, the effective quota is finite,
  -- the home's use does not exceed the quota, and the use and the size together do. In particular
  -- a write into a home that is over its quota is never refused. The sizes of the file cache fit 64 bits.
  pub check_quota_refuses_iff :
      (db : Answers) (uid : Text) (storage_id : ℕ) (upload : ℤ)
      → SizesFit db
      → (check_quota fl db uid storage_id upload ≡ false) ↔ Exceeds db uid storage_id upload
  check_quota_refuses_iff db uid storage_id upload fits =
      let (to, from) = check_quota-Refuses db uid storage_id upload in
      (
        λ e. Refuses-Exceeds db uid storage_id upload fits (to e),
        λ x. from (Exceeds-Refuses db uid storage_id upload fits x),
      )
