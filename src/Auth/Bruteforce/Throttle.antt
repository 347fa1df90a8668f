-- ===== src/Auth/Bruteforce/Throttle.antt =====
-- core-rs/crates/nc-auth/src/bruteforce.rs: the bounds of a throttle, and exactly when a login is
-- refused.
use nc_server_rs.Prelude.{
  ℕ, ◌-◌, ◌*◌, ◌^◌, ◌≤◌, ◌≡◌, refl, ◌↔◌, ◌⊎◌, inl, inr, min, true, false, not, ◌||◌, none, some,
  List, arith, Option-cases, Bool-cases, leb,
}
use nc_server_rs.Prelude.Int.{ℤ, pos, ltb_ℤ}
use nc_server_rs.Prelude.Text.{Text}
use nc_server_rs.Auth.Bruteforce.{
  ThrottleResult, CountEntry, World, decide, query_counts, check_throttle, fresh_entry, count_since,
  is_ip_allowlisted, ip_to_subnet, max_attempts_of, max_delay_ms, short_window_secs,
  long_window_secs, no_throttle, too_many,
}

-- A delay is at most 25 seconds, and a rejection has that delay and asks to retry after 30.
abbrev pub IsBounded : ThrottleResult → Type 0
IsBounded r =
    ((d : ℕ) → r.delay ≡ some d → d ≤ max_delay_ms)
    × (r.should_reject ≡ true → (r.delay ≡ some max_delay_ms) × (r.retry_after_secs ≡ 30))
    × (r.should_reject ≡ false → r.retry_after_secs ≡ 0)

no_throttle-IsBounded : IsBounded no_throttle
no_throttle-IsBounded = ((λ d e. absurd (cc)), (λ e. absurd (cc)), (λ e. refl))

too_many-IsBounded : IsBounded too_many
too_many-IsBounded = ((λ d e. ground arith), (λ e. (refl, refl)), (λ e. absurd (cc)))

slowed-IsBounded :
    (long : ℕ)
    → IsBounded (record {
      delay = some (min (100 * 2 ^ min long 8) max_delay_ms);
      should_reject = false;
      retry_after_secs = 0;
    })
slowed-IsBounded long = ((λ d e. ground arith), (λ e. absurd (cc)), (λ e. refl))

decide-IsBounded : (most : ℤ) (short long : ℕ) → IsBounded (decide most short long)
unfolding decide
decide-IsBounded most short long = elim (Bool-cases (ltb_ℤ most (pos short))) [
  | inl over ↦ rw over too_many-IsBounded
  | inr within ↦ elim (Bool-cases (leb long 0)) [
    | inl none_long ↦ rw (within, none_long) no_throttle-IsBounded
    | inr some_long ↦ rw (within, some_long) (slowed-IsBounded long)
  ]
]

query_counts-IsBounded :
    (w : World) (cache : List CountEntry) (action subnet : Text)
    → IsBounded (query_counts w cache action subnet).0
unfolding query_counts
query_counts-IsBounded w cache action subnet =
    let most = max_attempts_of w.appconfig in
    let short = count_since w.attempts action subnet (w.now - short_window_secs) in
    let long = count_since w.attempts action subnet (w.now - long_window_secs) in
    elim (Bool-cases w.short_ok) [
      | inr failed ↦ rw failed no_throttle-IsBounded
      | inl ok ↦ elim (Bool-cases (ltb_ℤ most (pos short))) [
        | inl over ↦ rw (ok, over) too_many-IsBounded
        | inr within ↦ elim (Bool-cases w.long_ok) [
          | inr failed ↦ rw (ok, within, failed) no_throttle-IsBounded
          | inl both ↦ rw (ok, within, both) (decide-IsBounded most short long)
        ]
      ]
    ]

-- Whatever the settings, the table, the cache and the clocks are, a check delays a login by at most
-- 25 seconds; if it rejects, it names that delay and a retry after 30 seconds, and otherwise no
-- retry.
pub check_throttle-IsBounded :
    (w : World) (cache : List CountEntry) (action client_ip : Text)
    → IsBounded (check_throttle w cache action client_ip).0
unfolding check_throttle
check_throttle-IsBounded w cache action client_ip =
    let subnet = ip_to_subnet client_ip in
    elim (Bool-cases (not w.protection_enabled || is_ip_allowlisted client_ip w.appconfig)) [
      | inl exempt ↦ rw exempt no_throttle-IsBounded
      | inr subject ↦ elim (Option-cases (fresh_entry cache action subnet w.instant)) [
        | inl missed ↦ rw (subject, missed) (query_counts-IsBounded w cache action subnet)
        | inr (e, hit) ↦
            rw (subject, hit) (decide-IsBounded (max_attempts_of w.appconfig) e.short e.long)
      ]
    ]

-- How many attempts of the short window a check reckons with: the cached count while the entry is
-- fresh, else the table's, if the query succeeds.
abbrev pub Reckoned : World → List CountEntry → Text → Text → ℕ → Type 0
Reckoned w cache action subnet n =
    ((e : CountEntry) × (fresh_entry cache action subnet w.instant ≡ some e) × (n ≡ e.short))
    ⊎ ((fresh_entry cache action subnet w.instant ≡ none)
        × (w.short_ok ≡ true)
        × (n ≡ count_since w.attempts action subnet (w.now - short_window_secs)))

decide-rejects :
    (most : ℤ) (short long : ℕ)
    → ((decide most short long).should_reject ≡ true) ↔ (ltb_ℤ most (pos short) ≡ true)
unfolding decide
decide-rejects most short long = ground arith

query_counts-rejects :
    (w : World) (cache : List CountEntry) (action subnet : Text)
    → ((query_counts w cache action subnet).0.should_reject ≡ true) ↔ (
        (w.short_ok ≡ true)
        × (ltb_ℤ
              (max_attempts_of w.appconfig)
              (pos (count_since w.attempts action subnet (w.now - short_window_secs)))
            ≡ true))
unfolding query_counts
query_counts-rejects w cache action subnet =
    let most = max_attempts_of w.appconfig in
    let short = count_since w.attempts action subnet (w.now - short_window_secs) in
    let long = count_since w.attempts action subnet (w.now - long_window_secs) in
    ground (arith, decide-rejects most short long)

-- A login is rejected exactly when protection is on, the address is not on the allow list, and the
-- attempts it is reckoned with for its action and its subnet are more than the configured most.
pub check_throttle_rejects_iff :
    (w : World) (cache : List CountEntry) (action client_ip : Text)
    → ((check_throttle w cache action client_ip).0.should_reject ≡ true) ↔ (
        (w.protection_enabled ≡ true)
        × (is_ip_allowlisted client_ip w.appconfig ≡ false)
        × (n : ℕ) × Reckoned w cache action (ip_to_subnet client_ip) n
        × (ltb_ℤ (max_attempts_of w.appconfig) (pos n) ≡ true))
unfolding check_throttle
check_throttle_rejects_iff w cache action client_ip =
    let subnet = ip_to_subnet client_ip in
    let most = max_attempts_of w.appconfig in
    elim (Option-cases (fresh_entry cache action subnet w.instant)) [
      | inl missed ↦
          let (to, from) = query_counts-rejects w cache action subnet in
          (
            λ e.
                let rejected : (query_counts w cache action subnet).0.should_reject ≡ true =
                  ground arith in
                (
                  ground arith,
                  ground arith,
                  count_since w.attempts action subnet (w.now - short_window_secs),
                  inr (missed, (to rejected).0, refl),
                  (to rejected).1,
                ),
            λ h. elim h.3 [
              | inl (e, hit, same) ↦ absurd (ground arith)
              | inr (again, ok, same) ↦ let rejected = from (ok, rw same at (h.4)) in ground arith
            ],
          )
      | inr (e, hit) ↦
          let (to, from) = decide-rejects most e.short e.long in
          (
            λ r.
                let rejected : (decide most e.short e.long).should_reject ≡ true = ground arith in
                (ground arith, ground arith, e.short, inl (e, hit, refl), to rejected),
            λ h. elim h.3 [
              | inl (e', hit', same) ↦
                  let one : e' ≡ e = ground arith in
                  let over : ltb_ℤ most (pos e.short) ≡ true = rw (same, one) at (h.4) in
                  let rejected = from over in ground arith
              | inr (missed, ok, same) ↦ absurd (ground arith)
            ],
          )
    ]
