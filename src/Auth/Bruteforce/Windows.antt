-- ===== src/Auth/Bruteforce/Windows.antt =====
-- core-rs/crates/nc-auth/src/bruteforce.rs: the counts of the two windows, and what a failed login
-- does to the next check.
use nc_server_rs.Prelude.{
  ℕ, ◌+◌, ◌-◌, ◌*◌, ◌^◌, ◌≤◌, ◌≡◌, inl, inr, min, Bool, true, false, not, ◌||◌, none, some, List,
  [], ◌∷◌, arith, Option-cases, Bool-cases, All, suc,
}
use native.Mathlib.Nat.{pow-le-pow_right}
use nc_server_rs.Prelude.Int.{ℤ, pos, ltb_ℤ}
use nc_server_rs.Prelude.Text.{Text, text_eq_refl}
use nc_server_rs.Auth.Bruteforce.{
  CountEntry, World, Attempt, decide, query_counts, check_throttle, fresh_entry, count_since,
  is_ip_allowlisted, ip_to_subnet, max_attempts_of, max_delay_ms, short_window_secs,
  long_window_secs, insert_entry, record_attempt, is_for,
}

count_since_antitone :
    (rows : List Attempt) (action subnet : Text) (early late : ℕ)
    → early ≤ late
    → count_since rows action subnet late ≤ count_since rows action subnet early
unfolding count_since
count_since_antitone [] action subnet early late h = omega arith
count_since_antitone (a ∷ rows) action subnet early late h =
    ground (arith, count_since_antitone rows action subnet early late h)

-- The short window's count is part of the long window's.
abbrev pub IsWindowed : CountEntry → Type 0
IsWindowed e = e.short ≤ e.long

insert_entry-IsWindowed :
    (new : CountEntry) (cache : List CountEntry)
    → IsWindowed new
    → All IsWindowed cache
    → All IsWindowed (insert_entry new cache)
unfolding insert_entry
insert_entry-IsWindowed new [] n h = (n, tt)
insert_entry-IsWindowed new (e ∷ es) n (p, h) = elim (Bool-cases (is_for new.action new.subnet e)) [
  | inl here ↦ rw here (n, h)
  | inr other ↦ rw other (p, insert_entry-IsWindowed new es n h)
]

query_counts-IsWindowed :
    (w : World) (cache : List CountEntry) (action subnet : Text)
    → All IsWindowed cache
    → All IsWindowed (query_counts w cache action subnet).1
unfolding query_counts
query_counts-IsWindowed w cache action subnet h =
    let most = max_attempts_of w.appconfig in
    let short = count_since w.attempts action subnet (w.now - short_window_secs) in
    let windowed =
      count_since_antitone w.attempts action subnet (w.now - long_window_secs)
        (w.now - short_window_secs) (omega arith) in
    elim (Bool-cases w.short_ok) [
      | inr failed ↦ rw failed h
      | inl ok ↦ elim (Bool-cases (ltb_ℤ most (pos short))) [
        | inl over ↦ rw (ok, over) h
        | inr within ↦ elim (Bool-cases w.long_ok) [
          | inr failed ↦ rw (ok, within, failed) h
          | inl both ↦ rw (ok, within, both) (insert_entry-IsWindowed _ cache windowed h)
        ]
      ]
    ]

-- A check keeps the count cache consistent: where every entry's count of the short window is at
-- most its count of the long window, it is so after the check.
pub check_throttle-IsWindowed :
    (w : World) (cache : List CountEntry) (action client_ip : Text)
    → All IsWindowed cache
    → All IsWindowed (check_throttle w cache action client_ip).1
unfolding check_throttle
check_throttle-IsWindowed w cache action client_ip h =
    let subnet = ip_to_subnet client_ip in
    elim (Bool-cases (not w.protection_enabled || is_ip_allowlisted client_ip w.appconfig)) [
      | inl exempt ↦ rw exempt h
      | inr subject ↦ elim (Option-cases (fresh_entry cache action subnet w.instant)) [
        | inl missed ↦ rw (subject, missed) (query_counts-IsWindowed w cache action subnet h)
        | inr (e, hit) ↦ rw (subject, hit) h
      ]
    ]

recorded_counts :
    (rows : List Attempt) (action client_ip : Text) (now cutoff : ℕ)
    → cutoff ≤ now
    → count_since
        (record_attempt true now action client_ip rows)
        action
        (ip_to_subnet client_ip)
        cutoff
      ≡ suc (count_since rows action (ip_to_subnet client_ip) cutoff)
unfolding count_since record_attempt
recorded_counts rows action client_ip now cutoff h =
    ground (arith, text_eq_refl action, text_eq_refl (ip_to_subnet client_ip))

slowed : (n : ℕ) → 1 ≤ n → 200 ≤ min (100 * 2 ^ min n 8) max_delay_ms
slowed n h =
    let grown : 2 ^ 1 ≤ 2 ^ min n 8 = pow-le-pow_right (omega arith) {i = 1} (omega arith) in
    omega (arith, grown)

decide-slows :
    (most : ℤ) (short long : ℕ)
    → 1 ≤ long
    → (d : ℕ) × ((decide most short long).delay ≡ some d) × (200 ≤ d)
unfolding decide
decide-slows most short long h = elim (Bool-cases (ltb_ℤ most (pos short))) [
  | inl over ↦ (max_delay_ms, ground arith, omega arith)
  | inr within ↦ (min (100 * 2 ^ min long 8) max_delay_ms, ground arith, slowed long h)
]

query_counts-slows :
    (w : World) (cache : List CountEntry) (action subnet : Text)
    → w.short_ok ≡ true
    → w.long_ok ≡ true
    → 1 ≤ count_since w.attempts action subnet (w.now - long_window_secs)
    → (d : ℕ) × ((query_counts w cache action subnet).0.delay ≡ some d) × (200 ≤ d)
unfolding query_counts
query_counts-slows w cache action subnet ok both h =
    let most = max_attempts_of w.appconfig in
    let short = count_since w.attempts action subnet (w.now - short_window_secs) in
    let long = count_since w.attempts action subnet (w.now - long_window_secs) in
    elim (Bool-cases (ltb_ℤ most (pos short))) [
      | inl over ↦ (max_delay_ms, ground arith, omega arith)
      | inr within ↦
          let (d, delayed, large) = decide-slows most short long h in (d, ground arith, large)
    ]

-- After a failed login is recorded, a check of the same action and address within the 12 hours of
-- the long window delays the next one by at least 200 milliseconds: where protection is on, the
-- address is not on the allow list, both queries succeed and the cache has no fresh entry.
pub record_attempt-check_throttle :
    (w : World) (rows : List Attempt) (cache : List CountEntry) (action client_ip : Text)
    (failed_at : ℕ)
    → w.attempts ≡ record_attempt true failed_at action client_ip rows
    → w.now ≤ failed_at + long_window_secs
    → w.protection_enabled ≡ true
    → is_ip_allowlisted client_ip w.appconfig ≡ false
    → w.short_ok ≡ true
    → w.long_ok ≡ true
    → fresh_entry cache action (ip_to_subnet client_ip) w.instant ≡ none
    → (d : ℕ) × ((check_throttle w cache action client_ip).0.delay ≡ some d) × (200 ≤ d)
unfolding check_throttle
record_attempt-check_throttle w rows cache action client_ip failed_at recorded recent on listed ok
      both missed =
    let subnet = ip_to_subnet client_ip in
    let counted =
      recorded_counts rows action client_ip failed_at (w.now - long_window_secs) (omega arith) in
    let some_long : 1 ≤ count_since w.attempts action subnet (w.now - long_window_secs) =
      rw recorded (rw counted (omega arith)) in
    let (d, delayed, large) = query_counts-slows w cache action subnet ok both some_long in
    (d, ground arith, large)

-- While an entry of the cache is fresh, neither the table nor the queries have a part in a check.
check_throttle-cached :
    (w : World) (rows : List Attempt) (short_ok long_ok : Bool) (cache : List CountEntry)
    (action client_ip : Text) (e : CountEntry)
    → fresh_entry cache action (ip_to_subnet client_ip) w.instant ≡ some e
    → check_throttle
        (record w { attempts = rows; short_ok = short_ok; long_ok = long_ok })
        cache
        action
        client_ip
      ≡ check_throttle w cache action client_ip
unfolding check_throttle
check_throttle-cached w rows short_ok long_ok cache action client_ip e hit = ground arith
