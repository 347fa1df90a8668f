-- ===== src/Auth.antt =====
-- The crate core-rs/crates/nc-auth, as far as it is modelled.
pub mod Bruteforce
pub mod Session
pub mod Tokens
pub mod Users
