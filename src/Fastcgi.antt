-- ===== src/Fastcgi.antt =====
-- The crate core-rs/crates/nc-fastcgi: requests to PHP and what comes back.
pub mod Params
pub mod Cgi
