-- ===== src/Lib.antt =====
-- Verification library for nc-server-rs, the Rust server that answers Nextcloud clients beside PHP
-- (core-rs). It models the parts of the server that decide: who a client is, whether a login is
-- throttled, which names and sizes a write may have, what a write and a new directory do to the rows of
-- the file cache, what PHP is told and what it answers, and how previews get their ids, share their
-- generation and are stored.
--
-- Parts, and the files that model them:
--   core-rs/crates/nc-server/src/client_identity.rs: Server/ClientIdentity.antt. `resolve` gives a
--     request the address, scheme, host and port that the other parts use; Cidr, Remote and Trust
--     hold the proofs.
--   core-rs/crates/nc-server/src/middleware/maintenance.rs: Server/Maintenance.antt.
--   core-rs/crates/nc-server/src/middleware/auth.rs: Server/AuthCheck.antt. `auth_check` takes the
--     caches and the table of failed attempts as a store and gives an outcome and the store after it;
--     Sessions and Genuine hold the proofs. router.rs: Server/Routes.antt (what Rust serves) and
--     Server/Stack.antt (`http_middleware_stack`, which puts client_identity.rs, maintenance.rs and
--     auth.rs in order; the proof is in Confined).
--   core-rs/crates/nc-db/src/mime.rs: Db/Mime.antt, with the proofs in Faithful.
--   core-rs/crates/nc-db/src/config.rs: Db/PhpConfig.antt (the end of the array in a config.php),
--     with the proofs in Nested.
--   core-rs/crates/nc-preview/src/store.rs: Preview/Store.antt, with the file names in Names.
--     persist.rs: Preview/Persist.antt, with the proofs in Written and Cleared.
--   core-rs/crates/nc-fastcgi/src/lib.rs: Fastcgi/Params.antt (what PHP gets, with the proof in
--     Trust) and Fastcgi/Cgi.antt (what PHP answers, with the proof in Chunks).
--   core-rs/crates/nc-auth/src/session.rs: Auth/Session.antt, with the cache's contract in Cache.
--     token.rs, bearer.rs and basic.rs: Auth/Tokens.antt, with the proof in Cached. lib.rs and
--     twofa.rs: Auth/Users.antt.
--   core-rs/crates/nc-auth/src/bruteforce.rs: Auth/Bruteforce.antt. `check_throttle` takes the
--     settings, the table, the count cache and the clocks and gives a result and the cache after it;
--     `record_attempt` gives the table after a failed login. It reads the app config cache.
--   core-rs/crates/nc-db/src/appconfig.rs: Db/AppConfig.antt. core-rs/crates/nc-db/src/
--     filename_validator.rs: Db/Filename.antt, with the proofs in Rules, Gates and Accepts.
--   core-rs/crates/nc-dav/src/propagator.rs: Dav/Propagator.antt. The file cache is the list of its
--     rows; each operation gives whether it succeeded and the rows after it. Update, Retry,
--     Recompute and Chain hold the proofs. It takes the ancestors of a path from Dav/Paths.antt,
--     which models path_utils.rs, row/paths.rs and the path helpers of handler.rs and trashbin.rs;
--     Dav/Percent.antt models their percent-encoding.
--   core-rs/crates/nc-dav/src/mutations.rs: Dav/Directories.antt (`ensure_parent_dir` and
--     `create_dir_row` on the rows of Propagator), with the tree of the rows in Tree and Linked and
--     the proofs in Ensures, Mkcol and Total.
--   core-rs/crates/nc-dav/src/quota.rs: Dav/Quota.antt. mtime.rs: Dav/Mtime.antt. upload.rs:
--     Dav/Upload.antt. props.rs (the permission letters): Dav/Permissions.antt. bulk_handler.rs (the
--     multipart parser): Dav/Multipart.antt, with the proofs in Search and Parts; its check of the
--     declared hash: Dav/Checksum.antt, with the proof in Valid. row/rekey.rs: Dav/Rekey.antt, with the
--     proofs in Loop (for SQLite) and Subtree.
--   core-rs/crates/nc-preview/src/snowflake.rs: Preview/Snowflake.antt, with the
--     proofs in Layout, Sequence, Calls and Repeats. concurrency.rs: Preview/Coalescer.antt, a step
--     relation in which requests, generations and drivers end in any order.
-- Prelude.antt and its children hold what the parts share: Boolean tests, lists, text as code points
-- or bytes, integers, decimal print and parse, masks of bits, and addresses as the standard library
-- reads and prints them. Each part has a module Tests with runs of the code and the laws at concrete
-- inputs.
--
-- Numbers: unsigned words are natural numbers, with the wrap-around written out where the source can
-- reach it (snowflake ids, the total of chunks); signed words are integers, and where 64 bits matter
-- (quota, parsed numbers) the bound is in the statement. Sizes and times of the file cache are not
-- bounded. Fuel: the printer of decimals takes one more than the number, which is more than its digits;
-- the retries are three, as in the source; the spin of the snowflake generator consumes a list of
-- its rounds, each with a clock reading.
--
-- Parameters, since their code is not in the repository: the regular expressions of regex-lite,
-- the header map, UTF-8 decoding, the table of to_lowercase, f64, crc32, the digests, Base64,
-- password checks, JSON, the answers of PHP, the hash of a path, LIKE, what the disk and other
-- requests do meanwhile, and whether each statement of the database succeeds. SQL is written out
-- as what it does to the rows.
--
-- Not modelled: the HTTP handlers, moves and copies of files, versions and the moves of
-- the trash bin, archives, the handler of bulk uploads, OCS output, image generation,
-- and the tools for benchmarks and comparison.
pub mod Auth
pub mod Dav
pub mod Db
pub mod Fastcgi
pub mod Prelude
pub mod Preview
pub mod Server
