-- ===== src/Lib.antt =====
-- ankai: a desktop client for watching together, with a directory server that hands out key
-- packages, addresses and usernames, and an account server. This library models the logic of the
-- directory server and the account server and parts of the client, and proves what makes it
-- correct.
--
-- Parts, and the code they stand for (paths from the repository's root):
-- Prelude: Boolean tests, lists over native numbers, texts and their UTF-8 bytes, signed integers,
--   tables keyed by a type with decidable equality, and results. It models no code of the repository.
-- Sql: what the code sees of SQLite through rusqlite: a connection holds the tables, and each
--   statement may fail, as the schedule of the connection says. A theorem over all connections is
--   one over all patterns of failures.
-- Util: core/src/util.rs, hexadecimal texts (encode_hex, decode_hex).
-- Directory.Username: server/directory/src/username.rs (validate).
-- Directory.Storage: server/directory/src/db.rs. `Tables` is the schema; each method of `Storage` is
--   a function of the same name from a connection to a result and a connection. Its child modules
--   hold the proofs: Keys (bind_device_key), Names and Claims (claim_username), Packages and
--   Numbering (key packages), Calls (any sequence of calls).
-- Directory.Auth: server/directory/src/auth.rs (signing_message, parse_and_verify). The signature
--   scheme is a parameter, a record of what ed25519_dalek decides. Arithmetic on `i64` wraps as in
--   a release build.
-- Directory.App: server/directory/src/app.rs and paths.rs: the handlers, each the composition of
--   authenticate (parse_and_verify, then bind_device_key) and one call of the storage.
-- Accounts.Storage: server/accounts/src/db.rs, in the same way. Its child modules: Pins and
--   Registering (register_device), Revoking (revoke_device), Calls (any sequence of calls).
-- Accounts.Registration: of core/src/account.rs the registration that a root key signs. Accounts.Auth
--   and Accounts.App: server/accounts/src/auth.rs, app.rs and paths.rs, the signed envelope and the
--   handlers over Accounts.Storage. Their child modules Verify and Handlers hold the proofs.
-- Core.Store: the client's settings (core/src/db.rs) and communities (core/src/communities.rs).
-- Core.Top8: core/src/top8.rs, over Core.Store. Its child modules: Orders (lists of ids), Kept and
--   Edits (what each edit keeps), Runs (any sequence of edits), Stores (what an edit stores).
-- Core.Manifest: the manifest types of core/src/stremio.rs. Core.Addons: core/src/addons.rs, the
--   registry of add-ons over Core.Store, with its proofs in Core.Addons.Order.
-- Core.Stremio: the add-on protocol of core/src/stremio.rs. Address is the policy of URLs, of
--   redirects and of DNS answers (Blocks: the IPv4 blocks that it refuses; Redirects: where the
--   redirects that it follows lead). Checks are the bounds on texts, collections and extra JSON
--   data (Values: what they accept). Manifests are the checks of manifests and the routing of
--   requests (Requests, Sound). Items is the data, Streams and Metas check it, Streams chooses the
--   source that the player gets (Targets), and Client makes the requests (Answers).
-- Core.Watchlist: the anime watchlist of core/src/anime.rs, one table over Sql. Its child modules:
--   Progress (any sequence of calls), Answers (what the calls answer).
-- Core.Playback: the resume points of core/src/playback_progress.rs, one table over Sql. Of an `f64`
--   the code makes only comparisons, so a finite one is an integer (times 2 ^ 1074). Its child modules:
--   Checks and Listing (passed on by Core.Playback), Kept (any sequence of calls), Answers.
-- Core.Friends: core/src/friends.rs, the friend messages and the two tables that they fill. Its child
--   modules: Signed (any sequence of calls), Accepting (accept_friend_request).
-- Client.Images: the cache of decoded images in client/src/images.rs. Recency is the abstract cache,
--   a list of images in the order of their last use; Fitting relates the two, Refines shows it for
--   each operation and Uses for any sequence of them.
-- Client.Player: the player of client/src/playback.rs. What libmpv answers is a parameter of each
--   operation, Calls has its calls and their errors, Commands the commands and the readings of its state,
--   Observed the events and properties, Events the loop that copies them. Phases, Copied and Polled are about
--   each step, Reached about the reachable states, Refusals about the commands that fail.
-- Core.Catalog: Memory is the memory tier of core/src/catalog_cache.rs, Page the paging and merging,
--   and Board the rows and selectors, of core/src/board.rs; Disk is the disk tier and
--   fetch_catalog_page, DiskKept and DiskBound what an eviction keeps, Offline the fallback.
--
-- Bounds: the digits of an `i64` are computed with fuel 20, and an `i64` has at most 19 digits. All
-- other recursion is structural. Lengths and indices are unbounded numbers, but for the 32 bits of
-- an add-on's priority and the 64 bits of the sizes that the code adds with saturation.
--
-- Not modelled: the router, process start, opening the database, the contents of error messages,
-- OpenMLS, iroh, loading libmpv and drawing, and the user interface. HTTP is the answer that a parameter gives.
pub mod Accounts
pub mod Client
pub mod Core
pub mod Directory
pub mod Prelude
pub mod Sql
pub mod Util
