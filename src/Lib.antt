-- ===== src/Lib.antt =====
-- The core engine of MeraBriar (rust_core/src), as definitions that run and theorems about them.
--
-- The program. The crate keeps four statics behind locks: the sessions and the identity keys (crypto), the
-- offline queue (sync) and the database connection (storage). lib.rs and api.rs export functions over
-- them, api.rs for Flutter. A user generates identity keys, publishes a bundle, opens a session with a
-- contact from the contact's bundle, and then encrypts and decrypts messages; each message takes the
-- next key of a chain. transport chooses among four transports, of which only the cloud one works.
--
-- Which file models what.
--   Rust, Rust/*: what the code uses of the language: results with panics, `?`, locks with poisoning,
--     `HashMap`, `u32` arithmetic, UTF-8. Prelude, Prelude/*: numbers, tests and lists.
--   Platform: the cryptographic crates, with what their documentation promises as records of laws.
--   Crypto/Session: rust_core/src/crypto/session.rs, `Session` and its derivations. Crypto/Sessions: the
--     functions there on the session store. Crypto/State: the statics of rust_core/src/crypto/mod.rs.
--   Crypto/Keys: rust_core/src/crypto/key_management.rs.
--   Crypto/Encryption: rust_core/src/crypto/encryption.rs.
--   Crypto/Peers: sequences of messages that a session sends and receives, and two engines that open sessions
--     with each other. Crypto/Peers/Talk: two users on a network that loses,
--     repeats and reorders messages. Crypto/Race: calls of `encrypt_message`,
--     `decrypt_message` and `init_session` that overlap, each in a numbered thread; a step is one acquisition
--     of a lock. Crypto/Race/Reopened: an `init_session` in the middle of an `encrypt_message`.
--     Crypto/Locks: the locks that the calls of crypto take and how long they hold them.
--   Sync: rust_core/src/sync/mod.rs. Sync/Merge: two clients that use the queue at once.
--   Message: rust_core/src/message/mod.rs.
--   Transport: rust_core/src/transport/mod.rs. Storage: rust_core/src/storage/mod.rs; the `SELECT`
--     of `get_messages` is a value, and Storage/Laws says what SQLite makes of such a statement.
--   Engine: rust_core/src/lib.rs. Api: rust_core/src/api.rs.
--     Engine/Calls: sequences of exported calls. Engine/Offline: messages that wait in the queue.
--     Api/Calls, Api/Transfer: api.rs against lib.rs, over transfer records.
--   Crypto/Integration: tests of rust_core/tests/integration_tests.rs. Checks, below a module: its unit
--     tests, as functions that panic where an assertion fails.
--   Bridge: rust_core/src/frb_generated.rs. Bridge/Wire: what a wire function hands to the handler of
--     flutter_rust_bridge. Bridge/Io, Bridge/Web: the functions that Dart calls, native and on the web.
--     Bridge/Cst: C arguments behind pointers. Bridge/Dart: values to Dart and from JavaScript.
--     Bridge/Sse: `SseEncode` and `SseDecode`. Bridge/Calls, Bridge/Delivery: these together.
--   Tests/*: a platform and a database in memory that meet the laws, and runs of the theorems on them.
--
-- How the code is modelled. A function that reads or writes a static is a function from the state to a
-- result and the new state, so what was written before an early return or a panic stays written. A result
-- is a value, an error text or a panic. A function of the model has the name of its function in the
-- source. A string is the list of its UTF-8 bytes, a counter a natural number below 2^32 whose increment
-- panics in a build with overflow checks and wraps in one without. A lock carries whether a panic has
-- poisoned it. Loops are structural recursion over lists or a count, so no fuel is needed.
--
-- Arguments and parameters. What random generators and the clock give is an argument. The crates hkdf,
-- aes-gcm, x25519-dalek, ring and rusqlite are parameters; theorems that rest on what they promise take
-- the laws as hypotheses. AeadRejects, that a box does not open under another key, simplifies:
-- AES-GCM promises it up to a negligible probability. AeadLaws likewise opens boxes of any length, though
-- AES-GCM has a limit on them. That two chains or two message keys differ is a
-- hypothesis of its own where it is used.
--
-- The memory that Dart shares, the helpers of flutter_rust_bridge that make and take over blocks of it, and
-- the values of Dart are parameters too: Bridge/Cst/Ownership states who owns what, Bridge/Dart/Web how
-- values look on the web. The byte order of the target is an argument.
--
-- Not modelled. Of frb_generated.rs: the handler and its threads, which the crate flutter_rust_bridge
-- brings, the boilerplate macros, and the decoder of a `u8` from a JavaScript number. The traits
-- CryptoEngine, MessageQueue and Storage have no implementation. The derived serialisation is not used by
-- the code. Logging does not occur. The integration tests of storage, queue, statuses and transports only
-- call functions that are modelled, and those of JSON the crate serde_json. The benchmarks, the Go engine
-- (go_core), the Flutter application (flutter_app) and the hosted service (supabase) are other programs.
pub mod Prelude
pub mod Rust
pub mod Platform
pub mod Crypto
pub mod Sync
pub mod Message
pub mod Transport
pub mod Storage
pub mod Engine
pub mod Api
pub mod Bridge
pub mod Tests
