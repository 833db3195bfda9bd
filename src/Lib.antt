-- ===== src/Lib.antt =====
-- repossess keeps a browser session alive across runs: it restores the newest encrypted snapshot
-- from a store, asks a canary page whether the session is still logged in, runs workloads with it,
-- and saves a new snapshot, under a lock that is an object of the same store.
--
-- The parts, and the files that model them:
--   Prelude, Effect: shared lists, texts (code points), Boolean tests; `Result` and the actions `M
--     W A = W → Result A × W` of the async functions, where W is all that lies outside the process.
--     Effect/Rules and Effect/Keeps say how to reason about a chain of `?`.
--   Data: the records that are written as JSON. Host: the crates and the operating system, as
--     parameters (age, ed25519-dalek, sha2, hex, zstd, serde_json, chrono, environment, files), with
--     their laws in Host/Laws. Web: reqwest and serde_json's `Value`. Browser: Session and Cookies
--     (src/browser/cdp.rs) over the DevTools commands of a running Chromium, Http for the clients
--     that carry its cookies; the commands take the session operations as parameters.
--   Snapshot (src/snapshot.rs), Crypto (src/crypto, src/archive.rs), Lock (src/lock.rs), Health
--     (src/health.rs), Secrets (src/secrets.rs), Config (src/config.rs), Canary
--     (src/browser/canary.rs).
--   Stores (src/stores/mod.rs): the trait as a record of actions, `fanout`, `build_store` in
--     Stores/Build, which gets the three backends from Stores/Opened, and in Stores/Contract what a
--     backend with an etag per object promises, stated over a view of the objects that it holds. A
--     call that fails may still have taken effect.
--   Stores/S3 (src/stores/s3.rs): the store on a bucket, over the operations of the AWS SDK as
--     parameters, with their laws and the contract in Stores/S3/Refines.
--   Stores/Git (src/stores/git_branch.rs): the store on a branch of a git repository, over the git
--     commands as an interface, which Stores/Git/Shell fills: it makes the clone and runs the
--     commands.
--   Stores/Github (src/stores/github_release.rs): the mirror whose objects are assets of releases,
--     over an HTTP client as a parameter.
--   Commands: Restore, Save and Run (src/commands/run.rs), Verify, Seed, Export, Import
--     (src/commands/seed.rs, verify.rs, export.rs, import_chatgpt.rs). Main (src/main.rs) generates
--     keys and runs the subcommands.
--   Lock/Runners: many runners whose calls of the store interleave, as a step relation.
--   Chats (src/workload/chatgpt_chats.rs): Client is the HTTP client with its retries, Collect the
--     walk over the pages, Store the encrypted index and conversations, Sync the phases of `run`.
--   Chatgpt (src/workload/chatgpt.rs): the client of the export command, and Markdown, the walk
--     along the parents of the current node and the text it makes.
--   Tests: a concrete host, an in-memory store, a server and a browser, and the theorems applied
--     to them.
--
-- Names follow the source; `restore`, `save`, `acquire`, `get_json` and so on are the functions of
-- those names. A loop without a bound in the source takes fuel: `get_json` gives its loop
-- max_retries + 2 rounds, that of the export client max_retries + 1 (Chats/Client/Retries,
-- Chatgpt/Client/Bounded); the walk over the pages needs one round more than there are
-- conversations (Chats/Collect/Walk), and running out of fuel is an error of its own. The rounds
-- are enough unless max_retries is the largest u32, for which a loop of the source may never end.
-- Integers are ℕ with the wrap-around of u32 offsets and attempts and the saturation of u64 waits
-- written out. Log lines have no counterpart. A configuration without stores, on which `primary()`
-- would panic, gives an error. `wait_and_capture` runs over a list of events, and gives no result
-- where it would wait for one more. `list_assets` and `to_markdown` take their fuel as an argument:
-- Stores/Github/Pages and Chatgpt/Markdown/Walk say how much is enough.
--
-- The uploads of the import command run at the same time; here each is done at once, in the order
-- in which they finish, which is a parameter.
--
-- Not modelled: TOML parsing, the construction of the S3 client, and the parsing of arguments,
-- which are calls of libraries, and what is printed or logged.
pub mod Prelude
pub mod Effect
pub mod Data
pub mod Host
pub mod Snapshot
pub mod Stores
pub mod Crypto
pub mod Commands
pub mod Lock
pub mod Config
pub mod Secrets
pub mod Health
pub mod Web
pub mod Chats
pub mod Chatgpt
pub mod Canary
pub mod Browser
pub mod Main
pub mod Tests
