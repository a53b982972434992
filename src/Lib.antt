-- ===== src/Lib.antt =====
-- Fenrir, a modular server host in Rust: a verification library beside the sources. Paths are from
-- the repository's root.
--
-- The host runs modules, which it installs from signed distributions of a depot, gives ports, and
-- lets call one another with delegated tokens. Operators log in and hold sessions. The parts:
--
-- Prelude — names of the libraries passed on, Boolean tests on native numbers, lists, sorting, the
--   maps that stand for `HashMap` and `BTreeMap`, and results with state.
-- Domain.Semver, Domain.Version — `src/domain/module/version.rs`, the order of versions with build
--   numbers and the requirements on them. The crate `semver` is a record of its types, its orders
--   and the laws that its documentation states; its own matching is a parameter.
-- Security.Role — the roles of `src/security/auth/role.rs` and `src/security/service.rs`, with their
--   texts and the parsing of a role.
-- Security.PasswordPolicy — `PasswordPolicy::validate` of `src/security/auth/password_policy.rs`.
--   The classes of characters and the lower case of a text are the standard library's, a parameter.
-- Security.Session — `SessionStore` of `src/security/session/store.rs`, a map from tokens to
--   sessions and the instant of the next cleanup. `History` has its calls as data.
-- Security.ServiceToken — `ServiceTokenStore` of `src/security/service_tokens.rs`. Each function
--   is one atomic action of the code, a load, a compare-and-exchange or a section under the lock;
--   `validate_with` composes them as the code does, and `Schedule` interleaves them for any number
--   of callers.
-- Security.Identity — the identities of `src/security/identity/`. `Data` has the persisted formats,
--   and `Crates` the third-party crates as one record: ed25519 signatures, digests, password hashes,
--   base64 and JSON, with the laws of their documentation (what is encoded decodes, what is signed
--   verifies). `Persisted`, `Store` and `Users` are `store.rs`: the state in memory and its file, which a
--   write replaces after it has changed the state; a save that fails leaves the file as it was and
--   the change in memory. `Jwt` is `jwt.rs`; `Authority`, `Issue`, `Verify` and `Logins` are
--   `authority.rs`. `History` has the calls of a running server as data,
--   and `Resumed` starts a server from the file that another has left.
-- Audit — the events of `src/audit/event.rs` and their recording, the log as a list.
-- Security.Manager — `SecurityManager` of `src/security/manager.rs`, which puts the session store,
--   the token store and the audit log together; its encryption and its signatures of manifests are
--   left out. `Manager.ServiceTokens` has its service tokens, and
--   `Manager.History` reads its calls as calls of the session store.
-- Services.Exchange — `src/services/token_exchange.rs`, tokens for modules under a limit of requests
--   by module. The service that issues the tokens is a parameter.
-- Services.Registry — `ServiceRegistry` of `src/services/registry.rs`, the services by identifier
--   and the snapshots that subscribers are sent, the latest first. An operation is what it does under
--   the lock and then the send; `Schedule` lets callers take turns, with sends at any later time.
-- Services.Ports — `ModulePortAllocator` of `src/services/module/ports.rs`.
-- Services.Access — `ServiceSecurityMetadata::allows_claims` of `src/services/types.rs`, which
--   decides over the claims that the token store hands out.
-- Services.Schema — the schema migrations: `src/services/db_schema/diff.rs` compares two blueprints
--   of a database, and `Schema.Planner` with `Schema.Sql`, `src/infra/db/migrations/planner.rs`,
--   turns the operations into statements.
-- Depot.Protocol, Depot.State — the data of `src/services/depot/state.rs`, `ports.rs` and
--   `verify.rs` that planning reads; the crate `depot_protocol` is a record of versions with their
--   order, rules with their matching, and digests.
-- Depot.Plan — `src/services/depot/plan.rs`, plans for a whole distribution, for one module, and
--   for a rollback.
-- Depot.Verify — `fetch_verified` of `src/services/depot/verify.rs`, which fetches a distribution
--   with all that it includes; what the depot answers and the checks of the crate are parameters.
-- Depot.Machine, Depot.Install — `src/services/depot/installer.rs`, which carries a plan out:
--   `execute` takes the lock, checks the staged bundles, backs the changed modules up, applies the
--   changes, and rolls back where that fails. The host of modules (`ModuleHost` of `ports.rs`) and
--   the files are a record `Machine` of operations on a world, whose `Contract` is what the installer
--   relies on of them; every operation may fail. `Install.Record` is the state that is recorded,
--   with `Domain.Manifest` for the manifests of `src/domain/module/`.
-- Config.Edge — `src/config/edge.rs`: which peers are proxies whose word on a client's address is
--   believed, as address blocks, the settings that name them, and the address that a request gets.
--   The standard library's parsing of addresses and numbers, and its `trim`, are parameters.
--
-- Conventions. Times are natural numbers of nanoseconds; what a clock reads, what a random source
-- or a probe of the operating system answers is an argument, and so is whether a save fails or a sink
-- refuses an event. Where a function reads a clock twice in a row, one reading stands for both. A comparison of a difference of times
-- is written as a comparison of sums, since the source's differences are signed. Numbers that
-- saturate in the source are cut off at the machine's bound. A poisoned lock is a flag of the
-- store, and fallible methods return the changed store beside a result, also beside an error. Log
-- lines are left out, and texts that are formatted for people are constructors that hold what they
-- are made from. The walk of `fetch_verified` is on fuel, and a theorem says how much is enough;
-- every other loop is a recursion on the list that it walks.
--
-- Not modelled: input and output (files, sockets, processes, databases, HTTP, SSH), the command
-- line, cryptography, serde, what the installer does before `execute` (its downloads and the choice
-- of the newest distribution), the saved state of the port allocator, the count of active sessions,
-- the identity store in a database and the external identity provider, the sinks of the audit log,
-- the latency of a token request, and the tasks that run around the registry.
pub mod Prelude
pub mod Domain
pub mod Security
pub mod Services
pub mod Audit
pub mod Config
pub mod Depot
