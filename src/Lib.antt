-- ===== src/Lib.antt =====
-- The core logic of a NestJS library: tenant scoping, the filter engine of its TypeORM repository,
-- the grants that bypass tenancy and the repository's transactions, a job scheduler with leases,
-- and the coordinator that publishes uploaded files, the guards, the cache, and the checks on
-- uploads. Paths are relative to the repository's root. A request's scope decides what the
-- repository reads and writes; the filter engine turns a client's filters and the scope's into
-- SQL; mutations run in one transaction; the job scheduler and the publication coordinator work on
-- shared tables under leases. The guards settle whose request it is, and the cache shares pending
-- work between callers.
--
-- - Base: shared names, Boolean tests, lists, results, and JavaScript strings as lists of UTF-16 code
--   units with `trim`, `split`, `join`, dictionaries in insertion order, and sorting.
-- - Values: unknown values as the code sees them: undefined, null, strings, numbers (by their bits),
--   Booleans, other values, and arrays; Datum adds objects, with plain properties and accessors.
-- - Tenancy: src/core/tenancy/tenancy.helpers.ts and errors.ts. Scope has normalizeColumns,
--   normalizeAllowedValues and resolveScopePredicates; Write has applyScopeToEntity on an entity that
--   is a dictionary; Query has buildScopeFilters and buildScopeWhere. Isolation, Coverage, Clauses and
--   Fragments are proofs.
-- - Filter: src/core/orm/utils/filter-query-builder.ts. Syntax and Prepare have filters and
--   prepareFilter; Columns has resolveColumnName over a schema; Query and Apply have applyFilterToQuery,
--   whose result is a tree of conditions, each with its SQL and its parameters. The schema, the
--   installed validator, the date parser and the random suffixes of parameter names are parameters.
--   Clean, Injection, Binding and Trees are proofs.
-- - Repository: src/core/orm/base-repository.ts and src/core/tenancy/strategy.interface.ts. Audit and
--   Grants have assertBypassGrant, shouldBypass and currentScope, with the audit callback's calls as a
--   log; Runner has withMutationRunner, with the driver's calls as a log; Removal has softDelete and
--   restore; Reading has addonFilter and preparePagingReq, whose numbers are integers. Bypass,
--   Committing, Aborting, Clause, Exact and Paged are proofs.
-- - JobScheduler: src/features/job-scheduler. Options has resolveIdentity and resolveLeaseTiming;
--   Table has the statements on the lock table as a list of rows; Service has acquire, heartbeat,
--   complete, fail and runExclusive. A job is any function on the table, so that what other nodes do
--   while it runs is covered; the heartbeats of its timer are steps of the relation of Fencing. Timing,
--   Rows, Locking, Fencing, Owned and Exclusive are proofs.
-- - Publication: src/features/uploaded-file/publication/coordinator.ts and types.ts. Intent and Target
--   have the descriptors and `verify`; Ports has the interfaces of the repository, the storage and the
--   policy as functions on the state of a world, and `within` with the deadline; Claim and Run have
--   `run`; Entry has `stage`, `retire` and `project`. Verified, Protocol, Stages, Outcomes, Staging and
--   Refusals are proofs.
-- - Context: src/core/context. Identity has the resolver of identities, with claims as unknown values;
--   Store has the fields of a request's store and setIdentity; Middleware has buildStore on the headers of
--   a request. Complete and Trusted are proofs.
-- - Auth: src/auth/permission. Conflict and Guard have AuthGuard from the verified principal on, with the
--   request's fields and the store as its state, the mapper of principals and the permission strategy as
--   parameters; Internal has InternalGuard, with the bytes of a text in UTF-8 as a parameter. Sameness,
--   Agreement, Recorded, Owner, Granted and Secret are proofs.
-- - Cache: src/utils/single-flight.service.ts and src/services/cache. Flights has the flights of
--   SingleFlightService as a machine whose steps are calls and clean-ups; Memory has the memory backend on
--   a list in the order of use; Service has CacheService over a backend that may fail or hang, and with
--   the pending flights that a call finds. Sharing,
--   Recency, Answers and Loading are proofs.
-- - Uploads: src/features/uploaded-file. Bytes, Archive, Ooxml, Names and Security have
--   ooxml-security.ts and upload-security.ts on buffers that are lists of bytes, with strict
--   decoding of UTF-8, JSON's parser, Unicode's tables and `toLowerCase` as parameters; Address,
--   Address6 and Fetch have remote-fetcher.ts, with URLs, `isIP` and the network as parameters and
--   the requests as a log; Paths has local-path.ts, with absolute paths as lists of parts and the
--   file system as a parameter. Entries, Contained, Accepted, Masks, Reserved, Mapped, Hops,
--   Guarded, Parents and Confined are proofs.
--
-- Every loop is a structural recursion but for two that write digits and run on fuel: that of `show`,
-- a number's decimal digits, which is the number itself plus one and always enough, and that of
-- `hex_of` in Address6, which is 4, enough for the numbers below 2 ^ 16 that it is given. Numbers are natural numbers: times in milliseconds,
-- counts and versions; bounds of safe integers are written where the code checks them. The lease's
-- cut-off is the sum of a row's time and the lease against the present time. Digests, JSON texts, URL
-- parsing, random draws and clocks are parameters.
--
-- Not modelled: resolveSortColumn; the queries of the repository's reads, its create, update,
-- delete, import and history; the services of uploaded files and their drivers; action history;
-- the strategies that verify tokens, which call third-party libraries; AsyncLocalStorage; the
-- cache's interceptor and its Redis backend; queues, translation, validation and module wiring.
pub mod Base
pub mod Values
pub mod Tenancy
pub mod Filter
pub mod Repository
pub mod JobScheduler
pub mod Publication
pub mod Context
pub mod Auth
pub mod Cache
pub mod Uploads
