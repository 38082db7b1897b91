-- ===== src/Lib.antt =====
-- Aura Tracker GCP: the parts of the server (a Go program that answers questions about GCP projects
-- over MCP) that hold its own logic, with the theorems that make them correct.
--
-- Safety (internal/safety, internal/requestmeta, and the requests of pkg/models): the two-step
--   confirmation of every mutation. `Safety/Store` is store.go, the pending plans with their
--   deadlines and leases; `Safety/Decorator` is decorator.go, one file for each mutation;
--   `Safety/Caller` is the caller's identity; `Safety/Serve` is the three mutations as the calls of
--   one server, over whole histories.
-- SecurityAudit (internal/securityaudit, pkg/models/security.go): `SecurityAudit/Facts`,
--   `SecurityAudit/NetworkFacts` and `SecurityAudit/Report` are the facts that an audit collects and
--   the report it makes; `SecurityAudit/Score` is calculateScore and coveragePercent of score.go;
--   `SecurityAudit/Checks` is buildCoverage, which turns collectors' failures into statuses;
--   `SecurityAudit/Suppressions` is suppressions.go; `SecurityAudit/Rules` is rules.go, the findings,
--   one file for each group of rules, with what they mean in its children; `SecurityAudit/Correlate`
--   is workload_identity.go; `SecurityAudit/Build` is buildReport and buildRecommendations, and
--   `SecurityAudit/Engine` is engine.go: the collectors, an audit as its two steps under the mutex,
--   with what others write between them, and its cache of reports. Float is the arithmetic on
--   float64 that the scores use, as a parameter with the laws of monotone rounding.
-- TtlCache (internal/gcp/cache.go): the cache of cloud answers, `TtlCache`, its steps under a lock,
--   its size, which values it returns and how long it keeps them.
-- Environments (internal/environments/registry.go): the configured projects; the maps of names that
--   NewRegistry builds, what holds of a registry that it lets through, and how Resolve reads it.
-- Prelude, GoMap, GoText, GoSort and Message are shared: tests, lists, Go's maps, strings and sorts,
--   and text that the code formats.
--
-- Conventions. A method that changes an object takes its state and returns the new one beside its
-- result. A reading of the clock is an argument, in nanoseconds, as a number from the epoch. A Go
-- map is an association list; where the code ranges over a map, the order that Go leaves open is the
-- order of the list or, in an audit, a `Range` of `GoMap/Range`, which gives the entries of each map
-- in an order of its own; the theorems hold for each. Services behind the program (GCP,
-- the Kubernetes API, the libraries for MCP and UUIDs) are parameters. No loop takes fuel: each is
-- a recursion on the list that it walks. Logging is left out.
--
-- Not modelled: the text of an audit's report, drift,
-- the resolution of architecture edges, diagnostics, cost reasoning, anonymisation, and the MCP
-- server's guard and permissions; the GCP and Kubernetes adapters, which translate between API
-- clients and models; the MCP transport and tool registration; rendering; configuration and
-- start-up.
pub mod Prelude
pub mod GoMap
pub mod Message
pub mod GoSort
pub mod GoText
pub mod Float
pub mod Safety
pub mod SecurityAudit
pub mod TtlCache
pub mod Environments
