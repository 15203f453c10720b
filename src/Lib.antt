-- ===== src/Lib.antt =====
-- The jumble user service: accounts with roles, kept in PostgreSQL, behind JSON endpoints.
--
-- The program's parts and the modules that model them:
--   * internal/domains/user/bus is the domain. Bus/Roles, Bus/Order and Bus/Models are roles.go,
--     order.go and models.go with filter.go; Bus/Store is the interface `store` of bus.go, and
--     Bus/Users the methods of Bus over it. Bus/Contract says what the domain expects of a store.
--   * internal/domains/user/store/userdb is the store. Userdb/Models, Userdb/Order, Userdb/Filter
--     and Userdb/Store are its files models.go, order.go, filter.go and userdb.go. Userdb/Database
--     is what they call of sqlx, Userdb/Postgres the behaviour of PostgreSQL that they rely on for
--     the table of internal/migrate/sql/20250914214924_init.up.sql, and Userdb/Memory a database in
--     memory.
--   * internal/domains/user/handler is the HTTP side. Handler/Models and Handler/Filters are the
--     bodies and their conversions, Handler/Binding the `binding` tags, Handler/Reply how an
--     endpoint ends, Handler/Endpoints with Handler/Endpoints/Changes the eight endpoints of
--     handler.go, and Handler/Routes the table of routes.go.
--   * internal/auth is Auth; internal/mid is Mid/Access (authenticate.go, authorized.go),
--     Mid/Errors (errors.go) and Mid/Counting (metrics.go, panics.go); internal/metrics is Metrics,
--     internal/page is Page, internal/errs is Errs, internal/sqldb is Sqldb (its ConnCheck) with
--     Sqldb/Opening (its Open), and pkg/keystore is Keystore, with its locks in Keystore/Locking.
--     pkg/logger is Logger, pkg/telemetry is Telemetry, pkg/docker is Docker, internal/dbtest is
--     Dbtest and internal/debug is Debug.
--   * cmd/services/main.go is Service/Run, the life of the process, with its settings in
--     Service/Config, and Service/Stack, the chains of handlers that a request goes through: the
--     four handlers of internal/mid that main installs (telemetry.go, logger.go, metrics.go,
--     panics.go) and those of the route. Service/Gin is what they use of gin.
--     Service/Machine runs the same chains one call at a time: Service/Machine/Server has the steps
--     of requests that overlap over the shared store, counters and log.
--     internal/domains/health/handler is Health; internal/migrate and the command of
--     cmd/admin/cli/migrate.go are Migrations, and Admin is the command line of cmd/admin, cli.go
--     and main.go.
--   * Go holds what all of these use of Go: errors with wrapping, errors.Is and errors.As, 64-bit
--     integers with strconv.Atoi, and package strings. Shared holds tests and association lists,
--     and Examples a small concrete service on which the theorems are run.
--
-- How they interact: an endpoint binds its body, converts it, calls a method of Bus, which calls
-- the store, which calls the database. Each layer takes the one below as a parameter. State is
-- passed explicitly; a method that fails gives back the state beside its error. A panic is a
-- value of its own. A request's context holds the store, the counters and the log; a handler of
-- gin is what it does before the rest of the chain, after it, and in its deferred calls.
-- Requests that overlap take turns between these calls: no registered endpoint finds a user in
-- the context, so only CreateUser changes the store, by one call of it; the two reads of Query
-- are one turn. A process is the sequence of the events that it causes outside, with the
-- deferred ones at the end of their function.
--
-- Parameters, since their code is not part of the program: bcrypt, uuid, mail.ParseAddress and
-- RFC 3339 times (Bus/Services), golang-jwt (Auth), PEM and x509 (Keystore), sqlx with
-- PostgreSQL (Userdb/Database), pings and sleeps (Sqldb), sqlx.Open (Sqldb/Opening), JSON and
-- query decoding (Handler/Binding), the validator's translations (Mid/Errors), gin with the
-- order of its handlers and the status it writes (Service/Gin), exporters (Telemetry),
-- golang-migrate (Migrations), cobra with what it makes of the arguments and prints (Admin), the
-- docker command (Docker), and for the process the parsed configuration, what ends its wait and
-- how the shutdown ends (Service/Run). Frames of the call stack are an argument (Logger). The
-- current time and new ids are arguments.
--
-- What is expected of them, as named hypotheses: IsPostgres (Userdb/Postgres) has the keys of the
-- schema, the lengths of its VARCHAR columns and times to the microsecond, for a database that can
-- be reached, texts without the character NUL and times that a column can hold; IsJwt (Auth/Laws)
-- says which tokens golang-jwt accepts for a key function, with or without a "kid" in their header;
-- IsGin (Service/Gin) says what gin writes.
--
-- Bounds: `int` is an integer with its 64-bit wrap-around written out; the decimal text of a number
-- is made with fuel for 20 digits, and 2^64 has 20. ConnCheck takes fuel for its attempts: 14 are
-- enough for its own deadline, since 14 sleeps last 10.5 seconds. The check of Dbtest has a timeout
-- of 120 seconds, and 49 attempts are enough. All other recursion is structural.
--
-- Not modelled: the deadlines of requests and the spans of the store; the text that slog writes for
-- a record; the translations of the validator; the listeners and goroutines of the three servers, of
-- which the process has only the start as an event.
pub mod Shared
pub mod Go
pub mod Errs
pub mod Examples
pub mod Sqldb
pub mod Telemetry
pub mod Logger
pub mod Service
pub mod Migrations
pub mod Debug
pub mod Docker
pub mod Dbtest
pub mod Health
pub mod Page
pub mod Bus
pub mod Userdb
pub mod Admin
pub mod Auth
pub mod Handler
pub mod Metrics
pub mod Mid
pub mod Keystore
