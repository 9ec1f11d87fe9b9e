-- ===== src/Lib.antt =====
-- The web interface of Statusengine: a server in Go between browsers, a monitoring core that takes
-- commands through a worker, and the MySQL tables that the worker fills. This library models the
-- logic of the server and proves what keeps it correct.
--
-- The parts, and the files that model them:
-- - Commands: internal/commands/naemon.go, the targets of a command, the check of a field, and one
--   builder for each action. Commands.antt has targets and envelopes (`Target.Validate` is
--   `validate`, `checkField` is `check_field`), Commands/Builders.antt and Commands/Results.antt the
--   builders under the names of the source, and Commands/Bulk.antt `Bulk` and `CommandCount`; Commands/Audit.antt has the
--   statements of internal/commands/audit.go. The
--   core splits a line on semicolons; Commands/Arguments.antt reads lines back that way.
-- - RateLimit: internal/ratelimit/ratelimit.go, a fixed window of events for each key. Logins and
--   commands are both held to it.
-- - Events: internal/events, the hub that fans changes out (hub.go), and the changes in the worker's
--   events (Worker.antt for worker.go). A channel of Go is a buffer, a flag that says whether it is
--   closed, and one for the `once` of its subscription. What a method does under the lock is one step.
--   `flush` releases the lock before it sends, so it is `take_batch` and then one `send` for each
--   channel; a client that leaves releases it before it closes its channel, so that is `detach` and
--   then `close_channel` (Events/Interleavings.antt).
-- - Auth: internal/auth, permissions (Auth/Permissions.antt), logins and sessions (Auth/Service.antt
--   for service.go and `LoginDemo` of bootstrap.go), and the built-in roles (Auth/Bootstrap.antt for
--   the rest of bootstrap.go). The account store runs SQL, so it is a record of operations on a state
--   of its own, which every theorem takes as it comes; so are the check of a password, the random
--   token and the digest of a token.
-- - Http: internal/httpapi, what the handlers do between a decoded request and an encoded answer.
--   Http/Params.antt is params.go, Http/Paging.antt `parsePage` with what handlers_monitoring.go adds,
--   Http/Lists.antt the requests of the list handlers (handlers_monitoring.go, handlers_history.go)
--   and Http/Answers.antt what becomes of the repositories' results. Http/Targets.antt,
--   Http/Handlers.antt and Http/Submission.antt are handlers_commands.go: the objects that a command
--   names, the eight handlers, and the submission. Http/Limits.antt is commandlimit.go and
--   Http/Guards.antt the guards of middleware.go; Http/Routes.antt
--   is the table of routes in server.go. The worker's answer, which
--   internal/commands/client.go brings, is a function that `submit` takes.
-- - Query: internal/repository/mysql, the text of a query and its bound values (query.go), and with it
--   the count and the page of each list: Query/Status.antt for hosts.go, services.go and filters.go,
--   Query/History.antt, Query/Downtimes.antt, Query/Acknowledgements.antt, Query/Problems.antt and
--   Query/Logs.antt (logentries.go). The constants of a file are in the module Columns beneath.
--   Query/Summary.antt has what summary.go adds up of the rows it reads.
-- - Config: internal/config/config.go, the settings, their defaults, `Validate` (Config/Validate.antt)
--   and `mergeEnv` (Config/Env.antt).
-- - Metrics: internal/metrics/provider.go, the resolution of a chart.
-- - Migrate: internal/migrate/migrate.go, the files split into statements (`Statements`) and `Run`.
--   The database is a record of operations on a state of its own, as a connection sees it.
-- Prelude has what they share: Boolean tests, results, integers, maps and sets as lists; and Text
-- has Go's strings, as lists of bytes, with what is used of `strings`, `unicode/utf8` and `strconv`.
--
-- Bounds and conventions. A time is a number of nanoseconds or of Unix seconds, and enters as an
-- argument. The difference of two `int64` wraps (`wrap64`). Counters of events are natural numbers:
-- they would wrap only after 2 ^ 63 events. Orders in which Go walks a map are arguments. The text of
-- an error is left out, and its kind kept. The one fuel is that of the decimal digits of a number,
-- which is the number itself and one more; reading the digits back gives the number. All other
-- loops are structural.
--
-- Not modelled: what MySQL makes of a statement, and the rows that it fills; the SQL of the account
-- store and of single reads; JSON, the matching of routes, cookies, websockets and server-sent events, which are I/O
-- or packages; `strconv` and the parsing of durations, which are parameters; password hashing; the
-- YAML file and the flags; the start of the process.
pub mod Prelude
pub mod Text
pub mod Domain
pub mod Commands
pub mod RateLimit
pub mod Events
pub mod Auth
pub mod Http
pub mod Query
pub mod Metrics
pub mod Config
pub mod Migrate
