-- ===== src/Lib.antt =====
-- Verification library of the microgrid-cloud backend, written in Go.
--
-- The program collects telemetry of stations and devices, raises alarms on it, settles energy by the
-- day, and puts the days of a month together in statements. Strategies issue commands to devices, and
-- shadow runs compare what was measured with what was settled. Services act on repositories, most of
-- them on one SQL database, and tell each other what happened by events.
--
-- Prelude: Boolean tests, lists, texts, times and float64 for all modules. Prelude.Exec is the monad
-- of the services: a method acts on the tables behind its repositories, may fail, reads the clock,
-- and every call of the database may fail, at each one by a list of outcomes that theorems quantify
-- over. What a method wrote before an error stays written. Prelude.Tables has the lemmas on tables:
-- rows that must not clash, and rows that only move forward; Prelude.Sorting those on ordered queries.
-- Prelude.Platform stands for the hashes and the time formats of Go's standard library, of which
-- nothing is assumed.
--
-- Alarms (backend/internal/alarms):
--   Domain: domain/alarm.go, domain/rule.go, shouldTrigger and shouldClear.
--   Repository: infrastructure/postgres, with the keys of backend/migrations/009_alarms.sql.
--   Samples, Service: application/service.go, HandleTelemetryReceived, evaluateRule, AckAlarm,
--   ClearAlarm and ListAlarms. The iteration order of Go's map of samples is a parameter.
--   Invariant, Lifecycle, Safety, Operations, Calls: what every sequence of calls keeps.
--   Slots, Evaluation, Clearing, Hysteresis, Requests: what each branch does, and calls in a row.
-- Notices (backend/internal/alarms/notify), told of the events of Alarms, whose tables it reads:
--   Domain, Message: template.go, and the text of a notification. Notifier: notifier.go; a timer that
--   fires is a step. Spacing: how far messages are apart. Escalation: timers.
-- Settlement (backend/internal/settlement):
--   Domain: domain/aggregate.go and time.go, and the repository interface with its laws.
--   Memory: infrastructure/memory/repository.go, which fills the interface.
--   Day: application/day_settlement_app_service.go. Once, Announcements: what it announces.
-- Statements (backend/internal/settlement):
--   Domain: domain/statement.go. Repository: infrastructure/postgres/statement_repository.go, with
--   the keys of backend/migrations/008_statements.sql. Service: application/statement_service.go.
--   Invariant, Safety, Calls: what every sequence of requests keeps. Balance, Sums, Totals: the
--   ledger.
--   Versions, Regeneration, Requests: what generating, freezing and voiding do.
-- Commands (backend/internal/commands):
--   Domain: domain/command.go and application/events. Repository: infrastructure/postgres, with the
--   table of backend/migrations/007_commands.sql, and the outbox. Service: application/service.go.
--   Consumer: interfaces/tb_rpc_consumer.go, the answer of the device platform being an argument.
--   Safety, Calls: what every sequence of calls keeps. Idempotency, Outcomes: what the operations do.
-- Eventing (backend/internal/eventing and backend/internal/analytics/application/eventbus):
--   Domain, Stores: the envelope, and infrastructure/postgres with the tables of
--   backend/migrations/005_eventing.sql. Delivery: subscribe.go, dispatcher.go and the bus's Publish.
--   The registry, the subscribed handlers and what they write are parameters.
--   Counts: what a dispatch reports. Redelivery: a handler takes effect once.
-- Auth (backend/internal/auth):
--   Policy: roles.go and policy.go. Middleware: jwt.go and middleware.go, the JWT library being a
--   parameter and the header's token a field of the request. Ingest: ingest.go, HMAC and the
--   functions on texts being parameters. Guard, Freshness: what is served.
-- Statistics (backend/internal/analytics):
--   Domain, Rollup: domain/statistic, a repository that answers nil without an error not being
--   distinguished from one that answers ErrStatisticNotFound. Completeness: the hours of a day.
--   Repository: infrastructure/postgres/statistic_repository.go, with the key of
--   backend/migrations/001_init.sql. Services: application/hour_statistic_service.go and
--   application/statistic/daily_rollup_app_service.go. Announced, Reads, Stored, Calls: what every
--   sequence of events keeps. Roundtrip: saving and finding.
-- Strategy (backend/internal/strategy), which issues its commands by Commands.Service on its tables:
--   Domain: domain, and the types of the engine and the reader. Repository:
--   infrastructure/postgres/repository.go, with the keys of backend/migrations/013_strategy.sql.
--   Latest: adapters/telemetry/latest_reader.go. Service: application/service.go. Engine:
--   application/engine.go, whose Tick is `tick`; the tables of the command service are a part of its
--   own, reached by Prelude.Exec.Zoom.
--   Due, Evidence, Safety: when it stays still. Repeats, Bounds: what it asks for. Sharing: the
--   template of all stations.
-- Tariffs (backend/internal/settlement/infrastructure/pricing):
--   Domain: the tables. Provider: tariff_provider.go and fixed_price.go.
-- Shadowrun (backend/internal/shadowrun), which compares hours, priced by Tariffs, with settlements:
--   Domain, Config: the types, and the thresholds of config.go. Repository:
--   infrastructure/postgres/repository.go, with the keys of backend/migrations/011_shadowrun.sql and
--   014_shadowrun_alerts.sql. Reconcile, Diff, Reports: application/reconcile.go, its
--   queries, its comparison and its files. Steps, Runner:
--   application/runner.go, and runOnce of scheduler.go.
--   Days, Extremes: the comparison. Prices: against the provider. Frame, Backed, Jobs, Calls: what
--   every sequence of runs keeps. Answers: what a run answers for a job that is there.
--
-- Bounds. Times are nanoseconds since the zero time, without an upper bound; durations are int64
-- and saturate or wrap as in Go. The database keeps microseconds: the two times of a statistic are
-- kept so, by a parameter; the other models keep times exactly. A time is an instant: the analytics
-- services take times of one location, in which they write their keys and compare the starts of
-- hours, where Go compares the location too. A version of a statement is an INTEGER of the
-- database, so adding one in Go's int does not wrap. float64 is an interface of operations with
-- laws of IEEE 754 that hold for every value; exact integers meet it. All loops are over lists or
-- up to a number, but for the loop over the days of a comparison, which runs on fuel: one round
-- more than there are whole days between its ends (`rounds_for`), and so many let it end by its own
-- test (`enough` of Shadowrun.Days).
--
-- Not modelled: nil receivers and nil dependencies, which the constructors refuse; HTTP, webhooks,
-- metrics and logs, which are I/O; foreign keys, as that of an
-- alarm to its rule; concurrency inside one call, each database call being one step of the one
-- service that runs; reading configuration from the environment; and the components of the backend
-- that have no module here (telemetry storage, provisioning, and the command-line tools).
pub mod Notices
pub mod Prelude
pub mod Alarms
pub mod Settlement
pub mod Statements
pub mod Commands
pub mod Eventing
pub mod Auth
pub mod Statistics
pub mod Strategy
pub mod Tariffs
pub mod Shadowrun
