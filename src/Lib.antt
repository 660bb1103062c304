-- ===== src/Lib.antt =====
-- A model of Pulse Pager, an uptime monitor: a scheduler finds the monitors that are due and puts a
-- job for each of their regions on a bus, workers run the checks and put the results on the bus,
-- and the alerting service stores each result, opens and closes incidents, and asks the notifier to
-- tell the people on call. An api, gated by roles and plans, configures it all.
--
-- The parts, the files that model them, and how these correspond to the code:
--   Domain, Domain/Status, Domain/SslWarn   internal/domain: the shared records and enums, the
--     derived statuses, the banner of a status page and the expiry level of a certificate. A time
--     is a number of nanoseconds since the zero time.Time. Domain/Laws has what these promise.
--   Alerting/Engine    internal/alerting/alerting.go: Apply and all it calls, a pure function.
--     Alerting/Table and Alerting/Escalation state its table and its expiry warnings,
--     Alerting/History what the alert state means as a function of the checks seen so far.
--   Alerting/Service   internal/alerting/service.go: handle and all it calls. The tables are passed
--     through; an Env says how each transaction ends (it works, it is lost, or it is committed
--     without an acknowledgement) and whether the message can be sent. Alerting/Redelivery,
--     Settling, Delivery, Retry, Tracking, Current, Outage, Invariant and DedupKey are about it.
--   Store/Db, Store/Incidents   internal/store/store.go, incidents.go and parts of monitors.go: the
--     tables as lists, a transaction as a function on them that fails as a whole, and the
--     operations that alerting and operators run. Store/Invariant, Store/Preservation and
--     Store/OpenIncident are about them.
--   Scheduler          internal/scheduler/scheduler.go: Run, dispatchDue and dispatch over the
--     map of next runs. Scheduler/Spacing, FanOut and Sending are about it.
--   Checkstate         internal/checkstate/checkstate.go: the live state of a region, its lifetime,
--     and the rollup over the regions. Checkstate/Rollup and Checkstate/Reports are about it.
--   Authz              internal/authz/authz.go: the role gate. Authz/Roles and Authz/Owners.
--   Entitlements       internal/entitlements/entitlements.go: what a plan allows.
--     Entitlements/Fallback and Entitlements/Ladder.
--   StatusCodes        internal/checker/statuscodes.go: the specs of expected status codes.
--     StatusCodes/Bounds and StatusCodes/Printed.
--   Checker, Checker/Ssl   internal/checker/checker.go and ssl.go: checkHTTP, checkSSL and Check, from
--     the answers of the network, the clock and the standard library to a result. Checker/Verdict
--     and Checker/Certificate are about the verdict, Checker/Kept about the rest of the result.
--   Worker             internal/worker/worker.go: handle and all it calls, and two writes in
--     internal/store/monitors.go. Worker/Gated is about it.
--   Refresh            internal/authn/refresh.go and internal/store/refreshtokens.go: refresh
--     tokens and their table. Refresh/OneLive, Refresh/Login, Refresh/Replay and Refresh/Race.
--   Notifier/Service   internal/notify/service.go: handle, its deduplication by Redis and the
--     database, and the claim and the channels in internal/store/channels.go.
--   Notifier/Channels, Notifier/Config   internal/notify/notify.go and service.go: the retries of a
--     channel, the goroutines of a dispatch, the collector and the rows of the outcomes.
--   Notifier/OrgWebhooks   internal/notify/webhookdeliver.go and parts of internal/store/webhooks.go.
--     Notifier/Once, Lost, First, Reaches, Posted and Apart are about the handler, Interleaving,
--     Attempts, Deliveries and DeliveryRows about the channels, and Posts, PostCounts and HookRows
--     about the webhooks.
--   Bus                internal/bus/redis.go: one poll of a consumer, on any handler. Bus/Kept,
--     Bus/Kept/Polls and Bus/Blocking are about it, and Bus/Orphans joins it with alerting.
--   Billing, Billing/Ingest   internal/billing/billing.go and ingest.go, and subscriptions.go,
--     payments.go and billing_events.go of internal/store: the webhook of the payment provider and
--     the writes to subscriptions. Billing/Sync, Retry, Redone and Anchor.
--   Prelude            tests on numbers, integers, lists that stand for tables, decimal numbers.
--   Tests              the theorems at concrete values.
--
-- The service calls the engine on the state that the store returns and gives the store its
-- decision; Alerting/Outage joins the three. The worker runs the checks on the scheduler's jobs
-- and emits the events that alerting handles. The scheduler's default region is the one that every
-- plan of Entitlements allows. The notifier handles the messages that the alerting service emits
-- (Notifier/Apart), and the bus calls alerting's handler (Bus/Orphans). Billing takes its plans
-- from Entitlements.
--
-- Bounds and fuel: numbers are natural numbers. Counters and intervals come from 32-bit columns, so
-- the products and sums made of them fit the 64-bit integers of the code; what strconv.Atoi refuses
-- as too large is written out. The only fuel is the number of digits of a printed number, of which
-- its value plus one is enough, and Prelude/Decimal proves that the number is read back. The loops
-- over attempts recurse on the attempts that are left, and the others on a list.
--
-- Parameters: SHA-256 and HMAC with their hexadecimal form, the hash of a token, encoding/json,
-- time.Format, what the producer takes, what a provider of a channel answers, how goroutines
-- interleave, what Redis answers to a poll, what the network and the standard library answer to
-- a check, and the adapter that verifies a billing webhook. The hypotheses made of them stand in
-- the theorems.
--
-- Not modelled: the guard against private networks,
-- the providers of channels, the rest of authentication, the adapters of payment providers, the
-- HTTP handlers of the api, the rest of the store, the Redis client, configuration, logs,
-- metrics and traces, the generated API types, the web frontend. A stored result that comes to
-- be retried only after a later one was applied is dropped by the watermark, and is outside the
-- histories of Alerting/Outage. The database keeps times to the microsecond, and the tables here
-- to the nanosecond.
pub mod Prelude
pub mod Checkstate
pub mod Domain
pub mod Entitlements
pub mod Store
pub mod Alerting
pub mod Authz
pub mod Refresh
pub mod Notifier
pub mod Bus
pub mod Billing
pub mod Checker
pub mod Worker
pub mod Scheduler
pub mod StatusCodes
pub mod Tests
