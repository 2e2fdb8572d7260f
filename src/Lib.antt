-- ===== src/Lib.antt =====
-- A model of the core of oh-my-api, a gateway that routes requests for language models to upstream
-- providers: which candidates may serve a request, in which order they are tried, how often, what
-- their answers mean, and what the gateway remembers about them.
--
-- How the parts interact. The rules of the configuration (internal/config/rules.go) are evaluated
-- for a request (internal/rules) and set limits of its candidates: the effort levels, the rate, the
-- retries and the time ranges. The wire format of an exchange is chosen by its conversion cost
-- (internal/codec/format.go). A strategy of the scheduler (internal/scheduler) tries the candidates:
-- it asks the time ranges, the health checker (internal/health) and the rate limits
-- (internal/ratelimit), lets the leaf runtime send a request with its retries, and reports the
-- outcome back to the health checker.
--
-- The files:
--   Base: Boolean tests, native lists and integers, texts as code points, Go maps.
--   Health: internal/health/checker.go and key.go. Checker is the struct; the methods have the
--     code's names (report_failure for ReportFailure, and so on). Report and apply_all are
--     histories of calls.
--   Model: internal/model/resolver.go. Redirects: resolveAlias. Graph: the groups and redirects of a
--     resolver, and detectCycles. Plan: the plan tree and the lists of leaves. Resolve: NewResolver
--     with its checks. Lookup: the lookups by name.
--   RateLimit: internal/ratelimit/limiter.go and manager.go. The buckets of golang.org/x/time/rate
--     are the parameter TokenBucket.
--   Codec.Format: internal/codec/format.go.
--   Config.TimeRange, Config.Provider: the time ranges of internal/config/config.go, and the formats
--     and endpoints of a provider there. Config.Effort: effort.go. Config.Rules: the validation in
--     rules.go; its child Normalize: the standard spelling of rules, there and in normalize.go.
--   Rules: internal/rules, matching and merging.
--   Scheduler.Types, Abort, Windows, Classify: the data of internal/scheduler/strategy.go and
--     errors.go, context_abort.go, the time windows of strategy.go, soft_failure.go.
--   Scheduler.World: what a run reads and changes. Env is the outside: the clock, the request's
--     context, the cascade sessions, and an exchange with an upstream.
--   Scheduler.Leaf: retry.go, executeTask of the leaf runtime.
--   Scheduler.Fallback, Scheduler.Failover: failover.go.
--   Scheduler.Concurrent: concurrent.go up to the race. Scheduler.Race: the race, a step relation
--     between the goroutines of the attempts and the loop that aggregates their outcomes.
--   Scheduler.Selector, Scheduler.LoadBalance: selector.go and loadbalance.go, with the sticky loop
--     in Scheduler.LoadBalance.StickyLoop. Scheduler.Sticky: sticky.go.
--   Scheduler.Tracker: adaptive_tracker.go and adaptive_score.go. Scheduler.Adaptive: adaptive.go.
--   Cascade: internal/cascade on the hub's side. Waiter: jobWaiter of job.go, and the response that
--     ExecuteJob makes of it. Session: session.go and ExecuteJob, a step relation between the
--     requests, the read loop and the close of a session.
--     Hub: the session of hub.go, and health.go. Metadata: metadata.go.
--   Examples: runs at concrete inputs.
--
-- State is passed explicitly. Times are natural numbers of nanoseconds, minutes of the day run from
-- 0 to 1439, signed fields are ℤ, counters are natural numbers without an upper bound, and a text is
-- the list of its code points. What a method does under its mutex is one step. Other goroutines are
-- interleaved only in the race of the concurrent strategy, in the cascade session and between the steps of
-- a hub; elsewhere the other requests of
-- the process are not part of a run. The case tables of the standard library's ToLower are an
-- argument. A pointer that the code tests for nil is an Option.
--
-- Bounds. The fuel of resolveAlias is one more than the number of redirects, of which each call
-- visits another; that of detectCycles is one more than the number of groups, of which each name on
-- the path of the search is another. The depth of a plan is an argument, of which some value is
-- enough for all names. The rounds of executeTask are structural on the retries that are left. The
-- load balancer's loops have as many rounds as there are candidates, and each round takes one out; so
-- has the adaptive loop, in which each round moves the index on. The quotients of the deficit choice
-- are compared exactly, as fractions: the code's float64 quotients order the same way while counts
-- and weights stay below 2^26. The scores of the adaptive strategy are exact fractions too, where the
-- code rounds to float64.
--
-- Left out: trees of candidates, the stream codecs, the spoke's side of cascade and the bridge, the
-- runtime configuration, the HTTP handlers and the database; and logs and metrics everywhere, but
-- for the health gauge.
pub mod Base
pub mod Cascade
pub mod Codec
pub mod Config
pub mod Health
pub mod Model
pub mod RateLimit
pub mod Rules
pub mod Scheduler
pub mod Examples
