-- ===== src/Lib.antt =====
-- Sherlock answers an alert with an investigation. The gateway takes a monitoring system's webhook,
-- whose receiver verifies it and normalises its alerts, the duplicate check drops an alert when an
-- investigation of the same fingerprint is under way, and a job is put on the queue. The orchestrator
-- takes a job, lets the collectors gather evidence about the alert's target, correlates the items in
-- pairs, lets the root cause engine turn the graph into ranked hypotheses with suggested fixes, builds
-- a timeline, stores all of it, and posts the result. The language model that may stand in for the
-- rules is called through a circuit breaker and a retry loop.
--
-- Which file models what:
--
--   Contracts       internal/contracts: the records that the components exchange, field by field as far
--                   as the modelled code uses them.
--   Duration        `time.Time` and `time.Duration`: `Sub`, `Abs` and negation on int64.
--   Rca             internal/rca. Rca.Evidence has the helpers of rules.go and the lookup of
--                   confidence.go, Rca.Confidence is ScoreConfidence, Rca.Rules the five rules of
--                   rules.go, Rca.DeployRule is deploy_rule.go, Rca.Engine New and Rank of engine.go.
--                   Rca.LlmEngine is llm_engine.go: Rank with its passes.
--   Analysis        internal/llm/parser.go: MapToHypotheses, with the confidence and the category.
--   Answer          The rest of internal/llm/parser.go: ParseAnalysis and ParseFollowUps. Matches has what
--                   package regexp does with their patterns.
--   FollowUp        internal/llm/followup.go: Execute and what it calls.
--   Correlation     internal/correlation/engine.go: Correlate and the three tests of a pair.
--   Timeline        internal/timeline/builder.go: Build.
--   Dedup           internal/dedup/dedup.go: Check. Dedup.Gated is what cmd/sherlock/main.go makes of it for
--                   the gateway.
--   Gateway         internal/receiver/gateway.go: handleWebhook.
--   Receivers       internal/receiver: what the four receivers share, with Receivers.Alertmanager,
--                   Receivers.Grafana, Receivers.Github and Receivers.Gitlab for the Verify and Decode of
--                   each, and Receivers.Registered for the receivers that cmd/sherlock/main.go registers.
--   Config          internal/config/config.go: the records, with Config.Defaults, Config.Overrides for the
--                   environment, and Config.Validation for validate and Load.
--   SlackTransport  internal/slack/transport/http.go: the handlers of commands, interactions and events.
--   SlackApp        internal/slack/app.go: the handlers, SlackApp.Starts for commands and shortcuts,
--                   SlackApp.Buttons, SlackApp.Mentions, and SlackApp.Messages for the longer texts.
--   Resolver        internal/entity/resolver.go: Resolve.
--   Registry        internal/collector/registry.go: Register, and CollectAll as interleaved goroutines.
--   Remediation     internal/remediation: the policies and Evaluate. Remediation.Fixes has the map of
--                   seen titles, which the orchestrator's fixes go by as well.
--   CircuitBreaker  internal/llm/circuitbreaker.go: Complete as two critical sections with the
--                   provider's call between them.
--   Retry           internal/llm/retry.go: Complete and isRetryable.
--   Orchestrator    internal/investigation/orchestrator.go: runInvestigation stage by stage.
--                   Orchestrator.Effects has the calls it makes of its services and the monad of the
--                   run, Orchestrator.View what a trace of calls does to the row, the transaction and
--                   the metrics, and Orchestrator.Pool the handler, the semaphore and the goroutines of
--                   Start, with what Subscribe of internal/queue/queue.go does with a handler's error, and
--                   Orchestrator.Replies how a goroutine answers its message.
--
-- A function of the source keeps its name in snake case. A loop with local state is a function whose
-- name ends in `_loop`, and a stage of runInvestigation one that ends in `_stage`. Child modules hold
-- parts of their parent or the proofs about it, Prelude the shared operators and lemmas, and Tests the
-- inputs and an instance of each theorem that has hypotheses.
--
-- State. The breaker is a record that each critical section takes and returns. The steps of
-- CircuitBreaker.Steps are critical sections, in any order that the calls in flight allow, and those
-- of Registry are the actions of its goroutines on the evidence that they share. A run of an
-- investigation is a function of the trace of calls made so far: a service answers by its error or
-- none for that trace, so nothing is assumed of the database, and its answers may change with every
-- call. The trace is newest first, and View reads off it the statuses that the row has had, an open
-- transaction with the statuses written in it, the completion counter's labels and the gauge. A call
-- that returns an error changes nothing, a commit adds the statuses of the transaction to the row, and
-- a rollback drops them. The result of a run is its value, its error, or a panic. The steps of
-- Orchestrator.Pool are a delivery, the taking of a slot, the reply of a goroutine and its leaving;
-- each delivery has a number of its own.
--
-- Numbers. Confidences and scores are hundredths: the source's float 0.95 is 95 (its sums and
-- comparisons of them are of such multiples, and the rounding of floats is not modelled). A time is a
-- number of nanoseconds since the zero `time.Time`, which is 0. A duration is an int64: `Sub`
-- saturates at its bounds, and the negation of its least value is itself. The strength of a temporal
-- correlation is an exact fraction of the five minute window, counted in nanoseconds; at a gap of
-- exactly 210 seconds, where the source's float is a little above its minimum of 0.3, the test takes
-- that side. Lower case and substring tests read ASCII. The breaker counts its failures without the
-- bound of an int.
--
-- Bounds and fuel. Nothing runs on fuel: each loop recurs on the list that it walks, the retry loop on
-- the attempts that are left, and the LLM engine's on the passes that are left.
--
-- The orchestrator takes its resolver, collectors, correlation, engines and stores as services, and
-- does not depend on the modules above that implement them.
--
-- Parameters. `sort.Slice` is a sort with its documented law (in order, a rearrangement, and
-- unstable), which insertion sort is shown to meet. Fresh UUIDs are a function of the position, the
-- printing of times, the contexts' and the providers' answers, the stores' answers, the collectors'
-- evidence, and what the YAML and JSON parsers and the git provider return are functions or values
-- that the definitions take; the gateway takes its receivers and the LLM engine whether the label map
-- of the first alert is not nil. So are the environment, the contents of a file, the HMAC of a text,
-- the parsers of numbers, times and forms, the hashes, and the floats of the configuration, of which
-- nothing is computed.
--
-- Texts. A position in a text counts code points where the source counts bytes: both cut a text at the
-- same places. The patterns of parser.go are written out as functions that give what they capture. A
-- time is not before zero: half an hour before an earlier time than that is 0.
--
-- Not modelled: the prompts, the providers' HTTP clients, the collectors themselves, the layout of
-- Slack messages, the SQL and object stores, the API key, the routes, metrics, tracing and audit. They
-- call external services or turn one format into another. The random delay between two attempts is
-- left out as well: it changes when an attempt is made, not which. The rate limiter is left out: it
-- loads and stores its limiters without a lock, and they are those of package rate.
pub mod Prelude
pub mod Contracts
pub mod Duration
pub mod Rca
pub mod Correlation
pub mod Timeline
pub mod Dedup
pub mod Remediation
pub mod CircuitBreaker
pub mod Retry
pub mod Resolver
pub mod Analysis
pub mod Receivers
pub mod Registry
pub mod Config
pub mod SlackTransport
pub mod SlackApp
pub mod FollowUp
pub mod Answer
pub mod Matches
pub mod Gateway
pub mod Orchestrator
pub mod Tests
