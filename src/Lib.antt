-- ===== src/Lib.antt =====
-- The capacity planning operator, a Kubernetes operator that samples how full persistent volumes
-- are, predicts when they will be full, and reports risks, anomalies and budgets in the status of a
-- CapacityPlan. Paths below are from the repository's root.
--
-- The parts and how they interact. The watcher (internal/controller/pvcwatcher_controller.go) keeps
-- for each volume, under the key "namespace/name", a ring buffer (internal/analysis/ringbuffer.go)
-- of samples that it asks a metrics client (internal/metrics) for, and exports series
-- (internal/operator). The planner (internal/controller/capacityplan_controller.go) reads the
-- watcher's histories, fits a line through each (internal/analysis/growth.go), and computes the
-- objects of the status (api/v1/capacityplan_types.go); it also reconfigures the watcher, and asks
-- a client of a language model (internal/llm), which it makes from the plan's settings and keeps in a
-- cache, for texts. The notifier (internal/controller/capacityplannotification_controller.go) reads
-- the status of a plan and posts or mails its risks.
--
-- The files:
--   Prelude/...: the integers, strings, sorting, dictionaries, times and floating-point numbers of Go
--     that the code uses, with their lemmas.
--   Plan/Changes/Report and Prelude/Lex hold words for specifications: what a change must tell, and
--     orders as lists of keys.
--   Analysis/RingBuffer: NewRingBuffer, Push, Snapshot, Len and Reset; Invariant and History hold the
--     proofs. Analysis/Growth: CalculateGrowth, each loop as a function; Growth/Bounds holds the proofs.
--   Operator, Metrics: the exported series, and the interface of a metrics client with its mock.
--   Watcher: the state and its operations (ensureState, Configure, deleteState, ...). Watcher/Reconcile:
--     Reconcile, BackfillFromRange and BackfillAllPVCs. Invariant, Reach, Samples and Cleanup hold the
--     invariant, the reachable watchers, the histories, and what a deletion leaves.
--   Api: the types. Plan/Signals: buildPVCRiskSignals. Plan/TopRisks: buildTopRisks and
--     enrichTopRisksWithWorkloads. Plan/Summary: buildStatusSummary. Plan/Changes: detectRiskChanges and
--     summarizeRiskChanges. Plan/Anomalies: detectPVCAnomalies. Plan/Budget: buildBudgetForecasts.
--     Plan/Workload: buildPVCWorkloadIndex. Plan/Insight: buildSummary and the refresh of the texts on
--     risk changes and on budgets. Plan/Active: isActivePlan and markPlanInactive. Plan/Setup: listScopedPVCs and
--     configureWatcherForPlan. Plan/Digest: buildRiskDigest and trimForAnnotation. Plan/Hash:
--     computeRiskSnapshotHash and computeBudgetForecastHash. Plan/Client: buildLLMProviderConfig and
--     readSecretValue; Plan/Client/Cache: resolvePlanLLMClient. Plan/Export: the gauges and counters
--     that Reconcile sets. Plan/Reconcile: what Reconcile prepares; Plan/Reconcile/Loop: the rest of
--     it, from the summaries on. Proofs stand in child modules, or beside a short definition.
--   Llm: the settings of internal/llm/providers.go. Llm/Clients: NewInsightGenerator and the
--     constructors. Llm/Prompt and Llm/PlanPrompt: internal/llm/prompt.go and plan_prompt.go, whose
--     templates are the texts they make; Plan/Insight/Context: the data they are given.
--     Llm/Breaker: the FastAPI client; Trace, Requests, Admission and Events hold the proofs on its
--     circuit breaker.
--   Notify: the types of api/v1/capacityplannotification_types.go. Notify/Message and Notify/Delivery:
--     renderNotificationMessage, sendSlack and sendEmail. Notify/Reconcile: the request; Cases, History,
--     Spacing, Progress and Content hold the proofs on one request and on sequences of requests.
--   Tests/...: the definitions and the theorems at concrete inputs.
--
-- How the code is modelled. A method that writes to its receiver returns the new one, and a method
-- that holds a lock is one step; a handler runs to its end as one step, and Watcher/Reach orders
-- the handlers in every way. The buffer that a handler holds while it talks to the metrics client
-- is the one in the map: no other handler runs in between. int64 arithmetic wraps around at 2^64
-- where the code adds or subtracts bytes; a time is an integer of nanoseconds. A Go map is an
-- association list, ranged over in the order of insertion where the code then sorts. sort.Slice is
-- insertion sort, of which the theorems use only that the result is a sorted permutation. float64
-- is a parameter, and a theorem names the laws it needs: IsOrdered for comparisons of numbers,
-- HasSigns for signs of results; Prelude/Float has an instance in thousandths that meets them. The
-- answers of the API server, of the metrics client and of the language model,
-- resource.ParseQuantity and meta.SetStatusCondition are parameters. strings.EqualFold folds ASCII
-- letters only, and %q quotes a name without escapes: names and kinds of Kubernetes objects need no
-- more. Every loop is a structural recursion on a list or on the number of its rounds; there is no
-- fuel.
--
-- The notifier's and the FastAPI client's traffic is a list of what leaves the operator. Two requests
-- of the FastAPI client may overlap: what its lock guards are the two writes of the breaker, and
-- Llm/Breaker/Trace is about their sequences. url.Parse, %q of texts that may need escapes, the JSON
-- encoder, HTTP, SMTP, SHA-256 and the SDKs of OpenAI and Anthropic are parameters. What the API server
-- stores of a time is a parameter too, which keeps whole seconds where a theorem needs it.
--
-- Not modelled: the counters of a prompt and its latency; the stub clients for tests; the requests
-- of the OpenAI, Anthropic and Ollama clients; the PrometheusRule and the Grafana dashboard, which
-- are untyped maps of text; internal/metrics/prometheus_client.go, which speaks HTTP and JSON;
-- the sample controller; generated code, commands, and the programs for continuous integration (cmd,
-- internal/cirunner, internal/civerify, internal/alertreceiver).
pub mod Prelude
pub mod Analysis
pub mod Operator
pub mod Metrics
pub mod Watcher
pub mod Api
pub mod Llm
pub mod Plan
pub mod Notify
pub mod Tests
