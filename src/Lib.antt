-- ===== src/Lib.antt =====
-- compshare-agent: the assistant of a GPU cloud. A model proposes actions on a tenant's
-- instances; deterministic code decides what is run, after the user has confirmed it. This
-- library models that code: the engine that runs a confirmed action, the gates of a tool call,
-- the broker of confirmations, the resolver of proposals, the registry of instances, the rounds
-- of a turn, the pool of conversation engines and the rate limiter. A chat request leases an
-- engine from the pool; the limiter admits the turn and its tool calls; the turn runs in rounds,
-- in which the model may propose an action; the resolver checks the proposal; the action runs as
-- a workflow, whose confirmation gate waits on the broker until the user answers the form that
-- the gate offered.
--
-- Files, and the code they are about:
--   Prelude, Prelude/*: shared names, Boolean tests, lists over native numbers, values or errors.
--   Value: JSON-shaped `any` values (`map[string]any`, `[]any`).
--   Workflow/Types, Workflow/Form: internal/workflow/types.go. `Step`, `Definition`, `Context`,
--     `Result` and the editable form; `validate_overrides` is ConfirmForm.ValidateOverrides.
--   Workflow/Seal: internal/workflow/execution_seal.go; `verify_digest` is verifyDigest.
--   Workflow/Batch: internal/workflow/batch_call.go.
--   Workflow/Progress, ToolStep, BatchStep, Revalidate, ConfirmStep, Run:
--     internal/workflow/engine.go, one definition for each method of Engine and each closure in it.
--     `Progress` is the state of one run: the context, its seal, the result, the emitted events and
--     the upstream calls (newest first). `Env` is what the engine is wired to: the executor, the
--     confirmation callbacks, the clock and the cancellation, over a state of their own, so that a
--     theorem for every `Env` is one for every behaviour of the user and of the cloud.
--   Workflow/Contract: internal/workflow/execution_contract.go and Check of
--     internal/security/levels.go, with its theorem.
--   Workflow/SealedCalls, Polling, Stops, Failures, Form/Validation, Batch/RoundTrip: theorems.
--   AgentRuntime: internal/agentruntime/runtime.go, the rounds of a turn. Protocol, Answers: theorems.
--   Actions/Types, Catalogs, Codecs, Judge, Resolve: internal/actionresolver, from the proposal of an
--     action to its arguments or problems; `resolve` is Resolver.Resolve. The zone catalog is that of
--     internal/deployment/zone_catalog.go. Slots, Grouping, Clean, Grounded, Supplied, Ready, OnlyValues,
--     Intake, Preview:
--     theorems.
--   Entities/Snapshot, Registry, Verify, Resolve: internal/entity, the registry of the account's
--     instances, and what is answered from it. Listing, Tracking, Verdicts, Decided, Names, Indexed,
--     Exact: theorems.
--   Display: internal/readprojection/truncate.go and internal/engine/instance_truncate.go, what is shown
--     of a long listing. Order, Top, Rows: theorems.
--   Broker: internal/httpapi/confirm_broker.go, with channels in a store. Sound, Safety, Claims, Outcome:
--     theorems.
--   AgentPool: internal/agentpool/pool.go, with entries in a store. Entries, Evictions, Leasing,
--     Leases, Capacity: theorems.
--   SafeTool, SafeTool/Types, SafeTool/Params: internal/tools/safe_executor.go, with the policy type
--     of internal/tools/policies.go. `execute_safe` is ExecuteSafe up to the raw result. Gates,
--     Attempts, Params/Filter, Params/Caps: theorems.
--   SafeTool/Policies: internal/security/levels.go and policyForAction of internal/tools/policies.go.
--     Policies/Writes: theorems.
--   SafeTool/Results: what ExecuteSafe does with a result. Results/Redaction: theorems.
--   RateLimit: internal/governance/ratelimit.go. Spending, Bounds, Daily, Retry: theorems.
--   Examples, in each component: tests and concrete inputs.
--
-- Bounds and fuel: the polling loop has `timeout / interval + 2` rounds, enough when the clock
-- advances by the interval over a wait; the confirmation loop recurs on the edits still allowed
-- (maxConfirmEdits = 3), the retry loop on the retries left, the turn on the rounds left; the
-- eviction loops have as many rounds as the map has entries.
--
-- Not modelled: the concrete workflows, the registry of tools, the deduplication of tags in a
-- result, model calls, transports, storage and rendering. The lookup of a backend zone, which a
-- few tool calls need, is a parameter of the gates, and an upstream error carries its classes.
-- Deep copies are the identity, since values are immutable here. The digest of params (JSON and
-- SHA-256) is a parameter, and so are, for the resolver and the registry, floating-point
-- numbers, functions of Go's `strings`, `unicode` and `fmt` packages, and the lookup of an
-- image. Where Go ranges over a map, the model takes the order of first insertion. Hooks of a
-- step may write the exported fields of the context but not its seal, as in Go. Error texts and
-- user sentences are kept by their format. Tokens of the limiter are exact, in billionths; times
-- are in nanoseconds; a limit that is not positive is 0; the local date is that of a fixed
-- offset. Mutexes make an operation one step.
pub mod Prelude
pub mod Value
pub mod AgentRuntime
pub mod Actions
pub mod Entities
pub mod Display
pub mod Workflow
pub mod RateLimit
pub mod Broker
pub mod AgentPool
pub mod SafeTool
