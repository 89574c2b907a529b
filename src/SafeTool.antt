-- ===== src/SafeTool.antt =====
-- internal/tools/safe_executor.go and the policy type of internal/tools/policies.go: the gates that
-- a tool call passes before it is sent upstream, and the retries of the call. The inner executor,
-- the user, the lookup of a backend zone and the wait between two attempts are the surroundings
-- `ToolEnv`, over a state of their own. The log records, newest first, what was announced, asked
-- and sent. What is done with the raw result afterwards is in Results.
pub mod Types
pub mod Params
pub mod Gates
pub mod Attempts
pub mod Policies
pub mod Results
mod Examples
use compshare_agent.Prelude.{
  ℕ, zero, suc, ◌+◌, ◌-◌, ◌*◌, ◌^◌, String, Bool, true, false, ◌&&◌, ◌||◌, not, Option, none, some,
  List, [], ◌∷◌, ◌++◌, Except, ok, err, ltb, leb, ◌==◌, if◌then◌else◌, str_eq,
}
use compshare_agent.Value.{
  Value, Items, Fields, null, num, str, arr, nil, cons, end, field, get_field,
}
use compshare_agent.Workflow.Types.{GoError}
use compshare_agent.SafeTool.Types.{
  ActionRoute, external_api, knowledge, workflow, diagnosis, handoff, ActionClass, read_cheap,
  read_expensive_default, read_expensive_per_target, mutating, destructive, Level, l0, l1, l2,
  ErrorClass, network, eof, http_5xx, ExecutionOrigin, unset, direct_llm, workflow_internal,
  diagnosis_internal, Policy, CallError, ToolError, policy_missing, destructive_action,
  user_declined, mutating_action_disabled, non_external_action, tool_cap_exceeded,
  history_window_exceeded, history_without_target, zone_unresolved, call_failed, wait_cancelled,
  Args, Event, confirm_needed, before_call, sent, answered, Gate, ToolEnv, is_external, is_l2,
  is_destructive, is_mutating, class_eq, is_internal,
}
use compshare_agent.SafeTool.Params.{
  contains, append_allowed_param, append_all, allowed_params_for_origin, pick, filter_safe_args,
  items_length, value_len, is_null, count_requested_targets, max_int64, seconds_arg, window_between,
  window_of_seconds, window_of_values, requested_history_window_seconds, check_window,
  check_policy_caps,
}

-- `if req.Origin == "" { req.Origin = OriginDirectLLM }`.
pub default_origin : ExecutionOrigin → ExecutionOrigin
default_origin unset = direct_llm
default_origin o = o

pub should_confirm : Policy → ExecutionOrigin → Bool
should_confirm policy origin = policy.needs_confirm && not (is_internal origin)

pub any_class : ErrorClass → List ErrorClass → Bool
any_class have [] = false
any_class have (want ∷ ws) = if class_eq have want then true else any_class have ws

pub share_class : List ErrorClass → List ErrorClass → Bool
share_class [] wants = false
share_class (h ∷ hs) wants = if any_class h wants then true else share_class hs wants

pub should_retry : CallError → List ErrorClass → Bool
should_retry e retry_on = not e.never_retried && share_class e.classes retry_on

module _ {W : Type 0} (env : ToolEnv W) where
  abbrev pub note : Event → Gate W → Gate W
  note e p = record p { log = e ∷ p.log }

  pub send : String → Args → Gate W → Gate W × Except CallError Args
  send action args p =
      let (w, reply) = env.execute p.world action args in
      (record { world = w; log = sent action args ∷ p.log }, reply)

  -- The wait between two attempts, and the attempts after it.
  pub wait_then :
      ℕ
      → (Gate W → Gate W × Except ToolError (Args × ℕ))
      → Gate W
      → Gate W × Except ToolError (Args × ℕ)
  wait_then wait again p =
      if ltb 0 wait
      then (let (w, done) = env.wait p.world wait in
          elim done [
            | none ↦ again (record p { world = w })
            | some e ↦ (record p { world = w }, err (wait_cancelled e))
          ])
      else again p

  pub last_attempt : ℕ → Gate W × Except CallError Args → Gate W × Except ToolError (Args × ℕ)
  last_attempt attempts (q, ok raw) = (q, ok (raw, attempts))
  last_attempt attempts (q, err e) = (q, err (call_failed e.cause))

  pub after_attempt :
      ℕ
      → Policy
      → (Gate W → Gate W × Except ToolError (Args × ℕ))
      → Gate W × Except CallError Args
      → Gate W × Except ToolError (Args × ℕ)
  after_attempt attempts policy again (q, ok raw) = (q, ok (raw, attempts))
  after_attempt attempts policy again (q, err e) =
      if should_retry e policy.retry_on
      then wait_then (policy.backoff_base_ms * attempts) again q
      else (q, err (call_failed e.cause))

  -- The loop of executeWithRetry, with `left` attempts after this one.
  pub attempt_loop : ℕ → ℕ → Policy → String → Args → Gate W → Gate W × Except ToolError (Args × ℕ)
  attempt_loop zero attempts policy action args p = last_attempt attempts (send action args p)
  attempt_loop (suc left) attempts policy action args p =
      after_attempt attempts policy (attempt_loop left (suc attempts) policy action args)
        (send action args p)

  pub execute_with_retry : Policy → String → Args → Gate W → Gate W × Except ToolError (Args × ℕ)
  execute_with_retry policy action args p = attempt_loop policy.max_retries 1 policy action args p

  pub run_call : Policy → String → Args → Gate W → Gate W × Except ToolError (Args × ℕ)
  run_call policy action args p =
      execute_with_retry policy action args (note (before_call action args) p)

  -- `s.confirm != nil && s.confirm(...)`.
  pub answer : Option (W → String → Args → W × Bool) → String → Args → Gate W → Gate W × Bool
  answer none action args q = (q, false)
  answer (some confirm) action args q =
      let (w, agreed) = confirm q.world action args in
      (record { world = w; log = answered action args agreed ∷ q.log }, agreed)

  pub ask : String → Args → Gate W → Gate W × Bool
  ask action args p = answer env.confirm action args (note (confirm_needed action args) p)

  pub if_agreed : Policy → String → Args → Gate W × Bool → Gate W × Except ToolError (Args × ℕ)
  if_agreed policy action args (q, true) = run_call policy action args q
  if_agreed policy action args (q, false) = (q, err (user_declined action))

  pub confirm_then :
      Policy → ExecutionOrigin → String → Args → Gate W → Gate W × Except ToolError (Args × ℕ)
  confirm_then policy origin action args p =
      if should_confirm policy origin
      then if_agreed policy action args (ask action args p)
      else run_call policy action args p

  pub after_zone :
      Policy
      → ExecutionOrigin
      → String
      → Gate W × Except GoError Args
      → Gate W × Except ToolError (Args × ℕ)
  after_zone policy origin action (q, err e) = (q, err (zone_unresolved e))
  after_zone policy origin action (q, ok args) =
      elim (check_policy_caps env.parse_int policy args) [
        | some e ↦ (q, err e)
        | none ↦ confirm_then policy origin action args q
      ]

  pub resolve_zone : String → Args → Gate W → Gate W × Except GoError Args
  resolve_zone action args p =
      let (w, resolved) = env.resolve_backend_zone_id p.world action args in
      (record p { world = w }, resolved)

  -- The gates of ExecuteSafe on the policy.
  pub refuse : Policy → String → Option ToolError
  refuse policy action =
      if not (is_external policy.route)
      then some (non_external_action action policy.route)
      else if is_l2 policy.security_level || is_destructive policy.class
      then some (destructive_action action)
      else if not env.mutating_tools_enabled && is_mutating policy.class
      then some (mutating_action_disabled action)
      else none

  -- SafeToolExecutor.ExecuteSafe, up to the raw result and the number of attempts.
  pub execute_safe : String → Args → ExecutionOrigin → Gate W → Gate W × Except ToolError (Args × ℕ)
  execute_safe action args origin p = elim (env.policies action) [
    | none ↦ (p, err (policy_missing action))
    | some policy ↦ elim (refuse policy action) [
      | some e ↦ (p, err e)
      | none ↦ after_zone policy (default_origin origin) action (
          resolve_zone action
            (filter_safe_args args (allowed_params_for_origin policy (default_origin origin))) p)
    ]
  ]
