-- ===== src/SafeTool/Types.antt =====
-- The policy of a tool (internal/tools/policies.go), the errors and the surroundings of the executor
-- (internal/tools/safe_executor.go).
use compshare_agent.Prelude.{ℕ, String, Bool, true, false, Option, List, Except}
use compshare_agent.Value.{Fields}
use compshare_agent.Workflow.Types.{GoError}

pub data ActionRoute : Type 0 where
  external_api knowledge workflow diagnosis handoff : ActionRoute

pub data ActionClass : Type 0 where
  read_cheap read_expensive_default read_expensive_per_target mutating destructive : ActionClass

pub data Level : Type 0 where
  l0 l1 l2 : Level

pub data ErrorClass : Type 0 where
  network eof http_5xx : ErrorClass

-- `unset` is the zero value.
pub data ExecutionOrigin : Type 0 where
  unset direct_llm workflow_internal diagnosis_internal : ExecutionOrigin

-- A nil list of allowed params allows every one. A number that is not positive is 0.
pub record Policy : Type 0 where
  pub action : String
  pub route : ActionRoute
  pub class : ActionClass
  pub security_level : Level
  pub needs_confirm : Bool
  pub allowed_params : Option (List String)
  pub internal_allowed_params : List String
  pub redact_in_result : List String
  pub sensitive_args : List String
  pub history_monitor_guard : Bool
  pub max_targets_per_call : ℕ
  pub max_history_window_seconds : ℕ
  pub max_retries : ℕ
  pub retry_on : List ErrorClass
  pub timeout_ms : ℕ
  pub backoff_base_ms : ℕ

-- An error of the inner executor, with what shouldRetry reads from it: whether it is one of the
-- errors that are never retried, and its classes (classifyError).
pub record CallError : Type 0 where
  pub cause : GoError
  pub never_retried : Bool
  pub classes : List ErrorClass

pub data ToolError : Type 0 where
  policy_missing destructive_action user_declined mutating_action_disabled : String → ToolError
  non_external_action : String → ActionRoute → ToolError
  tool_cap_exceeded history_window_exceeded : ℕ → ℕ → ToolError
  history_without_target : ToolError
  zone_unresolved call_failed wait_cancelled : GoError → ToolError

abbrev pub Args : Type 0
Args = Option Fields

pub data Event : Type 0 where
  confirm_needed before_call sent : String → Args → Event
  answered : String → Args → Bool → Event

pub record Gate (W : Type 0) : Type 0 where
  pub world : W
  pub log : List Event

pub record ToolEnv (W : Type 0) : Type 0 where
  pub execute : W → String → Args → W × Except CallError Args
  pub confirm : Option (W → String → Args → W × Bool)
  pub resolve_backend_zone_id : W → String → Args → W × Except GoError Args
  pub wait : W → ℕ → W × Option GoError
  pub policies : String → Option Policy
  pub mutating_tools_enabled : Bool
  -- strings.TrimSpace and strconv.ParseInt(·, 10, 64): none on an error
  pub parse_int : String → Option (Option ℕ)

abbrev pub is_external : ActionRoute → Bool
is_external external_api = true
is_external _ = false

abbrev pub is_l2 : Level → Bool
is_l2 l2 = true
is_l2 _ = false

abbrev pub is_destructive : ActionClass → Bool
is_destructive destructive = true
is_destructive _ = false

abbrev pub is_mutating : ActionClass → Bool
is_mutating mutating = true
is_mutating _ = false

abbrev pub class_eq : ErrorClass → ErrorClass → Bool
class_eq network network = true
class_eq eof eof = true
class_eq http_5xx http_5xx = true
class_eq _ _ = false

abbrev pub is_internal : ExecutionOrigin → Bool
is_internal workflow_internal = true
is_internal diagnosis_internal = true
is_internal _ = false
