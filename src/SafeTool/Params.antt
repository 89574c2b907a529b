-- ===== src/SafeTool/Params.antt =====
-- internal/tools/safe_executor.go: the params of a call that are kept, and their caps.
pub mod Filter
pub mod Caps
mod Examples
use compshare_agent.Prelude.{
  ℕ, zero, suc, ◌+◌, ◌-◌, ◌*◌, ◌^◌, String, Bool, true, false, ◌&&◌, ◌||◌, not, Option, none, some,
  List, [], ◌∷◌, ◌++◌, Except, ok, err, ltb, leb, ◌==◌, if◌then◌else◌, str_eq,
}
use compshare_agent.Value.{
  Value, Items, Fields, null, num, str, arr, nil, cons, end, field, get_field,
}
use compshare_agent.Workflow.Types.{GoError}
use compshare_agent.SafeTool.Types.{
  ActionRoute, external_api, knowledge, workflow, diagnosis, handoff, ActionClass, read_cheap,
  read_expensive_default, read_expensive_per_target, mutating, destructive, Level, l0, l1, l2,
  ErrorClass, network, eof, http_5xx, ExecutionOrigin, unset, direct_llm, workflow_internal,
  diagnosis_internal, Policy, CallError, ToolError, policy_missing, destructive_action,
  user_declined, mutating_action_disabled, non_external_action, tool_cap_exceeded,
  history_window_exceeded, history_without_target, zone_unresolved, call_failed, wait_cancelled,
  Args, Event, confirm_needed, before_call, sent, answered, Gate, ToolEnv, is_external, is_l2,
  is_destructive, is_mutating, class_eq, is_internal,
}

unfoldable pub contains : String → List String → Bool
contains k [] = false
contains k (j ∷ js) = if str_eq j k then true else contains k js

pub append_allowed_param : List String → String → List String
append_allowed_param params k = if contains k params then params else params ++ k ∷ []

pub append_all : List String → List String → List String
append_all params [] = params
append_all params (k ∷ ks) = append_all (append_allowed_param params k) ks

-- A nil AllowedParams with internal ones becomes the list of the internal ones.
pub allowed_params_for_origin : Policy → ExecutionOrigin → Option (List String)
allowed_params_for_origin policy origin =
    if is_internal origin
    then elim policy.internal_allowed_params [
      | [] ↦ policy.allowed_params
      | k ∷ ks ↦ some (append_all (elim policy.allowed_params [ none ↦ [] | some a ↦ a ]) (k ∷ ks))
    ]
    else policy.allowed_params

-- The loop of filterSafeArgs.
pub pick : List String → Fields → Fields
pick [] m = end
pick (k ∷ ks) m =
    let rest = pick ks m in elim (get_field k m) [ none ↦ rest | some v ↦ field k v rest ]

pub filter_safe_args : Args → Option (List String) → Args
filter_safe_args none allowed = none
filter_safe_args (some m) none = some m
filter_safe_args (some m) (some allowed) = some (pick allowed m)

pub items_length : Items → ℕ
items_length nil = 0
items_length (cons v rest) = suc (items_length rest)

pub value_len : Value → ℕ
value_len (arr xs) = items_length xs
value_len _ = 0

abbrev pub is_null : Value → Bool
is_null null = true
is_null _ = false

pub count_requested_targets : Args → ℕ
count_requested_targets none = 0
count_requested_targets (some m) = elim (get_field "UHostIds" m) [
  | some ids ↦ value_len ids
  | none ↦ elim (get_field "UHostId" m) [ none ↦ 0 | some id ↦ if is_null id then 0 else 1 ]
]

abbrev pub max_int64 : ℕ
max_int64 = 9_223_372_036_854_775_807

-- secondsArg: none where the value is no integer of 64 bits, `some none` a negative one.
pub seconds_arg : (String → Option (Option ℕ)) → Value → Option (Option ℕ)
seconds_arg parse (num n) = if leb n max_int64 then some (some n) else none
seconds_arg parse (str s) = parse s
seconds_arg parse _ = none

-- The tests of requestedHistoryWindowSeconds on the two times.
pub window_between : ℕ → ℕ → ℕ
window_between start finish =
    if leb finish start
    then max_int64
    else if ltb (max_int64 - start) finish
    then max_int64
    else finish - start

pub window_of_seconds : Option (Option ℕ) → Option (Option ℕ) → ℕ
window_of_seconds (some (some start)) (some (some finish)) = window_between start finish
window_of_seconds _ _ = max_int64

-- requestedHistoryWindowSeconds, on the two arguments where they are present.
pub window_of_values : (String → Option (Option ℕ)) → Option Value → Option Value → Option ℕ
window_of_values parse none none = none
window_of_values parse (some s) (some e) =
    some (window_of_seconds (seconds_arg parse s) (seconds_arg parse e))
window_of_values parse _ _ = some max_int64

pub requested_history_window_seconds : (String → Option (Option ℕ)) → Args → Option ℕ
requested_history_window_seconds parse none = none
requested_history_window_seconds parse (some m) =
    window_of_values parse (get_field "StartTime" m) (get_field "EndTime" m)

pub check_window : ℕ → ℕ → Option ℕ → Option ToolError
check_window limit targets none = none
check_window limit targets (some window) =
    if ltb targets 1
    then some history_without_target
    else if ltb limit window
    then some (history_window_exceeded window limit)
    else none

pub check_policy_caps : (String → Option (Option ℕ)) → Policy → Args → Option ToolError
check_policy_caps parse policy args =
    let targets = count_requested_targets args in
    let window =
      check_window policy.max_history_window_seconds targets
        (requested_history_window_seconds parse args) in
    if ltb 0 policy.max_targets_per_call && ltb policy.max_targets_per_call targets
    then some (tool_cap_exceeded targets policy.max_targets_per_call)
    else if ltb 0 policy.max_history_window_seconds
    then window
    else none
