-- ===== src/SafeTool/Params/Examples.antt =====
-- The params of tool calls at concrete inputs.
use compshare_agent.Prelude.{
  ◌≤◌, ◌<◌, true, false, none, some, [], ◌∷◌, ◌≡◌, ◌↔◌, arith, if◌then◌else◌,
}
use compshare_agent.Value.{Fields, str, num, arr, nil, cons, end, field, get_field}
use compshare_agent.SafeTool.Types.{external_api, read_expensive_per_target, l0, network, Policy}
use compshare_agent.SafeTool.Params.{contains, pick, check_policy_caps, count_requested_targets}
use compshare_agent.SafeTool.Params.Filter.{get_field-pick}
use compshare_agent.SafeTool.Params.Caps.{IsHistoryWithin, check_policy_caps_iff}

abbrev monitor_policy : Policy
monitor_policy = record {
  action = "GetCompShareInstanceMonitor";
  route = external_api;
  class = read_expensive_per_target;
  security_level = l0;
  needs_confirm = false;
  allowed_params = some ("UHostIds" ∷ "StartTime" ∷ "EndTime" ∷ []);
  internal_allowed_params = [];
  redact_in_result = [];
  sensitive_args = [];
  history_monitor_guard = true;
  max_targets_per_call = 20;
  max_history_window_seconds = 2_592_000;
  max_retries = 1;
  retry_on = network ∷ [];
  timeout_ms = 30_000;
  backoff_base_ms = 500;
}

abbrev last_hour : Fields
last_hour =
    field "UHostIds" (arr (cons (str "uhost-1") nil))
      (field "StartTime" (num 1_000) (field "EndTime" (num 4_600) end))

get_field-pick_example : get_field "EndTime" (pick ("UHostIds" ∷ "StartTime" ∷ []) last_hour) ≡ (
    if contains "EndTime" ("UHostIds" ∷ "StartTime" ∷ [])
    then get_field "EndTime" last_hour
    else none)
get_field-pick_example = get_field-pick "EndTime" ("UHostIds" ∷ "StartTime" ∷ []) last_hour

check_policy_caps_iff_example :
    (check_policy_caps (λ s. none) monitor_policy (some last_hour) ≡ none) ↔ (
      (0 < 20 → count_requested_targets (some last_hour) ≤ 20)
      × (0 < 2_592_000
          → IsHistoryWithin
              (λ s. none)
              2_592_000
              (count_requested_targets (some last_hour))
              (get_field "StartTime" last_hour)
              (get_field "EndTime" last_hour)))
check_policy_caps_iff_example =
    check_policy_caps_iff (λ s. none) monitor_policy last_hour (omega arith)
