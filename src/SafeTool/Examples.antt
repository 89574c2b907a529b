-- ===== src/SafeTool/Examples.antt =====
-- Runs of the tool gates at concrete inputs.
use compshare_agent.Prelude.{
  ℕ, ◌+◌, true, false, none, some, [], ◌∷◌, refl, ok, err, str_eq, if◌then◌else◌,
}
use compshare_agent.Value.{Fields, str, num, arr, nil, cons, end, field}
use compshare_agent.SafeTool.Types.{
  Policy, direct_llm, external_api, read_expensive_per_target, mutating, l0, l1, network, Gate,
  ToolEnv,
}
use compshare_agent.SafeTool.{execute_safe}
use compshare_agent.SafeTool.Gates.{IsGuarded, execute_safe-IsGuarded}
use compshare_agent.SafeTool.Attempts.{Counts, execute_safe-Counts}

abbrev monitor_policy : Policy
monitor_policy = record {
  action = "GetCompShareInstanceMonitor";
  route = external_api;
  class = read_expensive_per_target;
  security_level = l0;
  needs_confirm = false;
  allowed_params = some ("UHostIds" ∷ "StartTime" ∷ "EndTime" ∷ []);
  internal_allowed_params = [];
  redact_in_result = [];
  sensitive_args = [];
  history_monitor_guard = true;
  max_targets_per_call = 20;
  max_history_window_seconds = 2_592_000;
  max_retries = 1;
  retry_on = network ∷ [];
  timeout_ms = 30_000;
  backoff_base_ms = 500;
}

abbrev stop_policy : Policy
stop_policy = record monitor_policy {
  action = "StopCompShareInstance";
  history_monitor_guard = false;
  class = mutating;
  security_level = l1;
  needs_confirm = true;
  allowed_params = some ("UHostId" ∷ "Zone" ∷ []);
  internal_allowed_params = "zone_id" ∷ [];
  max_history_window_seconds = 0;
  max_retries = 0;
  backoff_base_ms = 0;
}

-- An upstream that fails its first call, counted by the state; the user agrees.
abbrev flaky : ToolEnv ℕ
flaky = record {
  execute = λ w action args. (
    w + 1,
    if str_eq action "GetCompShareInstanceMonitor"
        then err (record {
          cause = record { text = "connection reset"; missing = none };
          never_retried = false;
          classes = network ∷ [];
        })
        else ok (some end),
  );
  confirm = some (λ w action args. (w, true));
  resolve_backend_zone_id = λ w action args. (w, ok args);
  wait = λ w ms. (w, none);
  policies = λ action.
      if str_eq action "GetCompShareInstanceMonitor"
      then some monitor_policy
      else if str_eq action "StopCompShareInstance"
      then some stop_policy
      else none;
  mutating_tools_enabled = true;
  parse_int = λ s. none;
}

abbrev idle : Gate ℕ
idle = record { world = 0; log = [] }

abbrev last_hour : Fields
last_hour =
    field "UHostIds" (arr (cons (str "uhost-1") nil))
      (field "StartTime" (num 1_000) (field "EndTime" (num 4_600) end))

execute_safe-IsGuarded_example :
    IsGuarded flaky direct_llm
      (execute_safe flaky "StopCompShareInstance"
        (some (field "UHostId" (str "uhost-1") end))
        direct_llm
        idle).0.log
execute_safe-IsGuarded_example =
    execute_safe-IsGuarded flaky direct_llm "StopCompShareInstance"
      (some (field "UHostId" (str "uhost-1") end)) idle tt

execute_safe-Counts_example :
    Counts 0 2 (execute_safe flaky "GetCompShareInstanceMonitor" (some last_hour) direct_llm idle)
execute_safe-Counts_example =
    execute_safe-Counts flaky "GetCompShareInstanceMonitor" (some last_hour) direct_llm idle
      monitor_policy refl
