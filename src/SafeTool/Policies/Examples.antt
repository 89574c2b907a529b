-- ===== src/SafeTool/Policies/Examples.antt =====
-- The default policies at concrete actions.
use compshare_agent.Prelude.{ℕ, ◌+◌, true, none, some, [], ◌∷◌, ◌≡◌, refl, ok}
use compshare_agent.Value.{Fields, str, end, field}
use compshare_agent.SafeTool.Types.{l0, l1, direct_llm, workflow_internal, Gate, ToolEnv}
use compshare_agent.SafeTool.{execute_safe}
use compshare_agent.SafeTool.Attempts.{Counts}
use compshare_agent.SafeTool.Policies.{
  find_level, level_of, has_suffix, inferred_registry_security_level, policy_for_action,
}
use compshare_agent.SafeTool.Policies.Writes.{
  FitsLevel, with_params, policy_for_action-FitsLevel, write-IsSentOnce, destructive-IsRefused,
}

-- An upstream whose calls are counted by the state, under the default policies, with one param.
abbrev cloud : ToolEnv ℕ
cloud = record {
  execute = λ w action args. (w + 1, ok (some end));
  confirm = some (λ w action args. (w, true));
  resolve_backend_zone_id = λ w action args. (w, ok args);
  wait = λ w ms. (w, none);
  policies = λ action.
      some (with_params (some ("UHostId" ∷ [])) ("zone_id" ∷ []) (policy_for_action action));
  mutating_tools_enabled = true;
  parse_int = λ s. none;
}

abbrev idle : Gate ℕ
idle = record { world = 0; log = [] }

abbrev host : Fields
host = field "UHostId" (str "uhost-1") end

unlisted_workflow : level_of "CreateInstanceWorkflow" ≡ l1
unfolding level_of find_level inferred_registry_security_level has_suffix
unlisted_workflow = refl

unlisted_read : level_of "DiagnoseSshFailure" ≡ l0
unfolding level_of find_level inferred_registry_security_level has_suffix
unlisted_read = refl

policy_for_action-FitsLevel_example :
    FitsLevel (level_of "StopCompShareInstance") (policy_for_action "StopCompShareInstance")
policy_for_action-FitsLevel_example = policy_for_action-FitsLevel "StopCompShareInstance"

write-IsSentOnce_example :
    Counts 0 1 (execute_safe cloud "StopCompShareInstance" (some host) direct_llm idle)
unfolding level_of find_level
write-IsSentOnce_example =
    write-IsSentOnce cloud "StopCompShareInstance" (some ("UHostId" ∷ [])) ("zone_id" ∷ [])
      (some host) direct_llm idle refl refl

destructive-IsRefused_example :
    (execute_safe cloud "TerminateCompShareInstance" (some host) workflow_internal idle).0 ≡ idle
unfolding level_of find_level
destructive-IsRefused_example =
    destructive-IsRefused cloud "TerminateCompShareInstance" (some ("UHostId" ∷ []))
      ("zone_id" ∷ []) (some host) workflow_internal idle refl refl
