-- ===== src/SafeTool/Policies.antt =====
-- internal/security/levels.go and policyForAction of internal/tools/policies.go: the default policy of
-- an action. The lists of allowed params, which the table of policies adds, are left empty.
pub mod Writes
mod Examples
use Prim.Native.String.{len, slice}
use text.Mathlib.Text.{starts_with}
use compshare_agent.Prelude.{
  ℕ, ◌+◌, ◌-◌, ◌*◌, ◌≤◌, ◌<◌, String, Bool, true, false, ◌&&◌, ◌||◌, not, Option, none, some, List,
  [], ◌∷◌, ◌++◌, ◌≡◌, ◌↔◌, refl, arith, Except, ok, err, leb, ltb, if◌then◌else◌, str_eq, inl, inr,
  Bool-cases, Option-cases,
}
use compshare_agent.SafeTool.Types.{
  ActionRoute, external_api, knowledge, workflow, diagnosis, handoff, ActionClass, read_cheap,
  read_expensive_default, read_expensive_per_target, mutating, destructive, Level, l0, l1, l2,
  ErrorClass, network, eof, http_5xx, Policy, is_external, is_l2, is_destructive, is_mutating, Args,
  ExecutionOrigin, ToolEnv, Gate, ToolError, destructive_action, non_external_action,
}
use compshare_agent.SafeTool.Params.{contains}
use compshare_agent.SafeTool.{execute_safe, refuse, default_origin}

-- ActionLevels.
abbrev pub action_levels : List (String × Level)
action_levels =
    ("DescribeCompShareInstance", l0)
    ∷ ("DescribeCompshareDisk", l0)
    ∷ ("DescribeCompShareImages", l0)
    ∷ ("DescribeCompShareCustomImages", l0)
    ∷ ("DescribeCompShareSharingImages", l0)
    ∷ ("DescribeFavoriteImages", l0)
    ∷ ("DescribeCommunityImages", l0)
    ∷ ("DescribeCompShareSupportZone", l0)
    ∷ ("DescribeCompShareGpuInventory", l0)
    ∷ ("DescribeAvailableCompShareInstanceTypes", l0)
    ∷ ("DescribeCompShareMachineTypeFamilies", l0)
    ∷ ("CheckCompShareResourceCapacity", l0)
    ∷ ("GetCompShareInstancePrice", l0)
    ∷ ("GetCompShareInstanceUserPrice", l0)
    ∷ ("GetCompShareInstanceUpgradePrice", l0)
    ∷ ("GetCompShareAttachedDiskUpgradePrice", l0)
    ∷ ("GetCompShareRefundPrice", l0)
    ∷ ("DescribeCompShareJupyterToken", l0)
    ∷ ("DescribeCFS", l0)
    ∷ ("GetCompShareCFSPrice", l0)
    ∷ ("GetCompShareCFSUpgradePrice", l0)
    ∷ ("GetCompShareCFSRefundPrice", l0)
    ∷ ("GetCompShareAccountInfo", l0)
    ∷ ("GetCompShareInvoiceIssued", l0)
    ∷ ("GetCompShareInstanceMonitor", l0)
    ∷ ("GetCompShareImageCreateProgress", l0)
    ∷ ("DescribeCompShareCustomImageSyncDetail", l0)
    ∷ ("DescribeCompShareImageTags", l0)
    ∷ ("DescribeCompShareImageShareAccounts", l0)
    ∷ ("DescribeCompShareSoftwarePort", l0)
    ∷ ("GetSoftwareUrl", l0)
    ∷ ("CheckCompShareResizeAttachedDisk", l0)
    ∷ ("CheckCompShareNetOptimizer", l0)
    ∷ ("DescribeModelRepositoryModels", l0)
    ∷ ("DescribeModelRepositoryTags", l0)
    ∷ ("GetOpenClawModelList", l0)
    ∷ ("GetCompShareTeamInfo", l0)
    ∷ ("DescribeTeamMemberOrder", l0)
    ∷ ("DescribeTeamMemberOrderCount", l0)
    ∷ ("DescribeTeamMemberUnpaidOrder", l0)
    ∷ ("DescribeTeamMemberUnpaidOrderCount", l0)
    ∷ ("DescribeSelfCommunityImages", l0)
    ∷ ("DescribeUserCommunityImages", l0)
    ∷ ("CreateUs3StsToken", l0)
    ∷ ("DownloadTeamOrder", l0)
    ∷ ("CreateCompShareInstance", l1)
    ∷ ("StartCompShareInstance", l1)
    ∷ ("StopCompShareInstance", l1)
    ∷ ("RebootCompShareInstance", l1)
    ∷ ("ResizeCompShareInstance", l1)
    ∷ ("ModifyCompShareInstanceName", l1)
    ∷ ("SwitchChargeType", l1)
    ∷ ("UpdateCompShareInstancePorts", l1)
    ∷ ("ResetCompShareInstancePassword", l1)
    ∷ ("CreateAndAttachCompshareDisk", l1)
    ∷ ("ResizeCompShareDisk", l1)
    ∷ ("CreateCompShareCustomImage", l1)
    ∷ ("SyncCompShareCustomImage", l1)
    ∷ ("UpdateCompShareImage", l1)
    ∷ ("ModifyCompShareImageShareAccount", l1)
    ∷ ("UpdateCompShareStopScheduler", l1)
    ∷ ("DeleteCompShareStopScheduler", l1)
    ∷ ("SyncCompShareNetOptimizer", l1)
    ∷ ("CreateCFS", l1)
    ∷ ("ResizeCFS", l1)
    ∷ ("CreateCompShareTeam", l1)
    ∷ ("UpdateCompShareTeam", l1)
    ∷ ("CreateCompShareTeamRelation", l1)
    ∷ ("SetCompShareTeamRelation", l1)
    ∷ ("SetCompShareTeamAmount", l1)
    ∷ ("ReinstallCompShareInstance", l1)
    ∷ ("TerminateCompShareInstance", l2)
    ∷ ("TerminateCompShareCustomImage", l2)
    ∷ ("DeleteCompshareDisk", l2)
    ∷ ("DeleteCompShareTeam", l2)
    ∷ ("DeleteCFS", l2)
    ∷ ("DetachCFS", l2)
    ∷ []

abbrev pub read_expensive_default_actions : List String
read_expensive_default_actions =
    "DescribeCompShareInstance" ∷ "GetCompShareInstancePrice" ∷ "GetCompShareInstanceUserPrice"
    ∷ "GetCompShareRefundPrice" ∷ "DescribeCompShareJupyterToken" ∷ "DescribeCFS"
    ∷ "GetCompShareCFSPrice" ∷ "GetCompShareCFSUpgradePrice" ∷ "GetCompShareCFSRefundPrice"
    ∷ "DescribeAvailableCompShareInstanceTypes" ∷ "DescribeCompShareGpuInventory"
    ∷ "CheckCompShareResourceCapacity" ∷ "GetCompShareInvoiceIssued" ∷ []

pub find_level : String → List (String × Level) → Option Level
find_level action [] = none
find_level action ((a, l) ∷ rest) = if str_eq a action then some l else find_level action rest

-- strings.HasSuffix.
pub has_suffix : String → String → Bool
has_suffix s t = leb (len t) (len s) && str_eq (slice s (len s - len t) (len s)) t

pub inferred_registry_security_level : String → Level
inferred_registry_security_level action = if has_suffix action "Workflow" then l1 else l0

pub level_of : String → Level
level_of action = elim (find_level action action_levels) [
  | none ↦ inferred_registry_security_level action
  | some l ↦ l
]

pub route_for_action : String → ActionRoute
route_for_action action =
    if str_eq action "HandoffToCustomerSupport"
    then handoff
    else if str_eq action "SearchKnowledge" || str_eq action "ReadChunk"
    then knowledge
    else if has_suffix action "Workflow"
    then workflow
    else if starts_with action "Diagnose"
    then diagnosis
    else external_api

pub read_class : String → ActionClass
read_class action =
    if str_eq action "GetCompShareInstanceMonitor"
    then read_expensive_per_target
    else if starts_with action "Diagnose"
    then read_expensive_default
    else if contains action read_expensive_default_actions
    then read_expensive_default
    else read_cheap

pub class_for_action : String → Level → ActionClass
class_for_action action l2 = destructive
class_for_action action l1 = mutating
class_for_action action l0 = read_class action

-- The retries, the timeout and the backoff of a class.
pub with_class : ActionClass → Policy → Policy
with_class read_cheap p = record p {
  class = read_cheap;
  max_retries = 1;
  retry_on = network ∷ eof ∷ http_5xx ∷ [];
  timeout_ms = 15_000;
  backoff_base_ms = 300;
}
with_class read_expensive_default p = record p {
  class = read_expensive_default;
  max_retries = 1;
  retry_on = network ∷ eof ∷ http_5xx ∷ [];
  timeout_ms = 15_000;
  backoff_base_ms = 500;
}
with_class read_expensive_per_target p = record p {
  class = read_expensive_per_target;
  max_retries = 1;
  retry_on = network ∷ eof ∷ http_5xx ∷ [];
  timeout_ms = 30_000;
  backoff_base_ms = 500;
}
with_class mutating p = record p { class = mutating; timeout_ms = 30_000 }
with_class destructive p = record p { class = destructive; timeout_ms = 30_000 }

-- `if policy.SecurityLevel == security.L2 { ... }`.
pub with_level : Level → Policy → Policy
with_level l2 p = record p {
  class = destructive;
  max_retries = 0;
  retry_on = [];
  backoff_base_ms = 0;
}
with_level _ p = p

abbrev pub is_l1 : Level → Bool
is_l1 l1 = true
is_l1 _ = false

abbrev pub blank_policy : String → Level → Policy
blank_policy action level = record {
  action = action;
  route = route_for_action action;
  class = read_cheap;
  security_level = level;
  needs_confirm = is_l1 level;
  allowed_params = none;
  internal_allowed_params = [];
  redact_in_result = [];
  sensitive_args = [];
  history_monitor_guard = false;
  max_targets_per_call = 0;
  max_history_window_seconds = 0;
  max_retries = 0;
  retry_on = [];
  timeout_ms = 0;
  backoff_base_ms = 0;
}

pub with_sensitive_args : String → Policy → Policy
with_sensitive_args action p =
    if str_eq action "ResetCompShareInstancePassword" || str_eq action "ResetPasswordWorkflow"
    then record p { sensitive_args = p.sensitive_args ++ "Password" ∷ [] }
    else p

pub with_redaction : String → Policy → Policy
with_redaction action p =
    if str_eq action "GetCompShareInvoiceIssued"
    then record p {
      redact_in_result =
          p.redact_in_result
          ++ "InvoiceTitle" ∷ "InvoiceNo" ∷ "InvoiceCode" ∷ "ExpressNo" ∷ "ExpressAddress"
            ∷ "ExpressAddressID" ∷ "ShipBillNos" ∷ "Contract" ∷ "Verity" ∷ "Remark" ∷ "ReceiveIds"
            ∷ "ReceiveEmail" ∷ "DownloadUrl" ∷ [];
    }
    else p

pub with_monitor_caps : String → Policy → Policy
with_monitor_caps action p =
    if str_eq action "GetCompShareInstanceMonitor"
    then record p {
      history_monitor_guard = true;
      max_targets_per_call = 20;
      max_history_window_seconds = 30 * 86_400;
    }
    else p

pub with_price_caps : String → Policy → Policy
with_price_caps action p =
    if str_eq action "GetCompShareInstancePrice" || str_eq action "GetCompShareInstanceUserPrice"
    then record p { max_targets_per_call = 20 }
    else p

-- The part of policyForAction that depends on the name alone.
pub with_name : String → Policy → Policy
with_name action p =
    with_price_caps action
      (with_monitor_caps action (with_redaction action (with_sensitive_args action p)))

pub policy_at : String → Level → Policy
policy_at action level =
    with_name action
      (with_level level (with_class (class_for_action action level) (blank_policy action level)))

pub policy_for_action : String → Policy
policy_for_action action = policy_at action (level_of action)
