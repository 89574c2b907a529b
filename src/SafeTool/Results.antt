-- ===== src/SafeTool/Results.antt =====
-- internal/tools/safe_executor.go: what is done with the result of a call before the model sees it.
-- The tags of the model repository, which two actions deduplicate, are left out.
pub mod Redaction
mod Examples
use compshare_agent.Prelude.{
  String, Bool, true, false, ◌&&◌, ◌||◌, not, Option, none, some, List, [], ◌∷◌, if◌then◌else◌,
  str_eq,
}
use compshare_agent.Value.{
  Value, Items, Fields, null, str, arr, obj, nil, cons, end, field, get_field,
}
use compshare_agent.SafeTool.Types.{Policy, Args}
use compshare_agent.SafeTool.Params.{is_null}

abbrev pub redacted : String
redacted = "[REDACTED]"

-- redactFieldByName: in the map, in the maps in it, and in the maps that are items of lists.
mutual
  pub redact_fields : String → Fields → Fields
  redact_fields f end = end
  redact_fields f (field k v m) =
      let rest = redact_fields f m in
      let inner = redact_value f v in
      if str_eq k f then field k (str redacted) rest else field k inner rest

  pub redact_value : String → Value → Value
  redact_value f (obj m) = obj (redact_fields f m)
  redact_value f (arr xs) = arr (redact_items f xs)
  redact_value f v = v

  pub redact_items : String → Items → Items
  redact_items f nil = nil
  redact_items f (cons (obj m) rest) = cons (obj (redact_fields f m)) (redact_items f rest)
  redact_items f (cons v rest) = cons v (redact_items f rest)

-- The loop of modelResult.
pub redact_all : List String → Fields → Fields
redact_all [] m = m
redact_all (f ∷ fs) m = redact_all fs (redact_fields f m)

pub model_result : Policy → Option Fields → Option Fields
model_result policy none = none
model_result policy (some m) = some (redact_all policy.redact_in_result m)

-- monitorResultHasSamples.
mutual
  pub has_samples : Value → Bool
  has_samples (obj m) = fields_have_samples m
  has_samples (arr xs) = items_have_samples xs
  has_samples v = false

  pub fields_have_samples : Fields → Bool
  fields_have_samples end = false
  fields_have_samples (field k v m) =
      (str_eq k "Value" && not (is_null v)) || has_samples v || fields_have_samples m

  pub items_have_samples : Items → Bool
  items_have_samples nil = false
  items_have_samples (cons v rest) = has_samples v || items_have_samples rest

abbrev pub is_present {ℓ} : {A : Type ℓ} → Option A → Bool
is_present none = false
is_present (some a) = true

pub has_monitor_time_range_args : Args → Bool
has_monitor_time_range_args none = false
has_monitor_time_range_args (some m) =
    is_present (get_field "StartTime" m) || is_present (get_field "EndTime" m)

-- `m[key] = v`.
pub put_field : String → Value → Fields → Fields
put_field k v end = field k v end
put_field k v (field j w m) =
    let rest = put_field k v m in if str_eq j k then field k v m else field j w rest

abbrev pub no_data_guidance : String
no_data_guidance = "该请求时间窗没有返回有效监控采样点；不要使用当前实时数据替代，也不要编造 CPU/内存/GPU 数值。"

pub apply_history_guard : Policy → Args → Option Fields → Option Fields
apply_history_guard policy args none = none
apply_history_guard policy args (some raw) =
    if not policy.history_monitor_guard || not (has_monitor_time_range_args args)
    then some raw
    else if fields_have_samples raw
    then some raw
    else some (
        put_field "MonitorDataGuidance" (str no_data_guidance)
          (put_field "MonitorDataStatus" (str "NO_DATA_IN_REQUESTED_WINDOW") raw))
