-- ===== src/Entities/Registry.antt =====
-- internal/entity/registry.go: the registry of instances. A Go map is an association list; a time
-- is in nanoseconds, and none where it is zero.
use compshare_agent.Prelude.{
  ℕ, ◌-◌, ◌*◌, String, Bool, true, false, ◌||◌, ◌&&◌, not, Option, none, some, List, [], ◌∷◌, ◌++◌,
  Except, ok, err, ltb, if◌then◌else◌, str_eq, length,
}
use compshare_agent.Prelude.Sorting.{sort_by, str_less}
use compshare_agent.Value.{Fields, Items, obj, arr, cons, nil, get_field}
use compshare_agent.SafeTool.Params.{contains}
use compshare_agent.Workflow.Types.{GoError}
use compshare_agent.Actions.Judge.{has_key}
use compshare_agent.Entities.Snapshot.{InstanceSnapshot, EntityText, int_field, instance_from_map}

abbrev pub second : ℕ
second = 1000000000

abbrev pub default_registry_freshness_ttl : ℕ
default_registry_freshness_ttl = 30 * second

abbrev pub recently_released_ttl : ℕ
recently_released_ttl = 24 * 3600 * second

pub data RefreshReason : Type 0 where
  reason_manual reason_ttl reason_warm_cache : RefreshReason

pub data SyncEvent : Type 0 where
  event_unavailable event_sync_refresh event_warm_cache event_failed : SyncEvent

abbrev pub is_failed : SyncEvent → Bool
is_failed event_failed = true
is_failed _ = false

pub record EntityRegistry : Type 0 where
  pub instances : List (String × InstanceSnapshot)
  pub name_index : List (String × List String)
  pub last_full_sync : Option ℕ
  pub last_sync_event : SyncEvent
  pub last_sync_error : String
  pub total_count : ℕ
  pub truncated : Bool
  pub recently_released : List (String × ℕ)
  pub invalidated : Bool
  pub invalidation : String

-- NewRegistry.
abbrev pub new_registry : EntityRegistry
new_registry = record {
  instances = [];
  name_index = [];
  last_full_sync = none;
  last_sync_event = event_unavailable;
  last_sync_error = "";
  total_count = 0;
  truncated = false;
  recently_released = [];
  invalidated = false;
  invalidation = "";
}

-- `m[k] = v` and `delete(m, k)`.
unfoldable pub put : {V : Type 0} → String → V → List (String × V) → List (String × V)
put k v [] = (k, v) ∷ []
put k v ((j, w) ∷ m) = if str_eq j k then (k, v) ∷ m else (j, w) ∷ put k v m

unfoldable pub remove : {V : Type 0} → String → List (String × V) → List (String × V)
remove k [] = []
remove k ((j, w) ∷ m) = let rest = remove k m in if str_eq j k then rest else (j, w) ∷ rest

abbrev pub keys : {V : Type 0} → List (String × V) → List String
keys [] = []
keys ((k, v) ∷ m) = k ∷ keys m

-- `m[k] = append(m[k], id)`.
unfoldable pub append_at :
    String → String → List (String × List String) → List (String × List String)
append_at k id [] = (k, id ∷ []) ∷ []
append_at k id ((j, ids) ∷ m) =
    let later = append_at k id m in if str_eq j k then (j, ids ++ id ∷ []) ∷ m else (j, ids) ∷ later

unfoldable pub sort_each : List (String × List String) → List (String × List String)
sort_each [] = []
sort_each ((k, ids) ∷ m) = (k, sort_by str_less ids) ∷ sort_each m

-- The rows of a listing that are objects.
unfoldable pub rows_of : Items → List Fields
rows_of nil = []
rows_of (cons (obj row) items) = row ∷ rows_of items
rows_of (cons _ items) = rows_of items

-- The ids of `old` that `next` has no more are released now.
unfoldable pub release :
    ℕ
    → List (String × InstanceSnapshot)
    → List (String × InstanceSnapshot)
    → List (String × ℕ)
    → List (String × ℕ)
unfolding put
release now [] next released = released
release now ((id, inst) ∷ old) next released =
    release now old next (if has_key id next then released else put id now released)

unfoldable pub remove_all : List String → List (String × ℕ) → List (String × ℕ)
unfolding remove
remove_all [] m = m
remove_all (k ∷ ks) m = remove_all ks (remove k m)

unfoldable pub prune_recently_released : ℕ → List (String × ℕ) → List (String × ℕ)
prune_recently_released now [] = []
prune_recently_released now ((id, at) ∷ m) =
    let rest = prune_recently_released now m in
    if ltb recently_released_ttl (now - at) then rest else (id, at) ∷ rest

-- `result["UHostSet"].([]any)`.
unfoldable pub hosts_of : Option Fields → Option Items
hosts_of none = none
hosts_of (some result) = elim (get_field "UHostSet" result) [
  | none ↦ none
  | some v ↦ elim v [ arr items ↦ some items | _ ↦ none ]
]

-- recordRefreshFailure, with the class of the error.
unfoldable pub record_refresh_failure : String → EntityRegistry → EntityRegistry
record_refresh_failure class r = record r {
  last_sync_event = event_failed;
  last_sync_error = class;
}

unfoldable pub sync_event_for_reason : RefreshReason → SyncEvent
sync_event_for_reason reason_warm_cache = event_warm_cache
sync_event_for_reason _ = event_sync_refresh

abbrev pub invalidating_actions : List String
invalidating_actions =
    "CreateCompShareInstance" ∷ "CreateInstanceWorkflow" ∷ "StartCompShareInstance"
    ∷ "StopCompShareInstance" ∷ "RebootCompShareInstance" ∷ "StartInstanceWorkflow"
    ∷ "StopInstanceWorkflow" ∷ "RebootInstanceWorkflow" ∷ "ModifyCompShareInstanceName"
    ∷ "RenameInstanceWorkflow" ∷ "UpdateCompShareStopScheduler" ∷ "DeleteCompShareStopScheduler"
    ∷ "SetStopSchedulerWorkflow" ∷ "CancelStopSchedulerWorkflow" ∷ "ResizeInstanceWorkflow"
    ∷ "ReinstallInstanceWorkflow" ∷ "SwitchChargeType" ∷ "SwitchChargeTypeWorkflow" ∷ []

unfoldable pub invalidates_registry : String → Bool
unfolding contains
invalidates_registry action = contains action invalidating_actions

unfoldable pub mark_invalidated : String → EntityRegistry → EntityRegistry × Bool
unfolding invalidates_registry
mark_invalidated action r =
    if invalidates_registry action
    then (record r { invalidated = true; invalidation = action }, true)
    else (r, false)

-- needsRefresh.
unfoldable pub needs_refresh : Option ℕ → SyncEvent → Bool → ℕ → Bool
needs_refresh none event invalidated at = true
needs_refresh (some last) event invalidated at =
    invalidated || is_failed event || ltb default_registry_freshness_ttl (at - last)

-- FreshAndCompleteAt of a snapshot of the registry.
unfoldable pub fresh_and_complete_at : EntityRegistry → ℕ → Bool
unfolding needs_refresh
fresh_and_complete_at r at =
    not (needs_refresh r.last_full_sync r.last_sync_event r.invalidated at) && not r.truncated

module _ (lib : EntityText) where
  unfoldable pub normalize_name : String → String
  normalize_name s = lib.letters_and_digits (lib.to_lower (lib.trim_space s))

  -- The loop of rebuildNameIndexLocked.
  unfoldable pub index_names :
      List (String × InstanceSnapshot) → List (String × List String) → List (String × List String)
  unfolding append_at
  index_names [] index = index
  index_names ((id, inst) ∷ rest) index =
      let key = normalize_name inst.name in
      index_names rest (if str_eq key "" then index else append_at key id index)

  unfoldable pub rebuild_name_index : List (String × InstanceSnapshot) → List (String × List String)
  unfolding index_names sort_each
  rebuild_name_index instances = sort_each (index_names instances [])

  -- The loop that fills `next`.
  unfoldable pub collect :
      List Fields → List (String × InstanceSnapshot) → List (String × InstanceSnapshot)
  unfolding put instance_from_map
  collect [] next = next
  collect (row ∷ rows) next =
      let inst = instance_from_map lib row in
      collect rows (if str_eq inst.u_host_id "" then next else put inst.u_host_id inst next)

  unfoldable pub total_of : Option Fields → ℕ
  unfolding int_field
  total_of none = 0
  total_of (some result) = int_field lib result "TotalCount"

  -- SyncFromDescribe after the rows have been read.
  unfoldable pub install :
      ℕ → SyncEvent → ℕ → List (String × InstanceSnapshot) → EntityRegistry → EntityRegistry
  unfolding rebuild_name_index release remove_all prune_recently_released
  install now event total next r = record {
    instances = next;
    name_index = rebuild_name_index next;
    last_full_sync = some now;
    last_sync_event = event;
    last_sync_error = "";
    total_count = total;
    truncated = ltb (length next) total;
    recently_released =
        prune_recently_released now
          (remove_all (keys next) (release now r.instances next r.recently_released));
    invalidated = false;
    invalidation = "";
  }

  -- SyncFromDescribe; none is its error, that the listing has no hosts.
  unfoldable pub sync_from_describe :
      ℕ → Option Fields → SyncEvent → EntityRegistry → Option EntityRegistry
  unfolding hosts_of total_of rows_of collect install
  sync_from_describe now result event r = elim (hosts_of result) [
    | none ↦ none
    | some items ↦ some (install now event (total_of result) (collect (rows_of items) []) r)
  ]

  -- RefreshResult at the time `now`, by what the executor answered. `class` is refreshErrorClass.
  unfoldable pub refresh :
      (GoError → String)
      → RefreshReason
      → ℕ
      → Except GoError (Option Fields)
      → EntityRegistry
      → EntityRegistry
  unfolding sync_from_describe record_refresh_failure sync_event_for_reason
  refresh class reason now (err e) r = record_refresh_failure (class e) r
  refresh class reason now (ok result) r =
      elim (sync_from_describe now result (sync_event_for_reason reason) r) [
        | none ↦ record_refresh_failure "parse_error" r
        | some next ↦ next
      ]
