-- ===== src/Entities/Verify.antt =====
-- internal/entity/exact_target_verifier.go: whether an instance exists in the account, and the calls
-- that bring a registry to the state the answer is read from.
use compshare_agent.Prelude.{
  ℕ, String, Bool, true, false, Option, none, some, List, [], ◌∷◌, Except, if◌then◌else◌, str_eq,
}
use compshare_agent.Value.{Value, Fields, str, get_field}
use compshare_agent.Workflow.Types.{GoError}
use compshare_agent.Actions.Judge.{has_key}
use compshare_agent.Entities.Snapshot.{EntityText}
use compshare_agent.Entities.Registry.{
  RefreshReason, EntityRegistry, refresh, mark_invalidated, fresh_and_complete_at, hosts_of,
  rows_of,
}

pub data ExistenceVerdict : Type 0 where
  existence_unavailable existence_verified existence_not_found : ExistenceVerdict

-- A call of SyncFromDescribe through RefreshResult, at a time and with the executor's answer, or of
-- MarkInvalidated.
pub data RegistryCall : Type 0 where
  refreshed : RefreshReason → ℕ → Except GoError (Option Fields) → RegistryCall
  completed : String → RegistryCall

-- `m["UHostId"].(string)` is the id.
unfoldable pub is_string : String → Option Value → Bool
is_string id (some (str s)) = str_eq s id
is_string id _ = false

unfoldable pub any_has_id : String → List Fields → Bool
unfolding is_string
any_has_id id [] = false
any_has_id id (row ∷ rows) =
    if is_string id (get_field "UHostId" row) then true else any_has_id id rows

unfoldable pub rows_of_result : Option Fields → List Fields
unfolding hosts_of rows_of
rows_of_result result = elim (hosts_of result) [ none ↦ [] | some items ↦ rows_of items ]

module _ (lib : EntityText) where
  unfoldable pub describe_response_has_id : Option Fields → String → Bool
  unfolding any_has_id rows_of_result
  describe_response_has_id raw id =
      if str_eq (lib.trim_space id) "" then false else any_has_id id (rows_of_result raw)

  -- The point query and its answer.
  unfoldable pub verify_by_query :
      Option (String → Option (Option Fields)) → String → ExistenceVerdict
  unfolding describe_response_has_id
  verify_by_query none id = existence_unavailable
  verify_by_query (some describe) id = elim (describe id) [
    | none ↦ existence_unavailable
    | some raw ↦ if describe_response_has_id raw id then existence_verified else existence_not_found
  ]

  -- VerifyExactTarget on the snapshot of a registry; none is a nil `describe`.
  unfoldable pub verify_exact_target :
      EntityRegistry → String → ℕ → Option (String → Option (Option Fields)) → ExistenceVerdict
  unfolding verify_by_query fresh_and_complete_at
  verify_exact_target r id at describe =
      if str_eq (lib.trim_space id) ""
      then existence_not_found
      else (if fresh_and_complete_at r at
          then (if has_key id r.instances then existence_verified else existence_not_found)
          else verify_by_query describe id)

  unfoldable pub registry_step : (GoError → String) → RegistryCall → EntityRegistry → EntityRegistry
  unfolding refresh mark_invalidated
  registry_step class (refreshed reason now answer) r = refresh lib class reason now answer r
  registry_step class (completed action) r = (mark_invalidated action r).0

  unfoldable pub registry_steps :
      (GoError → String) → List RegistryCall → EntityRegistry → EntityRegistry
  unfolding registry_step
  registry_steps class [] r = r
  registry_steps class (call ∷ calls) r = registry_steps class calls (registry_step class call r)
