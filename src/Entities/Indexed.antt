-- ===== src/Entities/Indexed.antt =====
-- internal/entity/registry.go: the name index is that of the instances after any calls.
use compshare_agent.Prelude.{
  ℕ, String, Option, List, [], ◌∷◌, ◌≡◌, inl, inr, refl, Bool-cases, Option-cases, str_eq, Except,
  ok, err,
}
use compshare_agent.Value.{Fields}
use compshare_agent.Workflow.Types.{GoError}
use compshare_agent.Entities.Snapshot.{EntityText, InstanceSnapshot, instance_from_map}
use compshare_agent.Entities.Registry.{
  EntityRegistry, new_registry, put, collect, refresh, sync_from_describe, install,
  mark_invalidated, record_refresh_failure, rebuild_name_index, hosts_of, rows_of,
  invalidates_registry,
}
use compshare_agent.Entities.Verify.{
  RegistryCall, refreshed, completed, registry_step, registry_steps,
}
use compshare_agent.Entities.Names.{IsKeyed}

put-IsKeyed :
    (k : String) (inst : InstanceSnapshot) (m : List (String × InstanceSnapshot))
    → inst.u_host_id ≡ k
    → IsKeyed m
    → IsKeyed (put k inst m)
unfolding put
put-IsKeyed k inst [] h ks = (h, tt)
put-IsKeyed k inst ((j, w) ∷ m) h ks = elim (Bool-cases (str_eq j k)) [
  | inl e ↦ rw e (h, ks.1)
  | inr e ↦ rw e (ks.0, put-IsKeyed k inst m h ks.1)
]

module _ (lib : EntityText) where
  -- The name index is that of the instances, and each of them is at its own id.
  pub record IsIndexed (r : EntityRegistry) : Type 0 where
    pub index : r.name_index ≡ rebuild_name_index lib r.instances
    pub keyed : IsKeyed r.instances

  collect-IsKeyed :
      (rows : List Fields) (next : List (String × InstanceSnapshot))
      → IsKeyed next
      → IsKeyed (collect lib rows next)
  unfolding collect
  collect-IsKeyed [] next ks = ks
  collect-IsKeyed (row ∷ rows) next ks =
      let inst = instance_from_map lib row in
      elim (Bool-cases (str_eq inst.u_host_id "")) [
        | inl e ↦ rw e (collect-IsKeyed rows next ks)
        | inr e ↦
            rw e (
              collect-IsKeyed rows (put inst.u_host_id inst next) (put-IsKeyed _ inst next refl ks))
      ]

  refresh-IsIndexed :
      (class : GoError → String) (reason : _) (now : ℕ) (answer : Except GoError (Option Fields))
      (r : EntityRegistry)
      → IsIndexed r
      → IsIndexed (refresh lib class reason now answer r)
  unfolding refresh sync_from_describe install record_refresh_failure
  refresh-IsIndexed class reason now (err e) r x = record { index = x.index; keyed = x.keyed }
  refresh-IsIndexed class reason now (ok result) r x = elim (Option-cases (hosts_of result)) [
    | inl e ↦ rw (e, refresh) (record { index = x.index; keyed = x.keyed })
    | inr (items, e) ↦
        rw (e, refresh) (record { index = refl; keyed = collect-IsKeyed (rows_of items) [] tt })
  ]

  mark-IsIndexed :
      (action : String) (r : EntityRegistry) → IsIndexed r → IsIndexed (mark_invalidated action r).0
  unfolding mark_invalidated
  mark-IsIndexed action r x = elim (Bool-cases (invalidates_registry action)) [
    | inl e ↦ rw e (record { index = x.index; keyed = x.keyed })
    | inr e ↦ rw e x
  ]

  pub steps-IsIndexed :
      (class : GoError → String) (calls : List RegistryCall) (r : EntityRegistry)
      → IsIndexed r
      → IsIndexed (registry_steps lib class calls r)
  unfolding registry_steps registry_step
  steps-IsIndexed class [] r x = x
  steps-IsIndexed class (refreshed reason now answer ∷ calls) r x =
      steps-IsIndexed class calls _ (refresh-IsIndexed class reason now answer r x)
  steps-IsIndexed class (completed action ∷ calls) r x =
      steps-IsIndexed class calls _ (mark-IsIndexed action r x)

  pub new-IsIndexed : IsIndexed new_registry
  unfolding rebuild_name_index
  new-IsIndexed = record { index = refl; keyed = tt }
