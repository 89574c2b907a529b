-- ===== src/Entities/Decided.antt =====
-- internal/entity/exact_target_verifier.go: when the verdict is read from the registry.
use compshare_agent.Prelude.{
  ℕ, ◌-◌, ◌≤◌, String, true, false, Option, some, List, [], ◌∷◌, ◌++◌, ◌≡◌, ◌≢◌, ◌↔◌, refl, sym,
  ◌∙◌, ap, inl, inr, arith, Bool-cases, str_eq, ltb, if◌then◌else◌, length, ok, All, Has, unsaid,
}
use compshare_agent.Prelude.TextOrder.{unequal}
use compshare_agent.Value.{Fields, Items}
use compshare_agent.Workflow.Types.{GoError}
use compshare_agent.Actions.Judge.{has_key}
use compshare_agent.Entities.Snapshot.{EntityText, InstanceSnapshot}
use compshare_agent.Entities.Registry.{
  EntityRegistry, RefreshReason, SyncEvent, reason_manual, reason_ttl, reason_warm_cache,
  new_registry, refresh, sync_from_describe, install, mark_invalidated, invalidates_registry,
  sync_event_for_reason, fresh_and_complete_at, needs_refresh, hosts_of, total_of, collect,
  is_failed, default_registry_freshness_ttl,
}
use compshare_agent.Entities.Verify.{
  RegistryCall, refreshed, completed, ExistenceVerdict, existence_verified, existence_not_found,
  registry_step, registry_steps, verify_exact_target, rows_of_result,
}
use compshare_agent.Entities.Listing.{Names, has_key-collect_iff}
use compshare_agent.Entities.Tracking.{IsHarmless, CurrentListing, rows_of_result_lem}

sync_event-not_failed : (reason : RefreshReason) → is_failed (sync_event_for_reason reason) ≡ false
unfolding sync_event_for_reason
sync_event-not_failed reason_manual = refl
sync_event-not_failed reason_ttl = refl
sync_event-not_failed reason_warm_cache = refl

not_above : (m n : ℕ) → n ≤ m → ltb m n ≡ false
not_above m n h = ground (arith, h)

mark_invalidated-harmless :
    (action : String) (r : EntityRegistry)
    → invalidates_registry action ≡ false
    → (mark_invalidated action r).0 ≡ r
unfolding mark_invalidated
mark_invalidated-harmless action r e = rw e refl

instances-install :
    (lib : EntityText) (now : ℕ) (event : SyncEvent) (total : ℕ)
    (next : List (String × InstanceSnapshot)) (r : EntityRegistry)
    → (install lib now event total next r).instances ≡ next
unfolding install
instances-install lib now event total next r = refl

module _ (lib : EntityText) (class : GoError → String) where
  registry_steps-append :
      (before calls : List RegistryCall) (r : EntityRegistry)
      → registry_steps lib class (before ++ calls) r
        ≡ registry_steps lib class calls (registry_steps lib class before r)
  unfolding registry_steps
  registry_steps-append [] calls r = refl
  registry_steps-append (call ∷ before) calls r =
      registry_steps-append before calls (registry_step lib class call r)

  registry_steps-harmless :
      (calls : List RegistryCall) (r : EntityRegistry)
      → All IsHarmless calls
      → registry_steps lib class calls r ≡ r
  unfolding registry_steps registry_step
  registry_steps-harmless [] r h = refl
  registry_steps-harmless (refreshed reason now answer ∷ calls) r h = absurd h.0
  registry_steps-harmless (completed action ∷ calls) r h =
      ap (registry_steps lib class calls) (mark_invalidated-harmless action r h.0)
      ∙ registry_steps-harmless calls r h.1

  refresh-listed :
      (reason : RefreshReason) (now : ℕ) (result : Option Fields) (items : Items)
      (r : EntityRegistry)
      → hosts_of result ≡ some items
      → refresh lib class reason now (ok result) r
        ≡ install lib now
            (sync_event_for_reason reason)
            (total_of lib result)
            (collect lib (rows_of_result result) [])
            r
  unfolding refresh sync_from_describe
  refresh-listed reason now result items r e =
      rw (e, refresh)
        (ap
          (λ rows.
            install lib now (sync_event_for_reason reason) (total_of lib result)
              (collect lib rows []) r)
          (sym (rows_of_result_lem result items e)))

  registry_steps-listed :
      (reason : RefreshReason) (now : ℕ) (result : Option Fields) (later : List RegistryCall)
      (r : EntityRegistry)
      → All IsHarmless later
      → registry_steps lib class (refreshed reason now (ok result) ∷ later) r
        ≡ refresh lib class reason now (ok result) r
  unfolding registry_steps registry_step
  registry_steps-listed reason now result later r h =
      registry_steps-harmless later (refresh lib class reason now (ok result) r) h

  -- The registry after a current listing.
  listed_registry :
      (calls : List RegistryCall) (at : ℕ) (l : CurrentListing lib calls at)
      → (r : EntityRegistry) × (registry_steps lib class calls new_registry
          ≡ install lib l.now
              (sync_event_for_reason l.listing.reason)
              (total_of lib l.result)
              (collect lib (rows_of_result l.result) [])
              r)
  listed_registry calls at l =
      let given = l.listing in
      let r = registry_steps lib class given.before new_registry in
      (
        r,
        ap (λ cs. registry_steps lib class cs new_registry) given.split
            ∙ registry_steps-append given.before
                (refreshed given.reason l.now (ok l.result) ∷ given.later) new_registry
            ∙ registry_steps-listed given.reason l.now l.result given.later r given.is_harmless
            ∙ refresh-listed given.reason l.now l.result l.items r l.readable,
      )

  install-IsFresh :
      (now at total : ℕ) (reason : RefreshReason) (next : List (String × InstanceSnapshot))
      (r : EntityRegistry)
      → at - now ≤ default_registry_freshness_ttl
      → total ≤ length next
      → fresh_and_complete_at (install lib now (sync_event_for_reason reason) total next r) at
        ≡ true
  unfolding install fresh_and_complete_at needs_refresh
  install-IsFresh now at total reason next r recent whole =
      rw (sync_event-not_failed reason, not_above _ _ recent, not_above _ _ whole) refl

  verdict_of_listing :
      (calls : List RegistryCall) (id : String) (at : ℕ) (l : CurrentListing lib calls at)
      (describe : Option (String → Option (Option Fields)))
      → str_eq (lib.trim_space id) "" ≡ false
      → verify_exact_target lib (registry_steps lib class calls new_registry) id at describe ≡ (
          if has_key id (collect lib (rows_of_result l.result) [])
          then existence_verified
          else existence_not_found)
  unfolding verify_exact_target
  verdict_of_listing calls id at l describe e =
      let (r, same) = listed_registry calls at l in
      let fresh =
        install-IsFresh l.now at (total_of lib l.result) l.listing.reason
          (collect lib (rows_of_result l.result) []) r l.is_fresh l.is_complete in
      ap (λ s. verify_exact_target lib s id at describe) same
      ∙ rw (e, fresh)
          (ap (λ is. if has_key id is then existence_verified else existence_not_found)
            (instances-install lib l.now (sync_event_for_reason l.listing.reason)
              (total_of lib l.result) (collect lib (rows_of_result l.result) []) r))

-- The verdict is whether a row of the listing has the id.
abbrev pub IsDecided : EntityText → String → List Fields → ExistenceVerdict → Type 0
IsDecided lib id rows verdict =
    ((verdict ≡ existence_verified) ↔ Has (Names lib id) rows)
    × ((verdict ≡ existence_not_found) ↔ ¬ Has (Names lib id) rows)

IsDecided-has_key :
    (lib : EntityText) (id : String) (rows : List Fields)
    → IsDecided lib id rows
        (if has_key id (collect lib rows []) then existence_verified else existence_not_found)
IsDecided-has_key lib id rows =
    let (forth, back) = has_key-collect_iff lib id rows in
    elim (Bool-cases (has_key id (collect lib rows []))) [
      | inl e ↦ rw e ((λ h. forth e, λ h. refl), (λ h. cc, λ h. absurd (h (forth e))))
      | inr e ↦
          rw e ((λ h. cc, λ h. unsaid e (back h)), (λ h found. unsaid e (back found), λ h. refl))
    ]

-- While a listing is current, VerifyExactTarget says of an id that is not blank that it exists exactly
-- when a row of the listing has it, and that it does not exactly when none has, whatever the point
-- query would answer. A listing is current if it is complete and at most 30 seconds old, no refresh
-- came after it, and no action that changes an instance.
pub verify-IsDecided :
    (lib : EntityText) (class : GoError → String) (calls : List RegistryCall) (id : String) (at : ℕ)
    (l : CurrentListing lib calls at) (describe : Option (String → Option (Option Fields)))
    → lib.trim_space id ≢ ""
    → IsDecided lib id
        (rows_of_result l.result)
        (verify_exact_target lib (registry_steps lib class calls new_registry) id at describe)
verify-IsDecided lib class calls id at l describe h =
    rw (verdict_of_listing lib class calls id at l describe (unequal h))
      (IsDecided-has_key lib id (rows_of_result l.result))
