-- ===== src/Entities/Exact.antt =====
-- internal/entity/resolve.go and registry.go: what a name resolves to.
use mathlib.Core.List.Perm
use mathlib.Core.List.{Perm}
use compshare_agent.Prelude.{
  unsaid, ℕ, suc, ◌<◌, String, true, false, List, [], ◌∷◌, ◌≡◌, ◌≢◌, ◌↔◌, inl, inr, refl, sym, ◌∙◌,
  ap, arith, Bool-cases, str_eq, eq_iff, All, All-map, length, ltb,
}
use compshare_agent.Prelude.Sorting.{
  sort_by, str_less, sort_by-perm, sort_by-All, sort_by-nil_iff, map-sort_by,
}
use compshare_agent.Workflow.Types.{GoError}
use compshare_agent.Actions.Judge.{has_key, is_empty}
use compshare_agent.Actions.Supplied.{is_empty_lem}
use compshare_agent.Entities.Snapshot.{EntityText, InstanceSnapshot}
use compshare_agent.Entities.Registry.{EntityRegistry, new_registry, normalize_name}
use compshare_agent.Entities.Verify.{RegistryCall, registry_steps}
use compshare_agent.Entities.Resolve.{
  resolve_hit, resolve_not_found, resolve_ambiguous, ResolveResult, ids_at, found, not_found,
  ids_of_snapshots, look_up_all, instances_for_ids, resolve_by_name, resolve_inexact, snapshots,
  instances_whose_id_appears_in_text, score_all, normalize_terms, score_less,
}
use compshare_agent.Entities.Names.{named, ids_at-rebuild, ids-look_up_all}
use compshare_agent.Entities.Indexed.{IsIndexed, steps-IsIndexed, new-IsIndexed}

has_key-cons :
    {V : Type 0} (k j : String) (v : V) (m : List (String × V))
    → has_key k m ≡ true
    → has_key k ((j, v) ∷ m) ≡ true
has_key-cons k j v m h = elim (Bool-cases (str_eq j k)) [ inl e ↦ rw e refl | inr e ↦ rw e h ]

module _ (lib : EntityText) where
  named-has_key :
      (key : String) (insts : List (String × InstanceSnapshot))
      → All (λ id. has_key id insts ≡ true) (named lib key insts)
  unfolding named
  named-has_key key [] = tt
  named-has_key key ((id, inst) ∷ rest) =
      let later =
        All-map (λ k. has_key k rest ≡ true) (λ k. has_key k ((id, inst) ∷ rest) ≡ true)
          (λ k. has_key-cons k id inst rest) (named lib key rest) (named-has_key key rest) in
      elim (Bool-cases (str_eq (normalize_name lib inst.name) key)) [
        | inl e ↦ rw e (rw ((eq_iff id id).1 refl) refl, later)
        | inr e ↦ rw e later
      ]

  ids_at-named :
      (key : String) (r : EntityRegistry)
      → IsIndexed lib r
      → key ≢ ""
      → ids_at key r.name_index ≡ sort_by str_less (named lib key r.instances)
  ids_at-named key r x h = ap (ids_at key) x.index ∙ ids_at-rebuild lib key r.instances h

  -- The instances that the name index gives for a name are all found, and sorted by their ids.
  ids-exact :
      (key : String) (r : EntityRegistry)
      → IsIndexed lib r
      → key ≢ ""
      → ids_of_snapshots (instances_for_ids r.instances (ids_at key r.name_index))
        ≡ sort_by str_less (ids_at key r.name_index)
  unfolding instances_for_ids
  ids-exact key r x h =
      let ids = ids_at key r.name_index in
      let has : String → Type 0 = λ id. has_key id r.instances ≡ true in
      let known : All has ids =
        rw (ids_at-named key r x h)
          (sort_by-All str_less has (named lib key r.instances) (named-has_key key r.instances)) in
      map-sort_by (λ (inst : InstanceSnapshot). inst.u_host_id) str_less
        (look_up_all r.instances ids)
      ∙ ap (sort_by str_less) (ids-look_up_all r.instances ids x.keyed known)

-- The status says how many candidates there are.
pub record FitsCandidates (result : ResolveResult) : Type 0 where
  pub none_iff : (result.status ≡ resolve_not_found) ↔ (result.candidates ≡ [])
  pub one_iff : (result.status ≡ resolve_hit) ↔ (length result.candidates ≡ 1)
  pub many_iff : (result.status ≡ resolve_ambiguous) ↔ (1 < length result.candidates)

not_found-FitsCandidates : (query : String) → FitsCandidates (not_found query)
not_found-FitsCandidates query = record {
  none_iff = (λ e. refl, λ e. refl);
  one_iff = (λ e. cc, λ e. cc);
  many_iff = (λ e. cc, λ e. absurd (omega arith));
}

several : (n : ℕ) → ltb 1 (suc (suc n)) ≡ true
several n = ground arith

found-FitsCandidates :
    (query : String) (matches : List InstanceSnapshot)
    → matches ≢ []
    → FitsCandidates (found query matches)
unfolding found
found-FitsCandidates query [] h = absurd (h refl)
found-FitsCandidates query (x ∷ []) h = record {
  none_iff = (λ e. cc, λ e. cc);
  one_iff = (λ e. refl, λ e. refl);
  many_iff = (λ e. cc, λ e. absurd (omega arith));
}
found-FitsCandidates query (x ∷ y ∷ rest) h =
    let status = several (length rest) in
    rw (found, status)
      (record {
        none_iff = (λ e. cc, λ e. cc);
        one_iff = (λ e. cc, λ e. absurd (omega arith));
        many_iff = (λ e. omega arith, λ e. refl);
      })

is_empty-ne : {A : Type 0} {xs : List A} → is_empty xs ≡ false → xs ≢ []
is_empty-ne h e = (let bad = sym (ap is_empty e) ∙ h in cc)

distinct : {a b : String} → str_eq a b ≡ false → a ≢ b
distinct {a} {b} e same = unsaid e ((eq_iff a b).1 same)

module _ (lib : EntityText) where
  exact-ne-nil :
      (key : String) (r : EntityRegistry)
      → IsIndexed lib r
      → key ≢ ""
      → is_empty (ids_at key r.name_index) ≡ false
      → instances_for_ids r.instances (ids_at key r.name_index) ≢ []
  exact-ne-nil key r x h full e = is_empty-ne full (
      (sort_by-nil_iff str_less (ids_at key r.name_index)).0
        (sym (ids-exact lib key r x h) ∙ ap (λ insts. ids_of_snapshots insts) e))

  inexact-FitsCandidates :
      (r : EntityRegistry) (query : String) → FitsCandidates (resolve_inexact lib r query).1
  unfolding resolve_inexact
  inexact-FitsCandidates r query =
      let by_id = instances_whose_id_appears_in_text lib query r.instances in
      let scored =
        score_all lib (normalize_name lib query) (normalize_terms lib query) r.instances in
      let alike = snapshots (sort_by score_less scored) in
      elim (Bool-cases (is_empty by_id)) [
        | inr e ↦ rw e (found-FitsCandidates query by_id (is_empty-ne e))
        | inl e ↦ elim (Bool-cases (is_empty alike)) [
          | inl d ↦ rw (e, d) (not_found-FitsCandidates query)
          | inr d ↦ rw (e, d) (found-FitsCandidates query alike (is_empty-ne d))
        ]
      ]

  -- After any calls on a registry, and for any name, ResolveByName says that it found nothing exactly
  -- when it has no candidate, that it has a hit exactly when it has one, and that the name is
  -- ambiguous exactly when it has several.
  pub resolve_by_name-FitsCandidates :
      (class : GoError → String) (calls : List RegistryCall) (name : String)
      → FitsCandidates (resolve_by_name lib (registry_steps lib class calls new_registry) name).1
  unfolding resolve_by_name
  resolve_by_name-FitsCandidates class calls name =
      let r = registry_steps lib class calls new_registry in
      let query = lib.trim_space name in
      let key = normalize_name lib query in
      let ids = ids_at key r.name_index in
      let indexed = steps-IsIndexed lib class calls new_registry (new-IsIndexed lib) in
      elim (Bool-cases (str_eq key "")) [
        | inl e ↦ rw e (not_found-FitsCandidates query)
        | inr e ↦ elim (Bool-cases (is_empty ids)) [
          | inl d ↦ rw (e, d) (inexact-FitsCandidates r query)
          | inr d ↦
              rw (e, d)
                (found-FitsCandidates query (instances_for_ids r.instances ids)
                  (exact-ne-nil key r indexed (distinct e) d))
        ]
      ]

  -- The ids of the instances in the registry that have the name.
  abbrev pub ids_named : (GoError → String) → List RegistryCall → String → List String
  ids_named class calls name =
      named lib (normalize_name lib (lib.trim_space name))
        (registry_steps lib class calls new_registry).instances

  -- After any calls on a registry, if instances in it have a name that is, up to normalizeName, the one
  -- that is asked for, and which is not empty, then the candidates of ResolveByName are the ids of
  -- those instances, in some order.
  pub resolve_by_name-IsExact :
      (class : GoError → String) (calls : List RegistryCall) (name : String)
      → normalize_name lib (lib.trim_space name) ≢ ""
      → ids_named class calls name ≢ []
      → Perm
          (resolve_by_name lib (registry_steps lib class calls new_registry) name).1.candidates
          (ids_named class calls name)
  unfolding resolve_by_name found
  resolve_by_name-IsExact class calls name h some_named =
      let r = registry_steps lib class calls new_registry in
      let key = normalize_name lib (lib.trim_space name) in
      let x = steps-IsIndexed lib class calls new_registry (new-IsIndexed lib) in
      let ids = ids_at key r.name_index in
      let at : ids ≡ sort_by str_less (named lib key r.instances) = ids_at-named lib key r x h in
      elim (Bool-cases (str_eq key "")) [
        | inl e ↦ absurd (h ((eq_iff key "").0 e))
        | inr e ↦ elim (Bool-cases (is_empty ids)) [
          | inl d ↦
              absurd (some_named ((sort_by-nil_iff str_less _).0 (sym at ∙ is_empty_lem ids d)))
          | inr d ↦
              rw (e, d)
                (rw (ids-exact lib key r x h) (
                  Perm.trans (sort_by-perm str_less ids)
                    (rw at (sort_by-perm str_less (named lib key r.instances)))))
        ]
      ]
