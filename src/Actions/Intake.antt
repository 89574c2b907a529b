-- ===== src/Actions/Intake.antt =====
-- When a proposal may be completed in the guided form.
use compshare_agent.Prelude.{
  String, Bool, true, false, not, ◌&&◌, some, List, [], ◌∷◌, ◌≡◌, refl, arith, All, All-map, ap,
}
use compshare_agent.Prelude.Sorting.{sort_by-All, sort_by, str_less}
use compshare_agent.SafeTool.Params.{contains}
use compshare_agent.Actions.Types.{
  Floats, Strings, SlotCandidate, ActionProposal, Arguments, OperationSpec, RejectionKind,
  invalid_value, unknown_operation, unknown_field, target_not_exist, operation_contract,
  RejectedProblem, Conflict, ResolvedAction, Resolver,
}
use compshare_agent.Actions.Judge.{
  is_empty, Adjudication, nothing_judged, is_invalid_value, every_missing_collectable,
  every_rejection_form_correctable, every_conflict_collectable, problem_less,
}
use compshare_agent.Actions.Resolve.{
  take_slots, settle_groups, missing_fields, no_problem, check_contract, conclude, resolve_fields,
  lookup_spec, resolve, is_guided,
}
use compshare_agent.Actions.Supplied.{is_empty_lem}
use compshare_agent.Actions.OnlyValues.{
  OnlyValues, Correctable, take_slots-OnlyValues, settle_groups-OnlyValues,
  check_contract-OnlyValues,
}

each_true :
    (a b c d e f g : Bool)
    → (a && b && c && d && e && f && g) ≡ true
    → (a ≡ true) × (b ≡ true) × (c ≡ true) × (d ≡ true) × (e ≡ true) × (f ≡ true) × (g ≡ true)
each_true true true true true true true g h = (refl, refl, refl, refl, refl, refl, h)
each_true a b c d e f g h = ground (arith, h)

-- The problems of a list are all on fields that the form collects.
Correctable-problem :
    (problems : List RejectedProblem) (collectable : List String)
    → every_rejection_form_correctable problems collectable ≡ true
    → All (λ p. (p.kind ≡ invalid_value) × (contains p.slot collectable ≡ true)) problems
unfolding every_rejection_form_correctable
Correctable-problem [] collectable h = tt
Correctable-problem (p ∷ problems) collectable h = (
  (is_invalid_value_lem p.kind (ground (arith, h)), ground (arith, h)),
  Correctable-problem problems collectable (ground (arith, h)),
)
  where
    is_invalid_value_lem : (k : RejectionKind) → is_invalid_value k ≡ true → k ≡ invalid_value
    is_invalid_value_lem invalid_value e = refl
    is_invalid_value_lem unknown_operation e = cc
    is_invalid_value_lem unknown_field e = cc
    is_invalid_value_lem target_not_exist e = cc
    is_invalid_value_lem operation_contract e = cc

Collectable-missing :
    (missing collectable : List String)
    → every_missing_collectable missing collectable ≡ true
    → All (λ name. contains name collectable ≡ true) missing
unfolding every_missing_collectable
Collectable-missing [] collectable h = tt
Collectable-missing (name ∷ missing) collectable h =
    (ground (arith, h), Collectable-missing missing collectable (ground (arith, h)))

Collectable-conflicts :
    {F : Type 0} (conflicts : List (Conflict F)) (collectable : List String)
    → every_conflict_collectable conflicts collectable ≡ true
    → All (λ (c : Conflict F). contains c.slot collectable ≡ true) conflicts
unfolding every_conflict_collectable
Collectable-conflicts [] collectable h = tt
Collectable-conflicts (c ∷ conflicts) collectable h =
    (ground (arith, h), Collectable-conflicts conflicts collectable (ground (arith, h)))

module _ (floats : Floats) (lib : Strings) (r : Resolver floats.Float) where
  open floats use {Float}

  -- What a guided form can be opened on.
  pub record IsCorrectable (spec : OperationSpec Float) (slots : List (SlotCandidate Float))
      (result : ResolvedAction Float) : Type 0 where
    pub guided : is_guided spec.intake.mode ≡ true
    pub not_ready : result.ready_for_confirmation ≡ false
    pub no_failures : result.dependency_failures ≡ []
    pub each_correctable : All (Correctable floats lib r spec.fields) slots
    pub each_problem :
        All
          (λ p. (p.kind ≡ invalid_value) × (contains p.slot spec.intake.collectable_fields ≡ true))
          result.rejected_problems
    pub each_missing :
        All (λ name. contains name spec.intake.collectable_fields ≡ true) result.missing
    pub each_conflict :
        All (λ c. contains c.slot spec.intake.collectable_fields ≡ true) result.conflicts

  conclude-IsCorrectable :
      (spec : OperationSpec Float) (proposal : ActionProposal Float) (missing : List String)
      (args : Arguments Float) (a : Adjudication Float)
      → (OnlyValues a → All (Correctable floats lib r spec.fields) proposal.slots)
      → (conclude spec proposal missing args a).ready_for_intake ≡ true
      → IsCorrectable spec proposal.slots (conclude spec proposal missing args a)
  unfolding conclude
  conclude-IsCorrectable spec proposal missing args a slots h =
      let collectable = spec.intake.collectable_fields in
      let (not_ready, guided, empty, some_problem, m, p, c) =
        each_true (not (no_problem missing a)) (is_guided spec.intake.mode)
          (is_empty a.dependency_failures)
          (not (is_empty missing && is_empty a.rejected && is_empty a.conflicts))
          (every_missing_collectable missing collectable)
          (every_rejection_form_correctable a.rejected_problems collectable)
          (every_conflict_collectable a.conflicts collectable) h in
      let problems = Correctable-problem a.rejected_problems spec.intake.collectable_fields p in
      let no_failures = is_empty_lem a.dependency_failures empty in
      record {
        guided = guided;
        not_ready = ground (arith, not_ready);
        no_failures = ap (sort_by str_less) no_failures;
        each_correctable = slots (record {
          all_values = All-map _ _ (λ p (same, known). same) a.rejected_problems problems;
          no_failures = no_failures;
        });
        each_problem = sort_by-All problem_less _ a.rejected_problems problems;
        each_missing =
            sort_by-All str_less _ missing
              (Collectable-missing missing spec.intake.collectable_fields m);
        each_conflict =
            sort_by-All _ _ a.conflicts
              (Collectable-conflicts a.conflicts spec.intake.collectable_fields c);
      }

  -- A proposal that may be completed in the guided form is of a guided operation and not ready for
  -- confirmation. Every slot is accepted, or names a field whose codec refuses its value for another
  -- reason than a catalog that is unavailable: none names an unknown field or a target that the
  -- verifier does not accept. All that is missing, refused or in conflict can be collected by the
  -- form.
  pub intake-IsCorrectable :
      (proposal : ActionProposal Float) (spec : OperationSpec Float)
      → lookup_spec floats lib r proposal.operation r.catalog ≡ some spec
      → (resolve floats lib r proposal).ready_for_intake ≡ true
      → IsCorrectable spec proposal.slots (resolve floats lib r proposal)
  unfolding resolve resolve_fields
  intake-IsCorrectable proposal spec known =
      let taken = take_slots floats lib r spec.fields proposal.slots nothing_judged in
      let x = settle_groups floats lib r taken.grouped ([], taken) in
      let missing = missing_fields spec.fields x.0 x.1.adjudicated in
      rw (known, resolve)
        (conclude-IsCorrectable spec proposal missing x.0
          (check_contract spec.validate_resolved missing x.0 x.1)
          (λ h.
            (take_slots-OnlyValues floats lib r spec.fields proposal.slots nothing_judged (
              settle_groups-OnlyValues floats lib r taken.grouped ([], taken)
                (check_contract-OnlyValues floats lib r spec.validate_resolved missing x.0 x.1
                  h))).1))
