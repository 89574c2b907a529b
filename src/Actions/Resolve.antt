-- ===== src/Actions/Resolve.antt =====
-- internal/actionresolver/resolver.go: Resolver.Resolve. A map is ranged over in the order of its
-- first insertions; the lists of the result are sorted as in the code.
use compshare_agent.Prelude.{
  String, Bool, true, false, ◌&&◌, not, Option, none, some, List, [], ◌∷◌, ◌++◌, Except, ok, err,
  if◌then◌else◌, str_eq,
}
use compshare_agent.Prelude.Sorting.{sort_by, str_less}
use compshare_agent.SafeTool.Types.{l0}
use compshare_agent.SafeTool.Params.{contains}
use compshare_agent.Actions.Types.{
  Floats, Any, text, Strings, SlotCandidate, ActionProposal, SlotCodecKind, sensitive_text,
  FieldSpec, IntakeMode, intake_none, intake_guided, Arguments, OperationSpec, Catalog,
  unknown_operation, unknown_field, operation_contract, actor_model, ResolvedAction, TargetVerdict,
  target_reject, ValueError, Resolver,
}
use compshare_agent.Actions.Codecs.{◌+++◌, normalize_value}
use compshare_agent.Actions.Judge.{
  find, has_key, is_empty, Adjudication, nothing_judged, problem_less, reject, judge, conflict_on,
  refuse_value, accept, settle_target, every_missing_collectable, every_rejection_form_correctable,
  every_conflict_collectable,
}

abbrev pub is_guided : IntakeMode → Bool
is_guided intake_guided = true
is_guided intake_none = false

abbrev pub is_sensitive : SlotCodecKind → Bool
is_sensitive sensitive_text = true
is_sensitive _ = false

module _ {F : Type 0} where
  unfoldable pub missing_fields :
      List (String × FieldSpec) → Arguments F → List String → List String
  missing_fields [] args judged = []
  missing_fields ((name, field) ∷ fields) args judged =
      let rest = missing_fields fields args judged in
      if field.required && not (has_key name args) && not (contains name judged)
      then name ∷ rest
      else rest

  abbrev pub no_problem : List String → Adjudication F → Bool
  no_problem missing a =
      is_empty missing
      && is_empty a.conflicts
      && is_empty a.rejected
      && is_empty a.dependency_failures

  -- The check of the whole set of arguments, made when nothing else is wrong.
  unfoldable pub check_contract :
      Option (Arguments F → Option String)
      → List String
      → Arguments F
      → Adjudication F
      → Adjudication F
  unfolding reject
  check_contract none missing args a = a
  check_contract (some validate) missing args a =
      if no_problem missing a
      then elim (validate args) [ none ↦ a | some told ↦ reject "" operation_contract told a ]
      else a

  -- A name that is not a field's has the zero FieldSpec, which is not sensitive.
  unfoldable pub preview_value : Option FieldSpec → Any F → Any F
  preview_value none value = value
  preview_value (some field) value = if is_sensitive field.codec then text "[REDACTED]" else value

  -- The arguments that the confirmation shows.
  unfoldable pub preview_arguments : List (String × FieldSpec) → Arguments F → Arguments F
  unfolding preview_value
  preview_arguments fields [] = []
  preview_arguments fields ((name, value) ∷ args) =
      (name, preview_value (find name fields) value) ∷ preview_arguments fields args

  -- The result of an operation that the catalog does not have.
  abbrev pub refuse_operation : ActionProposal F → ResolvedAction F
  refuse_operation proposal = record {
    turn_id = proposal.turn_id;
    operation = proposal.operation;
    arguments = [];
    missing = [];
    conflicts = [];
    rejected = "unknown operation" ∷ [];
    rejected_problems = record { slot = ""; kind = unknown_operation; actor = actor_model } ∷ [];
    dependency_failures = [];
    needs_confirm = false;
    ready_for_confirmation = false;
    ready_for_intake = false;
    confirmation = none;
    gate = record {
      executor = "";
      risk = l0;
      requires_permission = false;
      requires_confirmation = false;
    };
    execution = [];
  }

  -- The end of Resolve.
  unfoldable pub conclude :
      OperationSpec F
      → ActionProposal F
      → List String
      → Arguments F
      → Adjudication F
      → ResolvedAction F
  unfolding preview_arguments every_missing_collectable every_rejection_form_correctable
      every_conflict_collectable sort_by
  conclude spec proposal missing args a =
      let ready = no_problem missing a in
      let collectable = spec.intake.collectable_fields in
      record {
        turn_id = proposal.turn_id;
        operation = proposal.operation;
        arguments = args;
        missing = sort_by str_less missing;
        conflicts = sort_by (λ c d. str_less c.slot d.slot) a.conflicts;
        rejected = sort_by str_less a.rejected;
        rejected_problems = sort_by problem_less a.rejected_problems;
        dependency_failures = sort_by str_less a.dependency_failures;
        needs_confirm = spec.needs_confirm;
        ready_for_confirmation = ready;
        ready_for_intake =
            not ready
            && is_guided spec.intake.mode
            && is_empty a.dependency_failures
            && not (is_empty missing && is_empty a.rejected && is_empty a.conflicts)
            && every_missing_collectable missing collectable
            && every_rejection_form_correctable a.rejected_problems collectable
            && every_conflict_collectable a.conflicts collectable;
        confirmation =
            (if ready
              then some (record {
                operation = proposal.operation;
                arguments = preview_arguments spec.fields args;
              })
              else none);
        gate = record {
          executor = "SafeToolExecutor";
          risk = spec.risk;
          requires_permission = true;
          requires_confirmation = spec.needs_confirm;
        };
        execution = spec.execution;
      }

module _ (floats : Floats) (lib : Strings) (r : Resolver floats.Float) where
  open floats use {Float}

  unfoldable pub adjudicate_target : SlotCandidate Float → TargetVerdict
  adjudicate_target c = elim r.verifier [ none ↦ target_reject | some verify ↦ verify c ]

  unfoldable pub take_value :
      FieldSpec → String → Except ValueError (Any Float) → Adjudication Float → Adjudication Float
  unfolding refuse_value settle_target accept adjudicate_target
  take_value field name (err e) a = refuse_value name e a
  take_value field name (ok value) a =
      let c : SlotCandidate Float = record { name = name; value = value } in
      if field.target then settle_target (adjudicate_target c) c a else accept c a

  unfoldable pub take_named :
      List (String × FieldSpec) → String → Any Float → Adjudication Float → Adjudication Float
  unfolding reject take_value normalize_value
  take_named fields name value a = elim (find name fields) [
    | none ↦ reject name unknown_field ("unknown slot " +++ name) a
    | some field ↦ take_value field name (normalize_value floats lib r field value) a
  ]

  unfoldable pub take_slot :
      List (String × FieldSpec) → SlotCandidate Float → Adjudication Float → Adjudication Float
  unfolding take_named
  take_slot fields slot a = take_named fields (lib.trim_space slot.name) slot.value a

  unfoldable pub take_slots :
      List (String × FieldSpec)
      → List (SlotCandidate Float)
      → Adjudication Float
      → Adjudication Float
  unfolding take_slot
  take_slots fields [] a = a
  take_slots fields (slot ∷ slots) a = take_slots fields slots (take_slot fields slot a)

  unfoldable pub same_value : Any Float → Any Float → Bool
  same_value v w = str_eq (r.marshal v) (r.marshal w)

  -- The loop of resolveCandidates.
  unfoldable pub all_same : Any Float → List (SlotCandidate Float) → Bool
  unfolding same_value
  all_same v [] = true
  all_same v (c ∷ cs) = same_value v c.value && all_same v cs

  -- A group is never empty.
  unfoldable pub settle_group :
      String
      → List (SlotCandidate Float)
      → Arguments Float × Adjudication Float
      → Arguments Float × Adjudication Float
  unfolding all_same judge conflict_on
  settle_group name [] x = x
  settle_group name (c ∷ cs) (args, a) =
      if all_same c.value cs then (args ++ (name, c.value) ∷ [], a) else (
        args,
        judge name (
            conflict_on
              (record { slot = name; candidates = c ∷ cs; catalog_candidates = []; reason = "" })
              a),
      )

  unfoldable pub settle_groups :
      List (String × List (SlotCandidate Float))
      → Arguments Float × Adjudication Float
      → Arguments Float × Adjudication Float
  unfolding settle_group
  settle_groups [] x = x
  settle_groups ((name, cs) ∷ groups) x = settle_groups groups (settle_group name cs x)

  unfoldable pub resolve_fields : OperationSpec Float → ActionProposal Float → ResolvedAction Float
  unfolding take_slots settle_groups missing_fields check_contract conclude
  resolve_fields spec proposal =
      let taken = take_slots spec.fields proposal.slots nothing_judged in
      let (args, a) = settle_groups taken.grouped ([], taken) in
      let missing = missing_fields spec.fields args a.adjudicated in
      conclude spec proposal missing args (check_contract spec.validate_resolved missing args a)

  -- Catalog.Lookup, on a catalog that may be nil.
  abbrev pub lookup_spec : String → Option (Catalog Float) → Option (OperationSpec Float)
  lookup_spec operation none = none
  lookup_spec operation (some catalog) = find operation catalog

  unfoldable pub resolve : ActionProposal Float → ResolvedAction Float
  unfolding resolve_fields
  resolve proposal = elim (lookup_spec proposal.operation r.catalog) [
    | none ↦ refuse_operation proposal
    | some spec ↦ resolve_fields spec proposal
  ]
