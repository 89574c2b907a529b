-- ===== src/Actions/Judge.antt =====
-- internal/actionresolver/resolver.go: the variables of Resolver.Resolve and what is done to them.
use compshare_agent.Prelude.{
  ℕ, String, Bool, true, false, ◌&&◌, Option, none, some, List, [], ◌∷◌, ◌++◌, ltb, if◌then◌else◌,
  str_eq,
}
use compshare_agent.Prelude.Sorting.{str_less}
use compshare_agent.SafeTool.Params.{contains}
use compshare_agent.Actions.Types.{
  SlotCandidate, RejectionKind, invalid_value, unknown_operation, unknown_field, target_not_exist,
  operation_contract, actor_model, RejectedProblem, Conflict, TargetVerdict, target_reject,
  target_accept, target_dependency_failure, ValueError, dependency_error, ambiguity_error,
  plain_error,
}
use compshare_agent.Actions.Codecs.{◌+++◌}

-- A read of a Go map.
abbrev pub find : {V : Type 0} → String → List (String × V) → Option V
find k [] = none
find k ((j, v) ∷ m) = if str_eq j k then some v else find k m

-- `_, ok := m[k]`.
abbrev pub has_key : {V : Type 0} → String → List (String × V) → Bool
has_key k [] = false
has_key k ((j, v) ∷ m) = if str_eq j k then true else has_key k m

abbrev pub is_empty : {A : Type 0} → List A → Bool
is_empty [] = true
is_empty (x ∷ xs) = false

-- The variables of Resolve: the result's problems, the accepted candidates by their field in
-- `grouped`, and the fields that were judged.
pub record Adjudication (F : Type 0) : Type 0 where
  pub grouped : List (String × List (SlotCandidate F))
  pub adjudicated : List String
  pub rejected : List String
  pub rejected_problems : List RejectedProblem
  pub dependency_failures : List String
  pub conflicts : List (Conflict F)

abbrev pub nothing_judged : {F : Type 0} → Adjudication F
nothing_judged = record {
  grouped = [];
  adjudicated = [];
  rejected = [];
  rejected_problems = [];
  dependency_failures = [];
  conflicts = [];
}

abbrev pub kind_rank : RejectionKind → ℕ
kind_rank invalid_value = 0
kind_rank unknown_operation = 1
kind_rank unknown_field = 2
kind_rank target_not_exist = 3
kind_rank operation_contract = 4

abbrev pub problem_less : RejectedProblem → RejectedProblem → Bool
problem_less p q =
    if str_eq p.slot q.slot
    then ltb (kind_rank p.kind) (kind_rank q.kind)
    else str_less p.slot q.slot

module _ {F : Type 0} where
  -- The closure `reject`.
  unfoldable pub reject : String → RejectionKind → String → Adjudication F → Adjudication F
  reject slot kind told a = record a {
    rejected = a.rejected ++ told ∷ [];
    rejected_problems =
        a.rejected_problems ++ record { slot = slot; kind = kind; actor = actor_model } ∷ [];
  }

  unfoldable pub judge : String → Adjudication F → Adjudication F
  judge name a = record a { adjudicated = name ∷ a.adjudicated }

  unfoldable pub fail_dependency : String → Adjudication F → Adjudication F
  fail_dependency told a = record a { dependency_failures = a.dependency_failures ++ told ∷ [] }

  unfoldable pub conflict_on : Conflict F → Adjudication F → Adjudication F
  conflict_on c a = record a { conflicts = a.conflicts ++ c ∷ [] }

  -- The `switch` on the type of a codec's error.
  unfoldable pub refuse_value : String → ValueError → Adjudication F → Adjudication F
  unfolding reject judge fail_dependency conflict_on
  refuse_value name (dependency_error detail) a =
      judge name (fail_dependency (name +++ ": " +++ detail) a)
  refuse_value name (ambiguity_error detail candidates) a = judge name (
      conflict_on
        (record { slot = name; candidates = []; catalog_candidates = candidates; reason = detail })
        a)
  refuse_value name (plain_error detail) a =
      judge name (reject name invalid_value (name +++ ": " +++ detail) a)

  -- `grouped[name] = append(grouped[name], candidate)`.
  unfoldable pub append_group :
      SlotCandidate F
      → List (String × List (SlotCandidate F))
      → List (String × List (SlotCandidate F))
  append_group c [] = (c.name, c ∷ []) ∷ []
  append_group c ((name, cs) ∷ groups) =
      let later = append_group c groups in
      if str_eq name c.name then (name, cs ++ c ∷ []) ∷ groups else (name, cs) ∷ later

  unfoldable pub accept : SlotCandidate F → Adjudication F → Adjudication F
  unfolding append_group
  accept c a = record a { grouped = append_group c a.grouped }

  -- The `switch` on the verdict on a target.
  unfoldable pub settle_target : TargetVerdict → SlotCandidate F → Adjudication F → Adjudication F
  unfolding accept judge fail_dependency reject
  settle_target target_accept c a = accept c a
  settle_target target_dependency_failure c a =
      judge c.name (fail_dependency (c.name +++ ": 目标存在性暂时无法验证，请稍后再试") a)
  settle_target target_reject c a =
      judge c.name
        (reject c.name target_not_exist (c.name +++ ": target existence could not be confirmed") a)

-- everyMissingCollectable, everyRejectionFormCorrectable and everyConflictCollectable.
unfoldable pub every_missing_collectable : List String → List String → Bool
every_missing_collectable [] collectable = true
every_missing_collectable (name ∷ missing) collectable =
    contains name collectable && every_missing_collectable missing collectable

abbrev pub is_invalid_value : RejectionKind → Bool
is_invalid_value invalid_value = true
is_invalid_value _ = false

unfoldable pub every_rejection_form_correctable : List RejectedProblem → List String → Bool
every_rejection_form_correctable [] collectable = true
every_rejection_form_correctable (p ∷ problems) collectable =
    is_invalid_value p.kind
    && contains p.slot collectable
    && every_rejection_form_correctable problems collectable

unfoldable pub every_conflict_collectable : {F : Type 0} → List (Conflict F) → List String → Bool
every_conflict_collectable [] collectable = true
every_conflict_collectable (c ∷ conflicts) collectable =
    contains c.slot collectable && every_conflict_collectable conflicts collectable
