-- ===== src/Workflow/Revalidate.antt =====
-- internal/workflow/engine.go: revalidateFrom, which runs the steps before a gate again after an edit.
use compshare_agent.Prelude.{
  ℕ, suc, String, Bool, true, false, Option, none, some, List, [], ◌∷◌, Except, ok, err, ltb,
  if◌then◌else◌, str_eq, take, drop,
}
use compshare_agent.Value.{Fields}
use compshare_agent.Workflow.Types.{
  GoError, StepType, tool_call, confirm, resolve, other, Step, Definition, Message, skip_failed,
  boundary_missing, boundary_not_before, confirm_in_range, rerun_unknown_type,
}
use compshare_agent.Workflow.Progress.{
  Env, Progress, ToolStepOutcome, tool_step_ok, tool_step_skipped, tool_step_failed,
  tool_step_unfinished, run_hook, delete_result,
}
use compshare_agent.Workflow.ToolStep.{run_resolve_step}
use compshare_agent.Workflow.BatchStep.{run_tool_step}

-- The three ways in which revalidateFrom returns.
pub data Rerun : Type 0 where
  rerun_ok rerun_failed : Rerun
  rerun_error : Message → Rerun

-- The position of the first step with the name.
unfoldable pub index_of : String → List Step → Option ℕ
index_of k [] = none
index_of k (s ∷ ss) =
    if str_eq s.name k then some 0 else elim (index_of k ss) [ none ↦ none | some i ↦ some (suc i) ]

unfoldable pub discard_results :
    List Step → List (String × Option Fields) → List (String × Option Fields)
discard_results [] results = results
discard_results (s ∷ ss) results = discard_results ss (delete_result s.name results)

module _ {W : Type 0} where
  unfoldable pub after_outcome :
      (Progress W → Progress W × Rerun) → Progress W × ToolStepOutcome → Progress W × Rerun
  after_outcome k (q, tool_step_ok) = k q
  after_outcome k (q, tool_step_skipped) = k q
  after_outcome k (q, tool_step_failed) = (q, rerun_failed)
  after_outcome k (q, tool_step_unfinished) = (q, rerun_failed)

module _ {W : Type 0} (env : Env W) where
  -- The `switch` on the step's type; a confirm step is refused before.
  unfoldable pub rerun_by_type :
      StepType → Step → ℕ → ℕ → (Progress W → Progress W × Rerun) → Progress W → Progress W × Rerun
  unfolding after_outcome
  rerun_by_type tool_call step i total k p = after_outcome k (run_tool_step env step i total p)
  rerun_by_type resolve step i total k p = after_outcome k (run_resolve_step env step i total p)
  rerun_by_type confirm step i total k p = (p, rerun_error (confirm_in_range step.name))
  rerun_by_type (other n) step i total k p = (p, rerun_error (rerun_unknown_type step.name))

  unfoldable pub rerun_unless_skipped :
      Step
      → ℕ
      → ℕ
      → (Progress W → Progress W × Rerun)
      → Progress W × Except GoError Bool
      → Progress W × Rerun
  unfolding rerun_by_type
  rerun_unless_skipped step i total k (q, err e) = (q, rerun_error (skip_failed step.name e))
  rerun_unless_skipped step i total k (q, ok true) = k q
  rerun_unless_skipped step i total k (q, ok false) = rerun_by_type step.type step i total k q

  -- A gate inside the range is refused before its SkipIf is asked.
  unfoldable pub rerun_step :
      StepType → Step → ℕ → ℕ → (Progress W → Progress W × Rerun) → Progress W → Progress W × Rerun
  unfolding rerun_unless_skipped
  rerun_step confirm step i total k p = (p, rerun_error (confirm_in_range step.name))
  rerun_step type step i total k p = elim step.skip_if [
    | none ↦ rerun_by_type type step i total k p
    | some skip ↦ rerun_unless_skipped step i total k (run_hook skip p)
  ]

  -- The second loop of revalidateFrom, over the steps from the boundary to the gate.
  unfoldable pub rerun_steps : List Step → ℕ → ℕ → Progress W → Progress W × Rerun
  rerun_steps [] i total p = (p, rerun_ok)
  rerun_steps (s ∷ ss) i total p = rerun_step s.type s i total (rerun_steps ss (suc i) total) p

  unfoldable pub revalidate_range : List Step → ℕ → ℕ → Progress W → Progress W × Rerun
  unfolding discard_results rerun_steps
  revalidate_range range start total p =
      let v = p.vars in
      rerun_steps range start total
        (record p { vars = record v { step_results = discard_results range v.step_results } })

  -- Engine.revalidateFrom.
  unfoldable pub revalidate_from : Definition → Step → ℕ → ℕ → Progress W → Progress W × Rerun
  unfolding revalidate_range
  revalidate_from def step gate total p =
      if str_eq step.revalidate_from ""
      then (p, rerun_ok)
      else (elim (index_of step.revalidate_from def.steps) [
        | none ↦ (p, rerun_error (boundary_missing step.revalidate_from))
        | some start ↦
            if ltb start gate
            then revalidate_range (drop start (take gate def.steps)) start total p
            else (p, rerun_error (boundary_not_before step.revalidate_from step.name))
      ])
