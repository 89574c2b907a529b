-- ===== src/Workflow/Stops.antt =====
-- What a step that ends a run of internal/workflow/engine.go records.
use compshare_agent.Prelude.{
  ℕ, Bool, true, false, ◌&&◌, not, some, List, ◌∷◌, ◌≡◌, refl, ap, Except, ok, err, inl, inr, drop,
  Option-cases,
}
use compshare_agent.Workflow.Types.{
  GoError, StepType, tool_call, confirm, resolve, other, Step, Definition, StepFailure,
  unknown_step_type, skip_failed, workflow_cancelled,
}
use compshare_agent.Workflow.Progress.{
  Env, Progress, ToolStepOutcome, tool_step_ok, tool_step_skipped, tool_step_failed,
  tool_step_unfinished, run_hook, stop_at, fail_stop,
}
use compshare_agent.Workflow.ToolStep.{run_resolve_step}
use compshare_agent.Workflow.BatchStep.{run_tool_step}
use compshare_agent.Workflow.ConfirmStep.{run_confirm_step}
use compshare_agent.Workflow.Run.{
  any_confirm, confirm_gate_unpassed, is_some, failure_at, record_step_failure, after_tool,
  after_confirm, run_by_type, run_unless_skipped, run_step,
}

-- The recorded failure names `step`, and says that execution was authorized if a contract was in
-- force and no gate is left among that step and the steps `rest` after it.
abbrev pub SaysWhere : {W : Type 0} → Step → List Step → Progress W → Type 0
SaysWhere step rest p =
    (f : StepFailure) × (p.result.failure ≡ some f)
    × (f.step ≡ step.name)
    × (f.execution_authorized ≡ (is_some p.sealed && not (any_confirm (step ∷ rest))))

module _ {W : Type 0} where
  record_step_failure-SaysWhere :
      (def : Definition) (step : Step) (rest : List Step) (i : ℕ) (p : Progress W)
      → drop i def.steps ≡ step ∷ rest
      → SaysWhere step rest (record_step_failure def step i p)
  unfolding record_step_failure failure_at confirm_gate_unpassed
  record_step_failure-SaysWhere def step rest i p h =
      (failure_at def step i p, refl, refl, ap (λ ss. is_some p.sealed && not (any_confirm ss)) h)

  -- A part of the loop that returns early has recorded the failure.
  abbrev pub StopsRecorded : Step → List Step → Progress W × Bool → Type 0
  StopsRecorded step rest (q, go) = go ≡ false → SaysWhere step rest q

  after_tool-StopsRecorded :
      (def : Definition) (step : Step) (rest : List Step) (i : ℕ) (x : Progress W × ToolStepOutcome)
      → drop i def.steps ≡ step ∷ rest
      → StopsRecorded step rest (after_tool def step i x)
  unfolding after_tool
  after_tool-StopsRecorded def step rest i (q, tool_step_ok) h = λ bad. cc
  after_tool-StopsRecorded def step rest i (q, tool_step_skipped) h = λ bad. cc
  after_tool-StopsRecorded def step rest i (q, tool_step_failed) h =
      λ stop. record_step_failure-SaysWhere def step rest i q h
  after_tool-StopsRecorded def step rest i (q, tool_step_unfinished) h =
      λ stop. record_step_failure-SaysWhere def step rest i q h

module _ {W : Type 0} (env : Env W) where
  after_confirm-StopsRecorded :
      (def : Definition) (step : Step) (rest : List Step) (i : ℕ) (x : Progress W × Bool)
      → drop i def.steps ≡ step ∷ rest
      → StopsRecorded step rest (after_confirm env def step i x)
  unfolding after_confirm
  after_confirm-StopsRecorded def step rest i (q, true) h = λ bad. cc
  after_confirm-StopsRecorded def step rest i (q, false) h =
      λ stop. record_step_failure-SaysWhere def step rest i q h

  run_by_type-StopsRecorded :
      (t : StepType) (def : Definition) (step : Step) (rest : List Step) (i total : ℕ)
      (p : Progress W)
      → drop i def.steps ≡ step ∷ rest
      → StopsRecorded step rest (run_by_type env t def step i total p)
  unfolding run_by_type
  run_by_type-StopsRecorded tool_call def step rest i total p h =
      after_tool-StopsRecorded def step rest i (run_tool_step env step i total p) h
  run_by_type-StopsRecorded resolve def step rest i total p h =
      after_tool-StopsRecorded def step rest i (run_resolve_step env step i total p) h
  run_by_type-StopsRecorded confirm def step rest i total p h =
      after_confirm-StopsRecorded def step rest i (run_confirm_step env def step i total p) h
  run_by_type-StopsRecorded (other n) def step rest i total p h = λ stop.
      record_step_failure-SaysWhere def step rest i
        (fail_stop step i total step.type "" (unknown_step_type step.name) p) h

  run_unless_skipped-StopsRecorded :
      (def : Definition) (step : Step) (rest : List Step) (i total : ℕ)
      (x : Progress W × Except GoError Bool)
      → drop i def.steps ≡ step ∷ rest
      → StopsRecorded step rest (run_unless_skipped env def step i total x)
  unfolding run_unless_skipped
  run_unless_skipped-StopsRecorded def step rest i total (q, err e) h = λ stop.
      record_step_failure-SaysWhere def step rest i
        (fail_stop step i total step.type "" (skip_failed step.name e) q) h
  run_unless_skipped-StopsRecorded def step rest i total (q, ok true) h = λ bad. cc
  run_unless_skipped-StopsRecorded def step rest i total (q, ok false) h =
      run_by_type-StopsRecorded step.type def step rest i total q h

  pub run_step-StopsRecorded :
      (def : Definition) (step : Step) (rest : List Step) (i total : ℕ) (p : Progress W)
      → drop i def.steps ≡ step ∷ rest
      → StopsRecorded step rest (run_step env def step i total p)
  unfolding run_step any_confirm
  run_step-StopsRecorded def step rest i total p h =
      elim (Option-cases (env.context_error p.world)) [
        | inr (x, e) ↦
            rw (e, run_step)
              (λ stop.
                record_step_failure-SaysWhere def step rest i
                  (stop_at step (workflow_cancelled x) p) h)
        | inl e ↦ elim (Option-cases step.skip_if) [
          | inl d ↦
              rw (e, d, run_step) (run_by_type-StopsRecorded step.type def step rest i total p h)
          | inr (skip, d) ↦
              rw (e, d, run_step)
                (run_unless_skipped-StopsRecorded def step rest i total (run_hook skip p) h)
        ]
      ]
