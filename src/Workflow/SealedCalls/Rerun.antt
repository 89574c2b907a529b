-- ===== src/Workflow/SealedCalls/Rerun.antt =====
-- The steps that a gate runs again after an edit, under the seal.
use compshare_agent.Prelude.{
  ℕ, suc, Bool, true, false, List, [], ◌∷◌, Except, ok, err, ltb, str_eq, take, drop, All, All-take,
  All-drop, inl, inr, Option-cases, Bool-cases,
}
use compshare_agent.Workflow.Types.{
  GoError, Step, StepType, tool_call, confirm, resolve, other, Definition,
}
use compshare_agent.Workflow.Progress.{
  Env, Progress, ToolStepOutcome, tool_step_ok, tool_step_skipped, tool_step_failed,
  tool_step_unfinished, run_hook,
}
use compshare_agent.Workflow.ToolStep.{run_resolve_step}
use compshare_agent.Workflow.BatchStep.{run_tool_step}
use compshare_agent.Workflow.Revalidate.{
  Rerun, after_outcome, rerun_by_type, rerun_unless_skipped, rerun_step, rerun_steps,
  revalidate_from, index_of,
}
use compshare_agent.Workflow.SealedCalls.{IsStepOf, steps-IsStepOf, Inv}
use compshare_agent.Workflow.SealedCalls.Single.{run_resolve_step-Inv}
use compshare_agent.Workflow.SealedCalls.Batch.{run_tool_step-Inv}

module _ {W : Type 0} (env : Env W) (def : Definition) where
  -- A continuation keeps the invariant.
  abbrev pub Keeps : {A : Type 0} → (Progress W → Progress W × A) → Type 0
  Keeps k = (q : Progress W) → Inv env def q → Inv env def (k q).0

  after_outcome-Inv :
      (k : Progress W → Progress W × Rerun) (q : Progress W) (outcome : ToolStepOutcome)
      → Keeps k
      → Inv env def q
      → Inv env def (after_outcome k (q, outcome)).0
  unfolding after_outcome
  after_outcome-Inv k q tool_step_ok keep h = keep q h
  after_outcome-Inv k q tool_step_skipped keep h = keep q h
  after_outcome-Inv k q tool_step_failed keep h = h
  after_outcome-Inv k q tool_step_unfinished keep h = h

  rerun_by_type-Inv :
      (type : StepType) (step : Step) (i total : ℕ) (k : Progress W → Progress W × Rerun)
      (p : Progress W)
      → IsStepOf def step
      → Keeps k
      → Inv env def p
      → Inv env def (rerun_by_type env type step i total k p).0
  unfolding rerun_by_type
  rerun_by_type-Inv tool_call step i total k p member keep h =
      after_outcome-Inv k (run_tool_step env step i total p).0 (run_tool_step env step i total p).1
        keep (run_tool_step-Inv env def step i total p member h)
  rerun_by_type-Inv resolve step i total k p member keep h =
      after_outcome-Inv k (run_resolve_step env step i total p).0
        (run_resolve_step env step i total p).1 keep (run_resolve_step-Inv env def step i total p h)
  rerun_by_type-Inv confirm step i total k p member keep h = h
  rerun_by_type-Inv (other n) step i total k p member keep h = h

  rerun_unless_skipped-Inv :
      (step : Step) (i total : ℕ) (k : Progress W → Progress W × Rerun) (q : Progress W)
      (skip : Except GoError Bool)
      → IsStepOf def step
      → Keeps k
      → Inv env def q
      → Inv env def (rerun_unless_skipped env step i total k (q, skip)).0
  unfolding rerun_unless_skipped
  rerun_unless_skipped-Inv step i total k q (err e) member keep h = h
  rerun_unless_skipped-Inv step i total k q (ok true) member keep h = keep q h
  rerun_unless_skipped-Inv step i total k q (ok false) member keep h =
      rerun_by_type-Inv step.type step i total k q member keep h

  rerun_step-Inv :
      (type : StepType) (step : Step) (i total : ℕ) (k : Progress W → Progress W × Rerun)
      (p : Progress W)
      → IsStepOf def step
      → Keeps k
      → Inv env def p
      → Inv env def (rerun_step env type step i total k p).0
  unfolding rerun_step
  rerun_step-Inv confirm step i total k p member keep h = h
  rerun_step-Inv type step i total k p member keep h = elim (Option-cases step.skip_if) [
    | inl e ↦ rw (e, rerun_step) (rerun_by_type-Inv type step i total k p member keep h)
    | inr (skip, e) ↦
        rw (e, rerun_step)
          (rerun_unless_skipped-Inv step i total k (run_hook skip p).0 (run_hook skip p).1 member
            keep h)
  ]

  rerun_steps-Inv :
      (steps : List Step) (i total : ℕ)
      → All (IsStepOf def) steps
      → Keeps (rerun_steps env steps i total)
  unfolding rerun_steps
  rerun_steps-Inv [] i total members p h = h
  rerun_steps-Inv (s ∷ ss) i total members p h =
      rerun_step-Inv s.type s i total (rerun_steps env ss (suc i) total) p members.0
        (rerun_steps-Inv ss (suc i) total members.1) h

  pub revalidate_from-Inv :
      (step : Step) (gate total : ℕ) → Keeps (revalidate_from env def step gate total)
  unfolding revalidate_from
  revalidate_from-Inv step gate total p h = elim (Bool-cases (str_eq step.revalidate_from "")) [
    | inl e ↦ rw (e, revalidate_from) h
    | inr e ↦ elim (Option-cases (index_of step.revalidate_from def.steps)) [
      | inl d ↦ rw (e, d, revalidate_from) h
      | inr (start, d) ↦ elim (Bool-cases (ltb start gate)) [
        | inl f ↦
            rw (e, d, f, revalidate_from)
              (rerun_steps-Inv (drop start (take gate def.steps)) start total
                (All-drop (IsStepOf def) start (take gate def.steps)
                  (All-take (IsStepOf def) gate def.steps (steps-IsStepOf def)))
                _ h)
        | inr f ↦ rw (e, d, f, revalidate_from) h
      ]
    ]
  ]
