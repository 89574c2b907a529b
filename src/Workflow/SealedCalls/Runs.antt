-- ===== src/Workflow/SealedCalls/Runs.antt =====
-- Every call of a run is covered by the contract in force.
use compshare_agent.Prelude.{
  ℕ, suc, Bool, true, false, List, [], ◌∷◌, Except, ok, err, refl, All, inl, inr, Option-cases,
  length,
}
use compshare_agent.Value.{Fields}
use compshare_agent.Workflow.Types.{
  GoError, Step, StepType, tool_call, confirm, resolve, other, Definition,
}
use compshare_agent.Workflow.Progress.{
  Env, Progress, ToolStepOutcome, tool_step_ok, tool_step_skipped, tool_step_failed,
  tool_step_unfinished, run_hook,
}
use compshare_agent.Workflow.ToolStep.{run_resolve_step}
use compshare_agent.Workflow.BatchStep.{run_tool_step}
use compshare_agent.Workflow.ConfirmStep.{run_confirm_step}
use compshare_agent.Workflow.Run.{
  after_tool, after_confirm, run_by_type, run_unless_skipped, run_step, continue_if, run_steps,
  start, run,
}
use compshare_agent.Workflow.SealedCalls.{IsStepOf, steps-IsStepOf, IsCovered, IsSealed, Inv}
use compshare_agent.Workflow.SealedCalls.Single.{run_resolve_step-Inv}
use compshare_agent.Workflow.SealedCalls.Batch.{run_tool_step-Inv}
use compshare_agent.Workflow.SealedCalls.Rerun.{Keeps}
use compshare_agent.Workflow.SealedCalls.Gate.{run_confirm_step-Inv}

module _ {W : Type 0} (env : Env W) (def : Definition) where
  after_tool-Inv :
      (step : Step) (i : ℕ) (q : Progress W) (outcome : ToolStepOutcome)
      → Inv env def q
      → Inv env def (after_tool def step i (q, outcome)).0
  unfolding after_tool
  after_tool-Inv step i q tool_step_ok h = h
  after_tool-Inv step i q tool_step_skipped h = h
  after_tool-Inv step i q tool_step_failed h = h
  after_tool-Inv step i q tool_step_unfinished h = h

  after_confirm-Inv :
      (step : Step) (i : ℕ) (q : Progress W) (passed : Bool)
      → Inv env def q
      → Inv env def (after_confirm env def step i (q, passed)).0
  unfolding after_confirm
  after_confirm-Inv step i q true h = (refl, h.1)
  after_confirm-Inv step i q false h = h

  run_by_type-Inv :
      (type : StepType) (step : Step) (i total : ℕ)
      → IsStepOf def step
      → Keeps env def (run_by_type env type def step i total)
  unfolding run_by_type
  run_by_type-Inv tool_call step i total member p h =
      after_tool-Inv step i (run_tool_step env step i total p).0
        (run_tool_step env step i total p).1 (run_tool_step-Inv env def step i total p member h)
  run_by_type-Inv resolve step i total member p h =
      after_tool-Inv step i (run_resolve_step env step i total p).0
        (run_resolve_step env step i total p).1 (run_resolve_step-Inv env def step i total p h)
  run_by_type-Inv confirm step i total member p h =
      after_confirm-Inv step i (run_confirm_step env def step i total p).0
        (run_confirm_step env def step i total p).1 (run_confirm_step-Inv env def step i total p h)
  run_by_type-Inv (other n) step i total member p h = h

  run_unless_skipped-Inv :
      (step : Step) (i total : ℕ) (q : Progress W) (skip : Except GoError Bool)
      → IsStepOf def step
      → Inv env def q
      → Inv env def (run_unless_skipped env def step i total (q, skip)).0
  unfolding run_unless_skipped
  run_unless_skipped-Inv step i total q (err e) member h = h
  run_unless_skipped-Inv step i total q (ok true) member h = h
  run_unless_skipped-Inv step i total q (ok false) member h =
      run_by_type-Inv step.type step i total member q h

  run_step-Inv :
      (step : Step) (i total : ℕ)
      → IsStepOf def step
      → Keeps env def (run_step env def step i total)
  unfolding run_step
  run_step-Inv step i total member p h = elim (Option-cases (env.context_error p.world)) [
    | inr (x, e) ↦ rw (e, run_step) h
    | inl e ↦ elim (Option-cases step.skip_if) [
      | inl d ↦ rw (e, d, run_step) (run_by_type-Inv step.type step i total member p h)
      | inr (skip, d) ↦
          rw (e, d, run_step)
            (run_unless_skipped-Inv step i total (run_hook skip p).0 (run_hook skip p).1 member h)
    ]
  ]

  continue_if-Inv :
      (rest : Progress W → Progress W) (q : Progress W) (go : Bool)
      → ((s : Progress W) → Inv env def s → Inv env def (rest s))
      → Inv env def q
      → Inv env def (continue_if env rest (q, go))
  unfolding continue_if
  continue_if-Inv rest q true keep h = keep q h
  continue_if-Inv rest q false keep h = h

  run_steps-Inv :
      (steps : List Step) (i total : ℕ)
      → All (IsStepOf def) steps
      → (p : Progress W) → Inv env def p
      → Inv env def (run_steps env def steps i total p)
  unfolding run_steps
  run_steps-Inv [] i total members p h = h
  run_steps-Inv (s ∷ ss) i total members p h =
      continue_if-Inv (run_steps env def ss (suc i) total) (run_step env def s i total p).0
        (run_step env def s i total p).1 (run_steps-Inv ss (suc i) total members.1)
        (run_step-Inv s i total members.0 p h)

  -- For every definition, every initial params and every behaviour of the surroundings, each upstream
  -- call of a run satisfies three things. It is one of a step of the definition: its tool is Tool, or
  -- what ToolFunc gives, and its arguments are the result of BuildArgs, or of one call of
  -- BuildArgsBatch where the step has one, on a context with the contract then in force. Its tool
  -- and its arguments are what the executor was given. If a contract was in force, the digest of the
  -- params that the building closure left is the contract's digest, and that is the digest of the
  -- params that the contract was sealed with. So is the digest of the contract that the result carries
  -- at the end.
  pub calls-IsCovered :
      (params : Fields) (w : W)
      → All (IsCovered env def) (run env def params w).calls
        × IsSealed env (run env def params w).result.contract
  unfolding run
  calls-IsCovered params w =
      let h =
        run_steps-Inv def.steps 0 (length def.steps) (steps-IsStepOf def) (start env params w)
          (tt, tt) in
      (h.1, h.0)
