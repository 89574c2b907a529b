-- ===== src/Workflow/Run.antt =====
-- internal/workflow/engine.go: Engine.Run, the loop over the steps of a definition.
use compshare_agent.Prelude.{
  ℕ, suc, Bool, true, false, ◌&&◌, not, Option, none, some, List, [], ◌∷◌, Except, ok, err,
  if◌then◌else◌, length, drop,
}
use compshare_agent.Value.{Fields}
use compshare_agent.Workflow.Types.{
  GoError, StepType, tool_call, confirm, resolve, other, Step, Definition, workflow_done,
  workflow_cancelled, skip_failed, unknown_step_type, Result, StepFailure,
}
use compshare_agent.Workflow.Seal.{new_context, seal_draft}
use compshare_agent.Workflow.Progress.{
  Env, Progress, ToolStepOutcome, tool_step_ok, tool_step_skipped, tool_step_failed,
  tool_step_unfinished, context_of, run_hook, stop_at, fail_stop, failure_of,
}
use compshare_agent.Workflow.ToolStep.{run_resolve_step}
use compshare_agent.Workflow.BatchStep.{run_tool_step}
use compshare_agent.Workflow.ConfirmStep.{run_confirm_step}

abbrev pub is_confirm : StepType → Bool
is_confirm confirm = true
is_confirm _ = false

-- confirmGateUnpassed, over the steps from the failed one on.
unfoldable pub any_confirm : List Step → Bool
any_confirm [] = false
any_confirm (s ∷ ss) = if is_confirm s.type then true else any_confirm ss

unfoldable pub confirm_gate_unpassed : Definition → ℕ → Bool
unfolding any_confirm
confirm_gate_unpassed def i = any_confirm (drop i def.steps)

abbrev pub is_some {ℓ} : {A : Type ℓ} → Option A → Bool
is_some none = false
is_some (some a) = true

module _ {W : Type 0} where
  unfoldable pub failure_at : Definition → Step → ℕ → Progress W → StepFailure
  failure_at def step i p =
      let f = failure_of p.result in
      record f {
        step = step.name;
        execution_authorized = is_some p.sealed && not (confirm_gate_unpassed def i);
        draft = elim def.failure_draft [ none ↦ f.draft | some make ↦ make (context_of p) ];
      }

  -- Engine.recordStepFailure.
  unfoldable pub record_step_failure : Definition → Step → ℕ → Progress W → Progress W
  unfolding failure_at
  record_step_failure def step i p =
      let r = p.result in
      record p { result = record r { failure = some (failure_at def step i p) } }

  -- What the loop does with a tool step or a resolve step that has ended.
  unfoldable pub after_tool :
      Definition → Step → ℕ → Progress W × ToolStepOutcome → Progress W × Bool
  unfolding record_step_failure
  after_tool def step i (q, tool_step_ok) = (q, true)
  after_tool def step i (q, tool_step_skipped) = (q, true)
  after_tool def step i (q, tool_step_failed) = (record_step_failure def step i q, false)
  after_tool def step i (q, tool_step_unfinished) = (record_step_failure def step i q, false)

module _ {W : Type 0} (env : Env W) where
  -- After a gate: `wfCtx.seal(def.Name)`.
  unfoldable pub after_confirm : Definition → Step → ℕ → Progress W × Bool → Progress W × Bool
  unfolding record_step_failure seal_draft
  after_confirm def step i (q, true) =
      (record q { sealed = some (seal_draft env.digest def.name q.vars) }, true)
  after_confirm def step i (q, false) = (record_step_failure def step i q, false)

  -- The `switch` on the step's type.
  unfoldable pub run_by_type : StepType → Definition → Step → ℕ → ℕ → Progress W → Progress W × Bool
  unfolding after_tool after_confirm fail_stop record_step_failure
  run_by_type tool_call def step i total p =
      after_tool def step i (run_tool_step env step i total p)
  run_by_type resolve def step i total p =
      after_tool def step i (run_resolve_step env step i total p)
  run_by_type confirm def step i total p =
      after_confirm def step i (run_confirm_step env def step i total p)
  run_by_type (other n) def step i total p = (
    record_step_failure def step i
        (fail_stop step i total step.type "" (unknown_step_type step.name) p),
    false,
  )

  unfoldable pub run_unless_skipped :
      Definition → Step → ℕ → ℕ → Progress W × Except GoError Bool → Progress W × Bool
  unfolding run_by_type fail_stop record_step_failure
  run_unless_skipped def step i total (q, err e) = (
    record_step_failure def step i
        (fail_stop step i total step.type "" (skip_failed step.name e) q),
    false,
  )
  run_unless_skipped def step i total (q, ok true) = (q, true)
  run_unless_skipped def step i total (q, ok false) = run_by_type step.type def step i total q

  -- One iteration of the loop; `false` is an early return.
  unfoldable pub run_step : Definition → Step → ℕ → ℕ → Progress W → Progress W × Bool
  unfolding stop_at record_step_failure run_unless_skipped
  run_step def step i total p = elim (env.context_error p.world) [
    | some e ↦ (record_step_failure def step i (stop_at step (workflow_cancelled e) p), false)
    | none ↦ elim step.skip_if [
      | none ↦ run_by_type step.type def step i total p
      | some skip ↦ run_unless_skipped def step i total (run_hook skip p)
    ]
  ]

  unfoldable pub finish : Definition → Progress W → Progress W
  finish def p =
      let r = p.result in
      record p {
        result = record r {
          success = true;
          mutation_committed = elim def.mutation_committed [
            | none ↦ true
            | some f ↦ f (context_of p)
          ];
          result_data = elim def.result_data [ none ↦ r.result_data | some f ↦ f (context_of p) ];
          message = some workflow_done;
        };
      }

  unfoldable pub continue_if : (Progress W → Progress W) → Progress W × Bool → Progress W
  continue_if rest (q, true) = rest q
  continue_if rest (q, false) = q

  unfoldable pub run_steps : Definition → List Step → ℕ → ℕ → Progress W → Progress W
  unfolding finish continue_if
  run_steps def [] i total p = finish def p
  run_steps def (s ∷ ss) i total p =
      continue_if (run_steps def ss (suc i) total) (run_step def s i total p)

  abbrev pub blank_result : Result
  blank_result = record {
    success = false;
    mutation_committed = false;
    stopped_at = "";
    message = none;
    missing_slots = [];
    result_data = none;
    steps = [];
    contract = none;
    failure = none;
    error = none;
  }

  unfoldable pub start : Fields → W → Progress W
  unfolding new_context
  start params w =
      let c = new_context params in
      record {
        vars = c.vars;
        sealed = c.sealed;
        result = blank_result;
        events = [];
        calls = [];
        world = w;
      }

  -- Engine.Run; the deferred write of the contract comes last.
  unfoldable pub run : Definition → Fields → W → Progress W
  unfolding run_steps start
  run def params w =
      let p = run_steps def def.steps 0 (length def.steps) (start params w) in
      let r = p.result in record p { result = record r { contract = p.sealed } }
