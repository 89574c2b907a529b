-- ===== src/Workflow/Progress.antt =====
-- internal/workflow/engine.go: what an Engine is wired to, and the state of one run. The executor,
-- the confirmation callbacks, the clock and the request's cancellation are the surroundings `Env`
-- of the engine, over a state `W` of their own. `calls` is the record of what was sent upstream,
-- newest first: its tool and arguments, the params as the closure that built the arguments left them
-- (`basis`), the contract in force and the executor's reply.
use compshare_agent.Prelude.{
  ℕ, String, Bool, true, false, Option, none, some, List, [], ◌∷◌, ◌++◌, Except, if◌then◌else◌,
  str_eq,
}
use compshare_agent.Value.{Fields}
use compshare_agent.Workflow.Form.{ConfirmForm}
use compshare_agent.Workflow.Types.{
  GoError, SealedActionContract, Vars, Context, StepType, tool_call, Step, Message,
  workflow_tampered, Status, failed, StepSummary, StepEvent, StepFailure, Result, ConfirmResolution,
  FailureReason, unclassified, capacity_sold_out,
}
use compshare_agent.Workflow.Seal.{verify_digest}

pub record Env (W : Type 0) : Type 0 where
  pub execute : W → String → Fields → W × Except GoError (Option Fields)
  pub context_error : W → Option GoError
  pub now : W → ℕ
  -- `select` on time.After and ctx.Done: the error of a context that is done first.
  pub wait : W → ℕ → W × Option GoError
  pub digest : Fields → String
  pub confirm_fn : Option (W → String → Fields → W × Bool)
  pub confirm_edits_fn : Option (W → String → Fields → ConfirmForm → W × ConfirmResolution)

pub record Call : Type 0 where
  pub tool : String
  pub args : Fields
  pub basis : Fields
  pub sealed : Option SealedActionContract
  pub reply : Except GoError (Option Fields)

pub record Progress (W : Type 0) : Type 0 where
  pub vars : Vars
  pub sealed : Option SealedActionContract
  pub result : Result
  pub events : List StepEvent
  pub calls : List Call
  pub world : W

pub data ToolStepOutcome : Type 0 where
  tool_step_ok tool_step_skipped tool_step_failed : ToolStepOutcome
  -- the polling rounds of the model ran out
  tool_step_unfinished : ToolStepOutcome

abbrev pub blank_failure : StepFailure
blank_failure = record {
  step = "";
  reason = unclassified;
  args = none;
  draft = none;
  execution_authorized = false;
}

-- `if result.Failure == nil { result.Failure = &StepFailure{} }`.
abbrev pub failure_of : Result → StepFailure
failure_of r = elim r.failure [ none ↦ blank_failure | some f ↦ f ]

-- `wfCtx.StepResults[name] = out`.
unfoldable pub put_result :
    String → Option Fields → List (String × Option Fields) → List (String × Option Fields)
put_result k v [] = (k, v) ∷ []
put_result k v ((j, w) ∷ m) = if str_eq j k then (k, v) ∷ m else (j, w) ∷ put_result k v m

-- `delete(wfCtx.StepResults, name)`.
unfoldable pub delete_result :
    String → List (String × Option Fields) → List (String × Option Fields)
delete_result k [] = []
delete_result k ((j, w) ∷ m) = if str_eq j k then delete_result k m else (j, w) ∷ delete_result k m

-- Context.Result: nil where the step has no result.
unfoldable pub result_of : String → List (String × Option Fields) → Option Fields
result_of k [] = none
result_of k ((j, w) ∷ m) = if str_eq j k then w else result_of k m

module _ {W : Type 0} where
  abbrev pub context_of : Progress W → Context
  context_of p = record { vars = p.vars; sealed = p.sealed }

  -- Calls a closure of the definition on the live context.
  abbrev pub run_hook {ℓ} : {A : Type ℓ} → (Context → Vars × A) → Progress W → Progress W × A
  run_hook h p = let (v, a) = h (context_of p) in (record p { vars = v }, a)

  -- Engine.emit.
  unfoldable pub emit :
      Step
      → ℕ
      → ℕ
      → StepType
      → Status
      → String
      → Option Fields
      → Option Message
      → Progress W
      → Progress W
  emit step i total type status tool args message p =
      let event : StepEvent = record {
        step_name = step.name;
        step_index = i;
        total = total;
        type = type;
        status = status;
        tool = tool;
        args = args;
        message = message;
      } in
      record p { events = event ∷ p.events }

  unfoldable pub summarize : Step → Status → Option Message → Progress W → Progress W
  summarize step status message p =
      let summary : StepSummary = record { name = step.name; status = status; message = message } in
      let r = p.result in record p { result = record r { steps = r.steps ++ summary ∷ [] } }

  -- `result.StoppedAt = step.Name; result.Message = msg`.
  unfoldable pub stop_at : Step → Message → Progress W → Progress W
  stop_at step message p =
      let r = p.result in
      record p { result = record r { stopped_at = step.name; message = some message } }

  -- The emit and the summary of a step that failed.
  unfoldable pub report_failed :
      Step → ℕ → ℕ → StepType → String → Message → Progress W → Progress W
  unfolding emit summarize
  report_failed step i total type tool message p =
      summarize step failed (some message)
        (emit step i total type failed tool none (some message) p)

  -- The closure `fail` of runResolveStep, `failStop` of runConfirmStep and the same lines of Run.
  unfoldable pub fail_stop : Step → ℕ → ℕ → StepType → String → Message → Progress W → Progress W
  unfolding report_failed stop_at
  fail_stop step i total type tool message p =
      stop_at step message (report_failed step i total type tool message p)

  unfoldable pub set_missing_slots : GoError → Progress W → Progress W
  set_missing_slots e p =
      let r = p.result in
      record p {
        result = record r { missing_slots = elim e.missing [ none ↦ [] | some slots ↦ slots ] };
      }

  unfoldable pub record_failed_args : Fields → Progress W → Progress W
  record_failed_args args p =
      let r = p.result in
      let f = failure_of r in
      record p { result = record r { failure = some (record f { args = some args }) } }

  unfoldable pub record_failure_reason : FailureReason → Progress W → Progress W
  record_failure_reason unclassified p = p
  record_failure_reason capacity_sold_out p =
      let r = p.result in
      let f = failure_of r in
      record p { result = record r { failure = some (record f { reason = capacity_sold_out }) } }

  unfoldable pub set_error : GoError → Progress W → Progress W
  set_error e p = let r = p.result in record p { result = record r { error = some e } }

  unfoldable pub store_result : Step → Option Fields → Progress W → Progress W
  unfolding put_result
  store_result step out p =
      let v = p.vars in
      record p { vars = record v { step_results = put_result step.name out v.step_results } }

module _ {W : Type 0} (env : Env W) where
  -- `e.executor.Execute(ctx, toolName, args)`, for arguments whose closure left the params `basis`.
  unfoldable pub execute_call :
      String → Fields → Fields → Progress W → Progress W × Except GoError (Option Fields)
  execute_call tool args basis p =
      let (w, reply) = env.execute p.world tool args in
      let call : Call = record {
        tool = tool;
        args = args;
        basis = basis;
        sealed = p.sealed;
        reply = reply;
      } in
      (record p { world = w; calls = call ∷ p.calls }, reply)

  -- Engine.verifySealedContract.
  unfoldable pub verify_sealed_contract : Step → ℕ → ℕ → Progress W → Progress W × Bool
  unfolding fail_stop verify_digest
  verify_sealed_contract step i total p = elim p.sealed [
    | none ↦ (p, true)
    | some c ↦
        if verify_digest env.digest c p.vars.params
        then (p, true)
        else (fail_stop step i total tool_call step.tool workflow_tampered p, false)
  ]
