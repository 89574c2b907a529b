-- ===== src/Workflow/ToolStep.antt =====
-- internal/workflow/engine.go: runResolveStep and the single call of runToolStep. The polling loop
-- has as many rounds as the timeout allows: timeout / interval + 2.
use compshare_agent.Prelude.{
  ℕ, zero, suc, ◌+◌, ◌/◌, String, Bool, true, false, ◌||◌, Option, none, some, Except, ok, err, leb,
  ◌==◌, if◌then◌else◌, str_eq,
}
use compshare_agent.Value.{Fields}
use compshare_agent.Workflow.Types.{
  GoError, tool_call, resolve, CheckOutcome, Step, Message, text, execution_failed, args_failed,
  resolve_undefined, resolve_wrote_params, poll_not_positive, poll_timed_out, pending_without_poll,
  running, succeeded,
}
use compshare_agent.Workflow.Progress.{
  Env, Progress, ToolStepOutcome, tool_step_ok, tool_step_skipped, tool_step_failed,
  tool_step_unfinished, run_hook, emit, summarize, stop_at, report_failed, fail_stop,
  set_missing_slots, record_failed_args, record_failure_reason, set_error, store_result,
  execute_call, verify_sealed_contract,
}

module _ {W : Type 0} where
  -- The end of a step that succeeded.
  unfoldable pub finish_step :
      Step → ℕ → ℕ → String → Option Fields → Progress W → Progress W × ToolStepOutcome
  unfolding store_result emit summarize
  finish_step step i total tool out p = (
    summarize step succeeded none
        (emit step i total step.type succeeded tool none none (store_result step out p)),
    tool_step_ok,
  )

  -- A failure that an optional step survives: `if step.Optional { return toolStepSkipped }`, and
  -- `more` is what the code records on the result where it does not.
  unfoldable pub fail_unless_optional :
      Step
      → ℕ
      → ℕ
      → String
      → Message
      → Message
      → (Progress W → Progress W)
      → Progress W
      → Progress W × ToolStepOutcome
  unfolding report_failed stop_at
  fail_unless_optional step i total tool shown told more p =
      let q = report_failed step i total tool_call tool shown p in
      if step.optional
      then (q, tool_step_skipped)
      else (more (stop_at step told q), tool_step_failed)

  -- `toolName := step.Tool; if step.ToolFunc != nil { ... }`.
  unfoldable pub tool_name : Step → Progress W → Progress W × String
  tool_name step p = elim step.tool_func [ none ↦ (p, step.tool) | some f ↦ run_hook f p ]

module _ {W : Type 0} (env : Env W) where
  unfoldable pub check_purity :
      Step
      → ℕ
      → ℕ
      → String
      → Progress W × Except GoError (Option Fields)
      → Progress W × ToolStepOutcome
  unfolding fail_stop set_missing_slots finish_step
  check_purity step i total before (q, err e) = (
    fail_stop step i total resolve "" (execution_failed step.name e) (set_missing_slots e q),
    tool_step_failed,
  )
  check_purity step i total before (q, ok out) =
      if str_eq (env.digest q.vars.params) before
      then finish_step step i total "" out q
      else (fail_stop step i total resolve "" (resolve_wrote_params step.name) q, tool_step_failed)

  -- Engine.runResolveStep.
  unfoldable pub run_resolve_step : Step → ℕ → ℕ → Progress W → Progress W × ToolStepOutcome
  unfolding fail_stop emit check_purity
  run_resolve_step step i total p = elim step.resolve [
    | none ↦ (fail_stop step i total resolve "" (resolve_undefined step.name) p, tool_step_failed)
    | some f ↦
        check_purity step i total (env.digest p.vars.params)
          (run_hook f (emit step i total resolve running "" none none p))
  ]

  -- The rest of a polling round, once the response is in: `again` is the next round.
  unfoldable pub wait_or_stop :
      Step
      → ℕ
      → ℕ
      → String
      → Fields
      → ℕ
      → ℕ
      → CheckOutcome
      → (Progress W → Progress W × ToolStepOutcome)
      → Progress W
      → Progress W × ToolStepOutcome
  unfolding fail_stop record_failed_args set_error
  wait_or_stop step i total tool args interval deadline outcome again p =
      if leb deadline (env.now p.world)
      then (let told =
            if str_eq outcome.message "" then poll_timed_out step.name else text outcome.message in
          (
            record_failed_args args (fail_stop step i total tool_call tool told p),
            tool_step_failed,
          ))
      else (let (w, done) = env.wait p.world interval in
          let q = record p { world = w } in
          elim done [
            | none ↦ again q
            | some e ↦ (
              record_failed_args args (
                  set_error e (
                    stop_at step (execution_failed step.name e)
                      (report_failed step i total tool_call tool (text e.text) q))),
              tool_step_failed,
            )
          ])

  unfoldable pub reject_response :
      Step → ℕ → ℕ → String → Fields → CheckOutcome → Progress W → Progress W × ToolStepOutcome
  unfolding fail_unless_optional record_failed_args record_failure_reason
  reject_response step i total tool args outcome p =
      let told = if outcome.pending then pending_without_poll step.name else text outcome.message in
      fail_unless_optional step i total tool told told
        (λ q. record_failure_reason outcome.reason (record_failed_args args q)) p

  -- `if outcome.Pending && step.Poll != nil`.
  unfoldable pub judge :
      Step
      → ℕ
      → ℕ
      → String
      → Fields
      → ℕ
      → Option Fields
      → (Progress W → Progress W × ToolStepOutcome)
      → Progress W × CheckOutcome
      → Progress W × ToolStepOutcome
  unfolding finish_step wait_or_stop reject_response
  judge step i total tool args deadline reply again (q, outcome) =
      if outcome.passed
      then finish_step step i total tool reply q
      else if outcome.pending
      then elim step.poll [
        | none ↦ reject_response step i total tool args outcome q
        | some policy ↦ wait_or_stop step i total tool args policy.interval deadline outcome again q
      ]
      else reject_response step i total tool args outcome q

  unfoldable pub receive :
      Step
      → ℕ
      → ℕ
      → String
      → Fields
      → ℕ
      → (Progress W → Progress W × ToolStepOutcome)
      → Progress W × Except GoError (Option Fields)
      → Progress W × ToolStepOutcome
  unfolding judge finish_step fail_unless_optional record_failed_args set_error
  receive step i total tool args deadline again (q, err e) =
      fail_unless_optional step i total tool (text e.text) (execution_failed step.name e)
        (λ s. record_failed_args args (set_error e s)) q
  receive step i total tool args deadline again (q, ok reply) = elim step.check_result [
    | none ↦ finish_step step i total tool reply q
    | some check ↦ judge step i total tool args deadline reply again (run_hook (check reply) q)
  ]

  -- The `for` loop of runToolStep.
  unfoldable pub poll_loop :
      ℕ → Step → ℕ → ℕ → String → Fields → Fields → ℕ → Progress W → Progress W × ToolStepOutcome
  poll_loop zero step i total tool args basis deadline p = (p, tool_step_unfinished)
  poll_loop (suc rounds) step i total tool args basis deadline p =
      receive step i total tool args deadline
        (poll_loop rounds step i total tool args basis deadline)
        (execute_call env tool args basis p)

  unfoldable pub start_polling :
      Step → ℕ → ℕ → String → Fields → Progress W → Progress W × ToolStepOutcome
  start_polling step i total tool args p = elim step.poll [
    | none ↦ poll_loop 1 step i total tool args p.vars.params 0 p
    | some policy ↦
        if policy.interval == 0 || policy.timeout == 0
        then (
          fail_stop step i total tool_call tool (poll_not_positive step.name) p,
          tool_step_failed,
        )
        else poll_loop (suc (suc (policy.timeout / policy.interval))) step i total tool args
            p.vars.params (env.now p.world + policy.timeout) p
  ]

  -- `if !e.verifySealedContract(...) { ... }` and the call that follows it.
  unfoldable pub call_if_sealed :
      Step → ℕ → ℕ → String → Fields → Progress W × Bool → Progress W × ToolStepOutcome
  unfolding start_polling record_failed_args emit
  call_if_sealed step i total tool args (q, false) = (record_failed_args args q, tool_step_failed)
  call_if_sealed step i total tool args (q, true) =
      start_polling step i total tool args
        (emit step i total tool_call running tool (some args) none q)

  unfoldable pub run_single :
      Step → ℕ → ℕ → String → Progress W × Except GoError Fields → Progress W × ToolStepOutcome
  unfolding fail_unless_optional set_missing_slots call_if_sealed verify_sealed_contract
  run_single step i total tool (q, err e) =
      fail_unless_optional step i total tool (text e.text) (args_failed step.name e)
        (set_missing_slots e) q
  run_single step i total tool (q, ok args) =
      call_if_sealed step i total tool args (verify_sealed_contract env step i total q)
