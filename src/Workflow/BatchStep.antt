-- ===== src/Workflow/BatchStep.antt =====
-- internal/workflow/engine.go: runBatchToolStep, and runToolStep over both kinds of call.
use compshare_agent.Prelude.{
  ℕ, suc, String, Bool, true, false, none, some, List, [], ◌∷◌, Except, ok, err, ltb, ◌==◌,
  if◌then◌else◌, length,
}
use compshare_agent.Value.{Items, Fields, num, obj, arr, nil, cons, end, field}
use compshare_agent.Workflow.Types.{
  GoError, tool_call, BatchCall, Step, Message, text, args_failed, batch_all_failed, running,
  succeeded,
}
use compshare_agent.Workflow.Batch.{
  BatchOutcome, max_batch_calls, not_attempted, encode_batch_outcomes,
}
use compshare_agent.Workflow.Progress.{
  Env, Progress, ToolStepOutcome, tool_step_ok, tool_step_failed, run_hook, emit, summarize,
  set_missing_slots, record_failed_args, record_failure_reason, store_result, execute_call,
  verify_sealed_contract,
}
use compshare_agent.Workflow.ToolStep.{fail_unless_optional, tool_name, run_single}

module _ {W : Type 0} (env : Env W) where
  -- One iteration of the loop of runBatchToolStep.
  unfoldable pub batch_call : String → Fields → BatchCall → Progress W → Progress W × BatchOutcome
  unfolding execute_call
  batch_call tool basis call p =
      let (q, reply) = execute_call env tool call.args basis p in
      elim reply [
        | err e ↦ (q, record { key = call.key; succeeded = false; result = none; error = e.text })
        | ok out ↦ (
          q,
          record {
            key = call.key;
            succeeded = true;
            result = some (elim out [ none ↦ end | some r ↦ r ]);
            error = "";
          },
        )
      ]

  -- The loop of runBatchToolStep; `idx` counts the calls before.
  unfoldable pub batch_loop :
      String → Fields → ℕ → List BatchCall → Progress W → Progress W × List BatchOutcome
  batch_loop tool basis idx [] p = (p, [])
  batch_loop tool basis idx (call ∷ rest) p =
      let skipped : BatchOutcome = record {
        key = call.key;
        succeeded = false;
        result = none;
        error = not_attempted;
      } in
      let (q, outcome) =
        (if ltb idx max_batch_calls then batch_call tool basis call p else (p, skipped)) in
      let (r, outcomes) = batch_loop tool basis (suc idx) rest q in (r, outcome ∷ outcomes)

unfoldable pub count_succeeded : List BatchOutcome → ℕ
count_succeeded [] = 0
count_succeeded (o ∷ os) = if o.succeeded then suc (count_succeeded os) else count_succeeded os

-- `sent`: the arguments of the calls within the bound.
unfoldable pub sent_args : ℕ → List BatchCall → Items
sent_args idx [] = nil
sent_args idx (call ∷ rest) =
    if ltb idx max_batch_calls
    then cons (obj call.args) (sent_args (suc idx) rest)
    else sent_args (suc idx) rest

module _ {W : Type 0} (env : Env W) where
  -- The closure `fail` of runBatchToolStep.
  unfoldable pub fail_batch :
      Step
      → ℕ
      → ℕ
      → String
      → Message
      → (Progress W → Progress W)
      → Progress W
      → Progress W × ToolStepOutcome
  unfolding fail_unless_optional
  fail_batch step i total tool told more p = fail_unless_optional step i total tool told told more p

  unfoldable pub check_batch :
      Step → ℕ → ℕ → String → Fields → Fields → Progress W → Progress W × ToolStepOutcome
  unfolding store_result emit summarize fail_batch record_failed_args record_failure_reason
  check_batch step i total tool sent collected p =
      let stored = store_result step (some collected) p in
      let done = λ (q : Progress W).
        summarize step succeeded none (emit step i total tool_call succeeded tool none none q) in
      elim step.check_result [
        | none ↦ (done stored, tool_step_ok)
        | some check ↦
            (let (q, verdict) = run_hook (check (some collected)) stored in
              if verdict.passed
              then (done q, tool_step_ok)
              else fail_batch step i total tool (text verdict.message)
                  (λ s. record_failure_reason verdict.reason (record_failed_args sent s)) q)
      ]

  unfoldable pub settle_batch :
      Step
      → ℕ
      → ℕ
      → String
      → List BatchCall
      → Progress W × List BatchOutcome
      → Progress W × ToolStepOutcome
  unfolding fail_batch record_failed_args check_batch
  settle_batch step i total tool calls (q, outcomes) =
      let sent = field "Batch" (arr (sent_args 0 calls)) end in
      let checked = check_batch step i total tool sent (encode_batch_outcomes outcomes) q in
      if ltb 0 (length calls)
      then (if count_succeeded outcomes == 0
          then fail_batch step i total tool (batch_all_failed step.name) (record_failed_args sent) q
          else checked)
      else checked

  unfoldable pub batch_if_sealed :
      Step → ℕ → ℕ → String → List BatchCall → Progress W × Bool → Progress W × ToolStepOutcome
  unfolding settle_batch
  batch_if_sealed step i total tool calls (q, false) = (q, tool_step_failed)
  batch_if_sealed step i total tool calls (q, true) = settle_batch step i total tool calls (
      batch_loop env tool q.vars.params 0 calls (
        emit step i total tool_call running tool (some (field "BatchSize" (num (length calls)) end))
          none q))

  -- Engine.runBatchToolStep, once the calls are built.
  unfoldable pub run_batch_tool_step :
      Step
      → ℕ
      → ℕ
      → String
      → Progress W × Except GoError (List BatchCall)
      → Progress W × ToolStepOutcome
  unfolding fail_batch set_missing_slots batch_if_sealed
  run_batch_tool_step step i total tool (q, err e) =
      fail_batch step i total tool (args_failed step.name e) (set_missing_slots e) q
  run_batch_tool_step step i total tool (q, ok calls) =
      batch_if_sealed step i total tool calls (verify_sealed_contract env step i total q)

  -- Engine.runToolStep.
  unfoldable pub run_tool_step : Step → ℕ → ℕ → Progress W → Progress W × ToolStepOutcome
  unfolding tool_name run_batch_tool_step
  run_tool_step step i total p =
      let (q, tool) = tool_name step p in
      elim step.build_args_batch [
        | none ↦ run_single env step i total tool (run_hook step.build_args q)
        | some build ↦ run_batch_tool_step step i total tool (run_hook build q)
      ]
