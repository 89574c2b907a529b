-- ===== src/Workflow/Polling.antt =====
-- The polling loop of runToolStep ends, in a clock that moves.
use native.Mathlib.Nat.{div-add-mod, mod-lt}
use compshare_agent.Prelude.{
  ℕ, zero, suc, ◌+◌, ◌*◌, ◌/◌, ◌≤◌, ◌<◌, String, Bool, true, false, ◌||◌, Option, none, some, List,
  Except, ok, err, ◌≡◌, ◌≢◌, arith, leb, ltb, ◌==◌, if◌then◌else◌, inl, inr, Bool-cases,
  Option-cases, length,
}
use compshare_agent.Value.{Fields, end, field, arr}
use compshare_agent.Workflow.Types.{
  GoError, Step, PollPolicy, CheckOutcome, Message, text, args_failed, execution_failed,
  pending_without_poll, batch_all_failed, BatchCall,
}
use compshare_agent.Workflow.Batch.{BatchOutcome, encode_batch_outcomes}
use compshare_agent.Workflow.Progress.{
  Env, Progress, ToolStepOutcome, tool_step_unfinished, run_hook, execute_call,
  verify_sealed_contract, record_failure_reason, record_failed_args, set_error, set_missing_slots,
  store_result,
}
use compshare_agent.Workflow.ToolStep.{
  fail_unless_optional, tool_name, wait_or_stop, reject_response, judge, receive, poll_loop,
  start_polling, call_if_sealed, run_single,
}
use compshare_agent.Workflow.BatchStep.{
  count_succeeded, sent_args, fail_batch, check_batch, settle_batch, batch_if_sealed,
  run_batch_tool_step, run_tool_step,
}

-- Calls upstream do not turn the clock back, and a wait that elapses lasts its interval.
pub record Ticks {W : Type 0} (env : Env W) : Type 0 where
  pub execute_forward :
      (w : W) (tool : String) (args : Fields) → env.now w ≤ env.now (env.execute w tool args).0
  pub wait_elapses :
      (w : W) (interval : ℕ)
      → (env.wait w interval).1 ≡ none
      → env.now w + interval ≤ env.now (env.wait w interval).0

module _ {W : Type 0} where
  abbrev pub IsFinished : Progress W × ToolStepOutcome → Type 0
  IsFinished x = x.1 ≢ tool_step_unfinished

  IsFinished-if :
      (b : Bool) (x y : Progress W × ToolStepOutcome)
      → IsFinished x
      → IsFinished y
      → IsFinished (if b then x else y)
  IsFinished-if true x y hx hy = hx
  IsFinished-if false x y hx hy = hy

  fail_unless_optional-IsFinished :
      (step : Step) (i total : ℕ) (tool : String) (shown told : Message)
      (more : Progress W → Progress W) (p : Progress W)
      → IsFinished (fail_unless_optional step i total tool shown told more p)
  unfolding fail_unless_optional
  fail_unless_optional-IsFinished step i total tool shown told more p =
      elim (Bool-cases step.optional) [
        | inl e ↦ rw (e, fail_unless_optional) (λ bad. cc)
        | inr e ↦ rw (e, fail_unless_optional) (λ bad. cc)
      ]

module _ {W : Type 0} (env : Env W) (ticks : Ticks env) where
  reject_response-IsFinished :
      (step : Step) (i total : ℕ) (tool : String) (args : Fields) (outcome : CheckOutcome)
      (p : Progress W)
      → IsFinished (reject_response env step i total tool args outcome p)
  unfolding reject_response
  reject_response-IsFinished step i total tool args outcome p =
      let told : Message =
        (if outcome.pending then pending_without_poll step.name else text outcome.message) in
      fail_unless_optional-IsFinished step i total tool told told
        (λ q. record_failure_reason outcome.reason (record_failed_args args q)) p

  -- The next round ends, if it is reached: the time is not up, and an interval has passed.
  abbrev NextEnds : Step → ℕ → (Progress W → Progress W × ToolStepOutcome) → Progress W → Type 0
  NextEnds step deadline again p =
      (policy : PollPolicy) (q : Progress W)
      → step.poll ≡ some policy
      → env.now p.world < deadline
      → env.now p.world + policy.interval ≤ env.now q.world
      → IsFinished (again q)

  wait_or_stop-IsFinished :
      (step : Step) (i total : ℕ) (tool : String) (args : Fields) (policy : PollPolicy)
      (deadline : ℕ) (outcome : CheckOutcome) (again : Progress W → Progress W × ToolStepOutcome)
      (p : Progress W)
      → step.poll ≡ some policy
      → NextEnds step deadline again p
      → IsFinished
          (wait_or_stop env step i total tool args policy.interval deadline outcome again p)
  unfolding wait_or_stop
  wait_or_stop-IsFinished step i total tool args policy deadline outcome again p e next =
      elim (Bool-cases (leb deadline (env.now p.world))) [
        | inl late ↦ rw (late, wait_or_stop) (λ bad. cc)
        | inr early ↦ elim (Option-cases (env.wait p.world policy.interval).1) [
          | inl d ↦
              rw (early, d, wait_or_stop)
                (next policy _ e (ground arith) (ticks.wait_elapses p.world policy.interval d))
          | inr (x, d) ↦ rw (early, d, wait_or_stop) (λ bad. cc)
        ]
      ]

  judge-IsFinished :
      (step : Step) (i total : ℕ) (tool : String) (args : Fields) (deadline : ℕ)
      (reply : Option Fields) (again : Progress W → Progress W × ToolStepOutcome) (p : Progress W)
      (outcome : CheckOutcome)
      → NextEnds step deadline again p
      → IsFinished (judge env step i total tool args deadline reply again (p, outcome))
  unfolding judge
  judge-IsFinished step i total tool args deadline reply again p outcome next =
      IsFinished-if outcome.passed _ _ (λ bad. cc)
        (IsFinished-if outcome.pending _ _
          (elim (Option-cases step.poll) [
            | inl n ↦ rw n (reject_response-IsFinished step i total tool args outcome p)
            | inr (policy, n) ↦ rw n (
                wait_or_stop-IsFinished step i total tool args policy deadline outcome again p n
                  next)
          ])
          (reject_response-IsFinished step i total tool args outcome p))

  receive-IsFinished :
      (step : Step) (i total : ℕ) (tool : String) (args : Fields) (deadline : ℕ)
      (again : Progress W → Progress W × ToolStepOutcome) (p : Progress W)
      (reply : Except GoError (Option Fields))
      → NextEnds step deadline again p
      → IsFinished (receive env step i total tool args deadline again (p, reply))
  unfolding receive
  receive-IsFinished step i total tool args deadline again p (err e) next =
      fail_unless_optional-IsFinished step i total tool (text e.text) (execution_failed step.name e)
        (λ s. record_failed_args args (set_error e s)) p
  receive-IsFinished step i total tool args deadline again p (ok reply) next =
      elim (Option-cases step.check_result) [
        | inl e ↦ rw (e, receive) (λ bad. cc)
        | inr (check, e) ↦
            rw (e, receive) (judge-IsFinished step i total tool args deadline reply again _ _ next)
      ]

  poll_loop_without_poll :
      (step : Step) (i total : ℕ) (tool : String) (args basis : Fields) (deadline : ℕ)
      (p : Progress W)
      → step.poll ≡ none
      → IsFinished (poll_loop env 1 step i total tool args basis deadline p)
  unfolding poll_loop
  poll_loop_without_poll step i total tool args basis deadline p e =
      receive-IsFinished step i total tool args deadline
        (poll_loop env 0 step i total tool args basis deadline)
        (execute_call env tool args basis p).0 (execute_call env tool args basis p).1
        (λ policy q d late passed. cc)

  poll_loop-IsFinished :
      (n : ℕ) (step : Step) (i total : ℕ) (tool : String) (args basis : Fields) (deadline : ℕ)
      (p : Progress W) (policy : PollPolicy)
      → step.poll ≡ some policy
      → deadline ≤ env.now p.world + n * policy.interval
      → IsFinished (poll_loop env (suc n) step i total tool args basis deadline p)
  unfolding poll_loop execute_call
  poll_loop-IsFinished zero step i total tool args basis deadline p policy e fits =
      receive-IsFinished step i total tool args deadline
        (poll_loop env 0 step i total tool args basis deadline)
        (execute_call env tool args basis p).0 (execute_call env tool args basis p).1
        (λ other q d early passed. absurd (omega (arith, ticks.execute_forward p.world tool args)))
  poll_loop-IsFinished (suc n) step i total tool args basis deadline p policy e fits =
      receive-IsFinished step i total tool args deadline
        (poll_loop env (suc n) step i total tool args basis deadline)
        (execute_call env tool args basis p).0 (execute_call env tool args basis p).1
        (λ other q d early passed.
          let same : other.interval ≡ policy.interval = ground arith in
          poll_loop-IsFinished n step i total tool args basis deadline q policy e
            (omega (arith, ticks.execute_forward p.world tool args, same)))

  rounds_enough :
      (start timeout interval : ℕ)
      → 0 < interval
      → start + timeout ≤ start + suc (timeout / interval) * interval
  rounds_enough start timeout interval h =
      omega (arith, div-add-mod timeout interval, mod-lt timeout h)

  start_polling-IsFinished :
      (step : Step) (i total : ℕ) (tool : String) (args : Fields) (p : Progress W)
      → IsFinished (start_polling env step i total tool args p)
  unfolding start_polling
  start_polling-IsFinished step i total tool args p = elim (Option-cases step.poll) [
    | inl e ↦
        rw (e, start_polling) (poll_loop_without_poll step i total tool args p.vars.params 0 p e)
    | inr (policy, e) ↦ elim (Bool-cases (policy.interval == 0 || policy.timeout == 0)) [
      | inl bad ↦ rw (e, bad, start_polling) (λ eq. cc)
      | inr good ↦
          rw (e, good, start_polling)
            (poll_loop-IsFinished (suc (policy.timeout / policy.interval)) step i total tool args
              p.vars.params (env.now p.world + policy.timeout) p policy e
              (rounds_enough (env.now p.world) policy.timeout policy.interval (ground arith)))
    ]
  ]

  call_if_sealed-IsFinished :
      (step : Step) (i total : ℕ) (tool : String) (args : Fields) (q : Progress W) (agreed : Bool)
      → IsFinished (call_if_sealed env step i total tool args (q, agreed))
  unfolding call_if_sealed
  call_if_sealed-IsFinished step i total tool args q false = λ bad. cc
  call_if_sealed-IsFinished step i total tool args q true =
      start_polling-IsFinished step i total tool args _

  run_single-IsFinished :
      (step : Step) (i total : ℕ) (tool : String) (q : Progress W) (built : Except GoError Fields)
      → IsFinished (run_single env step i total tool (q, built))
  unfolding run_single
  run_single-IsFinished step i total tool q (err e) =
      fail_unless_optional-IsFinished step i total tool (text e.text) (args_failed step.name e)
        (set_missing_slots e) q
  run_single-IsFinished step i total tool q (ok args) =
      call_if_sealed-IsFinished step i total tool args (verify_sealed_contract env step i total q).0
        (verify_sealed_contract env step i total q).1

  fail_batch-IsFinished :
      (step : Step) (i total : ℕ) (tool : String) (told : Message) (more : Progress W → Progress W)
      (p : Progress W)
      → IsFinished (fail_batch env step i total tool told more p)
  unfolding fail_batch
  fail_batch-IsFinished step i total tool told more p =
      fail_unless_optional-IsFinished step i total tool told told more p

  check_batch-IsFinished :
      (step : Step) (i total : ℕ) (tool : String) (sent collected : Fields) (p : Progress W)
      → IsFinished (check_batch env step i total tool sent collected p)
  unfolding check_batch
  check_batch-IsFinished step i total tool sent collected p =
      elim (Option-cases step.check_result) [
        | inl e ↦ rw (e, check_batch) (λ bad. cc)
        | inr (check, e) ↦
            (let (q, verdict) =
                run_hook (check (some collected)) (store_result step (some collected) p) in
              rw e (
                IsFinished-if verdict.passed _
                  (fail_batch env step i total tool (text verdict.message)
                    (λ s. record_failure_reason verdict.reason (record_failed_args sent s)) q)
                  (λ bad. cc)
                  (fail_batch-IsFinished step i total tool (text verdict.message)
                    (λ s. record_failure_reason verdict.reason (record_failed_args sent s)) q)))
      ]

  settle_batch-IsFinished :
      (step : Step) (i total : ℕ) (tool : String) (calls : List BatchCall) (q : Progress W)
      (outcomes : List BatchOutcome)
      → IsFinished (settle_batch env step i total tool calls (q, outcomes))
  unfolding settle_batch
  settle_batch-IsFinished step i total tool calls q outcomes =
      let sent = field "Batch" (arr (sent_args 0 calls)) end in
      let collected = encode_batch_outcomes outcomes in
      let checked = check_batch env step i total tool sent collected q in
      let failed =
        fail_batch env step i total tool (batch_all_failed step.name) (record_failed_args sent) q in
      let checked_ends = check_batch-IsFinished step i total tool sent collected q in
      IsFinished-if (ltb 0 (length calls))
        (if count_succeeded outcomes == 0 then failed else checked) checked
        (IsFinished-if (count_succeeded outcomes == 0) failed checked
          (fail_batch-IsFinished step i total tool (batch_all_failed step.name)
            (record_failed_args sent) q)
          checked_ends)
        checked_ends

  run_batch_tool_step-IsFinished :
      (step : Step) (i total : ℕ) (tool : String) (q : Progress W)
      (built : Except GoError (List BatchCall))
      → IsFinished (run_batch_tool_step env step i total tool (q, built))
  unfolding run_batch_tool_step
  run_batch_tool_step-IsFinished step i total tool q (err e) =
      fail_batch-IsFinished step i total tool (args_failed step.name e) (set_missing_slots e) q
  run_batch_tool_step-IsFinished step i total tool q (ok calls) =
      sealed_or_not (verify_sealed_contract env step i total q).0
        (verify_sealed_contract env step i total q).1
    where
      sealed_or_not :
          (s : Progress W) (agreed : Bool)
          → IsFinished (batch_if_sealed env step i total tool calls (s, agreed))
      sealed_or_not s false = λ bad. cc
      sealed_or_not s true = settle_batch-IsFinished step i total tool calls _ _

  -- In surroundings whose clock never goes back and advances by at least the interval over each
  -- wait, the polling rounds of the model are enough: a tool step, single or batch, always ends
  -- as ok, skipped or failed, whatever the upstream answers.
  pub run_tool_step-IsFinished :
      (step : Step) (i total : ℕ) (p : Progress W) → IsFinished (run_tool_step env step i total p)
  unfolding run_tool_step
  run_tool_step-IsFinished step i total p =
      let q = (tool_name step p).0 in
      let tool = (tool_name step p).1 in
      elim (Option-cases step.build_args_batch) [
        | inl e ↦
            rw (e, run_tool_step)
              (run_single-IsFinished step i total tool (run_hook step.build_args q).0
                (run_hook step.build_args q).1)
        | inr (build, e) ↦
            rw (e, run_tool_step)
              (run_batch_tool_step-IsFinished step i total tool (run_hook build q).0
                (run_hook build q).1)
      ]
