-- ===== src/Workflow/SealedCalls/Single.antt =====
-- The calls of a single tool step, and a resolve step, under the seal.
use compshare_agent.Prelude.{
  ℕ, zero, suc, String, Bool, true, false, Option, none, some, Except, ok, err, ◌≡◌, refl, inl, inr,
  Bool-cases, Option-cases, str_eq, leb, if◌then◌else◌, ◌==◌, ◌||◌, ◌+◌, ◌/◌,
}
use compshare_agent.Value.{Fields}
use compshare_agent.Workflow.Types.{
  GoError, Hook, Definition, Step, text, execution_failed, args_failed, pending_without_poll,
  poll_not_positive, tool_call, FailureReason, unclassified, capacity_sold_out, CheckOutcome,
  Message,
}
use compshare_agent.Workflow.Progress.{
  Env, Progress, context_of, ToolStepOutcome, tool_step_failed, execute_call,
  verify_sealed_contract, record_failure_reason, record_failed_args, set_error, set_missing_slots,
  fail_stop,
}
use compshare_agent.Workflow.ToolStep.{
  tool_name, check_purity, run_resolve_step, wait_or_stop, reject_response, judge, receive,
  poll_loop, start_polling, call_if_sealed, run_single,
}
use compshare_agent.Workflow.SealedCalls.{
  Matches, NamedBy, fixed, chosen, IsBuilt, Inv, if-Inv, fail_unless_optional-Inv,
  verify_sealed_contract-Inv,
}

module _ {W : Type 0} (env : Env W) (def : Definition) where
  -- What one polling round starts from: the arguments are built for the contract in force, and it
  -- agrees with the params.
  abbrev pub Ready : String → Fields → Fields → Progress W → Type 0
  Ready tool args basis p =
      Inv env def p × Matches env p.sealed basis × IsBuilt def p.sealed tool args basis

  pub execute_call-Inv :
      (tool : String) (args basis : Fields) (p : Progress W)
      → Ready tool args basis p
      → Inv env def (execute_call env tool args basis p).0
  unfolding execute_call
  execute_call-Inv tool args basis p (inv, matches, built) =
      (inv.0, (((inv.0, matches), built, (p.world, refl)), inv.1))

  execute_call-Ready :
      (tool : String) (args basis : Fields) (p : Progress W)
      → Ready tool args basis p
      → Ready tool args basis (execute_call env tool args basis p).0
  unfolding execute_call
  execute_call-Ready tool args basis p h = (execute_call-Inv tool args basis p h, h.1, h.2)

  pub record_failure_reason-Inv :
      (reason : FailureReason) (p : Progress W)
      → Inv env def p
      → Inv env def (record_failure_reason reason p)
  unfolding record_failure_reason
  record_failure_reason-Inv unclassified p h = h
  record_failure_reason-Inv capacity_sold_out p h = h

  reject_response-Inv :
      (step : Step) (i total : ℕ) (tool : String) (args : Fields) (outcome : CheckOutcome)
      (p : Progress W)
      → Inv env def p
      → Inv env def (reject_response env step i total tool args outcome p).0
  unfolding reject_response
  reject_response-Inv step i total tool args outcome p h =
      let told : Message =
        (if outcome.pending then pending_without_poll step.name else text outcome.message) in
      fail_unless_optional-Inv env def step i total tool told told
        (λ q. record_failure_reason outcome.reason (record_failed_args args q)) p
        (λ q k. record_failure_reason-Inv outcome.reason (record_failed_args args q) k) h

  module _ (tool : String) (args basis : Fields) (again : Progress W → Progress W × ToolStepOutcome)
      (keep : (q : Progress W) → Ready tool args basis q → Inv env def (again q).0) where
    wait_or_stop-Inv :
        (step : Step) (i total : ℕ) (interval deadline : ℕ) (outcome : CheckOutcome)
        (p : Progress W)
        → Ready tool args basis p
        → Inv env def (wait_or_stop env step i total tool args interval deadline outcome again p).0
    unfolding wait_or_stop
    wait_or_stop-Inv step i total interval deadline outcome p h =
        elim (Bool-cases (leb deadline (env.now p.world))) [
          | inl e ↦ rw (e, wait_or_stop) h.0
          | inr e ↦ elim (Option-cases (env.wait p.world interval).1) [
            | inl d ↦ rw (e, d, wait_or_stop) (keep _ h)
            | inr (x, d) ↦ rw (e, d, wait_or_stop) h.0
          ]
        ]

    judge-Inv :
        (step : Step) (i total : ℕ) (deadline : ℕ) (reply : Option Fields) (p : Progress W)
        (outcome : CheckOutcome)
        → Ready tool args basis p
        → Inv env def (judge env step i total tool args deadline reply again (p, outcome)).0
    unfolding judge
    judge-Inv step i total deadline reply p outcome h = if-Inv env def outcome.passed _ _ h.0 (
        if-Inv env def outcome.pending _ _
          (elim (Option-cases step.poll) [
            | inl n ↦ rw n (reject_response-Inv step i total tool args outcome p h.0)
            | inr (policy, n) ↦
                rw n (wait_or_stop-Inv step i total policy.interval deadline outcome p h)
          ])
          (reject_response-Inv step i total tool args outcome p h.0))

    receive-Inv :
        (step : Step) (i total : ℕ) (deadline : ℕ) (p : Progress W)
        (reply : Except GoError (Option Fields))
        → Ready tool args basis p
        → Inv env def (receive env step i total tool args deadline again (p, reply)).0
    unfolding receive
    receive-Inv step i total deadline p (err e) h =
        fail_unless_optional-Inv env def step i total tool (text e.text)
          (execution_failed step.name e) (λ s. record_failed_args args (set_error e s)) p (λ q k. k)
          h.0
    receive-Inv step i total deadline p (ok reply) h = elim (Option-cases step.check_result) [
      | inl e ↦ rw (e, receive) h.0
      | inr (check, e) ↦ rw (e, receive) (judge-Inv step i total deadline reply _ _ h)
    ]

  poll_loop-Inv :
      (rounds : ℕ) (step : Step) (i total : ℕ) (tool : String) (args basis : Fields) (deadline : ℕ)
      (p : Progress W)
      → Ready tool args basis p
      → Inv env def (poll_loop env rounds step i total tool args basis deadline p).0
  unfolding poll_loop
  poll_loop-Inv zero step i total tool args basis deadline p h = h.0
  poll_loop-Inv (suc rounds) step i total tool args basis deadline p h =
      receive-Inv tool args basis (poll_loop env rounds step i total tool args basis deadline)
        (poll_loop-Inv rounds step i total tool args basis deadline) step i total deadline _ _
        (execute_call-Ready tool args basis p h)

  start_polling-Inv :
      (step : Step) (i total : ℕ) (tool : String) (args : Fields) (p : Progress W)
      → Ready tool args p.vars.params p
      → Inv env def (start_polling env step i total tool args p).0
  unfolding start_polling fail_stop
  start_polling-Inv step i total tool args p h = elim (Option-cases step.poll) [
    | inl e ↦ rw (e, start_polling) (poll_loop-Inv 1 step i total tool args _ 0 p h)
    | inr (policy, e) ↦
        rw (e, start_polling)
          (if-Inv env def (policy.interval == 0 || policy.timeout == 0)
            (
              fail_stop step i total tool_call tool (poll_not_positive step.name) p,
              tool_step_failed,
            )
            (poll_loop env (suc (suc (policy.timeout / policy.interval))) step i total tool args
              p.vars.params (env.now p.world + policy.timeout) p)
            h.0 (poll_loop-Inv _ step i total tool args _ _ p h))
  ]

  call_if_sealed-Inv :
      (step : Step) (i total : ℕ) (tool : String) (args : Fields) (q : Progress W) (agreed : Bool)
      → Inv env def q
      → (agreed ≡ true → Matches env q.sealed q.vars.params)
      → IsBuilt def q.sealed tool args q.vars.params
      → Inv env def (call_if_sealed env step i total tool args (q, agreed)).0
  unfolding call_if_sealed
  call_if_sealed-Inv step i total tool args q false h m built = h
  call_if_sealed-Inv step i total tool args q true h m built =
      start_polling-Inv step i total tool args _ (h, m refl, built)

  pub run_single-Inv :
      (step : Step) (i total : ℕ) (tool : String) (q : Progress W) (built : Except GoError Fields)
      → ((args : Fields) → built ≡ ok args → IsBuilt def q.sealed tool args q.vars.params)
      → Inv env def q
      → Inv env def (run_single env step i total tool (q, built)).0
  unfolding run_single
  run_single-Inv step i total tool q (err e) source h =
      fail_unless_optional-Inv env def step i total tool (text e.text) (args_failed step.name e)
        (set_missing_slots e) q (λ s k. k) h
  run_single-Inv step i total tool q (ok args) source h =
      let (kept, (agrees, same_seal, same_vars)) =
        verify_sealed_contract-Inv env def step i total q h in
      call_if_sealed-Inv step i total tool args (verify_sealed_contract env step i total q).0
        (verify_sealed_contract env step i total q).1 kept agrees
        (rw (same_seal, same_vars) (source args refl))

  pub tool_name-Inv :
      (step : Step) (p : Progress W) → Inv env def p → Inv env def (tool_name step p).0
  unfolding tool_name
  tool_name-Inv step p h = elim (Option-cases step.tool_func) [
    | inl e ↦ rw (e, tool_name) h
    | inr (f, e) ↦ rw (e, tool_name) h
  ]

  tool_name-fixed :
      (step : Step) (p : Progress W) → step.tool_func ≡ none → (tool_name step p).1 ≡ step.tool
  unfolding tool_name
  tool_name-fixed step p e = rw e refl

  tool_name-chosen :
      (step : Step) (f : Hook String) (p : Progress W)
      → step.tool_func ≡ some f
      → (tool_name step p).1 ≡ (f (context_of p)).1
  unfolding tool_name
  tool_name-chosen step f p e = rw e refl

  pub tool_name-NamedBy : (step : Step) (p : Progress W) → NamedBy step (tool_name step p).1
  tool_name-NamedBy step p = elim (Option-cases step.tool_func) [
    | inl e ↦ rw (tool_name-fixed step p e) (fixed e)
    | inr (f, e) ↦ rw (tool_name-chosen step f p e) (chosen (context_of p) f e)
  ]

  check_purity-Inv :
      (step : Step) (i total : ℕ) (before : String) (q : Progress W)
      (out : Except GoError (Option Fields))
      → Inv env def q
      → Inv env def (check_purity env step i total before (q, out)).0
  unfolding check_purity
  check_purity-Inv step i total before q (err e) h = h
  check_purity-Inv step i total before q (ok out) h =
      elim (Bool-cases (str_eq (env.digest q.vars.params) before)) [
        | inl e ↦ rw (e, check_purity) h
        | inr e ↦ rw (e, check_purity) h
      ]

  pub run_resolve_step-Inv :
      (step : Step) (i total : ℕ) (p : Progress W)
      → Inv env def p
      → Inv env def (run_resolve_step env step i total p).0
  unfolding run_resolve_step
  run_resolve_step-Inv step i total p h = elim (Option-cases step.resolve) [
    | inl e ↦ rw (e, run_resolve_step) h
    | inr (f, e) ↦ rw (e, run_resolve_step) (check_purity-Inv step i total _ _ _ h)
  ]
