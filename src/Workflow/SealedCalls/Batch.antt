-- ===== src/Workflow/SealedCalls/Batch.antt =====
-- The calls of a batch step under the seal, and both kinds of tool step together.
use compshare_agent.Prelude.{
  ℕ, suc, String, Bool, true, false, Option, none, some, List, [], ◌∷◌, Except, ok, err, ◌≡◌, refl,
  ltb, ◌==◌, if◌then◌else◌, length, ap, All, Has, All-map, All-Has, inl, inr, Option-cases,
  Bool-cases,
}
use compshare_agent.Value.{Fields, end, field, arr}
use compshare_agent.Workflow.Types.{
  GoError, Hook, Definition, Step, Message, text, args_failed, batch_all_failed, BatchCall,
}
use compshare_agent.Workflow.Batch.{BatchOutcome, max_batch_calls, encode_batch_outcomes}
use compshare_agent.Workflow.Progress.{
  Env, Progress, context_of, run_hook, execute_call, verify_sealed_contract, record_failure_reason,
  record_failed_args, set_missing_slots, store_result,
}
use compshare_agent.Workflow.BatchStep.{
  batch_call, batch_loop, count_succeeded, sent_args, fail_batch, check_batch, settle_batch,
  batch_if_sealed, run_batch_tool_step, run_tool_step,
}
use compshare_agent.Workflow.ToolStep.{tool_name}
use compshare_agent.Workflow.SealedCalls.{
  Matches, IsStepOf, NamedBy, IsBuilt, single, one_of_batch, Inv, if-Inv, fail_unless_optional-Inv,
  verify_sealed_contract-Inv,
}
use compshare_agent.Workflow.SealedCalls.Single.{
  execute_call-Inv, record_failure_reason-Inv, run_single-Inv, tool_name-Inv, tool_name-NamedBy,
}

module _ {W : Type 0} (env : Env W) (def : Definition) where
  -- What the loop starts from: the arguments of each call to come are ready.
  abbrev ReadyAll : String → List BatchCall → Fields → Progress W → Type 0
  ReadyAll tool calls basis p =
      Inv env def p
      × Matches env p.sealed basis
      × All (λ call. IsBuilt def p.sealed tool call.args basis) calls

  execute_call-ReadyAll :
      (tool : String) (basis : Fields) (call : BatchCall) (rest : List BatchCall) (p : Progress W)
      → ReadyAll tool (call ∷ rest) basis p
      → ReadyAll tool rest basis (execute_call env tool call.args basis p).0
  unfolding execute_call
  execute_call-ReadyAll tool basis call rest p (inv, matches, built) =
      (execute_call-Inv env def tool call.args basis p (inv, matches, built.0), matches, built.1)

  batch_call-ReadyAll :
      (tool : String) (basis : Fields) (call : BatchCall) (rest : List BatchCall) (p : Progress W)
      → ReadyAll tool (call ∷ rest) basis p
      → ReadyAll tool rest basis (batch_call env tool basis call p).0
  unfolding batch_call
  batch_call-ReadyAll tool basis call rest p h =
      reply (execute_call env tool call.args basis p).1 refl
    where
      kept : ReadyAll tool rest basis (execute_call env tool call.args basis p).0
      kept = execute_call-ReadyAll tool basis call rest p h

      reply :
          (r : Except GoError (Option Fields))
          → (execute_call env tool call.args basis p).1 ≡ r
          → ReadyAll tool rest basis (batch_call env tool basis call p).0
      reply (err e) eq = rw (eq, batch_call) kept
      reply (ok out) eq = rw (eq, batch_call) kept

  batch_loop-Inv :
      (tool : String) (basis : Fields) (idx : ℕ) (calls : List BatchCall) (p : Progress W)
      → ReadyAll tool calls basis p
      → Inv env def (batch_loop env tool basis idx calls p).0
  unfolding batch_loop
  batch_loop-Inv tool basis idx [] p h = h.0
  batch_loop-Inv tool basis idx (call ∷ rest) p h = elim (Bool-cases (ltb idx max_batch_calls)) [
    | inl e ↦
        rw (e, batch_loop)
          (batch_loop-Inv tool basis (suc idx) rest _
            (batch_call-ReadyAll tool basis call rest p h))
    | inr e ↦ rw (e, batch_loop) (batch_loop-Inv tool basis (suc idx) rest p (h.0, h.1, h.2.1))
  ]

  fail_batch-Inv :
      (step : Step) (i total : ℕ) (tool : String) (told : Message) (more : Progress W → Progress W)
      (p : Progress W)
      → ((q : Progress W) → Inv env def q → Inv env def (more q))
      → Inv env def p
      → Inv env def (fail_batch env step i total tool told more p).0
  unfolding fail_batch
  fail_batch-Inv step i total tool told more p keep h =
      fail_unless_optional-Inv env def step i total tool told told more p keep h

  check_batch-Inv :
      (step : Step) (i total : ℕ) (tool : String) (sent collected : Fields) (p : Progress W)
      → Inv env def p
      → Inv env def (check_batch env step i total tool sent collected p).0
  unfolding check_batch
  check_batch-Inv step i total tool sent collected p h = elim (Option-cases step.check_result) [
    | inl e ↦ rw (e, check_batch) h
    | inr (check, e) ↦
        (let stored = store_result step (some collected) p in
          let (q, verdict) = run_hook (check (some collected)) stored in
          rw e (
            if-Inv env def verdict.passed _ _ h (
              fail_batch-Inv step i total tool (text verdict.message)
                (λ s. record_failure_reason verdict.reason (record_failed_args sent s)) q
                (λ s k.
                  record_failure_reason-Inv env def verdict.reason (record_failed_args sent s) k)
                h)))
  ]

  settle_batch-Inv :
      (step : Step) (i total : ℕ) (tool : String) (calls : List BatchCall) (q : Progress W)
      (outcomes : List BatchOutcome)
      → Inv env def q
      → Inv env def (settle_batch env step i total tool calls (q, outcomes)).0
  unfolding settle_batch
  settle_batch-Inv step i total tool calls q outcomes h =
      let sent = field "Batch" (arr (sent_args 0 calls)) end in
      let checked = check_batch-Inv step i total tool sent (encode_batch_outcomes outcomes) q h in
      let failed =
        fail_batch-Inv step i total tool (batch_all_failed step.name) (record_failed_args sent) q
          (λ s k. k) h in
      if-Inv env def (ltb 0 (length calls))
        (if count_succeeded outcomes == 0
          then fail_batch env step i total tool (batch_all_failed step.name)
              (record_failed_args sent) q
          else check_batch env step i total tool sent (encode_batch_outcomes outcomes) q)
        (check_batch env step i total tool sent (encode_batch_outcomes outcomes) q)
        (if-Inv env def (count_succeeded outcomes == 0)
          (fail_batch env step i total tool (batch_all_failed step.name) (record_failed_args sent)
            q)
          (check_batch env step i total tool sent (encode_batch_outcomes outcomes) q) failed
          checked)
        checked

  batch_if_sealed-Inv :
      (step : Step) (i total : ℕ) (tool : String) (calls : List BatchCall) (q : Progress W)
      (agreed : Bool)
      → Inv env def q
      → (agreed ≡ true → Matches env q.sealed q.vars.params)
      → All (λ call. IsBuilt def q.sealed tool call.args q.vars.params) calls
      → Inv env def (batch_if_sealed env step i total tool calls (q, agreed)).0
  unfolding batch_if_sealed
  batch_if_sealed-Inv step i total tool calls q false h m built = h
  batch_if_sealed-Inv step i total tool calls q true h m built =
      settle_batch-Inv step i total tool calls _ _
        (batch_loop-Inv tool q.vars.params 0 calls _ (h, m refl, built))

  run_batch_tool_step-Inv :
      (step : Step) (i total : ℕ) (tool : String) (q : Progress W)
      (built : Except GoError (List BatchCall))
      → ((calls : List BatchCall)
          → built ≡ ok calls
          → All (λ call. IsBuilt def q.sealed tool call.args q.vars.params) calls)
      → Inv env def q
      → Inv env def (run_batch_tool_step env step i total tool (q, built)).0
  unfolding run_batch_tool_step
  run_batch_tool_step-Inv step i total tool q (err e) source h =
      fail_batch-Inv step i total tool (args_failed step.name e) (set_missing_slots e) q (λ s k. k)
        h
  run_batch_tool_step-Inv step i total tool q (ok calls) source h =
      let (kept, (agrees, same_seal, same_vars)) =
        verify_sealed_contract-Inv env def step i total q h in
      batch_if_sealed-Inv step i total tool calls (verify_sealed_contract env step i total q).0
        (verify_sealed_contract env step i total q).1 kept agrees
        (rw (same_seal, same_vars) (source calls refl))

  -- The closure that builds the arguments is called on a context with the contract in force.
  single-IsBuilt :
      (step : Step) (tool : String) (p : Progress W)
      → IsStepOf def step
      → NamedBy step tool
      → step.build_args_batch ≡ none
      → (args : Fields) → (run_hook step.build_args p).1 ≡ ok args
      → IsBuilt def p.sealed tool args (run_hook step.build_args p).0.vars.params
  single-IsBuilt step tool p member named e args gave = (
    step,
    member,
    named,
    single (context_of p) (step.build_args (context_of p)).0 refl e
        (ap (λ r. ((step.build_args (context_of p)).0, r)) gave) refl,
  )

  batch-IsBuilt :
      (step : Step) (tool : String) (build : Hook (Except GoError (List BatchCall)))
      (p : Progress W)
      → IsStepOf def step
      → NamedBy step tool
      → step.build_args_batch ≡ some build
      → (calls : List BatchCall) → (run_hook build p).1 ≡ ok calls
      → All (λ call. IsBuilt def p.sealed tool call.args (run_hook build p).0.vars.params) calls
  batch-IsBuilt step tool build p member named e calls gave =
      All-map (λ call. (a : Fields) → call.args ≡ a → Has (λ c. c.args ≡ a) calls)
        (λ call. IsBuilt def p.sealed tool call.args (run_hook build p).0.vars.params)
        (λ call f. (
          step,
          member,
          named,
          one_of_batch (context_of p) (build (context_of p)).0 build calls refl e
              (ap (λ r. ((build (context_of p)).0, r)) gave) (f call.args refl) refl,
        ))
        calls (All-Has (λ (a : Fields) (call : BatchCall). call.args ≡ a) calls)

  pub run_tool_step-Inv :
      (step : Step) (i total : ℕ) (p : Progress W)
      → IsStepOf def step
      → Inv env def p
      → Inv env def (run_tool_step env step i total p).0
  unfolding run_tool_step
  run_tool_step-Inv step i total p member h =
      let q = (tool_name step p).0 in
      let tool = (tool_name step p).1 in
      let kept = tool_name-Inv env def step p h in
      let named = tool_name-NamedBy env def step p in
      elim (Option-cases step.build_args_batch) [
        | inl e ↦
            rw (e, run_tool_step)
              (run_single-Inv env def step i total tool (run_hook step.build_args q).0
                (run_hook step.build_args q).1 (single-IsBuilt step tool q member named e) kept)
        | inr (build, e) ↦
            rw (e, run_tool_step)
              (run_batch_tool_step-Inv step i total tool (run_hook build q).0 (run_hook build q).1
                (batch-IsBuilt step tool build q member named e) kept)
      ]
