-- ===== src/Workflow/Examples.antt =====
-- Runs of the workflow engine at concrete inputs.
use compshare_agent.Prelude.{
  here, refl, ℕ, ◌+◌, String, true, false, none, some, List, [], ◌∷◌, ◌≡◌, ◌↔◌, ◌⊎◌, arith, All, ok,
  drop,
}
use compshare_agent.Value.{Fields, str, num, end, field, get_field}
use compshare_agent.Workflow.Form.{ConfirmForm, Overrides, validate_overrides}
use compshare_agent.Workflow.Form.Validation.{Allowed, validate_overrides_iff}
use compshare_agent.Workflow.Types.{
  StepFailure, Step, tool_call, confirm, submit_revalidate, unclassified, Definition,
}
use compshare_agent.Workflow.Batch.{BatchOutcome, encode_batch_outcomes, batch_results}
use compshare_agent.Workflow.Batch.RoundTrip.{batch_results-encode}
use compshare_agent.Workflow.Progress.{Env, emit, summarize, stop_at}
use compshare_agent.Workflow.BatchStep.{run_tool_step}
use compshare_agent.Workflow.Run.{
  start, run, run_step, run_by_type, after_confirm, record_step_failure, failure_at,
  confirm_gate_unpassed, any_confirm,
}
use compshare_agent.Workflow.SealedCalls.{IsCovered, IsSealed}
use compshare_agent.Workflow.SealedCalls.Runs.{calls-IsCovered}
use compshare_agent.Workflow.Polling.{Ticks, IsFinished, run_tool_step-IsFinished}
use compshare_agent.Workflow.Contract.{
  ExecutionStepContract, IsTrueOf, execution_contract, execution_contract-IsTrue,
}
use compshare_agent.Workflow.Stops.{SaysWhere}
use compshare_agent.Workflow.Failures.{
  Completes, StopsAt, arrived, with_contract, run-HasEnded, gate_left-IsUnauthorized,
}
use compshare_agent.Workflow.Seal.{new_context, split_runtime_metadata, delete_field, uint32_value}
use compshare_agent.Workflow.ConfirmStep.{
  run_confirm_step, confirm_loop, ask_once, build_form, present, plain_gate, cancel,
}

-- A digest that tells an empty map, and maps by their first key.
abbrev first_key : Fields → String
first_key end = ""
first_key (field k v m) = k

-- Surroundings whose state is their clock: a call takes a nanosecond, the user always agrees.
abbrev upstream : Env ℕ
upstream = record {
  execute = λ w tool args. (w + 1, ok (some (field "State" (str "Starting") end)));
  context_error = λ w. none;
  now = λ w. w;
  wait = λ w interval. (w + interval, none);
  digest = first_key;
  confirm_fn = some (λ w name args. (w, true));
  confirm_edits_fn = none;
}

upstream-Ticks : Ticks upstream
upstream-Ticks = record {
  execute_forward = λ w tool args. omega arith;
  wait_elapses = λ w interval done. omega arith;
}

abbrev gate : Step
gate = record {
  name = "confirm";
  type = confirm;
  tool = "";
  tool_func = none;
  build_args = λ c. (c.vars, ok c.vars.params);
  build_args_batch = none;
  check_result = none;
  resolve = none;
  skip_if = none;
  optional = false;
  poll = none;
  build_form = none;
  apply_overrides = none;
  revalidate_from = "";
  promote_on_confirm = none;
  confirm_submit_mode = submit_revalidate;
}

abbrev stop_call : Step
stop_call = record gate { name = "stop"; type = tool_call; tool = "StopCompShareInstance" }

-- Polls for a state that never comes.
abbrev wait_call : Step
wait_call = record stop_call {
  name = "wait";
  tool = "DescribeCompShareInstance";
  poll = some (record { interval = 5; timeout = 12 });
  check_result = some (λ reply c.
      (c.vars, record { passed = false; message = ""; pending = true; reason = unclassified }));
}

abbrev stop_instance : Definition
stop_instance = record {
  name = "StopInstanceWorkflow";
  steps = gate ∷ stop_call ∷ wait_call ∷ [];
  result_data = none;
  mutation_committed = none;
  failure_draft = none;
}

abbrev stop_params : Fields
stop_params = field "UHostId" (str "uhost-1") (field "organization_id" (num 2) end)

calls-IsCovered_example :
    All (IsCovered upstream stop_instance) (run upstream stop_instance stop_params 0).calls
    × IsSealed upstream (run upstream stop_instance stop_params 0).result.contract
calls-IsCovered_example = calls-IsCovered upstream stop_instance stop_params 0

run-HasEnded_example :
    let p = run upstream stop_instance stop_params 0 in
    ((Completes upstream stop_instance stop_params 0 × (p.result.success ≡ true))
      ⊎ ((stop : StopsAt upstream stop_instance stop_params 0) × (p
            ≡ with_contract upstream stop_instance
                (run_step upstream stop_instance stop.step stop.index 3 stop.before).0)
          × SaysWhere stop.step stop.rest p))
    × (p.result.contract ≡ p.sealed)
run-HasEnded_example = run-HasEnded upstream stop_instance stop_params 0

execution_contract-IsTrue_example :
    (c : ExecutionStepContract) × (cs : List ExecutionStepContract) × (drop 1
        (execution_contract (some stop_instance))
      ≡ c ∷ cs)
    × IsTrueOf stop_call c
execution_contract-IsTrue_example =
    execution_contract-IsTrue stop_instance 1 stop_call (wait_call ∷ []) refl

run_tool_step-IsFinished_example :
    IsFinished (run_tool_step upstream wait_call 2 3 (start upstream stop_params 0))
run_tool_step-IsFinished_example =
    run_tool_step-IsFinished upstream upstream-Ticks wait_call 2 3 (start upstream stop_params 0)

-- A form that lets the user choose between two zones, one of them sold out.
abbrev zone_form : ConfirmForm
zone_form = record {
  fields =
      record {
        key = "Zone";
        value = "cn-wlcb-01";
        editable = true;
        options =
            record { value = "cn-wlcb-01"; disabled = false }
            ∷ record { value = "cn-sh2-02"; disabled = true }
            ∷ [];
      }
      ∷ [];
}

abbrev zone_edit : Overrides
zone_edit = ("Zone", "cn-sh2-02") ∷ []

validate_overrides_iff_example :
    (validate_overrides zone_form zone_edit ≡ none) ↔ All (Allowed zone_form) zone_edit
validate_overrides_iff_example = validate_overrides_iff zone_form zone_edit

abbrev two_outcomes : List BatchOutcome
two_outcomes =
    record { key = "h1"; succeeded = true; result = some end; error = "" }
    ∷ record { key = "h2"; succeeded = false; result = none; error = "timeout" }
    ∷ []

batch_results-encode_example : batch_results (encode_batch_outcomes two_outcomes) ≡ two_outcomes
batch_results-encode_example = batch_results-encode two_outcomes

-- The user declines.
abbrev declining : Env ℕ
declining = record upstream { confirm_fn = some (λ w name args. (w, false)) }

declined : StopsAt declining stop_instance stop_params 0
unfolding run_step run_by_type after_confirm record_step_failure failure_at confirm_gate_unpassed
    any_confirm start new_context split_runtime_metadata delete_field uint32_value get_field
    run_confirm_step confirm_loop ask_once build_form present plain_gate cancel emit summarize
    stop_at
declined = record {
  index = 0;
  step = gate;
  rest = stop_call ∷ wait_call ∷ [];
  before = start declining stop_params 0;
  reached = arrived;
  stopped = refl;
}

gate_left-IsUnauthorized_example :
    (f : StepFailure) × ((run declining stop_instance stop_params 0).result.failure ≡ some f)
    × (f.step ≡ declined.step.name)
    × (f.execution_authorized ≡ false)
unfolding declined
gate_left-IsUnauthorized_example =
    gate_left-IsUnauthorized declining stop_instance stop_params 0 declined (here refl)
