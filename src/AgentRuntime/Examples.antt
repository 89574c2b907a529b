-- ===== src/AgentRuntime/Examples.antt =====
-- A turn that calls a tool in its first round and answers in its second.
use compshare_agent.Prelude.{
  ℕ, suc, zero, true, false, none, some, [], ◌∷◌, ◌≡◌, refl, arith, ok, err,
}
use compshare_agent.AgentRuntime.{
  Driver, Surroundings, Turn, Result, round_limit, model_step, observation, continue_result,
  final_result, finish_round_limit, event, event_finished, event_round_started, reported,
  with_reason, run, new, invalid_max_rounds,
}
use compshare_agent.AgentRuntime.Protocol.{Follows, run-Follows}
use compshare_agent.AgentRuntime.Answers.{here, next, run-answers}

-- The state counts the calls of the driver.
abbrev two_rounds : Driver ℕ
two_rounds zero calls = (
  suc calls,
  model_step 1 false ∷ observation "DescribeCompShareInstance" ∷ [],
  ok continue_result,
)
two_rounds (suc i) calls = (suc calls, model_step 0 true ∷ [], ok (final_result "done" ""))

abbrev surroundings : Surroundings ℕ
surroundings = record { context_error = λ w. none; driver = some two_rounds; observed = true }

abbrev opening : Turn ℕ
opening = record { world = 0; events = [] }

abbrev answer : Result
answer = final_result "done" ""

run-Follows_example : Follows surroundings two_rounds 8 0 0 [] (run surroundings 8 opening)
run-Follows_example = run-Follows surroundings refl two_rounds 8 opening (omega arith) refl

run-answers_example :
    ((run surroundings 8 opening).1 ≡ with_reason answer) × ((run surroundings 8 opening).2 ≡ none)
run-answers_example =
    run-answers surroundings two_rounds 8 1 opening 1 answer refl (next refl refl refl here)
      (omega arith) refl refl refl

run_out_of_rounds : (run surroundings 1 opening).2 ≡ some round_limit
unfolding run
run_out_of_rounds = refl

run_last_event :
    (run surroundings 1 opening).0.events
    ≡ event event_round_started 0
      ∷ reported 0 (model_step 1 false)
      ∷ reported 0 (observation "DescribeCompShareInstance")
      ∷ record (event event_finished 0) { finish_reason = finish_round_limit }
      ∷ []
unfolding run
run_last_event = refl

run_calls : (run surroundings 8 opening).0.world ≡ 2
unfolding run
run_calls = refl

new_without_rounds : new 0 ≡ err invalid_max_rounds
unfolding new
new_without_rounds = refl
