-- ===== src/AgentRuntime.antt =====
-- internal/agentruntime/runtime.go: the loop of a turn, which owns the count of rounds and the
-- events. The driver (a model call and its tools) and the cancellation of the context are the
-- surroundings, over a state of their own. A driver reports through the methods of its Round while
-- it runs; `int` bounds that are not positive are 0.
pub mod Protocol
pub mod Answers
mod Examples
use compshare_agent.Prelude.{
  ℕ, zero, suc, ◌-◌, String, Bool, true, false, Option, none, some, List, [], ◌∷◌, ◌++◌, Except, ok,
  err, leb, if◌then◌else◌, str_eq,
}
use compshare_agent.Workflow.Types.{GoError}

abbrev pub FinishReason : Type 0
FinishReason = String

abbrev pub finish_final_answer : FinishReason
finish_final_answer = "final_answer"

abbrev pub finish_round_limit : FinishReason
finish_round_limit = "round_limit"

pub data EventType : Type 0 where
  event_round_started event_model_step event_observation event_finished : EventType

pub record Event : Type 0 where
  pub type : EventType
  pub round : ℕ
  pub tool_call_count : ℕ
  pub has_final_text : Bool
  pub action : String
  pub finish_reason : FinishReason

-- A Go literal that names the type and the round only.
abbrev pub event : EventType → ℕ → Event
event type round = record {
  type = type;
  round = round;
  tool_call_count = 0;
  has_final_text = false;
  action = "";
  finish_reason = "";
}

pub record Result : Type 0 where
  pub reply : String
  pub done : Bool
  pub reason : FinishReason

-- Continue, and the zero value that an error comes with.
abbrev pub continue_result : Result
continue_result = record { reply = ""; done = false; reason = "" }

abbrev pub final_result : String → FinishReason → Result
final_result reply reason = record { reply = reply; done = true; reason = reason }

-- The methods of a Round that a driver calls.
pub data Report : Type 0 where
  model_step : ℕ → Bool → Report
  observation : String → Report

abbrev pub Driver : Type 0 → Type 0
Driver W = ℕ → W → W × List Report × Except GoError Result

pub record Surroundings (W : Type 0) : Type 0 where
  pub context_error : W → Option GoError
  pub driver : Option (Driver W)
  -- whether the observer is not nil
  pub observed : Bool

pub record Turn (W : Type 0) : Type 0 where
  pub world : W
  -- oldest first
  pub events : List Event

pub data RunError : Type 0 where
  invalid_max_rounds invalid_runtime nil_driver round_limit : RunError
  cause : GoError → RunError

-- New; a Runtime is its bound.
pub new : ℕ → Except RunError ℕ
new max_rounds = if leb max_rounds 0 then err invalid_max_rounds else ok max_rounds

abbrev pub reported : ℕ → Report → Event
reported i (model_step calls final) = record (event event_model_step i) {
  tool_call_count = calls;
  has_final_text = final;
}
reported i (observation action) = record (event event_observation i) { action = action }

abbrev pub reported_all : ℕ → List Report → List Event
reported_all i [] = []
reported_all i (r ∷ rs) = reported i r ∷ reported_all i rs

abbrev pub with_reason : Result → Result
with_reason r = if str_eq r.reason "" then record r { reason = finish_final_answer } else r

module _ {W : Type 0} (s : Surroundings W) where
  unfoldable pub emit : List Event → Turn W → Turn W
  emit events t = if s.observed then record t { events = t.events ++ events } else t

  unfoldable pub finish : ℕ → FinishReason → Turn W → Turn W
  unfolding emit
  finish i reason = emit (record (event event_finished i) { finish_reason = reason } ∷ [])

  -- `again` is the next round.
  unfoldable pub finish_if :
      Bool
      → ℕ
      → (Turn W → Turn W × Result × Option RunError)
      → Turn W
      → Result
      → Turn W × Result × Option RunError
  unfolding finish
  finish_if true i again t result =
      (finish i (with_reason result).reason t, with_reason result, none)
  finish_if false i again t result = again t

  -- What a round does with the driver's result.
  unfoldable pub settle :
      ℕ
      → (Turn W → Turn W × Result × Option RunError)
      → Turn W × Except GoError Result
      → Turn W × Result × Option RunError
  unfolding finish_if
  settle i again (t, err e) = (t, continue_result, some (cause e))
  settle i again (t, ok result) = finish_if result.done i again t result

  -- One round: the call of the driver, between the event of its start and those it reports.
  unfoldable pub call_driver : Driver W → ℕ → Turn W → Turn W × Except GoError Result
  unfolding emit
  call_driver driver i t =
      let started = emit (event event_round_started i ∷ []) t in
      let (w, reports, result) = driver i started.world in
      (emit (reported_all i reports) (record started { world = w }), result)

  -- The loop of Run with `left` rounds to go, of which the next has the index `i`.
  unfoldable pub run_rounds : ℕ → ℕ → ℕ → Driver W → Turn W → Turn W × Result × Option RunError
  unfolding finish settle call_driver
  run_rounds max_rounds zero i driver t = (
    finish (max_rounds - 1) finish_round_limit t,
    record continue_result { reason = finish_round_limit },
    some round_limit,
  )
  run_rounds max_rounds (suc left) i driver t = elim (s.context_error t.world) [
    | some e ↦ (t, continue_result, some (cause e))
    | none ↦ settle i (run_rounds max_rounds left (suc i) driver) (call_driver driver i t)
  ]

  -- Runtime.Run; a nil runtime is one without rounds.
  unfoldable pub run : ℕ → Turn W → Turn W × Result × Option RunError
  unfolding run_rounds
  run max_rounds t =
      if leb max_rounds 0 then (t, continue_result, some invalid_runtime) else elim s.driver [
        | none ↦ (t, continue_result, some nil_driver)
        | some driver ↦ run_rounds max_rounds max_rounds 0 driver t
      ]
