-- ===== src/Workflow/SealedCalls.antt =====
-- What the seal of internal/workflow/execution_seal.go guarantees of the calls of a run: the
-- invariant, and its rules for the parts that several steps share. The child modules follow the
-- engine: a single call, a batch, a gate, a run.
pub mod Single
pub mod Batch
pub mod Rerun
pub mod Gate
pub mod Runs
use compshare_agent.Prelude.{
  ℕ, zero, suc, String, Bool, true, false, Option, none, some, List, [], ◌∷◌, Except, ok, err, ◌≡◌,
  refl, sym, ◌∙◌, arith, eq_iff, All, Has, All-map, All-Has, ◌⊎◌, inl, inr, Bool-cases,
  Option-cases, str_eq, leb, if◌then◌else◌, ◌==◌, ◌||◌, ◌+◌, ◌/◌,
}
use compshare_agent.Value.{Fields}
use compshare_agent.Workflow.Types.{
  GoError, Vars, Context, Hook, Definition, Step, text, execution_failed, args_failed,
  pending_without_poll, poll_not_positive, tool_call, SealedActionContract, FailureReason,
  unclassified, capacity_sold_out, CheckOutcome, Message, BatchCall,
}
use compshare_agent.Workflow.Batch.{BatchOutcome}
use compshare_agent.Workflow.Progress.{
  Env, Call, Progress, ToolStepOutcome, tool_step_failed, run_hook, execute_call,
  verify_sealed_contract, record_failure_reason, record_failed_args, set_error, set_missing_slots,
  fail_stop,
}
use compshare_agent.Workflow.ToolStep.{
  finish_step, fail_unless_optional, tool_name, check_purity, run_resolve_step, wait_or_stop,
  reject_response, judge, receive, poll_loop, start_polling, call_if_sealed, run_single,
}

module _ {W : Type 0} (env : Env W) where
  abbrev pub Matches : Option SealedActionContract → Fields → Type 0
  Matches none basis = Unit {0}
  Matches (some c) basis = env.digest basis ≡ c.digest

  abbrev pub IsSealed : Option SealedActionContract → Type 0
  IsSealed none = Unit {0}
  IsSealed (some c) = c.digest ≡ env.digest c.business_params

  -- The executor was given the tool and the arguments of the call, and replied what it says.
  abbrev pub IsSent : Call → Type 0
  IsSent c = (w : W) × ((env.execute w c.tool c.args).1 ≡ c.reply)

-- The closure of a step of the definition gave the arguments, on a context with the contract
-- `sealed`, and left the params `basis`: BuildArgs, or BuildArgsBatch where the step has one.
pub data BuiltBy (step : Step) (sealed : Option SealedActionContract) (args basis : Fields)
    : Type 0 where
  single :
      (c : Context) (v : Vars)
      → c.sealed ≡ sealed
      → step.build_args_batch ≡ none
      → step.build_args c ≡ (v, ok args)
      → v.params ≡ basis
      → BuiltBy step sealed args basis
  one_of_batch :
      (c : Context) (v : Vars) (build : Hook (Except GoError (List BatchCall)))
      (calls : List BatchCall)
      → c.sealed ≡ sealed
      → step.build_args_batch ≡ some build
      → build c ≡ (v, ok calls)
      → Has (λ call. call.args ≡ args) calls
      → v.params ≡ basis
      → BuiltBy step sealed args basis

abbrev pub IsStepOf : Definition → Step → Type 0
IsStepOf def step = Has (λ s. s ≡ step) def.steps

pub steps-IsStepOf : (def : Definition) → All (IsStepOf def) def.steps
steps-IsStepOf def =
    All-map (λ s. (t : Step) → s ≡ t → Has (λ u. u ≡ t) def.steps) (IsStepOf def) (λ s f. f s refl)
      def.steps (All-Has (λ (t s : Step). s ≡ t) def.steps)

-- `toolName := step.Tool`, or what ToolFunc gives on some context where the step has one.
pub data NamedBy (step : Step) : String → Type 0 where
  fixed : step.tool_func ≡ none → NamedBy step step.tool
  chosen : (c : Context) (f : Hook String) → step.tool_func ≡ some f → NamedBy step (f c).1

-- The call is one of a step of the definition: its tool and its arguments.
abbrev pub IsBuilt : Definition → Option SealedActionContract → String → Fields → Fields → Type 0
IsBuilt def sealed tool args basis =
    (step : Step) × IsStepOf def step × NamedBy step tool × BuiltBy step sealed args basis

module _ {W : Type 0} (env : Env W) (def : Definition) where
  abbrev pub IsCovered : Call → Type 0
  IsCovered c =
      (IsSealed env c.sealed × Matches env c.sealed c.basis)
      × IsBuilt def c.sealed c.tool c.args c.basis
      × IsSent env c

  abbrev pub Inv : Progress W → Type 0
  Inv p = IsSealed env p.sealed × All IsCovered p.calls

  pub if-Inv :
      {A : Type 0} (b : Bool) (x y : Progress W × A)
      → Inv x.0
      → Inv y.0
      → Inv (if b then x else y).0
  if-Inv true x y hx hy = hx
  if-Inv false x y hx hy = hy

  pub fail_unless_optional-Inv :
      (step : Step) (i total : ℕ) (tool : String) (shown told : Message)
      (more : Progress W → Progress W) (p : Progress W)
      → ((q : Progress W) → Inv q → Inv (more q))
      → Inv p
      → Inv (fail_unless_optional step i total tool shown told more p).0
  unfolding fail_unless_optional
  fail_unless_optional-Inv step i total tool shown told more p keep h =
      elim (Bool-cases step.optional) [
        | inl e ↦ rw (e, fail_unless_optional) h
        | inr e ↦ rw (e, fail_unless_optional) (keep _ h)
      ]

  abbrev Agrees : Progress W → Progress W × Bool → Type 0
  Agrees p (q, agreed) =
      (agreed ≡ true → Matches env q.sealed q.vars.params)
      × (q.sealed ≡ p.sealed)
      × (q.vars ≡ p.vars)

  -- By the contract in force, which `verify_sealed_contract` reads from the state.
  verify_by_contract :
      (s : Option SealedActionContract) (step : Step) (i total : ℕ) (p : Progress W)
      → let p = record p { sealed = s } in
        Inv p
        → Inv (verify_sealed_contract env step i total p).0
          × Agrees p (verify_sealed_contract env step i total p)
  unfolding verify_sealed_contract
  verify_by_contract none step i total p h = (h, ((λ _. tt), refl, refl))
  verify_by_contract (some c) step i total p h =
      elim (Bool-cases (str_eq (env.digest p.vars.params) c.digest)) [
        | inl e ↦ rw e (h, ((λ _. (eq_iff _ _).0 e), refl, refl))
        | inr e ↦ rw e (h, ((λ bad. cc), refl, refl))
      ]

  pub verify_sealed_contract-Inv :
      (step : Step) (i total : ℕ) (p : Progress W)
      → Inv p
      → Inv (verify_sealed_contract env step i total p).0
        × Agrees p (verify_sealed_contract env step i total p)
  verify_sealed_contract-Inv step i total p h = verify_by_contract p.sealed step i total p h
