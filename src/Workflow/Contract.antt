-- ===== src/Workflow/Contract.antt =====
-- internal/workflow/execution_contract.go: what a definition says of its steps before it is run,
-- with the levels of internal/security/levels.go.
use compshare_agent.Prelude.{
  ℕ, zero, suc, String, Bool, true, false, not, Option, none, some, List, [], ◌∷◌, map, ◌≡◌, ◌↔◌,
  ◌⊎◌, refl, ap, drop, str_eq, if◌then◌else◌, inl, inr, Option-cases, Bool-cases, arith,
}
use compshare_agent.SafeTool.Types.{Level, l0}
use compshare_agent.SafeTool.Policies.{action_levels, find_level}
use compshare_agent.Workflow.Types.{Hook, StepType, confirm, resolve, Step, Definition}
use compshare_agent.Workflow.Progress.{Progress}
use compshare_agent.Workflow.ToolStep.{tool_name}
use compshare_agent.Workflow.Run.{is_some}

pub data ToolBindingKind : Type 0 where
  binding_none binding_static binding_dynamic : ToolBindingKind

-- `l0` is the zero value of a risk that is not known.
pub record ExecutionStepContract : Type 0 where
  pub name : String
  pub type : StepType
  pub tool : String
  pub tool_binding : ToolBindingKind
  pub risk_known : Bool
  pub risk : Level

-- The condition of the first case of projectStep.
abbrev pub calls_no_tool : StepType → Bool
calls_no_tool confirm = true
calls_no_tool resolve = true
calls_no_tool _ = false

abbrev pub unbound : Step → ExecutionStepContract
unbound step = record {
  name = step.name;
  type = step.type;
  tool = "";
  tool_binding = binding_none;
  risk_known = false;
  risk = l0;
}

-- security.Check, whose error is none.
unfoldable pub check : String → Option Level
check action = find_level action action_levels

unfoldable pub static_contract : Step → ExecutionStepContract
unfolding check
static_contract step =
    let c = record (unbound step) { tool_binding = binding_static; tool = step.tool } in
    elim (check step.tool) [ none ↦ c | some level ↦ record c { risk = level; risk_known = true } ]

unfoldable pub project_step : Step → ExecutionStepContract
unfolding static_contract
project_step step =
    if calls_no_tool step.type
    then unbound step
    else if is_some step.tool_func
    then record (unbound step) { tool_binding = binding_dynamic }
    else if not (str_eq step.tool "")
    then static_contract step
    else unbound step

-- A nil definition has no steps.
unfoldable pub execution_contract : Option Definition → List ExecutionStepContract
unfolding project_step
execution_contract none = []
execution_contract (some def) = map project_step def.steps

-- What a contract says of a step is so: its risk is known exactly for a static tool of the table, and
-- is the table's level; a step is static exactly when it calls a tool that has a name and no function
-- to choose it, and that is the name which the engine takes in any state of a run; a step is dynamic
-- exactly when it calls a tool that a function of the step chooses.
pub record IsTrueOf (step : Step) (c : ExecutionStepContract) : Type 1 where
  pub same_name : c.name ≡ step.name
  pub same_type : c.type ≡ step.type
  pub risk_iff :
      (level : Level)
      → ((c.risk_known ≡ true) × (c.risk ≡ level))
        ↔ ((c.tool_binding ≡ binding_static) × (check c.tool ≡ some level))
  pub is_called :
      c.tool_binding ≡ binding_static
      → (calls_no_tool step.type ≡ false)
        × ((W : Type 0) (p : Progress W) → tool_name step p ≡ (p, c.tool))
  pub is_static : (c.tool_binding ≡ binding_static) ↔ (
      (calls_no_tool step.type ≡ false)
      × (is_some step.tool_func ≡ false)
      × (str_eq step.tool "" ≡ false))
  pub is_chosen :
      (c.tool_binding ≡ binding_dynamic)
      ↔ ((calls_no_tool step.type ≡ false) × (is_some step.tool_func ≡ true))

unbound-IsTrue :
    (step : Step)
    → ((calls_no_tool step.type ≡ true)
        ⊎ ((is_some step.tool_func ≡ false) × (str_eq step.tool "" ≡ true)))
    → IsTrueOf step (unbound step)
unbound-IsTrue step chosen = record {
  same_name = refl;
  same_type = refl;
  risk_iff = λ level. (λ h. cc, λ h. cc);
  is_called = λ h. cc;
  is_static = (λ h. cc, λ (calls, no_func, named). elim chosen [ inl a ↦ cc | inr (a, b) ↦ cc ]);
  is_chosen = (λ h. cc, λ (calls, some_func). elim chosen [ inl a ↦ cc | inr (a, b) ↦ cc ]);
}

static_contract-IsTrue :
    (step : Step)
    → calls_no_tool step.type ≡ false
    → step.tool_func ≡ none
    → str_eq step.tool "" ≡ false
    → IsTrueOf step (static_contract step)
unfolding static_contract tool_name
static_contract-IsTrue step calls no_func named =
    let no_choice : is_some step.tool_func ≡ false = ap is_some no_func in
    elim (Option-cases (check step.tool)) [
      | inl e ↦
          rw (e, static_contract)
            (record {
              same_name = refl;
              same_type = refl;
              risk_iff = λ level. (λ h. cc, λ (bound, found). (cc, cc));
              is_called = λ h. (calls, λ W p. rw (no_func, tool_name) refl);
              is_static = (λ h. (calls, no_choice, named), λ h. refl);
              is_chosen = (λ h. cc, λ (c, some_func). cc);
            })
      | inr (level, e) ↦
          rw (e, static_contract)
            (record {
              same_name = refl;
              same_type = refl;
              risk_iff = λ l. (λ (known, same). (refl, cc), λ (bound, found). (refl, cc));
              is_called = λ h. (calls, λ W p. rw (no_func, tool_name) refl);
              is_static = (λ h. (calls, no_choice, named), λ h. refl);
              is_chosen = (λ h. cc, λ (c, some_func). cc);
            })
    ]

dynamic-IsTrue :
    (step : Step)
    → calls_no_tool step.type ≡ false
    → is_some step.tool_func ≡ true
    → IsTrueOf step (record (unbound step) { tool_binding = binding_dynamic })
dynamic-IsTrue step calls some_func = record {
  same_name = refl;
  same_type = refl;
  risk_iff = λ level. (λ h. cc, λ h. cc);
  is_called = λ h. cc;
  is_static = (λ h. cc, λ (c, no_func, named). cc);
  is_chosen = (λ h. (calls, some_func), λ h. refl);
}

project_step-IsTrue : (step : Step) → IsTrueOf step (project_step step)
unfolding project_step
project_step-IsTrue step = elim (Bool-cases (calls_no_tool step.type)) [
  | inl c ↦ rw (c, project_step) (unbound-IsTrue step (inl c))
  | inr c ↦ elim (Bool-cases (is_some step.tool_func)) [
    | inl e ↦ rw (c, e, project_step) (dynamic-IsTrue step c e)
    | inr e ↦ elim (Bool-cases (str_eq step.tool "")) [
      | inl t ↦ rw (c, e, t, project_step) (unbound-IsTrue step (inr (e, t)))
      | inr t ↦
          rw (c, e, t, project_step) (static_contract-IsTrue step c (not_some step.tool_func e) t)
    ]
  ]
]
  where
    not_some : (f : Option (Hook String)) → is_some f ≡ false → f ≡ none
    not_some none e = refl
    not_some (some f) e = cc

drop-map :
    {A B : Type 0} (f : A → B) (i : ℕ) (xs : List A) (x : A) (rest : List A)
    → drop i xs ≡ x ∷ rest
    → drop i (map f xs) ≡ f x ∷ map f rest
drop-map f zero xs x rest h = ap (map f) h
drop-map f (suc i) [] x rest h = ground (arith, h)
drop-map f (suc i) (y ∷ ys) x rest h = drop-map f i ys x rest h

-- The contract of a definition has, at the index of each step, what is so of that step: a known risk
-- is the level that the table has for its static tool, and a static tool's name is the one that the
-- engine takes in every state of a run. A step is static exactly when it calls a named tool and no
-- function chooses it, and dynamic exactly when it calls a tool that a function chooses.
pub execution_contract-IsTrue :
    (def : Definition) (i : ℕ) (step : Step) (rest : List Step)
    → drop i def.steps ≡ step ∷ rest
    → (c : ExecutionStepContract) × (cs : List ExecutionStepContract) × (drop i
          (execution_contract (some def))
        ≡ c ∷ cs)
      × IsTrueOf step c
unfolding execution_contract
execution_contract-IsTrue def i step rest h = (
  project_step step,
  map project_step rest,
  drop-map project_step i def.steps step rest h,
  project_step-IsTrue step,
)
