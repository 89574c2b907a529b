-- ===== src/SafeTool/Gates.antt =====
-- What is sent upstream passed every gate of ExecuteSafe.
use compshare_agent.Prelude.{
  ℕ, zero, suc, ◌*◌, String, Bool, true, false, Option, none, some, List, [], ◌∷◌, ◌≡◌, ◌≢◌, refl,
  arith, Except, ok, err, ltb, inl, inr, Bool-cases, Option-cases,
}
use compshare_agent.Workflow.Types.{GoError}
use compshare_agent.SafeTool.Types.{
  Policy, ExecutionOrigin, Args, Event, sent, before_call, confirm_needed, answered, Gate, ToolEnv,
  ToolError, CallError, is_l2, is_external, is_destructive, is_mutating,
}
use compshare_agent.SafeTool.Params.{check_policy_caps, filter_safe_args, allowed_params_for_origin}
use compshare_agent.SafeTool.{
  should_confirm, default_origin, should_retry, note, send, wait_then, last_attempt, after_attempt,
  attempt_loop, execute_with_retry, run_call, answer, ask, if_agreed, confirm_then, after_zone,
  resolve_zone, refuse, execute_safe,
}

-- The user agreed to the action with these arguments, somewhere in the log.
pub data WasAgreed (action : String) (args : Args) : List Event → Type 0 where
  now : {log : List Event} → WasAgreed action args (answered action args true ∷ log)
  before :
      {e : Event} {log : List Event} → WasAgreed action args log → WasAgreed action args (e ∷ log)

refuse-none :
    {W : Type 0} (env : ToolEnv W) (policy : Policy) (action : String)
    → refuse env policy action ≡ none
    → (is_external policy.route ≡ true)
      × (is_l2 policy.security_level ≡ false)
      × (is_destructive policy.class ≡ false)
      × (is_mutating policy.class ≡ true → env.mutating_tools_enabled ≡ true)
unfolding refuse
refuse-none env policy action h =
    (ground (arith, h), ground (arith, h), ground (arith, h), λ w. ground (arith, h, w))

module _ {W : Type 0} (env : ToolEnv W) (origin : ExecutionOrigin) where
  -- The gates that a call passed: its policy is that of an external action that is not destructive,
  -- writes are enabled if it is one, the caps hold, and the user agreed where the origin asks it.
  pub record IsCleared (action : String) (args : Args) (log : List Event) : Type 0 where
    pub policy : Policy
    pub found : env.policies action ≡ some policy
    pub passed : refuse env policy action ≡ none
    pub external : is_external policy.route ≡ true
    pub not_l2 : is_l2 policy.security_level ≡ false
    pub not_destructive : is_destructive policy.class ≡ false
    pub enabled : is_mutating policy.class ≡ true → env.mutating_tools_enabled ≡ true
    pub capped : check_policy_caps env.parse_int policy args ≡ none
    pub agreed : should_confirm policy (default_origin origin) ≡ true → WasAgreed action args log

  -- Every call in the log was cleared by what the log had before it.
  abbrev pub IsGuarded : List Event → Type 0
  IsGuarded [] = Unit {0}
  IsGuarded (sent action args ∷ log) = IsCleared action args log × IsGuarded log
  IsGuarded (e ∷ log) = IsGuarded log

  IsCleared-later :
      (action : String) (args : Args) (e : Event) (log : List Event)
      → IsCleared action args log
      → IsCleared action args (e ∷ log)
  IsCleared-later action args e log c = record {
    policy = c.policy;
    found = c.found;
    passed = c.passed;
    external = c.external;
    not_l2 = c.not_l2;
    not_destructive = c.not_destructive;
    enabled = c.enabled;
    capped = c.capped;
    agreed = λ asks. before (c.agreed asks);
  }

  wait_then-IsGuarded :
      (wait : ℕ) (again : Gate W → Gate W × Except ToolError (Args × ℕ)) (p : Gate W)
      → ((w : W) → IsGuarded (again (record p { world = w })).0.log)
      → IsGuarded p.log
      → IsGuarded (wait_then env wait again p).0.log
  unfolding wait_then
  wait_then-IsGuarded wait again p keep h = elim (Bool-cases (ltb 0 wait)) [
    | inr e ↦ rw (e, wait_then) (keep p.world)
    | inl e ↦ elim (Option-cases (env.wait p.world wait).1) [
      | inl d ↦ rw (e, d, wait_then) (keep (env.wait p.world wait).0)
      | inr (x, d) ↦ rw (e, d, wait_then) h
    ]
  ]

  last_attempt-IsGuarded :
      (attempts : ℕ) (x : Gate W × Except CallError Args)
      → IsGuarded x.0.log
      → IsGuarded (last_attempt env attempts x).0.log
  unfolding last_attempt
  last_attempt-IsGuarded attempts (q, ok raw) h = h
  last_attempt-IsGuarded attempts (q, err e) h = h

  after_attempt-IsGuarded :
      (attempts : ℕ) (policy : Policy) (again : Gate W → Gate W × Except ToolError (Args × ℕ))
      (x : Gate W × Except CallError Args)
      → ((w : W) → IsGuarded (again (record x.0 { world = w })).0.log)
      → IsGuarded x.0.log
      → IsGuarded (after_attempt env attempts policy again x).0.log
  unfolding after_attempt
  after_attempt-IsGuarded attempts policy again (q, ok raw) keep h = h
  after_attempt-IsGuarded attempts policy again (q, err e) keep h =
      elim (Bool-cases (should_retry e policy.retry_on)) [
        | inl d ↦
            rw (d, after_attempt)
              (wait_then-IsGuarded (policy.backoff_base_ms * attempts) again q keep h)
        | inr d ↦ rw (d, after_attempt) h
      ]

  attempt_loop-IsGuarded :
      (left attempts : ℕ) (policy : Policy) (action : String) (args : Args) (p : Gate W)
      → IsCleared action args p.log
      → IsGuarded p.log
      → IsGuarded (attempt_loop env left attempts policy action args p).0.log
  unfolding attempt_loop send
  attempt_loop-IsGuarded zero attempts policy action args p c h =
      last_attempt-IsGuarded attempts (send env action args p) (c, h)
  attempt_loop-IsGuarded (suc left) attempts policy action args p c h =
      after_attempt-IsGuarded attempts policy
        (attempt_loop env left (suc attempts) policy action args) (send env action args p)
        (λ w.
          attempt_loop-IsGuarded left (suc attempts) policy action args
            (record { world = w; log = sent action args ∷ p.log })
            (IsCleared-later action args (sent action args) p.log c) (c, h))
        (c, h)

  run_call-IsGuarded :
      (policy : Policy) (action : String) (args : Args) (p : Gate W)
      → IsCleared action args p.log
      → IsGuarded p.log
      → IsGuarded (run_call env policy action args p).0.log
  unfolding run_call execute_with_retry
  run_call-IsGuarded policy action args p c h =
      attempt_loop-IsGuarded policy.max_retries 1 policy action args
        (record p { log = before_call action args ∷ p.log })
        (IsCleared-later action args (before_call action args) p.log c) h

  -- The conditions on a call that do not look at the log.
  abbrev IsAdmitted : Policy → String → Args → Type 0
  IsAdmitted policy action args =
      (env.policies action ≡ some policy)
      × (refuse env policy action ≡ none)
      × (check_policy_caps env.parse_int policy args ≡ none)

  if_agreed-IsGuarded :
      (policy : Policy) (action : String) (args : Args) (q : Gate W) (agreed : Bool)
      → IsAdmitted policy action args
      → (agreed ≡ true → WasAgreed action args q.log)
      → IsGuarded q.log
      → IsGuarded (if_agreed env policy action args (q, agreed)).0.log
  unfolding if_agreed
  if_agreed-IsGuarded policy action args q false ok_call answer h = h
  if_agreed-IsGuarded policy action args q true ok_call answer h =
      run_call-IsGuarded policy action args q
        (record {
          policy = policy;
          found = ok_call.0;
          passed = ok_call.1;
          external = (refuse-none env policy action ok_call.1).0;
          not_l2 = (refuse-none env policy action ok_call.1).1;
          not_destructive = (refuse-none env policy action ok_call.1).2;
          enabled = (refuse-none env policy action ok_call.1).3;
          capped = ok_call.2;
          agreed = λ asks. answer refl;
        })
        h

  -- What the user answered is in the log.
  answer-WasAgreed :
      (confirm : Option (W → String → Args → W × Bool)) (action : String) (args : Args) (q : Gate W)
      → IsGuarded q.log
      → IsGuarded (answer env confirm action args q).0.log
        × ((answer env confirm action args q).1 ≡ true
            → WasAgreed action args (answer env confirm action args q).0.log)
  unfolding answer
  answer-WasAgreed none action args q h = (h, λ bad. cc)
  answer-WasAgreed (some confirm) action args q h = (h, λ agreed. rw agreed now)

  ask-WasAgreed :
      (action : String) (args : Args) (p : Gate W)
      → IsGuarded p.log
      → IsGuarded (ask env action args p).0.log
        × ((ask env action args p).1 ≡ true → WasAgreed action args (ask env action args p).0.log)
  unfolding ask
  ask-WasAgreed action args p h =
      answer-WasAgreed env.confirm action args (note env (confirm_needed action args) p) h

  confirm_then-IsGuarded :
      (policy : Policy) (action : String) (args : Args) (p : Gate W)
      → IsAdmitted policy action args
      → IsGuarded p.log
      → IsGuarded (confirm_then env policy (default_origin origin) action args p).0.log
  unfolding confirm_then
  confirm_then-IsGuarded policy action args p admitted h =
      elim (Bool-cases (should_confirm policy (default_origin origin))) [
        | inl e ↦
            rw (e, confirm_then)
              (if_agreed-IsGuarded policy action args (ask env action args p).0
                (ask env action args p).1 admitted (ask-WasAgreed action args p h).1
                (ask-WasAgreed action args p h).0)
        | inr e ↦
            rw (e, confirm_then)
              (run_call-IsGuarded policy action args p
                (record {
                  policy = policy;
                  found = admitted.0;
                  passed = admitted.1;
                  external = (refuse-none env policy action admitted.1).0;
                  not_l2 = (refuse-none env policy action admitted.1).1;
                  not_destructive = (refuse-none env policy action admitted.1).2;
                  enabled = (refuse-none env policy action admitted.1).3;
                  capped = admitted.2;
                  agreed = λ asks. cc;
                })
                h)
      ]

  after_zone-IsGuarded :
      (policy : Policy) (action : String) (q : Gate W) (resolved : Except GoError Args)
      → env.policies action ≡ some policy
      → refuse env policy action ≡ none
      → IsGuarded q.log
      → IsGuarded (after_zone env policy (default_origin origin) action (q, resolved)).0.log
  unfolding after_zone
  after_zone-IsGuarded policy action q (err e) found passed h = h
  after_zone-IsGuarded policy action q (ok args) found passed h =
      elim (Option-cases (check_policy_caps env.parse_int policy args)) [
        | inr (e, d) ↦ rw (d, after_zone) h
        | inl d ↦
            rw (d, after_zone) (confirm_then-IsGuarded policy action args q (found, passed, d) h)
      ]

  -- Whatever action is asked for with whatever arguments, each call that ExecuteSafe sends upstream
  -- is of an action with a policy whose route is external, that is neither of the highest level nor
  -- destructive, that writes only where writes are enabled, and whose caps hold for the arguments
  -- that are sent; and where the policy asks for a confirmation from the origin, the user agreed
  -- before to the same action with the same arguments. This holds of every repetition of a call.
  pub execute_safe-IsGuarded :
      (action : String) (args : Args) (p : Gate W)
      → IsGuarded p.log
      → IsGuarded (execute_safe env action args origin p).0.log
  unfolding execute_safe resolve_zone
  execute_safe-IsGuarded action args p h = elim (Option-cases (env.policies action)) [
    | inl e ↦ rw (e, execute_safe) h
    | inr (policy, e) ↦ elim (Option-cases (refuse env policy action)) [
      | inr (x, d) ↦ rw (e, d, execute_safe) h
      | inl d ↦
          (let resolved =
              resolve_zone env action
                (filter_safe_args args (allowed_params_for_origin policy (default_origin origin)))
                p in
            rw (e, d, execute_safe)
              (after_zone-IsGuarded policy action resolved.0 resolved.1 e d h))
    ]
  ]

-- The gates stop an action of the highest level, whatever else its policy says.
pub refuse-l2 :
    {W : Type 0} (env : ToolEnv W) (policy : Policy) (action : String)
    → is_l2 policy.security_level ≡ true
    → refuse env policy action ≢ none
unfolding refuse
refuse-l2 env policy action h = ground (arith, h)

pub execute_safe-refused :
    {W : Type 0} (env : ToolEnv W) (policy : Policy) (action : String) (args : Args)
    (origin : ExecutionOrigin) (p : Gate W)
    → env.policies action ≡ some policy
    → refuse env policy action ≢ none
    → (execute_safe env action args origin p).0 ≡ p
unfolding execute_safe
execute_safe-refused env policy action args origin p e stopped =
    elim (Option-cases (refuse env policy action)) [
      | inl d ↦ absurd (stopped d)
      | inr (x, d) ↦ rw (e, d, execute_safe) refl
    ]
