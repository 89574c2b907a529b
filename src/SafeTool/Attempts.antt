-- ===== src/SafeTool/Attempts.antt =====
-- How often a call is sent upstream.
use compshare_agent.Prelude.{
  ℕ, zero, suc, ◌+◌, ◌*◌, ◌≤◌, String, Bool, true, false, Option, none, some, List, [], ◌∷◌, ◌≡◌,
  refl, arith, Except, ok, err, ltb, inl, inr, Bool-cases, Option-cases,
}
use compshare_agent.Workflow.Types.{GoError}
use compshare_agent.SafeTool.Types.{
  Policy, ExecutionOrigin, Args, Event, sent, before_call, confirm_needed, Gate, ToolEnv, ToolError,
  CallError,
}
use compshare_agent.SafeTool.Params.{check_policy_caps, filter_safe_args, allowed_params_for_origin}
use compshare_agent.SafeTool.{
  should_confirm, default_origin, should_retry, note, send, wait_then, last_attempt, after_attempt,
  attempt_loop, execute_with_retry, run_call, answer, ask, if_agreed, confirm_then, after_zone,
  resolve_zone, refuse, execute_safe,
}

-- How many calls were sent.
abbrev pub sent_count : List Event → ℕ
sent_count [] = 0
sent_count (sent action args ∷ log) = suc (sent_count log)
sent_count (e ∷ log) = sent_count log

-- A call that returned says how many attempts were made, out of those before `base`.
abbrev pub Counts : {W : Type 0} → ℕ → ℕ → Gate W × Except ToolError (Args × ℕ) → Type 0
Counts base bound (q, err e) = sent_count q.log ≤ base + bound
Counts base bound (q, ok (raw, attempts)) =
    (sent_count q.log ≡ base + attempts) × (attempts ≤ bound)

module _ {W : Type 0} (env : ToolEnv W) where
  wait_then-Counts :
      (wait base bound : ℕ) (again : Gate W → Gate W × Except ToolError (Args × ℕ)) (p : Gate W)
      → ((w : W) → Counts base bound (again (record p { world = w })))
      → sent_count p.log ≤ base + bound
      → Counts base bound (wait_then env wait again p)
  unfolding wait_then
  wait_then-Counts wait base bound again p keep h = elim (Bool-cases (ltb 0 wait)) [
    | inr e ↦ rw (e, wait_then) (keep p.world)
    | inl e ↦ elim (Option-cases (env.wait p.world wait).1) [
      | inl d ↦ rw (e, d, wait_then) (keep (env.wait p.world wait).0)
      | inr (x, d) ↦ rw (e, d, wait_then) h
    ]
  ]

  after_attempt-Counts :
      (attempts base bound : ℕ) (policy : Policy)
      (again : Gate W → Gate W × Except ToolError (Args × ℕ)) (x : Gate W × Except CallError Args)
      → ((w : W) → Counts base bound (again (record x.0 { world = w })))
      → sent_count x.0.log ≡ base + attempts
      → attempts ≤ bound
      → Counts base bound (after_attempt env attempts policy again x)
  unfolding after_attempt
  after_attempt-Counts attempts base bound policy again (q, ok raw) keep h k = (h, k)
  after_attempt-Counts attempts base bound policy again (q, err e) keep h k =
      elim (Bool-cases (should_retry e policy.retry_on)) [
        | inl d ↦
            rw (d, after_attempt)
              (wait_then-Counts (policy.backoff_base_ms * attempts) base bound again q keep
                (omega arith))
        | inr d ↦ rw (d, after_attempt) (omega (arith, h))
      ]

  attempt_loop-Counts :
      (left attempts base : ℕ) (policy : Policy) (action : String) (args : Args) (p : Gate W)
      → sent_count p.log + 1 ≡ base + attempts
      → Counts base (attempts + left) (attempt_loop env left attempts policy action args p)
  unfolding attempt_loop send last_attempt
  attempt_loop-Counts zero attempts base policy action args p h = last (send env action args p).1
    where
      last :
          (reply : Except CallError Args)
          → Counts base (attempts + 0) (
              last_attempt env attempts (
                record { world = (send env action args p).0.world; log = sent action args ∷ p.log },
                reply,
              ))
      last (ok raw) = (omega (arith, h), omega arith)
      last (err e) = omega (arith, h)
  attempt_loop-Counts (suc left) attempts base policy action args p h =
      after_attempt-Counts attempts base (attempts + suc left) policy
        (attempt_loop env left (suc attempts) policy action args) (send env action args p)
        (λ w. rw (step_bound) (
          attempt_loop-Counts left (suc attempts) base policy action args
            (record { world = w; log = sent action args ∷ p.log }) (omega (arith, h))))
        (omega (arith, h)) (omega arith)
    where
      step_bound : attempts + suc left ≡ suc attempts + left
      step_bound = omega arith

  run_call-Counts :
      (policy : Policy) (action : String) (args : Args) (p : Gate W) (base : ℕ)
      → sent_count p.log ≡ base
      → Counts base (suc policy.max_retries) (run_call env policy action args p)
  unfolding run_call execute_with_retry
  run_call-Counts policy action args p base h = rw one_more (
      attempt_loop-Counts policy.max_retries 1 base policy action args
        (record p { log = before_call action args ∷ p.log }) (omega (arith, h)))
    where
      one_more : suc policy.max_retries ≡ 1 + policy.max_retries
      one_more = omega arith

  answer-sent_count :
      (confirm : Option (W → String → Args → W × Bool)) (action : String) (args : Args) (q : Gate W)
      → sent_count (answer env confirm action args q).0.log ≡ sent_count q.log
  unfolding answer
  answer-sent_count none action args q = refl
  answer-sent_count (some confirm) action args q = refl

  if_agreed-Counts :
      (policy : Policy) (action : String) (args : Args) (q : Gate W) (agreed : Bool) (base : ℕ)
      → sent_count q.log ≡ base
      → Counts base (suc policy.max_retries) (if_agreed env policy action args (q, agreed))
  unfolding if_agreed
  if_agreed-Counts policy action args q true base h = run_call-Counts policy action args q base h
  if_agreed-Counts policy action args q false base h = omega (arith, h)

  confirm_then-Counts :
      (policy : Policy) (origin : ExecutionOrigin) (action : String) (args : Args) (p : Gate W)
      → Counts
          (sent_count p.log)
          (suc policy.max_retries)
          (confirm_then env policy origin action args p)
  unfolding confirm_then ask
  confirm_then-Counts policy origin action args p =
      elim (Bool-cases (should_confirm policy origin)) [
        | inr e ↦
            rw (e, confirm_then) (run_call-Counts policy action args p (sent_count p.log) refl)
        | inl e ↦
            (let asked = ask env action args p in
              rw (e, confirm_then)
                (if_agreed-Counts policy action args asked.0 asked.1 (sent_count p.log) (
                  answer-sent_count env.confirm action args
                    (note env (confirm_needed action args) p))))
      ]

  after_zone-Counts :
      (policy : Policy) (origin : ExecutionOrigin) (action : String) (q : Gate W)
      (resolved : Except GoError Args)
      → Counts
          (sent_count q.log)
          (suc policy.max_retries)
          (after_zone env policy origin action (q, resolved))
  unfolding after_zone
  after_zone-Counts policy origin action q (err e) = omega arith
  after_zone-Counts policy origin action q (ok args) =
      elim (Option-cases (check_policy_caps env.parse_int policy args)) [
        | inr (e, d) ↦ rw (d, after_zone) (omega arith)
        | inl d ↦ rw (d, after_zone) (confirm_then-Counts policy origin action args q)
      ]

  -- ExecuteSafe of an action sends its call at most once more than its policy has retries, whether
  -- the call succeeds, fails or is refused; and where it succeeds, the number of attempts that it
  -- reports is the number of calls that were sent.
  pub execute_safe-Counts :
      (action : String) (args : Args) (origin : ExecutionOrigin) (p : Gate W) (policy : Policy)
      → env.policies action ≡ some policy
      → Counts (sent_count p.log) (suc policy.max_retries) (execute_safe env action args origin p)
  unfolding execute_safe resolve_zone
  execute_safe-Counts action args origin p policy e =
      elim (Option-cases (refuse env policy action)) [
        | inr (x, d) ↦ rw (e, d, execute_safe) (omega arith)
        | inl d ↦
            (let resolved =
                resolve_zone env action
                  (filter_safe_args args (allowed_params_for_origin policy (default_origin origin)))
                  p in
              rw (e, d, execute_safe)
                (after_zone-Counts policy (default_origin origin) action resolved.0 resolved.1))
      ]
