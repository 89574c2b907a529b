-- ===== src/SafeTool/Policies/Writes.antt =====
-- What the default policies mean for writes: they are confirmed, sent once, and refused where they
-- are destructive.
use mathlib.Core.Path.{subst}
use text.Mathlib.Text.{starts_with}
use compshare_agent.Prelude.{
  str_eq, ℕ, suc, if◌then◌else◌, String, Bool, true, false, Option, some, List, ◌≡◌, refl, ap, ◌∙◌,
  arith,
}
use compshare_agent.SafeTool.Types.{
  ActionClass, read_cheap, read_expensive_default, read_expensive_per_target, Level, l0, l1, l2,
  Policy, is_l2, is_destructive, is_mutating, mutating, destructive, Args, ExecutionOrigin, ToolEnv,
  Gate,
}
use compshare_agent.SafeTool.Params.{contains}
use compshare_agent.SafeTool.{execute_safe}
use compshare_agent.SafeTool.Gates.{refuse-l2, execute_safe-refused}
use compshare_agent.SafeTool.Attempts.{Counts, sent_count, execute_safe-Counts}
use compshare_agent.SafeTool.Policies.{
  level_of, read_expensive_default_actions, read_class, class_for_action, with_class, with_level,
  is_l1, blank_policy, with_sensitive_args, with_redaction, with_monitor_caps, with_price_caps,
  with_name, policy_at, policy_for_action,
}

-- What the name of an action leaves of a policy.
abbrev Agree : Policy → Policy → Type 0
Agree q p =
    (q.class ≡ p.class)
    × (q.security_level ≡ p.security_level)
    × (q.needs_confirm ≡ p.needs_confirm)
    × (q.max_retries ≡ p.max_retries)

with_sensitive_args-Agree : (action : String) (p : Policy) → Agree (with_sensitive_args action p) p
unfolding with_sensitive_args
with_sensitive_args-Agree action p = ground arith

with_redaction-Agree : (action : String) (p : Policy) → Agree (with_redaction action p) p
unfolding with_redaction
with_redaction-Agree action p = ground arith

with_monitor_caps-Agree : (action : String) (p : Policy) → Agree (with_monitor_caps action p) p
unfolding with_monitor_caps
with_monitor_caps-Agree action p = ground arith

with_price_caps-Agree : (action : String) (p : Policy) → Agree (with_price_caps action p) p
unfolding with_price_caps
with_price_caps-Agree action p = ground arith

Agree-trans : (r q p : Policy) → Agree r q → Agree q p → Agree r p
Agree-trans r q p h k = (h.0 ∙ k.0, h.1 ∙ k.1, h.2 ∙ k.2, h.3 ∙ k.3)

with_name-Agree : (action : String) (p : Policy) → Agree (with_name action p) p
unfolding with_name
with_name-Agree action p =
    let a = with_sensitive_args action p in
    let b = with_redaction action a in
    let c = with_monitor_caps action b in
    let d = with_price_caps action c in
    Agree-trans d c p (with_price_caps-Agree action c) (
      Agree-trans c b p (with_monitor_caps-Agree action b)
        (Agree-trans b a p (with_redaction-Agree action a) (with_sensitive_args-Agree action p)))

-- The policy of an action of a level: its confirmation, class and retries.
abbrev pub FitsLevel : Level → Policy → Type 0
FitsLevel l p =
    (p.security_level ≡ l)
    × (p.needs_confirm ≡ is_l1 l)
    × (is_mutating p.class ≡ is_l1 l)
    × (is_destructive p.class ≡ is_l2 l)
    × (is_l1 l ≡ true → p.max_retries ≡ 0)
    × (is_l2 l ≡ true → p.max_retries ≡ 0)

abbrev IsRead : ActionClass → Type 0
IsRead c = (is_mutating c ≡ false) × (is_destructive c ≡ false)

IsRead-if : (b : Bool) (x y : ActionClass) → IsRead x → IsRead y → IsRead (if b then x else y)
IsRead-if true x y hx hy = hx
IsRead-if false x y hx hy = hy

read_class-IsRead : (action : String) → IsRead (read_class action)
unfolding read_class
read_class-IsRead action =
    let last : ActionClass =
      if contains action read_expensive_default_actions
      then read_expensive_default
      else read_cheap in
    let middle : ActionClass =
      if starts_with action "Diagnose" then read_expensive_default else last in
    IsRead-if (str_eq action "GetCompShareInstanceMonitor") read_expensive_per_target middle
      (refl, refl)
      (IsRead-if (starts_with action "Diagnose") read_expensive_default last (refl, refl)
        (IsRead-if (contains action read_expensive_default_actions) read_expensive_default
          read_cheap (refl, refl) (refl, refl)))

with_class-fields :
    (c : ActionClass) (p : Policy)
    → ((with_class c p).class ≡ c)
      × ((with_class c p).security_level ≡ p.security_level)
      × ((with_class c p).needs_confirm ≡ p.needs_confirm)
unfolding with_class
with_class-fields read_cheap p = (refl, refl, refl)
with_class-fields read_expensive_default p = (refl, refl, refl)
with_class-fields read_expensive_per_target p = (refl, refl, refl)
with_class-fields mutating p = (refl, refl, refl)
with_class-fields destructive p = (refl, refl, refl)

FitsLevel-by_level :
    (action : String) (level : Level)
    → FitsLevel level
        (with_level level (with_class (class_for_action action level) (blank_policy action level)))
unfolding with_level class_for_action with_class
FitsLevel-by_level action l2 = (refl, refl, refl, refl, λ on. refl, λ on. refl)
FitsLevel-by_level action l1 = (refl, refl, refl, refl, λ on. refl, λ on. refl)
FitsLevel-by_level action l0 =
    let read = read_class-IsRead action in
    let kept = with_class-fields (read_class action) (blank_policy action l0) in
    (
      kept.1,
      kept.2,
      ap is_mutating kept.0 ∙ read.0,
      ap is_destructive kept.0 ∙ read.1,
      λ on. ground (arith, on),
      λ on. ground (arith, on),
    )

Agree-FitsLevel : (l : Level) (q p : Policy) → Agree q p → FitsLevel l p → FitsLevel l q
Agree-FitsLevel l q p h k = (
  h.1 ∙ k.0,
  h.2 ∙ k.1,
  ap is_mutating h.0 ∙ k.2,
  ap is_destructive h.0 ∙ k.3,
  λ on. h.3 ∙ k.4 on,
  λ on. h.3 ∙ k.5 on,
)

-- The default policy of any action asks for a confirmation exactly where the action's level is that
-- of a write, is of the class of writes exactly then, is destructive exactly on the highest level,
-- and has no retries on these two levels.
pub policy_for_action-FitsLevel :
    (action : String) → FitsLevel (level_of action) (policy_for_action action)
unfolding policy_for_action policy_at
policy_for_action-FitsLevel action =
    let level = level_of action in
    let p =
      with_level level (with_class (class_for_action action level) (blank_policy action level)) in
    Agree-FitsLevel level (with_name action p) p (with_name-Agree action p)
      (FitsLevel-by_level action level)

-- The default policy of an action with the lists of params that the table of policies gives it.
abbrev pub with_params : Option (List String) → List String → Policy → Policy
with_params allowed internal p = record p {
  allowed_params = allowed;
  internal_allowed_params = internal;
}

-- Under the default policies, whatever params the table allows, ExecuteSafe sends an action of the
-- level of a write at most once, and says so where it succeeds.
pub write-IsSentOnce :
    {W : Type 0} (env : ToolEnv W) (action : String) (allowed : Option (List String))
    (internal : List String) (args : Args) (origin : ExecutionOrigin) (p : Gate W)
    → level_of action ≡ l1
    → env.policies action ≡ some (with_params allowed internal (policy_for_action action))
    → Counts (sent_count p.log) 1 (execute_safe env action args origin p)
write-IsSentOnce {W} env action allowed internal args origin p level found =
    let fits = policy_for_action-FitsLevel action in
    subst (λ (n : ℕ). Counts (sent_count p.log) (suc n) (execute_safe env action args origin p))
      (fits.4 (ap is_l1 level))
      (execute_safe-Counts env action args origin p
        (with_params allowed internal (policy_for_action action)) found)

-- Under the default policies, ExecuteSafe neither asks for nor sends anything of an action of the
-- highest level, whoever asks and with whatever arguments.
pub destructive-IsRefused :
    {W : Type 0} (env : ToolEnv W) (action : String) (allowed : Option (List String))
    (internal : List String) (args : Args) (origin : ExecutionOrigin) (p : Gate W)
    → level_of action ≡ l2
    → env.policies action ≡ some (with_params allowed internal (policy_for_action action))
    → (execute_safe env action args origin p).0 ≡ p
destructive-IsRefused env action allowed internal args origin p level found =
    let policy = with_params allowed internal (policy_for_action action) in
    execute_safe-refused env policy action args origin p found
      (refuse-l2 env policy action (ap is_l2 ((policy_for_action-FitsLevel action).0 ∙ level)))
