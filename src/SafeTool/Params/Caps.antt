-- ===== src/SafeTool/Params/Caps.antt =====
-- When the arguments of a call are within the caps of its policy.
use compshare_agent.Prelude.{
  ℕ, ◌+◌, ◌-◌, ◌≤◌, ◌<◌, String, Option, none, some, ◌≡◌, refl, arith, ◌↔◌, ltb, inl, inr,
  Bool-cases,
}
use compshare_agent.Value.{Value, Fields, get_field}
use compshare_agent.SafeTool.Types.{Policy}
use compshare_agent.SafeTool.Params.{
  count_requested_targets, max_int64, seconds_arg, window_between, window_of_seconds,
  window_of_values, requested_history_window_seconds, check_window, check_policy_caps,
}

-- The two times are seconds of a span from `start` of at most `limit`, and no sum overflows.
abbrev pub Spans : ℕ → Option (Option ℕ) → Option (Option ℕ) → Type 0
Spans limit (some (some start)) (some (some finish)) =
    (start < finish) × (finish - start ≤ limit) × (start + finish ≤ max_int64)
Spans limit _ _ = ⊥

window-Spans :
    (limit : ℕ) (start finish : Option (Option ℕ))
    → limit < max_int64
    → window_of_seconds start finish ≤ limit
    → Spans limit start finish
unfolding window_of_seconds window_between
window-Spans limit (some (some s)) (some (some f)) small h = ground (arith, h)
window-Spans limit none f small h = ground (arith, h)
window-Spans limit (some none) f small h = ground (arith, h)
window-Spans limit (some (some s)) none small h = ground (arith, h)
window-Spans limit (some (some s)) (some none) small h = ground (arith, h)

Spans-window :
    (limit : ℕ) (start finish : Option (Option ℕ))
    → Spans limit start finish
    → window_of_seconds start finish ≤ limit
unfolding window_of_seconds window_between
Spans-window limit (some (some s)) (some (some f)) h = ground (arith, h)
Spans-window limit none f h = absurd h
Spans-window limit (some none) f h = absurd h
Spans-window limit (some (some s)) none h = absurd h
Spans-window limit (some (some s)) (some none) h = absurd h

-- A request for history names a target and two times that span at most the limit; any other
-- request names no time.
abbrev pub IsHistoryWithin :
    (String → Option (Option ℕ)) → ℕ → ℕ → Option Value → Option Value → Type 0
IsHistoryWithin parse limit targets none none = Unit {0}
IsHistoryWithin parse limit targets (some s) (some e) =
    (0 < targets) × Spans limit (seconds_arg parse s) (seconds_arg parse e)
IsHistoryWithin parse limit targets _ _ = ⊥

checked-window :
    (parse : String → Option (Option ℕ)) (limit targets : ℕ) (s e : Option Value)
    → limit < max_int64
    → check_window limit targets (window_of_values parse s e) ≡ none
    → IsHistoryWithin parse limit targets s e
unfolding check_window window_of_values
checked-window parse limit targets none none small h = tt
checked-window parse limit targets (some s) (some e) small h = (
  ground (arith, h),
  window-Spans limit (seconds_arg parse s) (seconds_arg parse e) small (ground (arith, h)),
)
checked-window parse limit targets none (some e) small h = ground (arith, h)
checked-window parse limit targets (some s) none small h = ground (arith, h)

window-checked :
    (parse : String → Option (Option ℕ)) (limit targets : ℕ) (s e : Option Value)
    → IsHistoryWithin parse limit targets s e
    → check_window limit targets (window_of_values parse s e) ≡ none
unfolding check_window window_of_values
window-checked parse limit targets none none h = refl
window-checked parse limit targets (some s) (some e) h =
    ground (arith, h.0, Spans-window limit (seconds_arg parse s) (seconds_arg parse e) h.1)
window-checked parse limit targets none (some e) h = absurd h
window-checked parse limit targets (some s) none h = absurd h

-- The arguments `m` of a call are within the caps of its policy, whose history limit is below the
-- largest integer, exactly when, with a limit on the targets, they name no more of them, and, with
-- a limit on the history, they name either no time, or a target and two times of which the first is
-- before the second, neither is negative, and the span is within the limit.
pub check_policy_caps_iff :
    (parse : String → Option (Option ℕ)) (policy : Policy) (m : Fields)
    → policy.max_history_window_seconds < max_int64
    → (check_policy_caps parse policy (some m) ≡ none) ↔ (
        (0 < policy.max_targets_per_call
          → count_requested_targets (some m) ≤ policy.max_targets_per_call)
        × (0 < policy.max_history_window_seconds
            → IsHistoryWithin parse policy.max_history_window_seconds
                (count_requested_targets (some m))
                (get_field "StartTime" m)
                (get_field "EndTime" m)))
unfolding check_policy_caps requested_history_window_seconds
check_policy_caps_iff parse policy m small = (
  λ h. (
    λ on. ground (arith, h, on),
    λ on.
        checked-window parse policy.max_history_window_seconds (count_requested_targets (some m))
          (get_field "StartTime" m) (get_field "EndTime" m) small (ground (arith, h, on)),
  ),
  λ h. elim (Bool-cases (ltb 0 policy.max_history_window_seconds)) [
    | inl on ↦ ground (
      arith,
      h.0,
      on,
      window-checked parse policy.max_history_window_seconds (count_requested_targets (some m))
          (get_field "StartTime" m) (get_field "EndTime" m) (h.1 (ground (arith, on))),
    )
    | inr off ↦ ground (arith, h.0, off)
  ],
)
