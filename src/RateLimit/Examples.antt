-- ===== src/RateLimit/Examples.antt =====
-- Runs of the rate limiter at concrete inputs.
use compshare_agent.Prelude.{
  ℕ, ◌+◌, ◌-◌, ◌*◌, ◌≤◌, none, some, List, [], ◌∷◌, ◌≡◌, ◌≢◌, refl, arith,
}
use compshare_agent.RateLimit.{
  second, one_token, Limits, Request, State, LimitKey, default_limits, for_class, key_eq, lookup,
  put, refill, reset_date_if_needed, local_date_key, retry_after_qps, retry_after_daily,
  denied_decision, allowed_decision, prepare, consume, with_subject, key_of, time_of, allow,
  daily_exceeded,
}
use compshare_agent.RateLimit.Bounds.{spent_on, end_time, rate_bound}
use compshare_agent.RateLimit.Daily.{admitted_on, daily_bound}
use compshare_agent.RateLimit.Retry.{at, retry_after_daily-IsEnough}

-- A write by a tenant.
abbrev write : Request
write = record {
  subject_key = "org:1/2";
  class = "mutating_tool";
  action = "StopInstance";
  now = none;
}

abbrev write_key : LimitKey
write_key = record { subject = "org:1/2"; class = "mutating_tool" }

-- A read by another tenant.
abbrev read : Request
read = record {
  subject_key = "org:3/4";
  class = "read_expensive_tool";
  action = "GetMonitorData";
  now = some 7;
}

abbrev busy_second : List (ℕ × Request)
busy_second = (0, write) ∷ (5, read) ∷ (10, write) ∷ (second + 10, write) ∷ []

abbrev one_a_day : Limits
one_a_day = record default_limits { mutating_qps = 5; mutating_daily = 1 }

-- The limiter after one write.
abbrev used : Limits → State
used limits = (allow limits 0 0 write []).0

refused_at_once : (allow default_limits 0 0 write (used default_limits)).1.retry_after ≡ second
unfolding allow time_of for_class key_of with_subject lookup key_eq put prepare refill
    reset_date_if_needed local_date_key consume denied_decision allowed_decision retry_after_qps
    retry_after_daily
refused_at_once = refl

rate_bound_example :
    spent_on write_key default_limits 0 busy_second []
    ≤ (for_class default_limits "mutating_tool").0 * one_token
      + (end_time 0 busy_second * (for_class default_limits "mutating_tool").0
          - 0 * (for_class default_limits "mutating_tool").0)
unfolding for_class time_of
rate_bound_example =
    rate_bound default_limits 0 write_key 0 busy_second (omega arith)
      (omega arith, (omega arith, (omega arith, (omega arith, tt))))

daily_bound_example :
    admitted_on write_key default_limits 0 busy_second []
    ≤ (for_class default_limits "mutating_tool").1
unfolding for_class time_of lookup
daily_bound_example =
    daily_bound default_limits 0 write_key 0 busy_second [] (omega arith)
      (refl, (refl, (refl, (refl, tt)))) tt

retry_after_daily-IsEnough_example :
    (allow one_a_day 0 0
      (at 86_400_000_000_000 write)
      (allow one_a_day 0 0 write (used one_a_day)).0).1.reason
    ≢ daily_exceeded
unfolding allow time_of for_class key_of with_subject lookup key_eq put prepare refill
    reset_date_if_needed local_date_key consume denied_decision allowed_decision retry_after_qps
    retry_after_daily
retry_after_daily-IsEnough_example =
    retry_after_daily-IsEnough one_a_day 0 0 0 86_400_000_000_000 write (used one_a_day) refl
      (omega arith)
