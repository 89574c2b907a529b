-- ===== src/RateLimit/Retry.antt =====
-- What a refusal of internal/governance/ratelimit.go tells the caller: a request refused for its day
-- may be asked again after its retry time.
use compshare_agent.Prelude.{
  ℕ, ◌+◌, ◌/◌, ◌≤◌, ◌<◌, true, ◌&&◌, Option, none, some, ◌≡◌, ◌≢◌, refl, arith, ◌==◌, inl, inr,
  Bool-cases,
}
use compshare_agent.RateLimit.{
  day, Limits, Request, reason_none, daily_exceeded, Counter, State, prepare, consume, refill,
  reset_date_if_needed, local_date_key, retry_after_daily, denied_decision, allowed_decision, put,
  allow, key_of, with_subject, time_of, for_class, lookup,
}
use compshare_agent.RateLimit.Spending.{lookup-put, key_eq_refl}
use compshare_agent.RateLimit.Bounds.{step_of, allow_enabled}

-- The wait of a refusal for the day ends at the first nanosecond of the next date.
next_day : (zone now : ℕ) → (now + retry_after_daily zone now + zone) / day ≡ (now + zone) / day + 1
unfolding retry_after_daily
next_day zone now = omega arith

consume_daily :
    (zone now q daily : ℕ) (r : Request) (c : Counter)
    → (consume zone now q daily r c).1.reason ≡ daily_exceeded
    → ((consume zone now q daily r c).0 ≡ c)
      × ((consume zone now q daily r c).1.retry_after ≡ retry_after_daily zone now)
      × (0 < daily)
unfolding consume denied_decision allowed_decision
consume_daily zone now q daily r c h = ground arith

consume-not_daily :
    (zone now q daily : ℕ) (r : Request) (c : Counter)
    → c.daily_count ≡ 0
    → (consume zone now q daily r c).1.reason ≢ daily_exceeded
unfolding consume denied_decision allowed_decision
consume-not_daily zone now q daily r c h = ground arith

pub prepare-daily_date_key :
    (zone now q : ℕ) (found : Option Counter)
    → (prepare zone now q found).daily_date_key ≡ (now + zone) / day
unfolding prepare refill reset_date_if_needed local_date_key
prepare-daily_date_key zone now q none = ground arith
prepare-daily_date_key zone now q (some c) = ground arith

prepare_resets :
    (zone now q : ℕ) (c : Counter)
    → c.daily_date_key ≢ (now + zone) / day
    → (prepare zone now q (some c)).daily_count ≡ 0
unfolding prepare refill reset_date_if_needed local_date_key
prepare_resets zone now q c h = ground arith

-- The same request at another time.
abbrev pub at : ℕ → Request → Request
at later r = record r { now = some later }

key_of-at : (later : ℕ) (r : Request) → key_of (at later r) ≡ key_of r
unfolding key_of with_subject
key_of-at later r = ground arith

lookup-served :
    (limits : Limits) (zone clock : ℕ) (r : Request) (s : State)
    → lookup (key_of r) (put (key_of r) (step_of limits zone clock r s).0 s)
      ≡ some (step_of limits zone clock r s).0
lookup-served limits zone clock r s =
    rw
      (lookup-put (key_of r) (key_of r) (step_of limits zone clock r s).0 s, key_eq_refl (key_of r))
      refl

none-disabled :
    (limits : Limits) (zone clock : ℕ) (r : Request) (s : State)
    → ((for_class limits r.class).0 == 0 && (for_class limits r.class).1 == 0) ≡ true
    → (allow limits zone clock r s).1.reason ≡ reason_none
unfolding allow allowed_decision
none-disabled limits zone clock r s e = rw (e, allow) refl

again_daily :
    (zone now q daily later : ℕ) (r r2 : Request) (found : Option Counter)
    → let (c, d) = consume zone now q daily r (prepare zone now q found) in
      d.reason ≡ daily_exceeded
      → now + d.retry_after ≤ later
      → (consume zone later q daily r2 (prepare zone later q (some c))).1.reason ≢ daily_exceeded
again_daily zone now q daily later r r2 found refused waited =
    let p = prepare zone now q found in
    let facts = consume_daily zone now q daily r p refused in
    let c : Counter = (consume zone now q daily r p).0 in
    let today : c.daily_date_key ≡ (now + zone) / day =
      rw facts.0 (prepare-daily_date_key zone now q found) in
    let moved : c.daily_date_key ≢ (later + zone) / day =
      omega (arith, waited, facts.1, today, next_day zone now) in
    consume-not_daily zone later q daily r2 (prepare zone later q (some c))
      (prepare_resets zone later q c moved)

-- A request refused for its day, asked again once the retry time of the refusal has passed, is
-- not refused for its day.
pub retry_after_daily-IsEnough :
    (limits : Limits) (zone clock clock2 later : ℕ) (r : Request) (s : State)
    → (allow limits zone clock r s).1.reason ≡ daily_exceeded
    → time_of clock r + (allow limits zone clock r s).1.retry_after ≤ later
    → (allow limits zone clock2 (at later r) (allow limits zone clock r s).0).1.reason
      ≢ daily_exceeded
unfolding time_of
retry_after_daily-IsEnough limits zone clock clock2 later r s =
    elim (Bool-cases ((for_class limits r.class).0 == 0 && (for_class limits r.class).1 == 0)) [
      | inl e ↦ rw (none-disabled limits zone clock r s e) (λ refused. ground arith)
      | inr e ↦
          rw
            (
              allow_enabled limits zone clock r s e,
              allow_enabled limits zone clock2 (at later r)
                  (put (key_of r) (step_of limits zone clock r s).0 s) e,
              key_of-at later r,
              lookup-served limits zone clock r s,
            )
            (again_daily zone (time_of clock r) (for_class limits r.class).0
              (for_class limits r.class).1 later (with_subject r) (with_subject (at later r))
              (lookup (key_of r) s))
    ]
