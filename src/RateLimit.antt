-- ===== src/RateLimit.antt =====
-- internal/governance/ratelimit.go: the in-memory rate limiter. Times are nanoseconds; tokens are
-- counted in billionths, so that a nanosecond at `qps` refills exactly `qps` of them (the source
-- counts them in a float64, whose rounding is left out). A limit that is not positive is 0. The
-- local date is a day number: `zone` is the fixed offset of the clock's location. The lock makes
-- each call of Allow one step.
pub mod Spending
pub mod Bounds
pub mod Retry
pub mod Daily
mod Examples
use compshare_agent.Prelude.{
  ℕ, ◌+◌, ◌-◌, ◌*◌, ◌/◌, min, String, Bool, true, false, ◌&&◌, Option, none, some, List, [], ◌∷◌,
  ltb, leb, ◌==◌, if◌then◌else◌, str_eq,
}

abbrev pub second : ℕ
second = 1_000_000_000

abbrev pub day : ℕ
day = 86_400_000_000_000

abbrev pub millisecond : ℕ
millisecond = 1_000_000

-- What a token counts.
abbrev pub one_token : ℕ
one_token = 1_000_000_000

pub record Limits : Type 0 where
  pub llm_qps : ℕ
  pub llm_daily : ℕ
  pub mutating_qps : ℕ
  pub mutating_daily : ℕ
  pub read_expensive_qps : ℕ
  pub read_expensive_daily : ℕ
  pub ssh_exec_qps : ℕ
  pub ssh_exec_daily : ℕ
  pub user_turn_qps : ℕ
  pub user_turn_daily : ℕ

pub data Reason : Type 0 where
  reason_none qps_exceeded daily_exceeded : Reason

-- `now` is none for the zero Time.
pub record Request : Type 0 where
  pub subject_key : String
  pub class : String
  pub action : String
  pub now : Option ℕ

pub record Decision : Type 0 where
  pub allowed : Bool
  pub class : String
  pub action : String
  pub reason : Reason
  pub subject_hash : String
  pub retry_after : ℕ

pub record Counter : Type 0 where
  pub tokens : ℕ
  pub last_refill : ℕ
  pub daily_date_key : ℕ
  pub daily_count : ℕ

pub record LimitKey : Type 0 where
  pub subject : String
  pub class : String

abbrev pub State : Type 0
State = List (LimitKey × Counter)

abbrev pub default_limits : Limits
default_limits = record {
  llm_qps = 5;
  llm_daily = 5000;
  mutating_qps = 1;
  mutating_daily = 50;
  read_expensive_qps = 6;
  read_expensive_daily = 500;
  ssh_exec_qps = 1;
  ssh_exec_daily = 50;
  user_turn_qps = 0;
  user_turn_daily = 0;
}

abbrev or_default : ℕ → ℕ → ℕ
or_default n d = if n == 0 then d else n

pub normalize_limits : Limits → Limits
normalize_limits l = record l {
  llm_qps = or_default l.llm_qps default_limits.llm_qps;
  llm_daily = or_default l.llm_daily default_limits.llm_daily;
  mutating_qps = or_default l.mutating_qps default_limits.mutating_qps;
  mutating_daily = or_default l.mutating_daily default_limits.mutating_daily;
  read_expensive_qps = or_default l.read_expensive_qps default_limits.read_expensive_qps;
  read_expensive_daily = or_default l.read_expensive_daily default_limits.read_expensive_daily;
  ssh_exec_qps = or_default l.ssh_exec_qps default_limits.ssh_exec_qps;
  ssh_exec_daily = or_default l.ssh_exec_daily default_limits.ssh_exec_daily;
}

-- The pair (qps, daily) of a class; an unknown class has the budget of the LLM.
pub for_class : Limits → String → ℕ × ℕ
for_class l class =
    if str_eq class "mutating_tool"
    then (l.mutating_qps, l.mutating_daily)
    else if str_eq class "read_expensive_tool"
    then (l.read_expensive_qps, l.read_expensive_daily)
    else if str_eq class "ssh_exec"
    then (l.ssh_exec_qps, l.ssh_exec_daily)
    else if str_eq class "llm"
    then (l.llm_qps, l.llm_daily)
    else if str_eq class "user_turn"
    then (l.user_turn_qps, l.user_turn_daily)
    else (l.llm_qps, l.llm_daily)

pub key_eq : LimitKey → LimitKey → Bool
key_eq a b = str_eq a.subject b.subject && str_eq a.class b.class

pub lookup : LimitKey → State → Option Counter
lookup k [] = none
lookup k ((j, c) ∷ s) = if key_eq j k then some c else lookup k s

pub put : LimitKey → Counter → State → State
put k c [] = (k, c) ∷ []
put k c ((j, d) ∷ s) = if key_eq j k then (k, c) ∷ s else (j, d) ∷ put k c s

pub local_date_key : ℕ → ℕ → ℕ
local_date_key zone now = (now + zone) / day

pub refill : ℕ → ℕ → Counter → Counter
refill now qps c =
    if ltb now c.last_refill
    then record c { last_refill = now }
    else if leb (now - c.last_refill) 0
    then c
    else record c {
      tokens = min (qps * one_token) (c.tokens + (now - c.last_refill) * qps);
      last_refill = now;
    }

pub reset_date_if_needed : ℕ → ℕ → Counter → Counter
unfolding local_date_key
reset_date_if_needed zone now c =
    if c.daily_date_key == local_date_key zone now
    then c
    else record c { daily_date_key = local_date_key zone now; daily_count = 0 }

-- The ceiling to whole milliseconds.
pub retry_after_qps : ℕ → ℕ → ℕ
retry_after_qps tokens qps =
    if qps == 0
    then second
    else if leb one_token tokens
    then 0
    else ((one_token - tokens) * 1000 + (qps * one_token - 1)) / (qps * one_token) * millisecond

-- Until the next local midnight.
pub retry_after_daily : ℕ → ℕ → ℕ
retry_after_daily zone now = ((now + zone) / day + 1) * day - (now + zone)

pub denied_decision : Request → Reason → ℕ → Decision
denied_decision r reason after = record {
  allowed = false;
  class = r.class;
  action = r.action;
  reason = reason;
  subject_hash = r.subject_key;
  retry_after = after;
}

pub allowed_decision : Request → Decision
allowed_decision r = record {
  allowed = true;
  class = r.class;
  action = r.action;
  reason = reason_none;
  subject_hash = r.subject_key;
  retry_after = 0;
}

abbrev pub fresh_counter : ℕ → ℕ → ℕ → Counter
fresh_counter zone now qps = record {
  tokens = qps * one_token;
  last_refill = now;
  daily_date_key = (now + zone) / day;
  daily_count = 0;
}

-- The counter as a request finds it: made if it is missing, then reset and refilled.
pub prepare : ℕ → ℕ → ℕ → Option Counter → Counter
prepare zone now qps found =
    let c : Counter = elim found [ none ↦ fresh_counter zone now qps | some c ↦ c ] in
    let d = reset_date_if_needed zone now c in if ltb 0 qps then refill now qps d else d

-- The two guards and the consumption of Allow, on a prepared counter.
pub consume : ℕ → ℕ → ℕ → ℕ → Request → Counter → Counter × Decision
unfolding denied_decision allowed_decision
consume zone now qps daily r c =
    if ltb 0 daily && leb daily c.daily_count
    then (c, denied_decision r daily_exceeded (retry_after_daily zone now))
    else if ltb 0 qps && ltb c.tokens one_token
    then (c, denied_decision r qps_exceeded (retry_after_qps c.tokens qps))
    else (
      record c {
        tokens = if ltb 0 qps then c.tokens - one_token else c.tokens;
        daily_count = c.daily_count + 1;
      },
      allowed_decision r,
    )

-- `if req.SubjectKey == "" { req.SubjectKey = AnonymousSubjectKey }`.
pub with_subject : Request → Request
with_subject r = if str_eq r.subject_key "" then record r { subject_key = "anonymous" } else r

pub key_of : Request → LimitKey
unfolding with_subject
key_of r = record { subject = (with_subject r).subject_key; class = r.class }

-- The request's time, or the limiter's clock.
pub time_of : ℕ → Request → ℕ
time_of clock r = elim r.now [ none ↦ clock | some t ↦ t ]

-- InMemoryRateLimiter.Allow, with `clock` the reading of its clock.
pub allow : Limits → ℕ → ℕ → Request → State → State × Decision
unfolding time_of
allow limits zone clock request s =
    let r = with_subject request in
    let now = time_of clock request in
    let (qps, daily) = for_class limits request.class in
    if qps == 0 && daily == 0
    then (s, allowed_decision r)
    else (let (c, d) =
          consume zone now qps daily r (prepare zone now qps (lookup (key_of request) s)) in
        (put (key_of request) c s, d))

-- A run of the limiter: each request comes with the reading of the clock.
pub serve : Limits → ℕ → List (ℕ × Request) → State → State
serve limits zone [] s = s
serve limits zone ((clock, r) ∷ rest) s = serve limits zone rest (allow limits zone clock r s).0
