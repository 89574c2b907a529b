-- ===== src/RateLimit/Daily.antt =====
-- How many requests of one key a limiter admits on one local date.
use mathlib.Core.Path.{subst}
use native.Mathlib.Nat.{add-zero, add_assoc}
use compshare_agent.Prelude.{
  ℕ, ◌+◌, ◌/◌, ◌≤◌, ◌<◌, Bool, true, false, Option, none, some, List, [], ◌∷◌, ◌≡◌, ◌≢◌, refl,
  arith, if◌then◌else◌, inl, inr, Bool-cases,
}
use compshare_agent.RateLimit.{
  day, Limits, Request, Counter, LimitKey, State, for_class, key_eq, lookup, refill,
  reset_date_if_needed, local_date_key, prepare, consume, with_subject, key_of, time_of, allow,
  serve,
}
use compshare_agent.RateLimit.Spending.{key_eq→eq, key_eq_refl, lookup-put}
use compshare_agent.RateLimit.Bounds.{lookup-allow_other, step_of, allow_enabled, class_of_key}
use compshare_agent.RateLimit.Retry.{prepare-daily_date_key}

abbrev pub one_if : Bool → ℕ
one_if true = 1
one_if false = 0

-- The number of admitted requests of the key `k`.
pub admitted_on : LimitKey → Limits → ℕ → List (ℕ × Request) → State → ℕ
admitted_on k limits zone [] s = 0
admitted_on k limits zone ((clock, r) ∷ rest) s =
    (if key_eq (key_of r) k then one_if (allow limits zone clock r s).1.allowed else 0)
    + admitted_on k limits zone rest (allow limits zone clock r s).0

-- Every request falls on the local date `date`.
abbrev pub OnDate : ℕ → ℕ → List (ℕ × Request) → Type 0
OnDate zone date [] = Unit {0}
OnDate zone date ((clock, r) ∷ rest) =
    ((time_of clock r + zone) / day ≡ date) × OnDate zone date rest

-- The counter has counted nothing on `date` yet.
abbrev pub IsOfAnotherDate : ℕ → Option Counter → Type 0
IsOfAnotherDate date none = Unit {0}
IsOfAnotherDate date (some c) = c.daily_date_key ≢ date

-- `n` requests were admitted on `date`.
abbrev Counted : ℕ → ℕ → ℕ → Option Counter → Type 0
Counted date daily n none = n ≡ 0
Counted date daily n (some c) =
    (c.daily_date_key ≡ date → n ≤ c.daily_count) × (c.daily_date_key ≢ date → n ≡ 0) × (n ≤ daily)

prepare-Counted :
    (zone now q date daily n : ℕ) (found : Option Counter)
    → (now + zone) / day ≡ date
    → Counted date daily n found
    → (n ≤ (prepare zone now q found).daily_count) × (n ≤ daily)
unfolding prepare refill reset_date_if_needed local_date_key
prepare-Counted zone now q date daily n none today h = ground arith
prepare-Counted zone now q date daily n (some c) today h = ground arith

consume-Counted :
    (zone now q daily n : ℕ) (r : Request) (c : Counter)
    → 0 < daily
    → n ≤ c.daily_count
    → n ≤ daily
    → let (c2, d) = consume zone now q daily r c in
      (n + one_if d.allowed ≤ c2.daily_count)
      × (n + one_if d.allowed ≤ daily)
      × (c2.daily_date_key ≡ c.daily_date_key)
unfolding consume
consume-Counted zone now q daily n r c pos h k = ground arith

step-Counted :
    (zone now q date daily n : ℕ) (r : Request) (found : Option Counter)
    → 0 < daily
    → (now + zone) / day ≡ date
    → Counted date daily n found
    → let (c, d) = consume zone now q daily r (prepare zone now q found) in
      Counted date daily (n + one_if d.allowed) (some c)
step-Counted zone now q date daily n r found pos today h =
    let ready = prepare-Counted zone now q date daily n found today h in
    let done =
      consume-Counted zone now q daily n r (prepare zone now q found) pos ready.0 ready.1 in
    let dated = prepare-daily_date_key zone now q found in
    (λ same. done.0, λ other. ground (arith, done.2, dated), done.1)

allow-Counted_own :
    (limits : Limits) (zone clock : ℕ) (r : Request) (s : State) (date n : ℕ)
    → 0 < (for_class limits r.class).1
    → (time_of clock r + zone) / day ≡ date
    → Counted date (for_class limits r.class).1 n (lookup (key_of r) s)
    → Counted date
        (for_class limits r.class).1
        (n + one_if (allow limits zone clock r s).1.allowed)
        (lookup (key_of r) (allow limits zone clock r s).0)
allow-Counted_own limits zone clock r s date n pos today h =
    rw (allow_enabled limits zone clock r s (ground arith)) (
      rw
        (
          lookup-put (key_of r) (key_of r) (step_of limits zone clock r s).0 s,
          key_eq_refl (key_of r),
        )
        (step-Counted zone (time_of clock r) (for_class limits r.class).0 date
          (for_class limits r.class).1 n (with_subject r) (lookup (key_of r) s) pos today h))

allow-Counted :
    (limits : Limits) (zone clock : ℕ) (r : Request) (s : State) (k : LimitKey) (date n : ℕ)
    → 0 < (for_class limits k.class).1
    → (time_of clock r + zone) / day ≡ date
    → Counted date (for_class limits k.class).1 n (lookup k s)
    → Counted date
        (for_class limits k.class).1
        (n + (if key_eq (key_of r) k then one_if (allow limits zone clock r s).1.allowed else 0))
        (lookup k (allow limits zone clock r s).0)
unfolding key_of
allow-Counted limits zone clock r s k date n pos today h = elim (Bool-cases (key_eq (key_of r) k)) [
  | inr other ↦ rw (other, add-zero, lookup-allow_other limits zone clock r s k other) h
  | inl own ↦ rw own (own_case (key_eq→eq (key_of r) k own))
]
  where
    own_case :
        key_of r ≡ k
        → Counted date
            (for_class limits k.class).1
            (n + one_if (allow limits zone clock r s).1.allowed)
            (lookup k (allow limits zone clock r s).0)
    own_case e =
        subst
          (λ (j : LimitKey).
            0 < (for_class limits j.class).1
            → Counted date (for_class limits j.class).1 n (lookup j s)
            → Counted date (for_class limits j.class).1
                (n + one_if (allow limits zone clock r s).1.allowed)
                (lookup j (allow limits zone clock r s).0))
          e (rw (class_of_key r) (λ p q. allow-Counted_own limits zone clock r s date n p today q))
          pos h

serve-Counted :
    (limits : Limits) (zone : ℕ) (k : LimitKey) (date n : ℕ) (rs : List (ℕ × Request)) (s : State)
    → 0 < (for_class limits k.class).1
    → OnDate zone date rs
    → Counted date (for_class limits k.class).1 n (lookup k s)
    → Counted date
        (for_class limits k.class).1
        (n + admitted_on k limits zone rs s)
        (lookup k (serve limits zone rs s))
unfolding serve admitted_on
serve-Counted limits zone k date n [] s pos on h = rw add-zero h
serve-Counted limits zone k date n ((clock, r) ∷ rs) s pos on h = rw (← add_assoc) (
    serve-Counted limits zone k date
      (n + (if key_eq (key_of r) k then one_if (allow limits zone clock r s).1.allowed else 0)) rs
      (allow limits zone clock r s).0 pos on.1
      (allow-Counted limits zone clock r s k date n pos on.0 h))

-- Of the requests of a key with a daily limit that fall on one local date, in any order and among
-- requests of other keys, at most the daily limit are admitted, from any state of the limiter in
-- which the key's counter is not of that date.
pub daily_bound :
    (limits : Limits) (zone : ℕ) (k : LimitKey) (date : ℕ) (rs : List (ℕ × Request)) (s : State)
    → 0 < (for_class limits k.class).1
    → OnDate zone date rs
    → IsOfAnotherDate date (lookup k s)
    → admitted_on k limits zone rs s ≤ (for_class limits k.class).1
daily_bound limits zone k date rs s pos on fresh =
    from_Counted (lookup k (serve limits zone rs s))
      (serve-Counted limits zone k date 0 rs s pos on (start (lookup k s) fresh))
  where
    start :
        (found : Option Counter)
        → IsOfAnotherDate date found
        → Counted date (for_class limits k.class).1 0 found
    start none h = refl
    start (some c) h = (λ same. omega arith, λ other. refl, omega arith)

    from_Counted :
        (found : Option Counter)
        → Counted date (for_class limits k.class).1 (0 + admitted_on k limits zone rs s) found
        → admitted_on k limits zone rs s ≤ (for_class limits k.class).1
    from_Counted none h = omega (arith, h)
    from_Counted (some c) h = omega (arith, h.2)
