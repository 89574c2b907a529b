-- ===== src/RateLimit/Bounds.antt =====
-- How many requests of one key a limiter admits, in any interleaving with requests of others.
use mathlib.Core.Path.{subst}
use native.Mathlib.Nat.{add-zero, add_assoc}
use compshare_agent.Prelude.{
  ℕ, ◌+◌, ◌-◌, ◌*◌, ◌≤◌, ◌<◌, true, false, ◌&&◌, Option, none, some, List, [], ◌∷◌, ◌≡◌, refl, ap,
  arith, ◌==◌, if◌then◌else◌, inl, inr, Bool-cases,
}
use compshare_agent.RateLimit.{
  one_token, Limits, Request, Decision, Counter, LimitKey, State, for_class, key_eq, lookup, put,
  prepare, consume, with_subject, key_of, time_of, allow, serve,
}
use compshare_agent.RateLimit.Spending.{
  key_eq→eq, key_eq_refl, lookup-put, spent, consume_cost, Spent, at_now, prepare-Spent,
}

step-Spent :
    (t0 q daily zone n before now : ℕ) (r : Request) (found : Option Counter)
    → 0 < q
    → t0 ≤ before
    → before ≤ now
    → Spent t0 q n before found
    → let (c, d) = consume zone now q daily r (prepare zone now q found) in
      Spent t0 q (n + spent d.allowed) now (some c)
step-Spent t0 q daily zone n before now r found pos old later h =
    let c = prepare zone now q found in
    let ready = prepare-Spent t0 q zone n before now found pos old later h in
    let cost = consume_cost zone now q daily r c pos in
    omega (arith, ready, cost, ap (λ (t : ℕ). t * q) cost.1)

Spent-later :
    (t0 q n before now : ℕ) (found : Option Counter)
    → before ≤ now
    → Spent t0 q n before found
    → Spent t0 q n now found
Spent-later t0 q n before now none later h = h
Spent-later t0 q n before now (some c) later h = (h.0, omega arith)

-- Billionths of a token spent on the admitted requests of the key `k`.
pub spent_on : LimitKey → Limits → ℕ → List (ℕ × Request) → State → ℕ
spent_on k limits zone [] s = 0
spent_on k limits zone ((clock, r) ∷ rest) s =
    (if key_eq (key_of r) k then spent (allow limits zone clock r s).1.allowed else 0)
    + spent_on k limits zone rest (allow limits zone clock r s).0

-- The times of the requests do not go back, from `t` on.
abbrev pub InOrder : ℕ → List (ℕ × Request) → Type 0
InOrder t [] = Unit {0}
InOrder t ((clock, r) ∷ rest) = (t ≤ time_of clock r) × InOrder (time_of clock r) rest

-- The time of the last request.
abbrev pub end_time : ℕ → List (ℕ × Request) → ℕ
end_time t [] = t
end_time t ((clock, r) ∷ rest) = end_time (time_of clock r) rest

-- The enabled branch of Allow, as one step of the key's counter.
abbrev pub step_of : Limits → ℕ → ℕ → Request → State → Counter × Decision
step_of limits zone clock r s =
    let now = time_of clock r in
    consume zone now (for_class limits r.class).0 (for_class limits r.class).1 (with_subject r)
      (prepare zone now (for_class limits r.class).0 (lookup (key_of r) s))

pub allow_enabled :
    (limits : Limits) (zone clock : ℕ) (r : Request) (s : State)
    → ((for_class limits r.class).0 == 0 && (for_class limits r.class).1 == 0) ≡ false
    → allow limits zone clock r s
      ≡ (put (key_of r) (step_of limits zone clock r s).0 s, (step_of limits zone clock r s).1)
unfolding allow
allow_enabled limits zone clock r s e = rw (e, allow)

pub allow_disabled :
    (limits : Limits) (zone clock : ℕ) (r : Request) (s : State)
    → ((for_class limits r.class).0 == 0 && (for_class limits r.class).1 == 0) ≡ true
    → (allow limits zone clock r s).0 ≡ s
unfolding allow
allow_disabled limits zone clock r s e = rw (e, allow)

-- A request leaves the counters of every other key alone.
pub lookup-allow_other :
    (limits : Limits) (zone clock : ℕ) (r : Request) (s : State) (k : LimitKey)
    → key_eq (key_of r) k ≡ false
    → lookup k (allow limits zone clock r s).0 ≡ lookup k s
lookup-allow_other limits zone clock r s k other =
    elim (Bool-cases ((for_class limits r.class).0 == 0 && (for_class limits r.class).1 == 0)) [
      | inl e ↦ rw (allow_disabled limits zone clock r s e)
      | inr e ↦
          rw (allow_enabled limits zone clock r s e)
            (rw (lookup-put (key_of r) k (step_of limits zone clock r s).0 s, other))
    ]

pub class_of_key : (r : Request) → (key_of r).class ≡ r.class
unfolding key_of
class_of_key r = refl

allow-Spent_own :
    (limits : Limits) (zone clock : ℕ) (r : Request) (s : State) (t0 n before : ℕ)
    → 0 < (for_class limits r.class).0
    → t0 ≤ before
    → before ≤ time_of clock r
    → Spent t0 (for_class limits r.class).0 n before (lookup (key_of r) s)
    → Spent t0
        (for_class limits r.class).0
        (n + spent (allow limits zone clock r s).1.allowed)
        (time_of clock r)
        (lookup (key_of r) (allow limits zone clock r s).0)
allow-Spent_own limits zone clock r s t0 n before pos old later h =
    rw (allow_enabled limits zone clock r s (ground arith)) (
      rw
        (
          lookup-put (key_of r) (key_of r) (step_of limits zone clock r s).0 s,
          key_eq_refl (key_of r),
        )
        (step-Spent t0 (for_class limits r.class).0 (for_class limits r.class).1 zone n before
          (time_of clock r) (with_subject r) (lookup (key_of r) s) pos old later h))

allow-Spent :
    (limits : Limits) (zone clock : ℕ) (r : Request) (s : State) (k : LimitKey) (t0 n before : ℕ)
    → 0 < (for_class limits k.class).0
    → t0 ≤ before
    → before ≤ time_of clock r
    → Spent t0 (for_class limits k.class).0 n before (lookup k s)
    → Spent t0
        (for_class limits k.class).0
        (n + (if key_eq (key_of r) k then spent (allow limits zone clock r s).1.allowed else 0))
        (time_of clock r)
        (lookup k (allow limits zone clock r s).0)
unfolding key_of
allow-Spent limits zone clock r s k t0 n before pos old later h =
    elim (Bool-cases (key_eq (key_of r) k)) [
      | inr other ↦
          rw (other, add-zero, lookup-allow_other limits zone clock r s k other)
            (Spent-later t0 _ n before _ (lookup k s) later h)
      | inl own ↦ rw own (own_case (key_eq→eq (key_of r) k own))
    ]
  where
    own_case :
        key_of r ≡ k
        → Spent t0
            (for_class limits k.class).0
            (n + spent (allow limits zone clock r s).1.allowed)
            (time_of clock r)
            (lookup k (allow limits zone clock r s).0)
    own_case e =
        subst
          (λ (j : LimitKey).
            0 < (for_class limits j.class).0
            → Spent t0 (for_class limits j.class).0 n before (lookup j s)
            → Spent t0 (for_class limits j.class).0
                (n + spent (allow limits zone clock r s).1.allowed) (time_of clock r)
                (lookup j (allow limits zone clock r s).0))
          e
          (rw (class_of_key r)
            (λ p q. allow-Spent_own limits zone clock r s t0 n before p old later q))
          pos h

serve-Spent :
    (limits : Limits) (zone : ℕ) (k : LimitKey) (t0 n before : ℕ) (rs : List (ℕ × Request))
    (s : State)
    → 0 < (for_class limits k.class).0
    → t0 ≤ before
    → InOrder before rs
    → Spent t0 (for_class limits k.class).0 n before (lookup k s)
    → Spent t0
        (for_class limits k.class).0
        (n + spent_on k limits zone rs s)
        (end_time before rs)
        (lookup k (serve limits zone rs s))
unfolding serve spent_on
serve-Spent limits zone k t0 n before [] s pos old order h = rw add-zero h
serve-Spent limits zone k t0 n before ((clock, r) ∷ rs) s pos old order h = rw (← add_assoc) (
    serve-Spent limits zone k t0
      (n + (if key_eq (key_of r) k then spent (allow limits zone clock r s).1.allowed else 0))
      (time_of clock r) rs (allow limits zone clock r s).0 pos (omega arith) order.1
      (allow-Spent limits zone clock r s k t0 n before pos old order.0 h))

-- From a limiter without counters, and whatever other keys are served in between: if the times of
-- the requests start at `t0` or later and never go back, and the rate `qps` of a key is positive, the
-- admitted requests of the key spend at most one full bucket of `qps` tokens and what `qps` refills
-- from `t0` to the last request. Tokens are exact billionths, where the code rounds to float64.
pub rate_bound :
    (limits : Limits) (zone : ℕ) (k : LimitKey) (t0 : ℕ) (rs : List (ℕ × Request))
    → 0 < (for_class limits k.class).0
    → InOrder t0 rs
    → spent_on k limits zone rs []
      ≤ (for_class limits k.class).0 * one_token
        + (end_time t0 rs * (for_class limits k.class).0 - t0 * (for_class limits k.class).0)
unfolding lookup
rate_bound limits zone k t0 rs pos order =
    from_Spent (lookup k (serve limits zone rs []))
      (serve-Spent limits zone k t0 0 t0 rs [] pos (omega arith) order (no_counter k))
  where
    no_counter : (j : LimitKey) → Spent t0 (for_class limits k.class).0 0 t0 (lookup j [])
    no_counter j = refl

    from_Spent :
        (found : Option Counter)
        → Spent t0
            (for_class limits k.class).0
            (0 + spent_on k limits zone rs [])
            (end_time t0 rs)
            found
        → spent_on k limits zone rs []
          ≤ (for_class limits k.class).0 * one_token
            + (end_time t0 rs * (for_class limits k.class).0 - t0 * (for_class limits k.class).0)
    from_Spent none h = omega (arith, h)
    from_Spent (some c) h =
        omega (arith, h.0, at_now c.last_refill (end_time t0 rs) (for_class limits k.class).0 h.1)
