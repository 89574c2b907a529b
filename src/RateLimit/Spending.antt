-- ===== src/RateLimit/Spending.antt =====
-- internal/governance/ratelimit.go: what one request takes from the bucket of its key.

use compshare_agent.Prelude.{
  ℕ, ◌+◌, ◌-◌, ◌*◌, ◌≤◌, ◌<◌, Bool, true, false, Option, none, some, [], ◌∷◌, ◌≡◌, refl, ap, arith,
  if◌then◌else◌, eq_iff, inl, inr, Bool-cases,
}
use compshare_agent.RateLimit.{
  one_token, Request, Counter, LimitKey, State, key_eq, lookup, put, refill, reset_date_if_needed,
  fresh_counter, prepare, consume,
}

pub key_eq→eq : (a b : LimitKey) → key_eq a b ≡ true → a ≡ b
unfolding key_eq
key_eq→eq a b h = ground (arith, eq_iff a.subject b.subject, eq_iff a.class b.class)

pub key_eq_refl : (a : LimitKey) → key_eq a a ≡ true
unfolding key_eq
key_eq_refl a = ground (arith, eq_iff a.subject a.subject, eq_iff a.class a.class)

-- A write is read back under its key, and under no other.
pub lookup-put :
    (k j : LimitKey) (c : Counter) (s : State)
    → lookup j (put k c s) ≡ (if key_eq k j then some c else lookup j s)
unfolding lookup put
lookup-put k j c [] = refl
lookup-put k j c ((i, d) ∷ s) = elim (Bool-cases (key_eq i k)) [
  | inl e ↦ (let same : i ≡ k = key_eq→eq i k e in rw (same, key_eq_refl k) (ground arith))
  | inr e ↦ elim (Bool-cases (key_eq i j)) [
    | inl d' ↦
        rw (e, d')
          (elim (Bool-cases (key_eq k j)) [
            | inl f ↦ cc (key_eq_refl k, e, key_eq→eq k j f, key_eq→eq i j d')
            | inr f ↦ rw f
          ])
    | inr d' ↦ rw (e, d') (lookup-put k j c s)
  ]
]

-- The refill gives at most `q` billionths of a token for each nanosecond.
refill_gain :
    (now q : ℕ) (c : Counter)
    → c.last_refill ≤ now
    → ((refill now q c).tokens + c.last_refill * q ≤ c.tokens + now * q)
      × ((refill now q c).last_refill ≡ now)
unfolding refill
refill_gain now q c h =
    let split : now ≡ c.last_refill + (now - c.last_refill) = omega arith in
    ground (arith, ap (λ (t : ℕ). t * q) split)

-- Billionths of a token that a decision spends.
abbrev pub spent : Bool → ℕ
spent true = one_token
spent false = 0

pub consume_cost :
    (zone now q daily : ℕ) (r : Request) (c : Counter)
    → 0 < q
    → ((consume zone now q daily r c).0.tokens + spent (consume zone now q daily r c).1.allowed
        ≤ c.tokens)
      × ((consume zone now q daily r c).0.last_refill ≡ c.last_refill)
unfolding consume
consume_cost zone now q daily r c h = ground arith

reset_keeps :
    (zone now : ℕ) (c : Counter)
    → ((reset_date_if_needed zone now c).tokens ≡ c.tokens)
      × ((reset_date_if_needed zone now c).last_refill ≡ c.last_refill)
unfolding reset_date_if_needed
reset_keeps zone now c = ground arith

-- What is known of a key's counter when `n` billionths of a token were spent since `t0`.
abbrev pub Spent : ℕ → ℕ → ℕ → ℕ → Option Counter → Type 0
Spent t0 q n now none = n ≡ 0
Spent t0 q n now (some c) =
    (n + c.tokens + t0 * q ≤ q * one_token + c.last_refill * q) × (c.last_refill ≤ now)

pub at_now : (t0 now q : ℕ) → t0 ≤ now → t0 * q ≤ now * q
at_now t0 now q h = grind arith

pub prepare-Spent :
    (t0 q zone n before now : ℕ) (found : Option Counter)
    → 0 < q
    → t0 ≤ before
    → before ≤ now
    → Spent t0 q n before found
    → Spent t0 q n now (some (prepare zone now q found))
unfolding prepare
prepare-Spent t0 q zone n before now none pos old later h =
    let c = fresh_counter zone now q in
    let d = reset_date_if_needed zone now c in
    ground (arith, reset_keeps zone now c, refill_gain now q d, at_now t0 now q)
prepare-Spent t0 q zone n before now (some c) pos old later h =
    let d = reset_date_if_needed zone now c in
    ground (arith, reset_keeps zone now c, refill_gain now q d)
