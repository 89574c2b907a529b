-- ===== src/Broker/Sound.antt =====
-- internal/httpapi/confirm_broker.go: a confirmation in use has an open channel.
use compshare_agent.Prelude.{
  ℕ, zero, suc, ◌+◌, ◌≤◌, ◌<◌, String, Option, none, some, List, [], ◌∷◌, ◌≡◌, refl, arith, ◌==◌,
  if◌then◌else◌, str_eq, inl, inr, Bool-cases, Option-cases,
}
use compshare_agent.Workflow.Form.{ConfirmForm}
use compshare_agent.Broker.{
  Owner, ConfirmDecision, Chan, open_chan, PendingConfirm, Delivery, ConfirmBroker, find, delete,
  set_chan, register, check_claim, claim_resolution, keep_claim, take_claim,
}

-- 1 where the two addresses are the same.
abbrev pub here : ℕ → ℕ → ℕ
here a b = if a == b then 1 else 0

unfoldable pub in_pending : ℕ → List (String × PendingConfirm) → ℕ
in_pending a [] = 0
in_pending a ((id, p) ∷ ps) = here a p.ch + in_pending a ps

unfoldable pub in_claims : ℕ → List Delivery → ℕ
in_claims a [] = 0
in_claims a (c ∷ cs) = here a c.ch + in_claims a cs

-- In how many ways a channel can still be sent on or closed.
unfoldable pub uses : ℕ → ConfirmBroker → ℕ
unfolding in_pending in_claims
uses a b = in_pending a b.pending + in_claims a b.claims

-- A channel that is still used is used once, was made, and is open and empty.
abbrev pub IsSound : ConfirmBroker → Type 0
IsSound b = (a : ℕ) → (uses a b ≤ 1) × (0 < uses a b → (a < b.next) × (b.chans a ≡ open_chan))

in_pending-delete :
    (a : ℕ) (id : String) (ps : List (String × PendingConfirm))
    → in_pending a (delete id ps) ≤ in_pending a ps
unfolding in_pending delete
in_pending-delete a id [] = omega arith
in_pending-delete a id ((j, p) ∷ ps) =
    let rest = in_pending-delete a id ps in
    elim (Bool-cases (str_eq j id)) [
      | inl e ↦ rw (e, delete) (omega (arith, rest))
      | inr e ↦ rw (e, delete) (omega (arith, rest))
    ]

pub in_pending-find :
    (a : ℕ) (id : String) (ps : List (String × PendingConfirm)) (p : PendingConfirm)
    → find id ps ≡ some p
    → in_pending a (delete id ps) + here a p.ch ≤ in_pending a ps
unfolding in_pending delete find
in_pending-find a id [] p h = ground arith
in_pending-find a id ((j, q) ∷ ps) p h =
    let rest = in_pending-find a id ps p in
    let less = in_pending-delete a id ps in
    elim (Bool-cases (str_eq j id)) [
      | inl e ↦ rw (e, delete) (ground (arith, rest, less))
      | inr e ↦ rw (e, delete) (ground (arith, rest, less))
    ]

pub in_claims-take :
    (a n : ℕ) (cs : List Delivery) (c : Delivery) (rest : List Delivery)
    → take_claim n cs ≡ some (c, rest)
    → in_claims a rest + here a c.ch ≡ in_claims a cs
unfolding in_claims take_claim keep_claim
in_claims-take a n [] c rest h = ground arith
in_claims-take a zero (d ∷ cs) c rest h = ground arith
in_claims-take a (suc n) (d ∷ cs) c rest h = go (take_claim n cs) refl (in_claims-take a n cs) h
  where
    go :
        (o : Option (Delivery × List Delivery))
        → take_claim n cs ≡ o
        → ((c2 : Delivery) (more : List Delivery)
            → take_claim n cs ≡ some (c2, more)
            → in_claims a more + here a c2.ch ≡ in_claims a cs)
        → keep_claim d o ≡ some (c, rest)
        → in_claims a rest + here a c.ch ≡ here a d.ch + in_claims a cs
    go none e ih k = ground arith
    go (some (c2, more)) e ih k = ground (arith, ih c2 more e)

-- Writing a channel that is used no more keeps the rest sound.
pub set_chan-IsSound :
    (b b2 : ConfirmBroker) (ch : ℕ) (x : Chan)
    → IsSound b
    → b2.next ≡ b.next
    → b2.chans ≡ set_chan ch x b.chans
    → ((a : ℕ) → uses a b2 + here a ch ≤ uses a b)
    → IsSound b2
unfolding set_chan
set_chan-IsSound b b2 ch x sound same written fewer a = elim (Bool-cases (ch == a)) [
  | inl e ↦ ground (arith, sound a, fewer a)
  | inr e ↦ rw (same, written, e) (ground (arith, sound a, fewer a))
]

pub register-IsSound :
    (id session_id : String) (owner : Owner) (form : Option ConfirmForm) (b : ConfirmBroker)
    → IsSound b
    → IsSound (register id session_id owner form b).0
unfolding register uses in_pending set_chan
register-IsSound id session_id owner form b sound a =
    let fewer = in_pending-delete a id b.pending in
    elim (Bool-cases (b.next == a)) [
      | inl e ↦ rw e (ground (arith, sound a, fewer))
      | inr e ↦ rw e (ground (arith, sound a, fewer))
    ]

pub claim_resolution-IsSound :
    (id : String) (owner : Owner) (d : ConfirmDecision) (b : ConfirmBroker)
    → IsSound b
    → IsSound (claim_resolution id owner d b).0
unfolding claim_resolution uses in_claims
claim_resolution-IsSound id owner d b sound = elim (Option-cases (find id b.pending)) [
  | inl e ↦ rw (e, claim_resolution) sound
  | inr (p, e) ↦ elim (Option-cases (check_claim p owner d)) [
    | inr (x, f) ↦ rw (e, f, claim_resolution) sound
    | inl f ↦
        rw (e, f, claim_resolution)
          (λ a. ground (arith, sound a, in_pending-find a id b.pending p e))
  ]
]
