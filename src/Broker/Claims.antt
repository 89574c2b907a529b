-- ===== src/Broker/Claims.antt =====
-- When the broker accepts a decision, and what becomes of it.
use compshare_agent.Prelude.{
  String, Bool, true, false, Option, none, some, List, [], ◌∷◌, ◌≡◌, refl, ap, arith, All, ok, err,
  str_eq, inl, inr, ◌↔◌, Bool-cases, Option-cases,
}
use compshare_agent.Workflow.Form.{ConfirmForm, Overrides, validate_overrides}
use compshare_agent.Workflow.Form.Validation.{Allowed, validate_overrides_iff}
use compshare_agent.Broker.{
  Owner, owner_eq, ConfirmDecision, PendingConfirm, Delivery, ConfirmBroker, BrokerError,
  confirmation_not_found, find, delete, has_overrides, check_overrides, check_claim, settled,
  claim_resolution,
}

pub owner_eq→eq : (a b : Owner) → owner_eq a b ≡ true → a ≡ b
owner_eq→eq a b h = ground arith

pub owner_eq_refl : (a : Owner) → owner_eq a a ≡ true
owner_eq_refl a = ground arith

-- The overrides of a confirmed decision are all of the form that was offered, if there are any.
abbrev pub OverridesAllowed : Option ConfirmForm → ConfirmDecision → Type 0
OverridesAllowed none d = d.confirmed ≡ true → d.overrides ≡ []
OverridesAllowed (some form) d = d.confirmed ≡ true → All (Allowed form) d.overrides

checked-allowed :
    (form : Option ConfirmForm) (confirmed : Bool) (overrides : Overrides)
    → let d : ConfirmDecision = record { confirmed = confirmed; overrides = overrides } in
      check_overrides form d ≡ none → OverridesAllowed form d
unfolding check_overrides has_overrides
checked-allowed none false os h = λ c. ground (arith, c)
checked-allowed (some f) false os h = λ c. ground (arith, c)
checked-allowed none true [] h = λ c. refl
checked-allowed none true (o ∷ os) h = λ c. ground (arith, h)
checked-allowed (some f) true [] h = λ c. tt
checked-allowed (some f) true (o ∷ os) h = λ c.
    elim (Option-cases (validate_overrides f (o ∷ os))) [
      | inl e ↦ (validate_overrides_iff f (o ∷ os)).0 e
      | inr (x, e) ↦ ground (arith, h, e)
    ]

allowed-checked :
    (form : Option ConfirmForm) (confirmed : Bool) (overrides : Overrides)
    → let d : ConfirmDecision = record { confirmed = confirmed; overrides = overrides } in
      OverridesAllowed form d → check_overrides form d ≡ none
unfolding check_overrides has_overrides
allowed-checked form false os h = refl
allowed-checked form true [] h = refl
allowed-checked none true (o ∷ os) h = ground (arith, h refl)
allowed-checked (some f) true (o ∷ os) h = rw ((validate_overrides_iff f (o ∷ os)).1 (h refl)) refl

validated :
    (p : PendingConfirm) (owner : Owner) (d : ConfirmDecision)
    → check_claim p owner d ≡ none
    → (p.owner ≡ owner) × OverridesAllowed p.form d
unfolding check_claim
validated p owner d h = (
  owner_eq→eq p.owner owner (ground (arith, h)),
  checked-allowed p.form d.confirmed d.overrides (ground (arith, h)),
)

pub allowed :
    (p : PendingConfirm) (owner : Owner) (d : ConfirmDecision)
    → p.owner ≡ owner
    → OverridesAllowed p.form d
    → check_claim p owner d ≡ none
unfolding check_claim
allowed p owner d h k =
    rw (h, owner_eq_refl owner) (allowed-checked p.form d.confirmed d.overrides k)

-- What a claim does when the broker accepts it.
abbrev pub accepted : String → PendingConfirm → ConfirmDecision → ConfirmBroker → ConfirmBroker
accepted id p d b = record b {
  pending = delete id b.pending;
  claims = record { ch = p.ch; decision = settled d } ∷ b.claims;
}

pub find-delete :
    (id : String) (ps : List (String × PendingConfirm)) → find id (delete id ps) ≡ none
unfolding find delete
find-delete id [] = refl
find-delete id ((j, p) ∷ ps) = elim (Bool-cases (str_eq j id)) [
  | inl e ↦ rw (e, delete) (find-delete id ps)
  | inr e ↦ rw (e, delete) (rw (e, find) (find-delete id ps))
]

claim-missing :
    (id : String) (owner : Owner) (d : ConfirmDecision) (b : ConfirmBroker)
    → find id b.pending ≡ none
    → claim_resolution id owner d b ≡ (b, err confirmation_not_found)
unfolding claim_resolution
claim-missing id owner d b e = rw (e, claim_resolution) refl

claim-refused :
    (id : String) (owner : Owner) (d : ConfirmDecision) (b : ConfirmBroker) (p : PendingConfirm)
    (x : BrokerError)
    → find id b.pending ≡ some p
    → check_claim p owner d ≡ some x
    → claim_resolution id owner d b ≡ (b, err x)
unfolding claim_resolution
claim-refused id owner d b p x e f = rw (e, f, claim_resolution) refl

pub claim-accepted :
    (id : String) (owner : Owner) (d : ConfirmDecision) (b : ConfirmBroker) (p : PendingConfirm)
    → find id b.pending ≡ some p
    → check_claim p owner d ≡ none
    → claim_resolution id owner d b
      ≡ (accepted id p d b, ok (record { ch = p.ch; decision = settled d }))
unfolding claim_resolution
claim-accepted id owner d b p e f = rw (e, f, claim_resolution) refl

-- What an accepted claim `c` is: the caller owns the pending confirmation, and may give `d`.
pub record IsAccepted (id : String) (owner : Owner) (d : ConfirmDecision) (b : ConfirmBroker)
    (c : Delivery) : Type 0 where
  pub entry : PendingConfirm
  pub found : find id b.pending ≡ some entry
  pub owned : entry.owner ≡ owner
  pub offered : OverridesAllowed entry.form d
  pub given : record { ch = entry.ch; decision = settled d } ≡ c

-- The broker accepts a decision exactly when its confirmation is pending, the caller is the owner
-- who registered it, and, where the decision is a confirmation, a form was offered that allows each
-- of its overrides, or it has none; what it hands over is the decision, without overrides where it
-- is a refusal, and the channel that was registered.
pub claim_resolution_iff :
    (id : String) (owner : Owner) (d : ConfirmDecision) (b : ConfirmBroker) (c : Delivery)
    → ((claim_resolution id owner d b).1 ≡ ok c) ↔ IsAccepted id owner d b c
claim_resolution_iff id owner d b c = (forth, back)
  where
    forth : (claim_resolution id owner d b).1 ≡ ok c → IsAccepted id owner d b c
    forth h = elim (Option-cases (find id b.pending)) [
      | inl e ↦ ground (arith, h, claim-missing id owner d b e)
      | inr (p, e) ↦ elim (Option-cases (check_claim p owner d)) [
        | inr (x, f) ↦ ground (arith, h, claim-refused id owner d b p x e f)
        | inl f ↦ record {
          entry = p;
          found = e;
          owned = (validated p owner d f).0;
          offered = (validated p owner d f).1;
          given = ground (arith, h, claim-accepted id owner d b p e f);
        }
      ]
    ]

    back : IsAccepted id owner d b c → (claim_resolution id owner d b).1 ≡ ok c
    back a =
        rw (claim-accepted id owner d b a.entry a.found (allowed a.entry owner d a.owned a.offered))
          (ap ok a.given)

-- A claim that the broker refuses leaves the broker as it was: the confirmation is still pending.
claim_resolution-refused :
    (id : String) (owner : Owner) (d : ConfirmDecision) (b : ConfirmBroker) (e : BrokerError)
    → (claim_resolution id owner d b).1 ≡ err e
    → (claim_resolution id owner d b).0 ≡ b
claim_resolution-refused id owner d b x h = elim (Option-cases (find id b.pending)) [
  | inl e ↦ rw (claim-missing id owner d b e) refl
  | inr (p, e) ↦ elim (Option-cases (check_claim p owner d)) [
    | inr (y, f) ↦ rw (claim-refused id owner d b p y e f) refl
    | inl f ↦ ground (arith, h, claim-accepted id owner d b p e f)
  ]
]

-- A confirmation is resolved once: after an accepted claim, every further claim of the same id,
-- by whomever and with whatever decision, is answered that there is no such confirmation.
pub claim_resolution-once :
    (id : String) (owner owner2 : Owner) (d d2 : ConfirmDecision) (b : ConfirmBroker) (c : Delivery)
    → (claim_resolution id owner d b).1 ≡ ok c
    → (claim_resolution id owner2 d2 (claim_resolution id owner d b).0).1
      ≡ err confirmation_not_found
claim_resolution-once id owner owner2 d d2 b c h =
    let a = (claim_resolution_iff id owner d b c).0 h in
    rw (claim-accepted id owner d b a.entry a.found (allowed a.entry owner d a.owned a.offered))
      (rw (claim-missing id owner2 d2 (accepted id a.entry d b) (find-delete id b.pending)) refl)
