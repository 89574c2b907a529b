-- ===== src/Broker.antt =====
-- internal/httpapi/confirm_broker.go: the broker of pending confirmations. A channel is an address
-- into a store, so that the broker's map, the function that ClaimResolution returns and the waiting
-- turn can share it; what Go panics or blocks on is an error of the operation. A claim that was
-- not yet delivered is kept in `claims`. The id of a confirmation (uuid.NewString) is given to
-- `register` by its caller. The mutex makes each operation one step; the log line is left out.
pub mod Sound
pub mod Safety
pub mod Claims
pub mod Outcome
mod Examples
use compshare_agent.Prelude.{
  ℕ, zero, suc, ◌+◌, String, Bool, true, false, ◌&&◌, not, Option, none, some, List, [], ◌∷◌,
  Except, ok, err, ◌==◌, if◌then◌else◌, str_eq,
}
use compshare_agent.Workflow.Form.{ConfirmForm, Overrides, FormError, validate_overrides}

-- internal/store/types.go.
pub record Owner : Type 0 where
  pub top_organization_id : ℕ
  pub organization_id : ℕ

abbrev pub owner_eq : Owner → Owner → Bool
owner_eq a b =
    a.top_organization_id == b.top_organization_id && a.organization_id == b.organization_id

pub record ConfirmDecision : Type 0 where
  pub confirmed : Bool
  pub overrides : Overrides

abbrev pub no_decision : ConfirmDecision
no_decision = record { confirmed = false; overrides = [] }

-- A channel with room for one decision.
pub record Chan : Type 0 where
  pub buffer : Option ConfirmDecision
  pub closed : Bool

abbrev pub open_chan : Chan
open_chan = record { buffer = none; closed = false }

pub record PendingConfirm : Type 0 where
  pub session_id : String
  pub owner : Owner
  pub ch : ℕ
  pub form : Option ConfirmForm

-- The function that ClaimResolution returns: what it captures.
pub record Delivery : Type 0 where
  pub ch : ℕ
  pub decision : ConfirmDecision

pub record ConfirmBroker : Type 0 where
  pub pending : List (String × PendingConfirm)
  pub claims : List Delivery
  pub chans : ℕ → Chan
  pub next : ℕ

abbrev pub new_confirm_broker : ConfirmBroker
new_confirm_broker = record { pending = []; claims = []; chans = λ a. open_chan; next = 0 }

pub data BrokerError : Type 0 where
  confirmation_not_found confirmation_owner overrides_not_allowed : BrokerError
  invalid_overrides : FormError → BrokerError

pub data Panic : Type 0 where
  send_on_closed send_blocks close_of_closed : Panic

pub find : String → List (String × PendingConfirm) → Option PendingConfirm
find id [] = none
find id ((j, p) ∷ ps) = if str_eq j id then some p else find id ps

pub delete : String → List (String × PendingConfirm) → List (String × PendingConfirm)
delete id [] = []
delete id ((j, p) ∷ ps) = if str_eq j id then delete id ps else (j, p) ∷ delete id ps

pub set_chan : ℕ → Chan → (ℕ → Chan) → ℕ → Chan
set_chan a c chans b = if a == b then c else chans b

pub send : ConfirmDecision → Chan → Except Panic Chan
send d c =
    if c.closed
    then err send_on_closed
    else elim c.buffer [ none ↦ ok (record c { buffer = some d }) | some e ↦ err send_blocks ]

pub close : Chan → Except Panic Chan
close c = if c.closed then err close_of_closed else ok (record c { closed = true })

-- ConfirmBroker.register: the broker and the address of the new channel.
pub register : String → String → Owner → Option ConfirmForm → ConfirmBroker → ConfirmBroker × ℕ
register id session_id owner form b = (
  record b {
    pending =
        (id, record { session_id = session_id; owner = owner; ch = b.next; form = form })
        ∷ delete id b.pending;
    chans = set_chan b.next open_chan b.chans;
    next = b.next + 1;
  },
  b.next,
)

pub has_overrides : ConfirmDecision → Bool
has_overrides d = elim d.overrides [ [] ↦ false | o ∷ os ↦ true ]

pub check_overrides : Option ConfirmForm → ConfirmDecision → Option BrokerError
check_overrides form d =
    if d.confirmed && has_overrides d
    then elim form [
      | none ↦ some overrides_not_allowed
      | some f ↦ elim (validate_overrides f d.overrides) [
        | none ↦ none
        | some e ↦ some (invalid_overrides e)
      ]
    ]
    else none

-- The guards of ClaimResolution after the lookup.
pub check_claim : PendingConfirm → Owner → ConfirmDecision → Option BrokerError
check_claim p owner d =
    if not (owner_eq p.owner owner) then some confirmation_owner else check_overrides p.form d

-- `if !decision.Confirmed { decision.Overrides = nil }`.
pub settled : ConfirmDecision → ConfirmDecision
settled d = if not d.confirmed then record d { overrides = [] } else d

pub claim_resolution :
    String → Owner → ConfirmDecision → ConfirmBroker → ConfirmBroker × Except BrokerError Delivery
claim_resolution id owner d b = elim (find id b.pending) [
  | none ↦ (b, err confirmation_not_found)
  | some p ↦ elim (check_claim p owner d) [
    | some e ↦ (b, err e)
    | none ↦ (
      record b {
        pending = delete id b.pending;
        claims = record { ch = p.ch; decision = settled d } ∷ b.claims;
      },
      ok (record { ch = p.ch; decision = settled d }),
    )
  ]
]

-- `p.ch <- decision; close(p.ch)`.
pub send_and_close : ConfirmDecision → Chan → Except Panic Chan
send_and_close d c = elim (send d c) [ err e ↦ err e | ok sent ↦ close sent ]

-- A claim that was passed over.
pub keep_claim : Delivery → Option (Delivery × List Delivery) → Option (Delivery × List Delivery)
keep_claim c none = none
keep_claim c (some (d, rest)) = some (d, c ∷ rest)

-- The call of the `n`-th of the claims that were not delivered yet, and the claims left.
pub take_claim : ℕ → List Delivery → Option (Delivery × List Delivery)
take_claim n [] = none
take_claim zero (c ∷ cs) = some (c, cs)
take_claim (suc n) (c ∷ cs) = keep_claim c (take_claim n cs)

pub deliver : ℕ → ConfirmBroker → Except Panic ConfirmBroker
deliver n b = elim (take_claim n b.claims) [
  | none ↦ ok b
  | some (c, rest) ↦ elim (send_and_close c.decision (b.chans c.ch)) [
    | err e ↦ err e
    | ok done ↦ ok (record b { claims = rest; chans = set_chan c.ch done b.chans })
  ]
]

pub no_error : Except Panic ConfirmBroker → Except Panic (ConfirmBroker × Option BrokerError)
no_error (ok b) = ok (b, none)
no_error (err p) = err p

pub deliver_claimed :
    ConfirmBroker × Except BrokerError Delivery → Except Panic (ConfirmBroker × Option BrokerError)
deliver_claimed (b, err e) = ok (b, some e)
deliver_claimed (b, ok c) = no_error (deliver 0 b)

-- ConfirmBroker.Resolve: the claim and its delivery at once.
pub resolve :
    String
    → Owner
    → ConfirmDecision
    → ConfirmBroker
    → Except Panic (ConfirmBroker × Option BrokerError)
resolve id owner d b = deliver_claimed (claim_resolution id owner d b)

pub cancel : String → ConfirmBroker → Except Panic ConfirmBroker
cancel id b = elim (find id b.pending) [
  | none ↦ ok b
  | some p ↦ elim (close (b.chans p.ch)) [
    | err e ↦ err e
    | ok done ↦ ok (record b { pending = delete id b.pending; chans = set_chan p.ch done b.chans })
  ]
]

pub data Reason : Type 0 where
  user_confirmed user_declined broker_cancelled client_disconnect timeout : Reason

-- The arm that the `select` of WaitForConfirmationOutcome takes.
pub data Arm : Type 0 where
  channel_ready context_done timer_fired : Arm

-- WaitForConfirmationOutcome; none where the arm of the channel is not ready.
pub wait_for_confirmation_outcome :
    Arm → ℕ → ConfirmBroker → Option (ConfirmBroker × ConfirmDecision × Reason)
wait_for_confirmation_outcome context_done a b = some (b, no_decision, client_disconnect)
wait_for_confirmation_outcome timer_fired a b = some (b, no_decision, timeout)
wait_for_confirmation_outcome channel_ready a b = elim (b.chans a).buffer [
  | some d ↦ some (
    record b { chans = set_chan a (record (b.chans a) { buffer = none }) b.chans },
    d,
    if d.confirmed then user_confirmed else user_declined,
  )
  | none ↦ if (b.chans a).closed then some (b, no_decision, broker_cancelled) else none
]

-- What the waiting turn is told.
pub told : Option (ConfirmBroker × ConfirmDecision × Reason) → Option (ConfirmDecision × Reason)
told none = none
told (some (b, d, reason)) = some (d, reason)

-- What can happen to a broker, in any interleaving of its callers.
pub data Step : Type 0 where
  registers : String → String → Owner → Option ConfirmForm → Step
  claims_resolution : String → Owner → ConfirmDecision → Step
  delivers : ℕ → Step
  resolves : String → Owner → ConfirmDecision → Step
  cancels : String → Step
  waits : Arm → ℕ → Step

pub drop_error : Except Panic (ConfirmBroker × Option BrokerError) → Except Panic ConfirmBroker
drop_error (ok (b, e)) = ok b
drop_error (err p) = err p

pub after_wait : ConfirmBroker → Option (ConfirmBroker × ConfirmDecision × Reason) → ConfirmBroker
after_wait b none = b
after_wait b (some (b2, d, reason)) = b2

pub step : Step → ConfirmBroker → Except Panic ConfirmBroker
step (registers id session_id owner form) b = ok (register id session_id owner form b).0
step (claims_resolution id owner d) b = ok (claim_resolution id owner d b).0
step (delivers n) b = deliver n b
step (resolves id owner d) b = drop_error (resolve id owner d b)
step (cancels id) b = cancel id b
step (waits arm a) b = ok (after_wait b (wait_for_confirmation_outcome arm a b))

pub steps : List Step → ConfirmBroker → Except Panic ConfirmBroker
steps [] b = ok b
steps (e ∷ es) b = elim (step e b) [ ok b2 ↦ steps es b2 | err p ↦ err p ]
