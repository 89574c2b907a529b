-- ===== src/Broker/Examples.antt =====
-- Runs of the confirmation broker at concrete inputs.
use compshare_agent.Prelude.{
  true, false, none, some, List, [], ◌∷◌, ◌≡◌, ◌↔◌, refl, ok, err, if◌then◌else◌,
}
use compshare_agent.Workflow.Form.{
  ConfirmForm, find_field, offers, validate_one, validate_overrides,
}
use compshare_agent.Broker.{
  Owner, ConfirmDecision, no_decision, PendingConfirm, Delivery, ConfirmBroker, new_confirm_broker,
  confirmation_not_found, find, delete, register, has_overrides, check_overrides, check_claim,
  settled, claim_resolution, resolve, cancel, user_confirmed, user_declined, broker_cancelled,
  channel_ready, wait_for_confirmation_outcome, told, registers, claims_resolution, delivers,
  resolves, cancels, waits, steps, Step,
}
use compshare_agent.Broker.Sound.{IsSound, register-IsSound}
use compshare_agent.Broker.Safety.{Returns, new_confirm_broker-IsSound, steps-Returns}
use compshare_agent.Broker.Claims.{IsAccepted, claim_resolution_iff, claim_resolution-once}
use compshare_agent.Broker.Outcome.{resolve-wait, cancel-wait}

abbrev tenant : Owner
tenant = record { top_organization_id = 1; organization_id = 2 }

abbrev stranger : Owner
stranger = record { top_organization_id = 1; organization_id = 3 }

-- A form that lets the user choose between two zones, one of them sold out.
abbrev zone_form : ConfirmForm
zone_form = record {
  fields =
      record {
        key = "Zone";
        value = "cn-wlcb-01";
        editable = true;
        options =
            record { value = "cn-wlcb-01"; disabled = false }
            ∷ record { value = "cn-sh2-02"; disabled = true }
            ∷ [];
      }
      ∷ [];
}

abbrev choose_zone : ConfirmDecision
choose_zone = record { confirmed = true; overrides = ("Zone", "cn-wlcb-01") ∷ [] }

-- One confirmation is pending.
abbrev waiting : ConfirmBroker
waiting = (register "c1" "s1" tenant (some zone_form) new_confirm_broker).0

abbrev entry : PendingConfirm
entry = record { session_id = "s1"; owner = tenant; ch = 0; form = some zone_form }

abbrev choice : Delivery
choice = record { ch = 0; decision = choose_zone }

waiting-IsSound : IsSound waiting
waiting-IsSound =
    register-IsSound "c1" "s1" tenant (some zone_form) new_confirm_broker new_confirm_broker-IsSound

-- A claim that is overtaken by a cancellation, and delivered after it.
abbrev overtaken : List Step
overtaken =
    registers "c1" "s1" tenant (some zone_form)
    ∷ claims_resolution "c1" tenant choose_zone
    ∷ cancels "c1"
    ∷ delivers 0
    ∷ waits channel_ready 0
    ∷ resolves "c1" tenant choose_zone
    ∷ []

accepted_choice : (claim_resolution "c1" tenant choose_zone waiting).1 ≡ ok choice
unfolding register claim_resolution find delete check_claim check_overrides has_overrides settled
    validate_overrides validate_one find_field offers
accepted_choice = refl

steps-Returns_example : Returns (steps overtaken new_confirm_broker)
steps-Returns_example = steps-Returns overtaken new_confirm_broker new_confirm_broker-IsSound

claim_resolution_iff_example :
    ((claim_resolution "c1" tenant choose_zone waiting).1 ≡ ok choice)
    ↔ IsAccepted "c1" tenant choose_zone waiting choice
claim_resolution_iff_example = claim_resolution_iff "c1" tenant choose_zone waiting choice

claim_resolution-once_example :
    (claim_resolution "c1" tenant no_decision
      (claim_resolution "c1" tenant choose_zone waiting).0).1
    ≡ err confirmation_not_found
claim_resolution-once_example =
    claim_resolution-once "c1" tenant tenant choose_zone no_decision waiting choice accepted_choice

resolve-wait_example :
    (after : ConfirmBroker) × (resolve "c1" tenant choose_zone waiting ≡ ok (after, none))
    × (told (wait_for_confirmation_outcome channel_ready 0 after)
        ≡ some (
          settled choose_zone,
          if (settled choose_zone).confirmed then user_confirmed else user_declined,
        ))
resolve-wait_example =
    resolve-wait "c1" tenant choose_zone waiting choice waiting-IsSound accepted_choice

cancel-wait_example :
    (after : ConfirmBroker) × (cancel "c1" waiting ≡ ok after)
    × (find "c1" after.pending ≡ none)
    × (told (wait_for_confirmation_outcome channel_ready 0 after)
        ≡ some (no_decision, broker_cancelled))
unfolding register find delete
cancel-wait_example = cancel-wait "c1" waiting entry waiting-IsSound refl
