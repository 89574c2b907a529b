-- ===== src/Actions/Examples.antt =====
-- Proposals at concrete inputs.
use compshare_agent.Prelude.{
  ℕ, true, false, none, some, [], ◌∷◌, ◌≡◌, ◌↔◌, refl, All, Has, Pointwise, ◌==◌, str_eq,
}
use compshare_agent.SafeTool.Types.{l1}
use compshare_agent.SafeTool.Params.{contains}
use compshare_agent.Actions.Types.{
  Floats, text, Strings, ActionProposal, machine_type, resource_ref, sensitive_text, FieldSpec,
  intake_none, intake_guided, OperationSpec, ConfirmationPreview, target_accept, image_not_found,
  Resolver,
}
use compshare_agent.Actions.Catalogs.{canonical_machine_type, resolved}
use compshare_agent.Actions.Resolve.{resolve}
use compshare_agent.Actions.Slots.{IsAccepted}
use compshare_agent.Actions.Grounded.{resolve-IsGrounded}
use compshare_agent.Actions.Ready.{IsComplete, ready_iff}
use compshare_agent.Actions.Intake.{IsCorrectable, intake-IsCorrectable}
use compshare_agent.Actions.Preview.{IsShown, confirmation-IsShown}

-- Numbers that are natural.
abbrev naturals : Floats
naturals = record {
  Float = ℕ;
  at_most_zero = λ n. n == 0;
  below_zero = λ n. false;
  is_whole = λ n. true;
  parse = λ s. none;
}

-- Texts without spaces, in lower case.
abbrev plain_text : Strings
plain_text = record {
  trim_space = λ s. s;
  to_upper = λ s. s;
  to_lower = λ s. s;
  equal_fold = str_eq;
  drop_separators = λ s. s;
  cut_suffix = λ s suffix. none;
  rune_count = λ s. 0;
  has_space = λ s. false;
  quote = λ s. s;
}

abbrev host : FieldSpec
host = record {
  name = "UHostId";
  required = true;
  codec = resource_ref;
  enum = [];
  target = true;
  target_kind = "instance";
}

abbrev password : FieldSpec
password = record {
  name = "Password";
  required = true;
  codec = sensitive_text;
  enum = [];
  target = false;
  target_kind = "";
}

abbrev gpu_type : FieldSpec
gpu_type = record password { name = "GpuType"; codec = machine_type }

abbrev reset_password : OperationSpec ℕ
reset_password = record {
  operation = "ResetPasswordWorkflow";
  agent_description = "";
  fields = ("UHostId", host) ∷ ("Password", password) ∷ [];
  image_catalog_source = "";
  needs_zone_catalog = false;
  needs_confirm = true;
  risk = l1;
  execution = [];
  validate_resolved = none;
  intake = record { mode = intake_none; collectable_fields = [] };
}

abbrev create_instance : OperationSpec ℕ
create_instance = record reset_password {
  operation = "CreateInstanceWorkflow";
  fields = ("GpuType", gpu_type) ∷ [];
  intake = record { mode = intake_guided; collectable_fields = "GpuType" ∷ [] };
}

abbrev resolver : Resolver ℕ
resolver = record {
  catalog = some (
      ("ResetPasswordWorkflow", reset_password) ∷ ("CreateInstanceWorkflow", create_instance) ∷ []);
  verifier = some (λ c. target_accept);
  machine_types = record { names = "4090" ∷ "a100" ∷ []; available = true };
  zone_catalog = none;
  resolve_image = λ id. image_not_found;
  marshal = λ v. elim v [ text s ↦ s | _ ↦ "" ];
}

abbrev reset_proposal : ActionProposal ℕ
reset_proposal = record {
  turn_id = "t1";
  operation = "ResetPasswordWorkflow";
  slots =
      record { name = "UHostId"; value = text "uhost-1" }
      ∷ record { name = "Password"; value = text "secret" }
      ∷ record { name = "UHostId"; value = text "uhost-1" }
      ∷ [];
}

-- A machine type that the catalog does not have.
abbrev create_proposal : ActionProposal ℕ
create_proposal = record {
  turn_id = "t2";
  operation = "CreateInstanceWorkflow";
  slots = record { name = "GpuType"; value = text "v100" } ∷ [];
}

resolve-IsGrounded_example :
    All
      (λ (name, value).
        Has
          (IsAccepted naturals plain_text resolver reset_password.fields
            (record { name = name; value = value }))
          reset_proposal.slots)
      (resolve naturals plain_text resolver reset_proposal).arguments
resolve-IsGrounded_example =
    resolve-IsGrounded naturals plain_text resolver reset_proposal reset_password refl

ready_iff_example :
    ((resolve naturals plain_text resolver reset_proposal).ready_for_confirmation ≡ true)
    ↔ IsComplete naturals plain_text resolver reset_password reset_proposal.slots
        (resolve naturals plain_text resolver reset_proposal).arguments
ready_iff_example = ready_iff naturals plain_text resolver reset_proposal reset_password refl

intake-IsCorrectable_example :
    IsCorrectable naturals plain_text resolver create_instance create_proposal.slots
      (resolve naturals plain_text resolver create_proposal)
unfolding resolve contains
intake-IsCorrectable_example =
    intake-IsCorrectable naturals plain_text resolver create_proposal create_instance refl refl

abbrev shown : ConfirmationPreview ℕ
shown = record {
  operation = "ResetPasswordWorkflow";
  arguments = ("UHostId", text "uhost-1") ∷ ("Password", text "[REDACTED]") ∷ [];
}

confirmation-IsShown_example :
    ((resolve naturals plain_text resolver reset_proposal).ready_for_confirmation ≡ true)
    × (shown.operation ≡ reset_proposal.operation)
    × Pointwise
        (IsShown reset_password.fields)
        shown.arguments
        (resolve naturals plain_text resolver reset_proposal).arguments
unfolding resolve
confirmation-IsShown_example =
    confirmation-IsShown naturals plain_text resolver reset_proposal reset_password shown refl refl

reset_is_ready : (resolve naturals plain_text resolver reset_proposal).ready_for_confirmation ≡ true
unfolding resolve
reset_is_ready = refl

create_told :
    (resolve naturals plain_text resolver create_proposal).rejected
    ≡ "GpuType: 机型 v100 不在当前机型目录中" ∷ []
unfolding resolve
create_told = refl

known_machine_type :
    canonical_machine_type plain_text "a100" resolver.machine_types ≡ resolved "a100"
unfolding canonical_machine_type contains
known_machine_type = refl
