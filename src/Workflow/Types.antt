-- ===== src/Workflow/Types.antt =====
-- internal/workflow/types.go, execution_seal.go, missing_slot_error.go: the data of a workflow.
-- A step's closures take the live `*Context`; they may write its exported fields (`Vars`) and not
-- the unexported seal, so a closure is a function from the context to the new `Vars` and its
-- result. Times are in nanoseconds.
use compshare_agent.Prelude.{ℕ, String, Bool, Option, List, Except}
use compshare_agent.Value.{Fields}
use compshare_agent.Workflow.Form.{ConfirmForm, FormError, Overrides}

-- A Go `error`: its text, and what MissingSlotsFromError reads from it (the slots of a
-- MissingSlotError in its chain, if there is one).
pub record GoError : Type 0 where
  pub text : String
  pub missing : Option (List String)

pub record RuntimeMetadata : Type 0 where
  pub top_organization_id : ℕ
  pub organization_id : ℕ

pub record SealedActionContract : Type 0 where
  pub operation : String
  pub business_params : Fields
  pub runtime : RuntimeMetadata
  pub version : ℕ
  pub digest : String

-- The exported fields of Context. A step result is a Go map, which may be nil (`none`).
pub record Vars : Type 0 where
  pub params : Fields
  pub initial_params : Fields
  pub step_results : List (String × Option Fields)
  pub runtime : RuntimeMetadata

pub record Context : Type 0 where
  pub vars : Vars
  pub sealed : Option SealedActionContract

abbrev pub Hook : Type 0 → Type 0
Hook A = Context → Vars × A

pub data StepType : Type 0 where
  tool_call confirm resolve : StepType
  other : ℕ → StepType

pub record PollPolicy : Type 0 where
  pub interval : ℕ
  pub timeout : ℕ

pub data ConfirmSubmitMode : Type 0 where
  submit_revalidate submit_continue : ConfirmSubmitMode

pub data FailureReason : Type 0 where
  unclassified capacity_sold_out : FailureReason

pub record CheckOutcome : Type 0 where
  pub passed : Bool
  pub message : String
  pub pending : Bool
  pub reason : FailureReason

pub record BatchCall : Type 0 where
  pub key : String
  pub args : Fields

pub record Step : Type 0 where
  pub name : String
  pub type : StepType
  pub tool : String
  pub tool_func : Option (Hook String)
  pub build_args : Hook (Except GoError Fields)
  pub build_args_batch : Option (Hook (Except GoError (List BatchCall)))
  pub check_result : Option (Option Fields → Hook CheckOutcome)
  pub resolve : Option (Hook (Except GoError (Option Fields)))
  pub skip_if : Option (Hook (Except GoError Bool))
  pub optional : Bool
  pub poll : Option PollPolicy
  pub build_form : Option (Hook (Except GoError (Option ConfirmForm)))
  pub apply_overrides : Option (Overrides → Hook (Option GoError))
  pub revalidate_from : String
  pub promote_on_confirm : Option (Hook (Option GoError))
  pub confirm_submit_mode : ConfirmSubmitMode

pub record Definition : Type 0 where
  pub name : String
  pub steps : List Step
  pub result_data : Option (Context → Option Fields)
  pub mutation_committed : Option (Context → Bool)
  pub failure_draft : Option (Context → Option Fields)

-- The user-facing sentences, by their format strings.
pub data Message : Type 0 where
  text : String → Message
  workflow_done workflow_tampered user_cancelled too_many_edits edits_unsupported : Message
  workflow_cancelled : GoError → Message
  skip_failed execution_failed args_failed promote_failed : String → GoError → Message
  unknown_step_type resolve_undefined resolve_wrote_params poll_not_positive : String → Message
  poll_timed_out pending_without_poll batch_all_failed : String → Message
  bad_edit bad_default : FormError → Message
  edit_rejected default_rejected : GoError → Message
  boundary_missing : String → Message
  boundary_not_before : String → String → Message
  confirm_in_range rerun_unknown_type : String → Message
  rounds_exhausted : Message

pub data Status : Type 0 where
  running succeeded failed waiting cancelled : Status

pub record StepSummary : Type 0 where
  pub name : String
  pub status : Status
  pub message : Option Message

pub record StepEvent : Type 0 where
  pub step_name : String
  pub step_index : ℕ
  pub total : ℕ
  pub type : StepType
  pub status : Status
  pub tool : String
  pub args : Option Fields
  pub message : Option Message

pub record StepFailure : Type 0 where
  pub step : String
  pub reason : FailureReason
  pub args : Option Fields
  pub draft : Option Fields
  pub execution_authorized : Bool

pub record Result : Type 0 where
  pub success : Bool
  pub mutation_committed : Bool
  pub stopped_at : String
  pub message : Option Message
  pub missing_slots : List String
  pub result_data : Option Fields
  pub steps : List StepSummary
  pub contract : Option SealedActionContract
  pub failure : Option StepFailure
  pub error : Option GoError

pub record ConfirmResolution : Type 0 where
  pub confirmed : Bool
  pub overrides : Overrides
