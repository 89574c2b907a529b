-- ===== src/Actions/Types.antt =====
-- internal/actionresolver/types.go, and the data of catalog.go and machinetype.go. A Go map is an
-- association list, the first entry of a key being the one that is read. Floating-point numbers and
-- the functions of Go's `strings`, `strconv` and `encoding/json` are parameters.
use compshare_agent.Prelude.{ℕ, String, Bool, Option, List}
use compshare_agent.Value.{Fields, Items}
use compshare_agent.SafeTool.Types.{Level}
use compshare_agent.Workflow.Contract.{ExecutionStepContract}

-- float64, by the tests that the code makes.
pub record Floats : Type 1 where
  pub Float : Type 0
  -- `n <= 0`, `n < 0`, and `math.Trunc(n) == n`
  pub at_most_zero : Float → Bool
  pub below_zero : Float → Bool
  pub is_whole : Float → Bool
  -- strconv.ParseFloat(·, 64): none on an error
  pub parse : String → Option Float

-- The `any` that a slot holds. A json.Number may fail to be a float64.
pub data Any (F : Type 0) : Type 0 where
  text : String → Any F
  float : F → Any F
  json_number : Option F → Any F
  boolean : Bool → Any F
  array : Items → Any F
  object : Fields → Any F
  null : Any F

pub record Strings : Type 0 where
  pub trim_space : String → String
  pub to_upper : String → String
  pub to_lower : String → String
  pub equal_fold : String → String → Bool
  -- strings.NewReplacer(" ", "", "-", "", "_", "").Replace
  pub drop_separators : String → String
  -- strings.CutSuffix
  pub cut_suffix : String → String → Option String
  -- len([]rune(s)), and whether unicode.IsSpace holds of one of them
  pub rune_count : String → ℕ
  pub has_space : String → Bool
  -- the verb %q
  pub quote : String → String

pub record SlotCandidate (F : Type 0) : Type 0 where
  pub name : String
  pub value : Any F

pub record ActionProposal (F : Type 0) : Type 0 where
  pub turn_id : String
  pub operation : String
  pub slots : List (SlotCandidate F)

pub data SlotCodecKind : Type 0 where
  resource_ref machine_type zone image capacity integer number boolean_codec enum time
        constrained_text sensitive_text structured :
      SlotCodecKind
  unsupported : String → SlotCodecKind

pub record FieldSpec : Type 0 where
  pub name : String
  pub required : Bool
  pub codec : SlotCodecKind
  pub enum : List String
  pub target : Bool
  pub target_kind : String

pub data IntakeMode : Type 0 where
  intake_none intake_guided : IntakeMode

pub record IntakeSpec : Type 0 where
  pub mode : IntakeMode
  pub collectable_fields : List String

abbrev pub Arguments : Type 0 → Type 0
Arguments F = List (String × Any F)

pub record OperationSpec (F : Type 0) : Type 0 where
  pub operation : String
  pub agent_description : String
  pub fields : List (String × FieldSpec)
  pub image_catalog_source : String
  pub needs_zone_catalog : Bool
  pub needs_confirm : Bool
  pub risk : Level
  pub execution : List ExecutionStepContract
  pub validate_resolved : Option (Arguments F → Option String)
  pub intake : IntakeSpec

-- Catalog, by its map of specs.
abbrev pub Catalog : Type 0 → Type 0
Catalog F = List (String × OperationSpec F)

pub record GateContract : Type 0 where
  pub executor : String
  pub risk : Level
  pub requires_permission : Bool
  pub requires_confirmation : Bool

pub record ConfirmationPreview (F : Type 0) : Type 0 where
  pub operation : String
  pub arguments : Arguments F

-- In the order of Go's constants.
pub data RejectionKind : Type 0 where
  invalid_value unknown_operation unknown_field target_not_exist operation_contract : RejectionKind

pub data RejectionActor : Type 0 where
  actor_model actor_user : RejectionActor

pub record RejectedProblem : Type 0 where
  pub slot : String
  pub kind : RejectionKind
  pub actor : RejectionActor

pub record Conflict (F : Type 0) : Type 0 where
  pub slot : String
  pub candidates : List (SlotCandidate F)
  pub catalog_candidates : List String
  pub reason : String

pub record ResolvedAction (F : Type 0) : Type 0 where
  pub turn_id : String
  pub operation : String
  pub arguments : Arguments F
  pub missing : List String
  pub conflicts : List (Conflict F)
  pub rejected : List String
  pub rejected_problems : List RejectedProblem
  pub dependency_failures : List String
  pub needs_confirm : Bool
  pub ready_for_confirmation : Bool
  pub ready_for_intake : Bool
  pub confirmation : Option (ConfirmationPreview F)
  pub gate : GateContract
  pub execution : List ExecutionStepContract

pub data TargetVerdict : Type 0 where
  target_reject target_accept target_dependency_failure : TargetVerdict

pub record MachineTypeCatalog : Type 0 where
  pub names : List String
  pub available : Bool

-- internal/deployment/zone_catalog.go: the ids in catalog order, and the display names of the rows
-- by the lower-case id.
pub record ZoneCatalogSnapshot : Type 0 where
  pub available : Bool
  pub order : List String
  pub display_names : List (String × String)

-- The outcome of deployment.ResolveImage on an explicit id.
pub data ImageResolution : Type 0 where
  image_resolved : String → ImageResolution
  image_catalog_unavailable image_not_found : ImageResolution

-- The error of a codec: dependencyError, ambiguityError, or any other.
pub data ValueError : Type 0 where
  dependency_error : String → ValueError
  ambiguity_error : String → List String → ValueError
  plain_error : String → ValueError

-- The image catalog is read through deployment.ResolveImage only; `marshal` is json.Marshal, with
-- its error ignored.
pub record Resolver (F : Type 0) : Type 0 where
  pub catalog : Option (Catalog F)
  pub verifier : Option (SlotCandidate F → TargetVerdict)
  pub machine_types : MachineTypeCatalog
  pub zone_catalog : Option ZoneCatalogSnapshot
  pub resolve_image : String → ImageResolution
  pub marshal : Any F → String
