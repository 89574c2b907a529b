-- ===== src/Workflow/Seal.antt =====
-- internal/workflow/execution_seal.go and NewContext: the sealed contract. Values are copied when
-- they are passed, so the deep copies of the source are the identity here. The digest
-- (encoding/json and crypto/sha256) is a parameter.
use compshare_agent.Prelude.{
  ℕ, ◌%◌, ◌^◌, String, Bool, Option, none, some, [], if◌then◌else◌, str_eq,
}
use compshare_agent.Value.{Value, Fields, num, end, field, get_field}
use compshare_agent.Workflow.Types.{Context, Vars, RuntimeMetadata, SealedActionContract}

abbrev pub current_contract_version : ℕ
current_contract_version = 1

-- A number in a param map is not negative here.
unfoldable pub uint32_value : Option Value → ℕ
uint32_value (some (num n)) = n % 2 ^ 32
uint32_value _ = 0

-- `delete(m, key)`.
unfoldable pub delete_field : String → Fields → Fields
delete_field k end = end
delete_field k (field j v m) = if str_eq j k then delete_field k m else field j v (delete_field k m)

unfoldable pub split_runtime_metadata : Fields → Fields × RuntimeMetadata
unfolding delete_field uint32_value
split_runtime_metadata m = (
  delete_field "organization_id" (delete_field "top_organization_id" m),
  record {
    top_organization_id = uint32_value (get_field "top_organization_id" m);
    organization_id = uint32_value (get_field "organization_id" m);
  },
)

unfoldable pub new_context : Fields → Context
unfolding split_runtime_metadata
new_context params =
    let (business, runtime) = split_runtime_metadata params in
    record {
      vars = record {
        params = business;
        initial_params = business;
        step_results = [];
        runtime = runtime;
      };
      sealed = none;
    }

module _ (digest : Fields → String) where
  unfoldable pub seal_draft : String → Vars → SealedActionContract
  seal_draft operation v = record {
    operation = operation;
    business_params = v.params;
    runtime = v.runtime;
    version = current_contract_version;
    digest = digest v.params;
  }

  -- SealedActionContract.verifyDigest.
  unfoldable pub verify_digest : SealedActionContract → Fields → Bool
  verify_digest c params = str_eq (digest params) c.digest
