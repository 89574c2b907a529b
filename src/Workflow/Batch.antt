-- ===== src/Workflow/Batch.antt =====
-- internal/workflow/batch_call.go: the outcomes of a batch step, written into a step result and
-- read back.
pub mod RoundTrip
use compshare_agent.Prelude.{
  ℕ, String, Bool, Option, none, some, List, [], ◌∷◌, if◌then◌else◌, str_eq,
}
use compshare_agent.Value.{
  Items, Fields, bool, str, arr, obj, nil, cons, end, field, get_field, string_of, bool_of,
  fields_of, items_of,
}

abbrev pub max_batch_calls : ℕ
max_batch_calls = 40

abbrev pub not_attempted : String
not_attempted = "未发起查询：超出单步批量上限（40）"

pub record BatchOutcome : Type 0 where
  pub key : String
  pub succeeded : Bool
  pub result : Option Fields
  pub error : String

-- One entry of encodeBatchOutcomes: `Result` and `Err` are written only where they say something.
unfoldable pub encode_entry : BatchOutcome → Fields
encode_entry o = field "Key" (str o.key) (
    field "OK" (bool o.succeeded) (
      let errs = if str_eq o.error "" then end else field "Err" (str o.error) end in
      elim o.result [ none ↦ errs | some r ↦ field "Result" (obj r) errs ]))

unfoldable pub encode_items : List BatchOutcome → Items
encode_items [] = nil
encode_items (o ∷ os) = cons (obj (encode_entry o)) (encode_items os)

unfoldable pub encode_batch_outcomes : List BatchOutcome → Fields
unfolding encode_items
encode_batch_outcomes os = field "BatchResults" (arr (encode_items os)) end

unfoldable pub decode_entry : Fields → BatchOutcome
decode_entry m = record {
  key = string_of (get_field "Key" m);
  succeeded = bool_of (get_field "OK" m);
  result = fields_of (get_field "Result" m);
  error = string_of (get_field "Err" m);
}

-- The loop of BatchResults skips an item that is no map.
unfoldable pub decode_items : Items → List BatchOutcome
decode_items nil = []
decode_items (cons (obj m) rest) = decode_entry m ∷ decode_items rest
decode_items (cons _ rest) = decode_items rest

unfoldable pub batch_results : Fields → List BatchOutcome
unfolding decode_items
batch_results m = decode_items (items_of (get_field "BatchResults" m))
