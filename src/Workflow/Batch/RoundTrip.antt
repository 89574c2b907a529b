-- ===== src/Workflow/Batch/RoundTrip.antt =====
-- What a batch step writes is what its readers get.

use compshare_agent.Prelude.{List, [], ◌∷◌, ◌≡◌, refl, ap₂, eq_iff, arith}
use compshare_agent.Value.{get_field, string_of, bool_of, fields_of, items_of}
use compshare_agent.Workflow.Batch.{
  BatchOutcome, encode_entry, encode_items, encode_batch_outcomes, decode_entry, decode_items,
  batch_results,
}

decode_entry-encode_entry : (o : BatchOutcome) → decode_entry (encode_entry o) ≡ o
unfolding decode_entry encode_entry get_field string_of bool_of fields_of
decode_entry-encode_entry o = ground (arith, eq_iff o.error "")

decode_items-encode_items : (os : List BatchOutcome) → decode_items (encode_items os) ≡ os
unfolding decode_items encode_items
decode_items-encode_items [] = refl
decode_items-encode_items (o ∷ os) =
    ap₂ ◌∷◌ (decode_entry-encode_entry o) (decode_items-encode_items os)

-- For every list of outcomes, in order and with repeated keys: reading a batch step's result
-- gives back the outcomes that were encoded into it, the calls that failed or were never made
-- included.
pub batch_results-encode : (os : List BatchOutcome) → batch_results (encode_batch_outcomes os) ≡ os
unfolding batch_results encode_batch_outcomes get_field items_of
batch_results-encode os = decode_items-encode_items os
