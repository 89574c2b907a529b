-- ===== src/Display/Examples.antt =====
-- Listings that are longer than what is shown.
use compshare_agent.Prelude.{ℕ, zero, suc, String, none, List, [], ◌∷◌, ◌≡◌, ◌⊎◌, refl, map}
use compshare_agent.Prelude.Sorting.{sort_by}
use compshare_agent.Value.{Fields, Items, field, end, obj, arr, str, num, cons, nil, get_field}
use compshare_agent.Entities.Snapshot.{EntityText, InstanceSnapshot, instance_from_map}
use compshare_agent.Display.{
  instance_display_less, truncate_instances_for_display, truncate_describe_result_for_react,
}
use compshare_agent.Display.Top.{IsShown, truncate-IsShown}
use compshare_agent.Display.Rows.{IsCut, IsLeft, truncate_describe_result-IsCut}

abbrev plain_text : EntityText
plain_text = record {
  sprint = λ v. "";
  parse_int = λ s. 0;
  trim_space = λ s. s;
  to_lower = λ s. s;
  letters_and_digits = λ s. s;
  words = λ s. s ∷ [];
}

abbrev row : String → String → ℕ → Fields
row id state start =
    field "UHostId" (str id) (field "State" (str state) (field "StartTime" (num start) end))

abbrev three_instances : List InstanceSnapshot
three_instances =
    map (λ r. instance_from_map plain_text r)
      (row "a" "Stopped" 9 ∷ row "b" "Running" 0 ∷ row "c" "Running" 7 ∷ [])

abbrev same_rows : ℕ → Items
same_rows zero = nil
same_rows (suc n) = cons (obj (row "a" "Running" 1)) (same_rows n)

abbrev long_listing : Fields
long_listing = field "UHostSet" (arr (same_rows 51)) (field "TotalCount" (num 51) end)

shown_first :
    map
      (λ (inst : InstanceSnapshot). inst.u_host_id)
      (truncate_instances_for_display three_instances 2).out
    ≡ "c" ∷ "b" ∷ []
unfolding truncate_instances_for_display instance_from_map sort_by get_field instance_display_less
shown_first = refl

truncate-IsShown_example :
    IsShown 2 three_instances (truncate_instances_for_display three_instances 2)
truncate-IsShown_example = truncate-IsShown three_instances 2

truncate_describe_result-IsCut_example :
    (((truncate_describe_result_for_react plain_text none long_listing).0 ≡ long_listing)
      × IsLeft plain_text none long_listing)
    ⊎ IsCut plain_text none long_listing
        (truncate_describe_result_for_react plain_text none long_listing).0
truncate_describe_result-IsCut_example = truncate_describe_result-IsCut plain_text none long_listing
