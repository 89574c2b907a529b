-- ===== src/Entities/Examples.antt =====
-- Registries at concrete listings.
use mathlib.Core.List.{Perm}
use compshare_agent.Prelude.{
  ap, sym, ◌∙◌, Option, arith, String, none, some, List, [], ◌∷◌, ◌≡◌, refl, ok, ◌*◌, ◌≢◌, eq_iff,
}
use compshare_agent.Value.{Fields, Items, field, end, obj, arr, str, num, cons, nil, get_field}
use compshare_agent.Entities.Snapshot.{EntityText}
use compshare_agent.Entities.Registry.{
  EntityRegistry, reason_manual, reason_ttl, new_registry, normalize_name, second,
}
use compshare_agent.Entities.Verify.{
  RegistryCall, refreshed, completed, existence_verified, existence_not_found,
  existence_unavailable, registry_steps, verify_exact_target,
}
use compshare_agent.Entities.Tracking.{CurrentListing}
use compshare_agent.Entities.Decided.{IsDecided, verify-IsDecided}
use compshare_agent.Entities.Registry.{invalidates_registry, hosts_of, collect, total_of, put}
use compshare_agent.Entities.Snapshot.{instance_from_map}
use compshare_agent.Entities.Verify.{rows_of_result}
use compshare_agent.Entities.Verdicts.{IsJustified, IsUsable, verify-IsJustified}
use compshare_agent.Entities.Resolve.{
  resolve_by_name, resolve_hit, resolve_by_id, resolve_recently_released,
}
use compshare_agent.Prelude.Sorting.{sort_by}
use compshare_agent.Entities.Names.{named}
use compshare_agent.Entities.Exact.{
  FitsCandidates, resolve_by_name-FitsCandidates, resolve_by_name-IsExact,
}

-- Texts without spaces, in lower case and of letters and digits.
abbrev plain_text : EntityText
plain_text = record {
  sprint = λ v. "";
  parse_int = λ s. 0;
  trim_space = λ s. s;
  to_lower = λ s. s;
  letters_and_digits = λ s. s;
  words = λ s. s ∷ [];
}

abbrev row : String → String → Fields
row id name = field "UHostId" (str id) (field "Name" (str name) end)

abbrev listing : Items → Fields
listing rows = field "UHostSet" (arr rows) (field "TotalCount" (num 2) end)

abbrev two_rows : Items
two_rows = cons (obj (row "uhost2" "train")) (cons (obj (row "uhost1" "train")) nil)

abbrev two_hosts : Fields
two_hosts = listing two_rows

abbrev one_host : Fields
one_host = field "UHostSet" (arr (cons (obj (row "uhost2" "train")) nil)) end

abbrev after_listing : List RegistryCall
after_listing =
    refreshed reason_manual 0 (ok (some two_hosts)) ∷ completed "ResetPasswordWorkflow" ∷ []

abbrev after_stop : List RegistryCall
after_stop = refreshed reason_ttl 0 (ok (some two_hosts)) ∷ completed "StopInstanceWorkflow" ∷ []

abbrev after_release : List RegistryCall
after_release =
    refreshed reason_manual 0 (ok (some two_hosts))
    ∷ refreshed reason_ttl (60 * second) (ok (some one_host))
    ∷ []

abbrev registry_after : List RegistryCall → EntityRegistry
registry_after calls = registry_steps plain_text (λ e. "refresh_error") calls new_registry

listed_verdict :
    verify_exact_target plain_text (registry_after after_listing) "uhost1" second none
    ≡ existence_verified
unfolding verify_exact_target registry_steps get_field
listed_verdict = refl

stopped_verdict :
    verify_exact_target plain_text (registry_after after_stop) "uhost1" second none
    ≡ existence_unavailable
unfolding verify_exact_target registry_steps get_field
stopped_verdict = refl

stale_verdict :
    verify_exact_target plain_text
      (registry_after after_listing)
      "uhost3"
      (31 * second)
      (some (λ id. some (some two_hosts)))
    ≡ existence_not_found
unfolding verify_exact_target registry_steps get_field
stale_verdict = refl

-- A response without a listing counts as one that lacks the id.
unusable_verdict :
    verify_exact_target plain_text
      (registry_after after_stop)
      "uhost1"
      second
      (some (λ id. some (some end)))
    ≡ existence_not_found
unfolding verify_exact_target registry_steps get_field
unusable_verdict = refl

ambiguous_name :
    (resolve_by_name plain_text (registry_after after_listing) "train").1.candidates
    ≡ "uhost1" ∷ "uhost2" ∷ []
unfolding resolve_by_name registry_steps normalize_name get_field sort_by
ambiguous_name = refl

id_in_text :
    (resolve_by_name plain_text (registry_after after_listing) "8188-uhost1-s1").1.status
    ≡ resolve_hit
unfolding resolve_by_name registry_steps normalize_name get_field sort_by
id_in_text = refl

released_id :
    (resolve_by_id plain_text (registry_after after_release) (61 * second) "uhost1").1.status
    ≡ resolve_recently_released
unfolding resolve_by_id registry_steps get_field
released_id = refl

-- The point query answers with the listing of two hosts.
abbrev ask_upstream : Option (String → Option (Option Fields))
ask_upstream = some (λ id. some (some two_hosts))

some-injective : {A : Type 0} {a b : A} → some a ≡ some b → a ≡ b
some-injective h = cc

ask_upstream-IsUsable : (id : String) → IsUsable plain_text ask_upstream id
unfolding hosts_of get_field
ask_upstream-IsUsable id raw a =
    let query = some-injective a.given in
    let same = some-injective (ap (λ (q : String → Option (Option Fields)). q id) query ∙ a.told) in
    (two_rows, rw (sym same) refl)

verify-IsJustified_example :
    IsJustified plain_text after_stop "uhost3" second ask_upstream existence_not_found
unfolding verify_exact_target registry_steps get_field
verify-IsJustified_example =
    verify-IsJustified plain_text (λ e. "refresh_error") after_stop "uhost3" second ask_upstream
      (ask_upstream-IsUsable "uhost3")

resolve_by_name-FitsCandidates_example :
    FitsCandidates (resolve_by_name plain_text (registry_after after_listing) "train").1
resolve_by_name-FitsCandidates_example =
    resolve_by_name-FitsCandidates plain_text (λ e. "refresh_error") after_listing "train"

train_not_blank : normalize_name plain_text "train" ≢ ""
unfolding normalize_name
train_not_blank h = (let bad = (eq_iff "train" "").1 h in cc)

resolve_by_name-IsExact_example :
    Perm
      (resolve_by_name plain_text (registry_after after_listing) "train").1.candidates
      ("uhost2" ∷ "uhost1" ∷ [])
unfolding registry_steps get_field named normalize_name
resolve_by_name-IsExact_example =
    resolve_by_name-IsExact plain_text (λ e. "refresh_error") after_listing "train" train_not_blank
      (λ h. cc)

abbrev listing_is_current : CurrentListing plain_text after_listing second
unfolding invalidates_registry hosts_of collect total_of rows_of_result get_field instance_from_map
    put
listing_is_current = record {
  now = 0;
  result = some two_hosts;
  items = two_rows;
  listing = record {
    before = [];
    later = completed "ResetPasswordWorkflow" ∷ [];
    reason = reason_manual;
    split = refl;
    is_harmless = (refl, tt);
  };
  readable = refl;
  is_fresh = ground arith;
  is_complete = ground arith;
}

verify-IsDecided_example :
    IsDecided plain_text "uhost1"
      (rows_of_result (some two_hosts))
      (verify_exact_target plain_text (registry_after after_listing) "uhost1" second none)
unfolding listing_is_current
verify-IsDecided_example =
    verify-IsDecided plain_text (λ e. "refresh_error") after_listing "uhost1" second
      listing_is_current none (λ h. (let bad = (eq_iff "uhost1" "").1 h in cc))
