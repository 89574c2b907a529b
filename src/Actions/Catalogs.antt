-- ===== src/Actions/Catalogs.antt =====
-- internal/actionresolver/machinetype.go and zone.go: a proposed name against a live catalog.
use compshare_agent.Prelude.{
  String, Bool, ◌||◌, not, Option, none, some, List, [], ◌∷◌, Except, ok, err, if◌then◌else◌,
  str_eq,
}
use compshare_agent.SafeTool.Params.{contains}
use compshare_agent.Actions.Types.{
  Strings, MachineTypeCatalog, ZoneCatalogSnapshot, ValueError, dependency_error, ambiguity_error,
  plain_error,
}

-- machineTypeMatch and zoneMatch, by their status.
pub data Match : Type 0 where
  resolved : String → Match
  ambiguous : List String → Match
  unknown catalog_unavailable : Match

-- The loop of matchCatalog; `seen` holds the hits so far.
pub collect_matches : (String → Bool) → List String → List String → List String
collect_matches hit seen [] = []
collect_matches hit seen (name ∷ names) =
    let skipped = collect_matches hit seen names in
    let kept = name ∷ collect_matches hit (name ∷ seen) names in
    if str_eq name "" || not (hit name) || contains name seen then skipped else kept

unfoldable pub match_catalog : String → List String → (String → String → Bool) → List String
unfolding collect_matches
match_catalog value names equal = collect_matches (λ name. equal name value) [] names

-- The `switch` on the number of hits.
abbrev pub by_hits : List String → Match
by_hits [] = unknown
by_hits (hit ∷ []) = resolved hit
by_hits (hit ∷ other ∷ hits) = ambiguous (hit ∷ other ∷ hits)

abbrev pub or_else : List String → List String → List String
or_else [] others = others
or_else (hit ∷ hits) others = hit ∷ hits

module _ (lib : Strings) where
  pub fold_machine_type : String → String
  fold_machine_type s = lib.to_upper (lib.drop_separators (lib.trim_space s))

  -- The two looser comparisons.
  pub fold_matches : String → List String → List String
  unfolding match_catalog fold_machine_type
  fold_matches value names =
      or_else (match_catalog value names lib.equal_fold)
        (match_catalog value names (λ a b. str_eq (fold_machine_type a) (fold_machine_type b)))

  unfoldable pub canonical_machine_type : String → MachineTypeCatalog → Match
  unfolding match_catalog fold_matches
  canonical_machine_type raw catalog =
      let value = lib.trim_space raw in
      if not catalog.available
      then catalog_unavailable
      else if str_eq value ""
      then unknown
      else elim (match_catalog value catalog.names str_eq) [
        | hit ∷ [] ↦ resolved hit
        | [] ↦ by_hits (fold_matches value catalog.names)
        | hit ∷ other ∷ hits ↦ by_hits (fold_matches value catalog.names)
      ]

  -- ZoneCatalogSnapshot.Label, on a catalog that is available.
  pub find_display_name : String → List (String × String) → String
  find_display_name key [] = ""
  find_display_name key ((k, name) ∷ rows) =
      if str_eq k key then name else find_display_name key rows

  pub label : ZoneCatalogSnapshot → String → String
  unfolding find_display_name
  label catalog zone =
      let id = lib.trim_space zone in
      let name = find_display_name (lib.to_lower (lib.trim_space id)) catalog.display_names in
      if str_eq name "" then id else name

  pub collect_zones : ZoneCatalogSnapshot → String → List String → List String → List String
  unfolding label
  collect_zones catalog value seen [] = []
  collect_zones catalog value seen (id ∷ ids) =
      let skipped = collect_zones catalog value seen ids in
      let kept = id ∷ collect_zones catalog value (id ∷ seen) ids in
      if contains id seen
        || not (lib.equal_fold id value || lib.equal_fold (label catalog id) value)
      then skipped
      else kept

  unfoldable pub canonical_zone : String → Option ZoneCatalogSnapshot → Match
  unfolding collect_zones
  canonical_zone raw none = catalog_unavailable
  canonical_zone raw (some catalog) =
      let value = lib.trim_space raw in
      if not catalog.available
      then catalog_unavailable
      else if str_eq value ""
      then unknown
      else if contains value catalog.order
      then resolved value
      else by_hits (collect_zones catalog value [] catalog.order)

-- canonicalMachineTypeValue and canonicalZoneValue: who is told what.
abbrev pub match_value : String → String → String → Match → Except ValueError String
match_value outage question unmatched (resolved name) = ok name
match_value outage question unmatched catalog_unavailable = err (dependency_error outage)
match_value outage question unmatched (ambiguous hits) = err (ambiguity_error question hits)
match_value outage question unmatched unknown = err (plain_error unmatched)
