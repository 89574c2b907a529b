-- ===== src/Entities/Resolve.antt =====
-- internal/entity/resolve.go: from an id or a name that the model gives to instances of the account.
use Prim.Native.Char.{Char, code}
use Prim.Native.String.{[] as no_text, ◌∷◌ as ◌then_text◌}
use text.Mathlib.Text.{find?}
use compshare_agent.Prelude.{
  ℕ, ◌-◌, String, Bool, true, false, ◌||◌, ◌&&◌, not, Option, none, some, List, [], ◌∷◌, map, ltb,
  leb, ◌==◌, if◌then◌else◌, str_eq, length,
}
use compshare_agent.Prelude.Sorting.{sort_by, str_less}
use compshare_agent.Actions.Judge.{find, is_empty}
use compshare_agent.Entities.Snapshot.{EntityText, InstanceSnapshot}
use compshare_agent.Entities.Registry.{EntityRegistry, normalize_name, put, recently_released_ttl}

pub data ResolveStatus : Type 0 where
  resolve_hit resolve_not_found resolve_recently_released resolve_ambiguous : ResolveStatus

pub record ResolveResult : Type 0 where
  pub status : ResolveStatus
  pub query : String
  pub candidates : List String

pub record ScoredInstance : Type 0 where
  pub snapshot : InstanceSnapshot
  pub score : ℕ

abbrev pub not_found : String → ResolveResult
not_found query = record { status = resolve_not_found; query = query; candidates = [] }

abbrev pub ids_of_snapshots : List InstanceSnapshot → List String
ids_of_snapshots insts = map (λ inst. inst.u_host_id) insts

-- The result of a search that has matches.
unfoldable pub found : String → List InstanceSnapshot → ResolveResult
found query matches = record {
  status = if ltb 1 (length matches) then resolve_ambiguous else resolve_hit;
  query = query;
  candidates = ids_of_snapshots matches;
}

abbrev pub id_less : InstanceSnapshot → InstanceSnapshot → Bool
id_less a b = str_less a.u_host_id b.u_host_id

unfoldable pub look_up_all : List (String × InstanceSnapshot) → List String → List InstanceSnapshot
look_up_all instances [] = []
look_up_all instances (id ∷ ids) =
    let rest = look_up_all instances ids in
    elim (find id instances) [ none ↦ rest | some inst ↦ inst ∷ rest ]

unfoldable pub instances_for_ids :
    List (String × InstanceSnapshot) → List String → List InstanceSnapshot
unfolding look_up_all
instances_for_ids instances ids = sort_by id_less (look_up_all instances ids)

-- The ids at a key of the name index.
abbrev pub ids_at : String → List (String × List String) → List String
ids_at key [] = []
ids_at key ((j, ids) ∷ index) = if str_eq j key then ids else ids_at key index

unfoldable pub characters : String → List Char
characters no_text = []
characters (c then_text s) = c ∷ characters s

abbrev pub between : ℕ → ℕ → ℕ → Bool
between lo hi n = leb lo n && leb n hi

-- isInstanceIDAdjacentByte: an ASCII letter, a digit or an underscore.
pub is_instance_id_adjacent : Char → Bool
is_instance_id_adjacent c =
    let n = code c in between 97 122 n || between 65 90 n || between 48 57 n || n == 95

-- The id stands at the start of the text, and no such character follows it.
pub begins_with_id : List Char → List Char → Bool
unfolding is_instance_id_adjacent
begins_with_id [] [] = true
begins_with_id [] (c ∷ text) = not (is_instance_id_adjacent c)
begins_with_id (d ∷ id) [] = false
begins_with_id (d ∷ id) (c ∷ text) = let rest = begins_with_id id text in code d == code c && rest

-- The loop over the starts; `adjacent` is of the character before.
pub scan_for_id : List Char → Bool → List Char → Bool
unfolding begins_with_id
scan_for_id id adjacent [] = false
scan_for_id id adjacent (c ∷ text) =
    let rest = scan_for_id id (is_instance_id_adjacent c) text in
    (not adjacent && begins_with_id id (c ∷ text)) || rest

-- strings.Contains.
abbrev pub contains_text : String → String → Bool
contains_text text part = elim (find? text part) [ none ↦ false | some at ↦ true ]

abbrev pub values : List (String × InstanceSnapshot) → List InstanceSnapshot
values [] = []
values ((k, inst) ∷ m) = inst ∷ values m

abbrev pub key_less : String × InstanceSnapshot → String × InstanceSnapshot → Bool
key_less a b = str_less a.0 b.0

-- The order of the scored matches.
abbrev pub score_less : ScoredInstance → ScoredInstance → Bool
score_less a b =
    if a.score == b.score
    then (if str_eq a.snapshot.name b.snapshot.name
        then id_less a.snapshot b.snapshot
        else str_less a.snapshot.name b.snapshot.name)
    else ltb b.score a.score

abbrev pub snapshots : List ScoredInstance → List InstanceSnapshot
snapshots [] = []
snapshots (s ∷ ss) = s.snapshot ∷ snapshots ss

pub contains_all : String → List String → Bool
contains_all name [] = true
contains_all name (term ∷ terms) =
    let rest = contains_all name terms in contains_text name term && rest

pub fuzzy_score : String → List String → String → ℕ
unfolding contains_all
fuzzy_score query terms name =
    if str_eq query "" || str_eq name ""
    then 0
    else (if contains_text name query
        then 80
        else (if not (is_empty terms) && contains_all name terms then 70 else 0))

module _ (lib : EntityText) where
  unfoldable pub contains_literal_instance_id_span : String → String → Bool
  unfolding scan_for_id characters
  contains_literal_instance_id_span text id =
      let folded_text = lib.to_lower (lib.trim_space text) in
      let folded_id = lib.to_lower (lib.trim_space id) in
      if str_eq folded_id ""
      then false
      else scan_for_id (characters folded_id) false (characters folded_text)

  -- The id that is searched for: the instance's, or its key where the instance has none.
  abbrev pub searched_id : String → InstanceSnapshot → String
  searched_id key inst =
      let id = lib.trim_space inst.u_host_id in if str_eq id "" then lib.trim_space key else id

  unfoldable pub match_ids :
      String
      → List (String × InstanceSnapshot)
      → List (String × InstanceSnapshot)
      → List (String × InstanceSnapshot)
  unfolding contains_literal_instance_id_span put
  match_ids text [] matched = matched
  match_ids text ((key, inst) ∷ rest) matched =
      let id = searched_id key inst in
      match_ids text rest (
        if str_eq id "" || not (contains_literal_instance_id_span text id)
        then matched
        else put (lib.to_lower id) (record inst { u_host_id = id }) matched)

  unfoldable pub instances_whose_id_appears_in_text :
      String → List (String × InstanceSnapshot) → List InstanceSnapshot
  unfolding match_ids
  instances_whose_id_appears_in_text text instances =
      let trimmed = lib.trim_space text in
      if str_eq trimmed "" || is_empty instances
      then []
      else values (sort_by key_less (match_ids trimmed instances []))

  unfoldable pub normalize_words : List String → List String
  normalize_words [] = []
  normalize_words (word ∷ words) =
      let rest = normalize_words words in
      let term = normalize_name lib word in if str_eq term "" then rest else term ∷ rest

  unfoldable pub normalize_terms : String → List String
  unfolding normalize_words
  normalize_terms s = normalize_words (lib.words (lib.to_lower (lib.trim_space s)))

  unfoldable pub score_all :
      String → List String → List (String × InstanceSnapshot) → List ScoredInstance
  unfolding fuzzy_score
  score_all normalized terms [] = []
  score_all normalized terms ((id, inst) ∷ rest) =
      let scored = score_all normalized terms rest in
      let score = fuzzy_score normalized terms (normalize_name lib inst.name) in
      if ltb 0 score then record { snapshot = inst; score = score } ∷ scored else scored

  -- The part of ResolveByName for a name that no instance has: an id in its text, or a likeness.
  unfoldable pub resolve_inexact : EntityRegistry → String → List InstanceSnapshot × ResolveResult
  unfolding instances_whose_id_appears_in_text score_all normalize_terms found
  resolve_inexact r query =
      let by_id = instances_whose_id_appears_in_text query r.instances in
      let scored = score_all (normalize_name lib query) (normalize_terms query) r.instances in
      let alike = snapshots (sort_by score_less scored) in
      if not (is_empty by_id)
      then (by_id, found query by_id)
      else (if is_empty alike then ([], not_found query) else (alike, found query alike))

  unfoldable pub resolve_by_name : EntityRegistry → String → List InstanceSnapshot × ResolveResult
  unfolding resolve_inexact instances_for_ids found
  resolve_by_name r name =
      let query = lib.trim_space name in
      let normalized = normalize_name lib query in
      let ids = ids_at normalized r.name_index in
      let exact = instances_for_ids r.instances ids in
      let inexact = resolve_inexact r query in
      if str_eq normalized ""
      then ([], not_found query)
      else (if not (is_empty ids) then (exact, found query exact) else inexact)

  -- EntityRegistry.ResolveByID at the time `now`.
  unfoldable pub resolve_by_id :
      EntityRegistry → ℕ → String → Option InstanceSnapshot × ResolveResult
  resolve_by_id r now id =
      let query = lib.trim_space id in
      let released : ResolveResult = record {
        status = resolve_recently_released;
        query = query;
        candidates = [];
      } in
      elim (find query r.instances) [
        | some inst ↦
            (some inst, record { status = resolve_hit; query = query; candidates = query ∷ [] })
        | none ↦ elim (find query r.recently_released) [
          | none ↦ (none, not_found query)
          | some at ↦
              (none, if leb (now - at) recently_released_ttl then released else not_found query)
        ]
      ]
