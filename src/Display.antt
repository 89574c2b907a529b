-- ===== src/Display.antt =====
-- internal/readprojection/truncate.go and internal/engine/instance_truncate.go: which instances of a
-- long list are shown. Numbers are natural, so a limit that is not positive is 0.
pub mod Order
pub mod Top
pub mod Rows
mod Examples
use compshare_agent.Prelude.{
  ℕ, suc, String, Bool, true, false, ◌&&◌, not, List, length, take, ltb, leb, ◌==◌, if◌then◌else◌,
  str_eq, Option, none, some, [], ◌∷◌,
}
use compshare_agent.Prelude.Sorting.{sort_by, str_less}
use compshare_agent.Value.{
  Value, Fields, Items, obj, arr, str, num, bool, cons, nil, get_field, set_field,
}
use compshare_agent.Entities.Registry.{hosts_of}
use compshare_agent.Entities.Snapshot.{EntityText, InstanceSnapshot, instance_from_map}

abbrev pub default_max_instances_per_display : ℕ
default_max_instances_per_display = 50

unfoldable pub state_display_rank : String → ℕ
state_display_rank state =
    if str_eq state "Running"
    then 0
    else (if str_eq state "Stopped"
        then 1
        else (if str_eq state "Install"
            then 2
            else (if str_eq state "Install Fail"
                then 3
                else (if str_eq state "Starting"
                    then 4
                    else (if str_eq state "Stopping"
                        then 5
                        else (if str_eq state "Rebooting" then 6 else 100))))))

-- The later start first, none last, and then by the tie.
unfoldable pub start_time_less : ℕ → ℕ → Bool → Bool
start_time_less sa sb tie =
    if sa == 0 && not (sb == 0)
    then false
    else (if not (sa == 0) && sb == 0 then true else (if not (sa == sb) then ltb sb sa else tie))

unfoldable pub rank_less : ℕ → ℕ → Bool → Bool
rank_less ra rb tie = if not (ra == rb) then ltb ra rb else tie

unfoldable pub instance_display_less : InstanceSnapshot → InstanceSnapshot → Bool
unfolding state_display_rank start_time_less rank_less
instance_display_less a b =
    rank_less (state_display_rank a.state) (state_display_rank b.state)
      (start_time_less a.start_time b.start_time (str_less a.u_host_id b.u_host_id))

unfoldable pub sort_instances_for_display : List InstanceSnapshot → List InstanceSnapshot
sort_instances_for_display instances = sort_by instance_display_less instances

pub record Shown : Type 0 where
  pub out : List InstanceSnapshot
  pub shown : ℕ
  pub truncated : Bool

abbrev pub effective_limit : ℕ → ℕ
effective_limit limit = if limit == 0 then default_max_instances_per_display else limit

unfoldable pub truncate_instances_for_display : List InstanceSnapshot → ℕ → Shown
unfolding sort_instances_for_display
truncate_instances_for_display instances limit =
    let out = sort_instances_for_display instances in
    let kept = effective_limit limit in
    if leb (length out) kept
    then record { out = out; shown = length out; truncated = false }
    else record { out = take kept out; shown = kept; truncated = true }

unfoldable pub has_pinned_u_host_ids : Option Fields → Bool
has_pinned_u_host_ids none = false
has_pinned_u_host_ids (some args) = elim (get_field "UHostIds" args) [
  | none ↦ false
  | some v ↦ elim v [
    | arr ids ↦ elim ids [ nil ↦ false | cons id more ↦ true ]
    | str id ↦ not (str_eq id "")
    | _ ↦ false
  ]
]

pub record RankedRow : Type 0 where
  pub row : Value
  pub snap : InstanceSnapshot

abbrev pub row_less : RankedRow → RankedRow → Bool
row_less a b = instance_display_less a.snap b.snap

abbrev pub items_length : Items → ℕ
items_length nil = 0
items_length (cons item items) = suc (items_length items)

unfoldable pub items_of_rows : List RankedRow → Items
items_of_rows [] = nil
items_of_rows (r ∷ rows) = cons r.row (items_of_rows rows)

module _ (lib : EntityText) where
  unfoldable pub rank_rows : Items → List RankedRow
  unfolding instance_from_map
  rank_rows nil = []
  rank_rows (cons (obj row) items) =
      record { row = obj row; snap = instance_from_map lib row } ∷ rank_rows items
  rank_rows (cons _ items) = rank_rows items

  -- The rows that are kept.
  unfoldable pub kept_rows : Items → List RankedRow
  unfolding rank_rows
  kept_rows items = take default_max_instances_per_display (sort_by row_less (rank_rows items))

  abbrev pub write_rows : List RankedRow → Fields → Fields
  write_rows rows result = set_field "Truncated" (bool true) (
      set_field "Shown" (num default_max_instances_per_display)
        (set_field "UHostSet" (arr (items_of_rows rows)) result))

  -- truncateDescribeResultForReAct on a result that is a map; with it what it returns.
  unfoldable pub truncate_describe_result_for_react : Option Fields → Fields → Fields × ℕ × ℕ × Bool
  unfolding has_pinned_u_host_ids kept_rows items_of_rows hosts_of
  truncate_describe_result_for_react args result =
      if has_pinned_u_host_ids args then (result, 0, 0, false) else elim (hosts_of (some result)) [
        | none ↦ (result, 0, 0, false)
        | some items ↦
            (let total = items_length items in
              if leb total default_max_instances_per_display
              then (result, total, total, false)
              else (
                write_rows (kept_rows items) result,
                default_max_instances_per_display,
                total,
                true,
              ))
      ]
