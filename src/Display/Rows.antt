-- ===== src/Display/Rows.antt =====
-- internal/engine/instance_truncate.go: what the model sees of a long listing.
use compshare_agent.Prelude.{
  ◌≤◌, ◌<◌, String, true, false, Option, some, ◌≡◌, ◌≢◌, ◌⊎◌, refl, sym, ◌∙◌, inl, inr, Bool-cases,
  Option-cases, leb, str_eq, eq_iff, ap, List,
}
use compshare_agent.Prelude.TextOrder.{unequal}
use compshare_agent.Value.{Value, Fields, Items, arr, bool, num, end, field, get_field, set_field}
use compshare_agent.Entities.Registry.{hosts_of}
use compshare_agent.Entities.Snapshot.{EntityText}
use compshare_agent.Display.{
  default_max_instances_per_display, has_pinned_u_host_ids, RankedRow, row_less, items_length,
  items_of_rows, rank_rows, kept_rows, write_rows, truncate_describe_result_for_react,
}
use compshare_agent.Display.Order.{row_less-IsOrder}
use compshare_agent.Display.Top.{IsTop, take-IsTop, above, at_most}

get_field-set_field : (k : String) (v : Value) (m : Fields) → get_field k (set_field k v m) ≡ some v
unfolding get_field set_field
get_field-set_field k v end = rw ((eq_iff k k).1 refl) refl
get_field-set_field k v (field j w m) = elim (Bool-cases (str_eq j k)) [
  | inl e ↦ rw (e, get_field, e) refl
  | inr e ↦ rw (e, get_field, e) (get_field-set_field k v m)
]

get_field-set_other :
    (k j : String) (v : Value) (m : Fields) → j ≢ k → get_field k (set_field j v m) ≡ get_field k m
unfolding get_field set_field
get_field-set_other k j v end h = rw (unequal h, get_field) refl
get_field-set_other k j v (field i w m) h = elim (Bool-cases (str_eq i j)) [
  | inl e ↦
      (let other : str_eq i k ≡ false = ap (λ n. str_eq n k) ((eq_iff i j).0 e) ∙ unequal h in
        rw (e, other) refl)
  | inr e ↦ elim (Bool-cases (str_eq i k)) [
    | inl d ↦ rw (e, get_field, d) refl
    | inr d ↦ rw (e, get_field, d) (get_field-set_other k j v m h)
  ]
]

short :
    (items others : Items)
    → some items ≡ some others
    → items_length items ≤ default_max_instances_per_display
    → items_length others ≤ default_max_instances_per_display
short items others h le = (let same : items ≡ others = cc in rw (sym same) le)

module _ (lib : EntityText) where
  -- No ids were asked for, and the listing is long: it is cut to the first rows, and says so; its
  -- other fields are kept.
  pub record IsCut (args : Option Fields) (result cut : Fields) : Type 0 where
    pub not_asked : has_pinned_u_host_ids args ≡ false
    pub items : Items
    pub rows : List RankedRow
    pub given : hosts_of (some result) ≡ some items
    pub many : default_max_instances_per_display < items_length items
    pub top : IsTop row_less default_max_instances_per_display rows (rank_rows lib items)
    pub listed : get_field "UHostSet" cut ≡ some (arr (items_of_rows rows))
    pub told : get_field "Truncated" cut ≡ some (bool true)
    pub shown : get_field "Shown" cut ≡ some (num default_max_instances_per_display)
    pub kept :
        (k : String)
        → "UHostSet" ≢ k
        → "Shown" ≢ k
        → "Truncated" ≢ k
        → get_field k cut ≡ get_field k result

  -- The listing is not cut: ids were asked for, or it is short, or there is none.
  abbrev pub IsLeft : Option Fields → Fields → Type 0
  IsLeft args result =
      (has_pinned_u_host_ids args ≡ true)
      ⊎ ((items : Items)
          → hosts_of (some result) ≡ some items
          → items_length items ≤ default_max_instances_per_display)

  write-kept :
      (rows : List RankedRow) (result : Fields) (k : String)
      → "UHostSet" ≢ k
      → "Shown" ≢ k
      → "Truncated" ≢ k
      → get_field k (write_rows lib rows result) ≡ get_field k result
  write-kept rows result k a b c =
      get_field-set_other k "Truncated" _ _ c
      ∙ get_field-set_other k "Shown" _ _ b
      ∙ get_field-set_other k "UHostSet" _ result a

  IsCut-rows :
      (args : Option Fields) (result : Fields) (items : Items)
      → has_pinned_u_host_ids args ≡ false
      → hosts_of (some result) ≡ some items
      → default_max_instances_per_display < items_length items
      → IsCut args result (write_rows lib (kept_rows lib items) result)
  unfolding kept_rows
  IsCut-rows args result items not_asked given many =
      let rows = kept_rows lib items in
      record {
        not_asked = not_asked;
        items = items;
        rows = rows;
        given = given;
        many = many;
        top = take-IsTop row_less-IsOrder default_max_instances_per_display (rank_rows lib items);
        listed =
            get_field-set_other "UHostSet" "Truncated" _ _
              (λ h. (let bad = (eq_iff "Truncated" "UHostSet").1 h in cc))
            ∙ get_field-set_other "UHostSet" "Shown" _ _
                (λ h. (let bad = (eq_iff "Shown" "UHostSet").1 h in cc))
            ∙ get_field-set_field "UHostSet" _ result;
        told = get_field-set_field "Truncated" _ _;
        shown =
            get_field-set_other "Shown" "Truncated" _ _
              (λ h. (let bad = (eq_iff "Truncated" "Shown").1 h in cc))
            ∙ get_field-set_field "Shown" _ _;
        kept = write-kept rows result;
      }

  -- truncateDescribeResultForReAct leaves a result as it is, and then ids were asked for, or the result
  -- has no listing or one of at most 50 rows; or no ids were asked for, the listing has more rows, and
  -- it becomes the first 50 of its instances in display order, with a mark and the number shown, while
  -- every other field is kept.
  pub truncate_describe_result-IsCut :
      (args : Option Fields) (result : Fields)
      → (let cut = (truncate_describe_result_for_react lib args result).0 in
          ((cut ≡ result) × IsLeft args result) ⊎ IsCut args result cut)
  unfolding truncate_describe_result_for_react
  truncate_describe_result-IsCut args result = elim (Bool-cases (has_pinned_u_host_ids args)) [
    | inl e ↦ rw e (inl (refl, inl refl))
    | inr e ↦ elim (Option-cases (hosts_of (some result))) [
      | inl d ↦ rw (e, d) (inl (refl, inr (λ items h. absurd cc)))
      | inr (items, d) ↦
          elim (Bool-cases (leb (items_length items) default_max_instances_per_display)) [
            | inl f ↦
                rw (e, d, f) (inl (refl, inr (λ others h. short items others h (at_most _ _ f))))
            | inr f ↦ rw (e, d, f) (inr (IsCut-rows args result items e d (above _ _ f)))
          ]
    ]
  ]
