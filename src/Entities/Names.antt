-- ===== src/Entities/Names.antt =====
-- internal/entity/registry.go and resolve.go: what the name index says of the instances.
use compshare_agent.Prelude.{
  String, Bool, true, false, some, List, [], ◌∷◌, ◌++◌, ◌≡◌, ◌≢◌, inl, inr, refl, sym, ◌∙◌, ap,
  arith, Bool-cases, str_eq, eq_iff, if◌then◌else◌, All, append-nil, append_assoc,
}
use compshare_agent.Prelude.Sorting.{sort_by, str_less}
use compshare_agent.Actions.Judge.{find, has_key}
use compshare_agent.Entities.Snapshot.{EntityText, InstanceSnapshot}
use compshare_agent.Entities.Registry.{
  normalize_name, append_at, sort_each, index_names, rebuild_name_index,
}
use compshare_agent.Entities.Resolve.{ids_at, ids_of_snapshots, look_up_all}

ids_at-append_at :
    (k j id : String) (m : List (String × List String))
    → ids_at k (append_at j id m) ≡ ids_at k m ++ (if str_eq j k then id ∷ [] else [])
unfolding append_at
ids_at-append_at k j id [] = elim (Bool-cases (str_eq j k)) [
  | inl e ↦ rw e refl
  | inr e ↦ rw e refl
]
ids_at-append_at k j id ((i, ids) ∷ m) = elim (Bool-cases (str_eq i j)) [
  | inl e ↦
      (let same : str_eq j k ≡ str_eq i k = ap (λ n. str_eq n k) (sym ((eq_iff i j).0 e)) in
        elim (Bool-cases (str_eq i k)) [
          | inl d ↦ rw (e, same, d) refl
          | inr d ↦ rw (e, same, d) (sym (append-nil (ids_at k m)))
        ])
  | inr e ↦ elim (Bool-cases (str_eq i k)) [
    | inl d ↦
        (let other : str_eq j k ≡ false =
            ground (arith, eq_iff i k, eq_iff j k, eq_iff i j, e, d) in
          rw (e, d, other) (sym (append-nil ids)))
    | inr d ↦ rw (e, d) (ids_at-append_at k j id m)
  ]
]

ids_at-sort_each :
    (k : String) (m : List (String × List String))
    → ids_at k (sort_each m) ≡ sort_by str_less (ids_at k m)
unfolding sort_each sort_by
ids_at-sort_each k [] = refl
ids_at-sort_each k ((j, ids) ∷ m) = elim (Bool-cases (str_eq j k)) [
  | inl e ↦ rw e refl
  | inr e ↦ rw e (ids_at-sort_each k m)
]

not_blank : (name key : String) → str_eq name "" ≡ true → key ≢ "" → str_eq name key ≡ false
not_blank name key e h = elim (Bool-cases (str_eq name key)) [
  | inl same ↦ absurd (h (sym ((eq_iff name key).0 same) ∙ (eq_iff name "").0 e))
  | inr other ↦ other
]

added :
    (before : List String) (id : String) (later : List String) (b : Bool)
    → (before ++ (if b then id ∷ [] else [])) ++ later ≡ before ++ (if b then id ∷ later else later)
added before id later true = append_assoc before (id ∷ []) later
added before id later false = ap (λ ids. ids ++ later) (append-nil before)

module _ (lib : EntityText) where
  -- The ids of the instances whose name is this one, up to normalizeName.
  unfoldable pub named : String → List (String × InstanceSnapshot) → List String
  named key [] = []
  named key ((id, inst) ∷ rest) =
      let later = named key rest in
      if str_eq (normalize_name lib inst.name) key then id ∷ later else later

  ids_at-index_names :
      (key : String) (insts : List (String × InstanceSnapshot))
      (index : List (String × List String))
      → key ≢ ""
      → ids_at key (index_names lib insts index) ≡ ids_at key index ++ named key insts
  unfolding index_names named
  ids_at-index_names key [] index h = sym (append-nil (ids_at key index))
  ids_at-index_names key ((id, inst) ∷ rest) index h =
      let name = normalize_name lib inst.name in
      elim (Bool-cases (str_eq name "")) [
        | inl e ↦
            (let other : str_eq name key ≡ false = not_blank name key e h in
              rw (e, other) (ids_at-index_names key rest index h))
        | inr e ↦ rw e (
            ids_at-index_names key rest (append_at name id index) h
            ∙ ap (λ ids. ids ++ named key rest) (ids_at-append_at key name id index)
            ∙ added (ids_at key index) id (named key rest) (str_eq name key))
      ]

  -- The name index has at a name the ids of the instances of that name, sorted.
  pub ids_at-rebuild :
      (key : String) (insts : List (String × InstanceSnapshot))
      → key ≢ ""
      → ids_at key (rebuild_name_index lib insts) ≡ sort_by str_less (named key insts)
  unfolding rebuild_name_index
  ids_at-rebuild key insts h =
      ids_at-sort_each key (index_names lib insts [])
      ∙ ap (sort_by str_less) (ids_at-index_names key insts [] h)

-- Each instance is at its own id.
abbrev pub IsKeyed : List (String × InstanceSnapshot) → Type 0
IsKeyed = All (λ (k, inst). inst.u_host_id ≡ k)

find-IsKeyed :
    (id : String) (insts : List (String × InstanceSnapshot))
    → IsKeyed insts
    → has_key id insts ≡ true
    → (inst : InstanceSnapshot) × (find id insts ≡ some inst) × (inst.u_host_id ≡ id)
find-IsKeyed id [] ks h = cc
find-IsKeyed id ((k, inst) ∷ insts) ks h = elim (Bool-cases (str_eq k id)) [
  | inl e ↦ rw e (inst, refl, ks.0 ∙ (eq_iff k id).0 e)
  | inr e ↦ rw e (find-IsKeyed id insts ks.1 (rw e at h))
]

pub ids-look_up_all :
    (insts : List (String × InstanceSnapshot)) (ids : List String)
    → IsKeyed insts
    → All (λ id. has_key id insts ≡ true) ids
    → ids_of_snapshots (look_up_all insts ids) ≡ ids
unfolding look_up_all
ids-look_up_all insts [] ks hs = refl
ids-look_up_all insts (id ∷ ids) ks hs =
    let (inst, e, own) = find-IsKeyed id insts ks hs.0 in
    rw (e, look_up_all, own) (ap (λ rest. id ∷ rest) (ids-look_up_all insts ids ks hs.1))
