-- ===== src/Entities/Listing.antt =====
-- internal/entity/registry.go: which ids the instances that are read from a listing have.
use compshare_agent.Prelude.{
  String, true, ◌||◌, Option, none, some, List, [], ◌∷◌, ◌≡◌, ◌≢◌, ◌↔◌, ◌⊎◌, inl, inr, refl, sym,
  ◌∙◌, ap, arith, Bool-cases, str_eq, eq_iff, Has, Has-nil, Has-cons, here, there,
}
use compshare_agent.Value.{Value, Fields, str, get_field}
use compshare_agent.Actions.Judge.{has_key}
use compshare_agent.Entities.Snapshot.{
  EntityText, InstanceSnapshot, string_field, instance_from_map,
}
use compshare_agent.Entities.Registry.{put, collect}
use compshare_agent.Entities.Verify.{is_string, any_has_id}

pub has_key-put :
    {V : Type 0} (k j : String) (v : V) (m : List (String × V))
    → has_key k (put j v m) ≡ (str_eq j k || has_key k m)
unfolding put
has_key-put k j v [] = ground arith
has_key-put k j v ((i, w) ∷ m) =
    let rest = has_key-put k j v m in
    elim (Bool-cases (str_eq i j)) [
      | inl e ↦ (let same = ap (λ n. str_eq n k) ((eq_iff i j).0 e) in rw e (ground (arith, same)))
      | inr e ↦ rw e (ground (arith, rest))
    ]

-- The row gives the id as a text.
abbrev pub Echoes : String → Fields → Type 0
Echoes id row = get_field "UHostId" row ≡ some (str id)

is_string-some : (id : String) (v : Option Value) → is_string id v ≡ true → v ≡ some (str id)
unfolding is_string
is_string-some id none h = cc
is_string-some id (some (str s)) h = ap (λ t. some (str t)) ((eq_iff s id).0 h)
is_string-some id (some v) h = cc

is_string_iff : (id : String) (v : Option Value) → (is_string id v ≡ true) ↔ (v ≡ some (str id))
unfolding is_string
is_string_iff id v = (is_string-some id v, λ h. ap (is_string id) h ∙ (eq_iff id id).1 refl)

pub any_has_id_iff :
    (id : String) (rows : List Fields) → (any_has_id id rows ≡ true) ↔ Has (Echoes id) rows
unfolding any_has_id
any_has_id_iff id [] = (λ h. cc, λ h. absurd (Has-nil h))
any_has_id_iff id (row ∷ rows) =
    let v = get_field "UHostId" row in
    let (forth, back) = any_has_id_iff id rows in
    elim (Bool-cases (is_string id v)) [
      | inl e ↦ rw e (λ h. here ((is_string_iff id v).0 e), λ h. refl)
      | inr e ↦ rw e (
        λ h. there (forth h),
        λ h. elim (Has-cons h) [
          | inl own ↦ ground (arith, (is_string_iff id v).1 own, e)
          | inr later ↦ back later
        ],
      )
    ]

module _ (lib : EntityText) where
  -- The row is of the instance of this id.
  abbrev pub Names : String → Fields → Type 0
  Names id row = (string_field lib row "UHostId" ≡ id) × (id ≢ "")

  has_key-collect :
      (id : String) (rows : List Fields) (next : List (String × InstanceSnapshot))
      → (has_key id (collect lib rows next) ≡ true)
        ↔ (Has (Names id) rows ⊎ (has_key id next ≡ true))
  unfolding collect instance_from_map
  has_key-collect id [] next =
      (λ h. inr h, λ h. elim h [ inl found ↦ absurd (Has-nil found) | inr m ↦ m ])
  has_key-collect id (row ∷ rows) next =
      let own = string_field lib row "UHostId" in
      elim (Bool-cases (str_eq own "")) [
        | inl e ↦ rw e (
            (let (forth, back) = has_key-collect id rows next in
              (
                λ h. elim (forth h) [ inl later ↦ inl (there later) | inr m ↦ inr m ],
                λ h. back (elim h [
                  | inl named ↦ inl (elim (Has-cons named) [
                    | inl n ↦ absurd (n.1 (sym n.0 ∙ (eq_iff own "").0 e))
                    | inr later ↦ later
                  ])
                  | inr m ↦ inr m
                ]),
              )))
        | inr e ↦ rw e (
            (let (forth, back) =
                has_key-collect id rows (put own (instance_from_map lib row) next) in
              let kept = has_key-put id own (instance_from_map lib row) next in
              (
                λ h. elim (forth h) [
                  | inl later ↦ inl (there later)
                  | inr m ↦ elim (Bool-cases (str_eq own id)) [
                    | inl same ↦ inl (
                        here (
                          (eq_iff own id).0 same,
                          λ blank. ground (arith, e, same, eq_iff own id, eq_iff own "", blank),
                        ))
                    | inr other ↦ inr (ground (arith, kept, m, other))
                  ]
                ],
                λ h. back (elim h [
                  | inl named ↦ elim (Has-cons named) [
                    | inl n ↦ inr (ground (arith, kept, (eq_iff own id).1 n.0))
                    | inr later ↦ inl later
                  ]
                  | inr m ↦ inr (ground (arith, kept, m))
                ]),
              )))
      ]

  -- An id is among the instances exactly when a row of the listing has it.
  pub has_key-collect_iff :
      (id : String) (rows : List Fields)
      → (has_key id (collect lib rows []) ≡ true) ↔ Has (Names id) rows
  has_key-collect_iff id rows = (
    λ h. elim ((has_key-collect id rows []).0 h) [
      | inl named ↦ named
      | inr found ↦ ground (arith, found)
    ],
    λ h. (has_key-collect id rows []).1 (inl h),
  )
