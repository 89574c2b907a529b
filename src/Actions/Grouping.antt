-- ===== src/Actions/Grouping.antt =====
-- The candidates of Resolve by their names.
use compshare_agent.Prelude.{
  String, false, not, Option, none, some, List, [], ◌∷◌, ◌++◌, ◌≡◌, ◌↔◌, refl, if◌then◌else◌,
  str_eq, eq_iff, inl, inr, Bool-cases, arith, All, Has, here, there, append_assoc, append-nil, ◌∙◌,
  sym, ap,
}
use compshare_agent.Actions.Types.{SlotCandidate, Arguments}
use compshare_agent.Actions.Judge.{find, has_key, is_empty, Adjudication, append_group, accept}

abbrev pub from_option : {A : Type 0} → Option (List A) → List A
from_option none = []
from_option (some xs) = xs

module _ {F : Type 0} where
  -- The group of a name.
  abbrev pub members : String → List (String × List (SlotCandidate F)) → List (SlotCandidate F)
  members k groups = from_option (find k groups)

  unfoldable pub with_name : String → List (SlotCandidate F) → List (SlotCandidate F)
  with_name k [] = []
  with_name k (c ∷ cs) = let rest = with_name k cs in if str_eq c.name k then c ∷ rest else rest

  unfoldable pub group_all :
      List (SlotCandidate F)
      → List (String × List (SlotCandidate F))
      → List (String × List (SlotCandidate F))
  group_all [] groups = groups
  group_all (c ∷ cs) groups = group_all cs (append_group c groups)

  members-append_group :
      (k : String) (c : SlotCandidate F) (groups : List (String × List (SlotCandidate F)))
      → members k (append_group c groups)
        ≡ members k groups ++ (if str_eq c.name k then c ∷ [] else [])
  unfolding append_group
  members-append_group k c [] = elim (Bool-cases (str_eq c.name k)) [
    | inl e ↦ rw e refl
    | inr e ↦ rw e refl
  ]
  members-append_group k c ((name, cs) ∷ groups) = elim (Bool-cases (str_eq name c.name)) [
    | inl e ↦
        (let same : str_eq c.name k ≡ str_eq name k =
            ap (λ n. str_eq n k) (sym ((eq_iff name c.name).0 e)) in
          elim (Bool-cases (str_eq name k)) [
            | inl d ↦ rw (e, same, d) refl
            | inr d ↦ rw (e, same, d) (sym (append-nil (members k groups)))
          ])
    | inr e ↦ elim (Bool-cases (str_eq name k)) [
      | inl d ↦
          (let other : str_eq c.name k ≡ false =
              ground (arith, eq_iff name k, eq_iff c.name k, eq_iff name c.name, e, d) in
            rw (e, d, other) (sym (append-nil cs)))
      | inr d ↦ rw (e, d) (members-append_group k c groups)
    ]
  ]

  pub members-group_all :
      (k : String) (cs : List (SlotCandidate F)) (groups : List (String × List (SlotCandidate F)))
      → members k (group_all cs groups) ≡ members k groups ++ with_name k cs
  unfolding group_all with_name
  members-group_all k [] groups = sym (append-nil (members k groups))
  members-group_all k (c ∷ cs) groups =
      members-group_all k cs (append_group c groups)
      ∙ ap (λ ms. ms ++ with_name k cs) (members-append_group k c groups)
      ∙ elim (Bool-cases (str_eq c.name k)) [
        | inl e ↦ rw e (append_assoc (members k groups) (c ∷ []) (with_name k cs))
        | inr e ↦ rw e (ap (λ ms. ms ++ with_name k cs) (append-nil (members k groups)))
      ]

  pub All-members :
      (Q : List (SlotCandidate F) → Type 0) (k : String)
      (groups : List (String × List (SlotCandidate F)))
      → All (λ (name, cs). Q cs) groups
      → Q []
      → Q (members k groups)
  All-members Q k [] qs q = q
  All-members Q k ((name, cs) ∷ groups) qs q = elim (Bool-cases (str_eq name k)) [
    | inl e ↦ rw e qs.0
    | inr e ↦ rw e (All-members Q k groups qs.1 q)
  ]

  pub All-with_name :
      (P : SlotCandidate F → Type 0) (k : String) (cs : List (SlotCandidate F))
      → All P (with_name k cs)
      → All (λ c. c.name ≡ k → P c) cs
  unfolding with_name
  All-with_name P k [] ps = tt
  All-with_name P k (c ∷ cs) ps = elim (Bool-cases (str_eq c.name k)) [
    | inl e ↦ (let (p, rest) = (rw e at ps) in (λ same. p, All-with_name P k cs rest))
    | inr e ↦
        (let rest = (rw e at ps) in
          (λ same. absurd (ground (arith, eq_iff c.name k, e, same)), All-with_name P k cs rest))
  ]

  nonempty→Has :
      (k : String) (cs : List (SlotCandidate F))
      → is_empty (with_name k cs) ≡ false
      → Has (λ (c : SlotCandidate F). c.name ≡ k) cs
  unfolding with_name
  nonempty→Has k [] h = cc
  nonempty→Has k (c ∷ cs) h = elim (Bool-cases (str_eq c.name k)) [
    | inl e ↦ here ((eq_iff c.name k).0 e)
    | inr e ↦ there (nonempty→Has k cs (rw e at h))
  ]

  Has→nonempty :
      (k : String) {cs : List (SlotCandidate F)}
      → Has (λ (c : SlotCandidate F). c.name ≡ k) cs
      → is_empty (with_name k cs) ≡ false
  unfolding with_name
  Has→nonempty k (here {x = c} same) = rw ((eq_iff c.name k).1 same) refl
  Has→nonempty k (there {x = c} {xs = cs} h) = elim (Bool-cases (str_eq c.name k)) [
    | inl e ↦ rw e refl
    | inr e ↦ rw e (Has→nonempty k h)
  ]

  pub has_name_iff :
      (k : String) (cs : List (SlotCandidate F))
      → (is_empty (with_name k cs) ≡ false) ↔ Has (λ (c : SlotCandidate F). c.name ≡ k) cs
  has_name_iff k cs = (nonempty→Has k cs, Has→nonempty k)

  snoc-nonempty :
      (cs : List (SlotCandidate F)) (c : SlotCandidate F) → is_empty (cs ++ c ∷ []) ≡ false
  snoc-nonempty [] c = refl
  snoc-nonempty (d ∷ cs) c = refl

  -- A group has a first member.
  abbrev pub IsNonempty : String × List (SlotCandidate F) → Type 0
  IsNonempty (name, cs) = is_empty cs ≡ false

  append_group-IsNonempty :
      (c : SlotCandidate F) (groups : List (String × List (SlotCandidate F)))
      → All IsNonempty groups
      → All IsNonempty (append_group c groups)
  unfolding append_group
  append_group-IsNonempty c [] h = (refl, tt)
  append_group-IsNonempty c ((name, cs) ∷ groups) h = elim (Bool-cases (str_eq name c.name)) [
    | inl e ↦ rw e (snoc-nonempty cs c, h.1)
    | inr e ↦ rw e (h.0, append_group-IsNonempty c groups h.1)
  ]

  pub group_all-IsNonempty :
      (cs : List (SlotCandidate F)) (groups : List (String × List (SlotCandidate F)))
      → All IsNonempty groups
      → All IsNonempty (group_all cs groups)
  unfolding group_all
  group_all-IsNonempty [] groups h = h
  group_all-IsNonempty (c ∷ cs) groups h =
      group_all-IsNonempty cs (append_group c groups) (append_group-IsNonempty c groups h)

  -- The arguments that the groups give if no one of them is in conflict.
  unfoldable pub firsts : List (String × List (SlotCandidate F)) → Arguments F
  firsts [] = []
  firsts ((name, []) ∷ groups) = firsts groups
  firsts ((name, c ∷ cs) ∷ groups) = (name, c.value) ∷ firsts groups

  pub has_key-firsts :
      (k : String) (groups : List (String × List (SlotCandidate F)))
      → All IsNonempty groups
      → has_key k (firsts groups) ≡ not (is_empty (members k groups))
  unfolding firsts
  has_key-firsts k [] h = refl
  has_key-firsts k ((name, []) ∷ groups) h = cc
  has_key-firsts k ((name, c ∷ cs) ∷ groups) h = elim (Bool-cases (str_eq name k)) [
    | inl e ↦ rw e refl
    | inr e ↦ rw e (has_key-firsts k groups h.1)
  ]

  unfoldable pub accept_all : List (SlotCandidate F) → Adjudication F → Adjudication F
  accept_all [] a = a
  accept_all (c ∷ cs) a = accept_all cs (accept c a)

  pub accept_all_lem :
      (cs : List (SlotCandidate F)) (a : Adjudication F)
      → accept_all cs a ≡ record a { grouped = group_all cs a.grouped }
  unfolding accept_all group_all accept
  accept_all_lem [] a = refl
  accept_all_lem (c ∷ cs) a = accept_all_lem cs (accept c a)
