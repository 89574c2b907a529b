-- ===== src/Prelude/Sorting.antt =====
-- `sort.SliceStable` by a comparison, as an insertion sort; `sort.Slice` leaves the order of equals
-- open, and is given the same one. Texts are compared by code points, which is Go's order of their
-- UTF-8 bytes.
use Prim.Native.Nat.{suc}
use Prim.Native.String.{String, compare}
use text.Mathlib.Text.{is_lt}
use mathlib.Core.Path.{◌≡◌, refl, ap, ◌∙◌}
use mathlib.Core.Logic.{◌↔◌, ◌≢◌, inl, inr}
use mathlib.Core.Bool.{Bool, true, false}
use mathlib.Core.List.{List, [], ◌∷◌, map, Perm}
use mathlib.Core.List.Perm
use compshare_agent.Prelude.Tests.{if◌then◌else◌, Bool-cases}
use compshare_agent.Prelude.Lists.{All, All-map, length}

abbrev pub str_less : String → String → Bool
str_less s t = is_lt (compare s t)

module _ {ℓ} {A : Type ℓ} (less : A → A → Bool) where
  pub insert_by : A → List A → List A
  insert_by x [] = x ∷ []
  insert_by x (y ∷ ys) = if less y x then y ∷ insert_by x ys else x ∷ y ∷ ys

  unfoldable pub sort_by : List A → List A
  unfolding insert_by
  sort_by [] = []
  sort_by (x ∷ xs) = insert_by x (sort_by xs)

  insert_by-perm : (x : A) (ys : List A) → Perm (insert_by x ys) (x ∷ ys)
  unfolding insert_by
  insert_by-perm x [] = Perm.rfl
  insert_by-perm x (y ∷ ys) = elim (Bool-cases (less y x)) [
    | inl e ↦ rw e (Perm.trans (Perm.cons y (insert_by-perm x ys)) (Perm.swap x y ys))
    | inr e ↦ rw e Perm.rfl
  ]

  pub sort_by-perm : (xs : List A) → Perm (sort_by xs) xs
  unfolding sort_by
  sort_by-perm [] = Perm.rfl
  sort_by-perm (x ∷ xs) = Perm.trans (insert_by-perm x (sort_by xs)) (Perm.cons x (sort_by-perm xs))

  insert_by-ne-nil : (x : A) (ys : List A) → insert_by x ys ≢ []
  unfolding insert_by
  insert_by-ne-nil x [] h = cc
  insert_by-ne-nil x (y ∷ ys) h = elim (Bool-cases (less y x)) [
    | inl e ↦ (let bad = (rw e at h) in cc)
    | inr e ↦ (let bad = (rw e at h) in cc)
  ]

  pub sort_by-nil_iff : (xs : List A) → (sort_by xs ≡ []) ↔ (xs ≡ [])
  unfolding sort_by
  sort_by-nil_iff [] = (λ h. refl, λ h. refl)
  sort_by-nil_iff (x ∷ xs) = (λ h. absurd (insert_by-ne-nil x (sort_by xs) h), λ h. cc)

module _ {ℓ κ} {A : Type ℓ} (less : A → A → Bool) (P : A → Type κ) where
  insert_by-All : (x : A) (ys : List A) → P x → All P ys → All P (insert_by less x ys)
  unfolding insert_by
  insert_by-All x [] p ps = (p, ps)
  insert_by-All x (y ∷ ys) p ps = elim (Bool-cases (less y x)) [
    | inl e ↦ rw e (ps.0, insert_by-All x ys p ps.1)
    | inr e ↦ rw e (p, ps)
  ]

  pub sort_by-All : (xs : List A) → All P xs → All P (sort_by less xs)
  unfolding sort_by
  sort_by-All [] ps = ps
  sort_by-All (x ∷ xs) ps = insert_by-All x (sort_by less xs) ps.0 (sort_by-All xs ps.1)

  All-insert_by : (x : A) (ys : List A) → All P (insert_by less x ys) → P x × All P ys
  unfolding insert_by
  All-insert_by x [] ps = ps
  All-insert_by x (y ∷ ys) ps = elim (Bool-cases (less y x)) [
    | inl e ↦
        (let (p, qs) = (rw e at ps) in let (q, rest) = All-insert_by x ys qs in (q, (p, rest)))
    | inr e ↦ rw e at ps
  ]

  pub All-sort_by : (xs : List A) → All P (sort_by less xs) → All P xs
  unfolding sort_by
  All-sort_by [] ps = ps
  All-sort_by (x ∷ xs) ps =
      let (p, rest) = All-insert_by x (sort_by less xs) ps in (p, All-sort_by xs rest)

-- No later element is less than an earlier one.
module _ {ℓ} {A : Type ℓ} (less : A → A → Bool) where
  abbrev pub Ordered : List A → Type ℓ
  Ordered [] = Unit
  Ordered (x ∷ xs) = All (λ y. less y x ≡ false) xs × Ordered xs

-- What `sort` asks of its comparison.
pub record IsOrder {ℓ} {A : Type ℓ} (less : A → A → Bool) : Type ℓ where
  pub asym : (x y : A) → less x y ≡ true → less y x ≡ false
  pub trans : (x y z : A) → less y x ≡ false → less z y ≡ false → less z x ≡ false

module _ {ℓ} {A : Type ℓ} {less : A → A → Bool} (o : IsOrder less) where
  insert_by-Ordered : (x : A) (ys : List A) → Ordered less ys → Ordered less (insert_by less x ys)
  unfolding insert_by
  insert_by-Ordered x [] h = (tt, tt)
  insert_by-Ordered x (y ∷ ys) h = elim (Bool-cases (less y x)) [
    | inl e ↦ rw e (
      insert_by-All less (λ z. less z y ≡ false) x ys (o.asym y x e) h.0,
      insert_by-Ordered x ys h.1,
    )
    | inr e ↦ rw e (
      (e, All-map (λ z. less z y ≡ false) (λ z. less z x ≡ false) (λ z. o.trans x y z e) ys h.0),
      h,
    )
  ]

  pub sort_by-Ordered : (xs : List A) → Ordered less (sort_by less xs)
  unfolding sort_by
  sort_by-Ordered [] = tt
  sort_by-Ordered (x ∷ xs) = insert_by-Ordered x (sort_by less xs) (sort_by-Ordered xs)

-- To sort by a key and take the keys is to sort the keys.
module _ {ℓ κ} {A : Type ℓ} {B : Type κ} (f : A → B) (less : B → B → Bool) where
  map-insert_by :
      (x : A) (ys : List A)
      → map f (insert_by (λ a b. less (f a) (f b)) x ys) ≡ insert_by less (f x) (map f ys)
  unfolding insert_by
  map-insert_by x [] = refl
  map-insert_by x (y ∷ ys) = elim (Bool-cases (less (f y) (f x))) [
    | inl e ↦ rw e (ap (λ zs. f y ∷ zs) (map-insert_by x ys))
    | inr e ↦ rw e refl
  ]

  pub map-sort_by :
      (xs : List A) → map f (sort_by (λ a b. less (f a) (f b)) xs) ≡ sort_by less (map f xs)
  unfolding sort_by
  map-sort_by [] = refl
  map-sort_by (x ∷ xs) =
      map-insert_by x (sort_by (λ a b. less (f a) (f b)) xs)
      ∙ ap (insert_by less (f x)) (map-sort_by xs)

module _ {ℓ} {A : Type ℓ} (less : A → A → Bool) where
  length-insert_by : (x : A) (ys : List A) → length (insert_by less x ys) ≡ suc (length ys)
  unfolding insert_by
  length-insert_by x [] = refl
  length-insert_by x (y ∷ ys) = elim (Bool-cases (less y x)) [
    | inl e ↦ rw e (ap suc (length-insert_by x ys))
    | inr e ↦ rw e refl
  ]

  pub length-sort_by : (xs : List A) → length (sort_by less xs) ≡ length xs
  unfolding sort_by
  length-sort_by [] = refl
  length-sort_by (x ∷ xs) = length-insert_by x (sort_by less xs) ∙ ap suc (length-sort_by xs)
