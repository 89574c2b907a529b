-- ===== src/Display/Top.antt =====
-- internal/readprojection/truncate.go: the instances that are shown are the first in display order.
use mathlib.Core.List.{Perm}
use compshare_agent.Prelude.{
  ℕ, zero, suc, ◌≤◌, ◌<◌, Bool, true, false, List, [], ◌∷◌, ◌++◌, ◌≡◌, ◌≢◌, ◌↔◌, refl, sym, ap, inl,
  inr, arith, Bool-cases, length, take, drop, leb,
}
use compshare_agent.Prelude.Sorting.{
  sort_by, Ordered, IsOrder, sort_by-perm, sort_by-Ordered, length-sort_by,
}
use compshare_agent.Entities.Snapshot.{InstanceSnapshot}
use compshare_agent.Display.{
  instance_display_less, sort_instances_for_display, effective_limit, Shown,
  truncate_instances_for_display,
}
use compshare_agent.Display.Order.{instance_display_less-IsOrder}

-- What is shown of a list, and what is left out: in order, none left out before one that is shown,
-- and as many shown as the limit allows.
pub record IsTop {ℓ} {A : Type ℓ} (less : A → A → Bool) (limit : ℕ) (out all : List A)
    : Type ℓ where
  pub omitted : List A
  pub perm : Perm (out ++ omitted) all
  pub ordered : Ordered less (out ++ omitted)
  pub within : length out ≤ limit
  pub full : omitted ≢ [] → length out ≡ limit

module _ {ℓ} {A : Type ℓ} where
  take-drop : (n : ℕ) (xs : List A) → take n xs ++ drop n xs ≡ xs
  take-drop zero xs = refl
  take-drop (suc n) [] = refl
  take-drop (suc n) (x ∷ xs) = ap (λ ys. x ∷ ys) (take-drop n xs)

  length-take-le : (n : ℕ) (xs : List A) → length (take n xs) ≤ n
  length-take-le zero xs = omega arith
  length-take-le (suc n) [] = omega arith
  length-take-le (suc n) (x ∷ xs) = (let rest = length-take-le n xs in omega arith)

  length-take-full : (n : ℕ) (xs : List A) → drop n xs ≢ [] → length (take n xs) ≡ n
  length-take-full zero xs h = refl
  length-take-full (suc n) [] h = absurd (h refl)
  length-take-full (suc n) (x ∷ xs) h = ap suc (length-take-full n xs h)

  take-all : (n : ℕ) (xs : List A) → length xs ≤ n → take n xs ≡ xs
  take-all zero [] h = refl
  take-all zero (x ∷ xs) h = absurd (omega arith)
  take-all (suc n) [] h = refl
  take-all (suc n) (x ∷ xs) h = ap (λ ys. x ∷ ys) (take-all n xs (omega arith))

  length-take : (n : ℕ) (xs : List A) → n ≤ length xs → length (take n xs) ≡ n
  length-take zero xs h = refl
  length-take (suc n) [] h = absurd (omega arith)
  length-take (suc n) (x ∷ xs) h = ap suc (length-take n xs (omega arith))

  pub take-IsTop :
      {less : A → A → Bool} (o : IsOrder less) (n : ℕ) (xs : List A)
      → IsTop less n (take n (sort_by less xs)) xs
  take-IsTop {less} o n xs =
      let sorted = sort_by less xs in
      record {
        omitted = drop n sorted;
        perm = rw (take-drop n sorted) (sort_by-perm less xs);
        ordered = rw (take-drop n sorted) (sort_by-Ordered o xs);
        within = length-take-le n sorted;
        full = length-take-full n sorted;
      }

-- The result is the top of the instances, and says how many are shown and whether some are left out.
pub record IsShown (limit : ℕ) (instances : List InstanceSnapshot) (s : Shown) : Type 0 where
  pub top : IsTop instance_display_less limit s.out instances
  pub counted : s.shown ≡ length s.out
  pub told : (s.truncated ≡ true) ↔ (s.shown < length instances)

pub at_most : (m n : ℕ) → leb m n ≡ true → m ≤ n
at_most m n h = ground (arith, h)

pub above : (m n : ℕ) → leb m n ≡ false → n < m
above m n h = ground (arith, h)

-- TruncateInstancesForDisplay gives the first instances in display order, as many as the limit allows
-- (50 if it is not positive), says how many they are, and says that the list is truncated exactly
-- when there are more.
pub truncate-IsShown :
    (instances : List InstanceSnapshot) (limit : ℕ)
    → IsShown (effective_limit limit) instances (truncate_instances_for_display instances limit)
unfolding truncate_instances_for_display sort_instances_for_display
truncate-IsShown instances limit =
    let kept = effective_limit limit in
    let sorted = sort_by instance_display_less instances in
    let top = take-IsTop instance_display_less-IsOrder kept instances in
    let size = length-sort_by instance_display_less instances in
    elim (Bool-cases (leb (length sorted) kept)) [
      | inl e ↦ rw e (record {
        top = (rw (take-all kept sorted (at_most _ _ e)) at top);
        counted = refl;
        told = (λ h. cc, λ h. absurd (omega (arith, h, size)));
      })
      | inr e ↦
          (let more = above (length sorted) kept e in
            rw e (record {
              top = top;
              counted = sym (length-take kept sorted (omega (arith, more)));
              told = (λ h. omega (arith, more, size), λ h. refl);
            }))
    ]
