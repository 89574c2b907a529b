-- ===== src/AgentPool/Leasing.antt =====
-- Taking a lease, adding an entry and giving a lease back keep a pool sound.
use mathlib.Core.Path.{subst}
use compshare_agent.Prelude.{
  ℕ, ◌+◌, ◌-◌, ◌<◌, true, false, none, some, List, ◌∷◌, ◌≡◌, refl, sym, ap, arith, ◌==◌,
  if◌then◌else◌, inl, inr, Bool-cases,
}
use compshare_agent.AgentPool.{
  EntryKey, Entry, Pool, key_eq, find_item, delete_item, set_entry, use_entry, add_entry,
  take_lease, is_current, give_back,
}
use compshare_agent.AgentPool.Entries.{
  IsSound, count, count-take_lease, find_item-delete_item, find_item-deleted, key_eq→eq,
  key_eq_refl,
}
use compshare_agent.AgentPool.Evictions.{count-move_to_front, reordered}

set_entry-key :
    (a x : ℕ) (e : Entry) (entries : ℕ → Entry)
    → e.key ≡ (entries a).key
    → (set_entry a e entries x).key ≡ (entries x).key
unfolding set_entry
set_entry-key a x e entries h = elim (Bool-cases (a == x)) [
  | inr other ↦ rw other refl
  | inl own ↦ rw own (rw (the_same own) h)
]
  where
    the_same : (a == x) ≡ true → x ≡ a
    the_same own = ground (arith, own)

set_entry-leases :
    (a x n m : ℕ) (e : Entry) (entries : ℕ → Entry)
    → e.leases ≡ n
    → ((x == a) ≡ false → (entries x).leases ≡ m)
    → (set_entry a e entries x).leases ≡ (if x == a then n else m)
unfolding set_entry
set_entry-leases a x n m e entries h k = elim (Bool-cases (a == x)) [
  | inr other ↦
      (let not_same : (x == a) ≡ false = ground (arith, other) in rw (other, not_same) (k not_same))
  | inl own ↦ (let same : (x == a) ≡ true = ground (arith, own) in rw (own, same) h)
]

pub use_entry-IsSound :
    (p : Pool) (a now : ℕ) → IsSound p → 0 < count a p.lru_list → IsSound (use_entry a now p)
unfolding use_entry
use_entry-IsSound p a now sound ha =
    let e = p.entries a in
    reordered p (use_entry a now p) sound refl refl (λ x. count-move_to_front x a p.lru_list ha)
      (λ x.
        set_entry-key a x (record e { leases = e.leases + 1; last_touched = now }) p.entries refl)
      (λ x hx. ground (
        arith,
        set_entry-leases a x (count a p.leased + 1) (count x p.leased)
            (record e { leases = e.leases + 1; last_touched = now }) p.entries
            (ground (arith, sound.counted a (sound.made a ha))) (λ n. sound.counted x hx),
      ))
      (λ x hx. rw (count-move_to_front x a p.lru_list ha) (elim (Bool-cases (x == a)) [
        | inl own ↦ (let same : x ≡ a = ground (arith, own) in rw same ha)
        | inr other ↦ sound.kept x (ground (arith, hx, other))
      ]))

-- The address of the next entry is not in use.
next-IsFresh : (p : Pool) → IsSound p → (count p.next p.lru_list ≡ 0) × (count p.next p.leased ≡ 0)
next-IsFresh p sound = ground (arith, sound.made p.next, sound.kept p.next)

find_item-next :
    (p : Pool) (k : EntryKey) (a : ℕ) → IsSound p → find_item k p.items ≡ some a → a < p.next
find_item-next p k a sound h = sound.made a (omega (arith, (sound.in_list k a h).1))

set_entry-other :
    (a x : ℕ) (e : Entry) (entries : ℕ → Entry)
    → (a == x) ≡ false
    → set_entry a e entries x ≡ entries x
unfolding set_entry
set_entry-other a x e entries h = rw h refl

set_entry-same : (a : ℕ) (e : Entry) (entries : ℕ → Entry) → set_entry a e entries a ≡ e
unfolding set_entry
set_entry-same a e entries = ground arith

pub add_entry-IsSound :
    (k : EntryKey) (eng now : ℕ) (p : Pool)
    → IsSound p
    → find_item k p.items ≡ none
    → IsSound (add_entry k eng now p)
unfolding add_entry find_item
add_entry-IsSound k eng now p sound missing =
    let e : Entry = record { key = k; eng = eng; leases = 1; last_touched = now } in
    let fresh = next-IsFresh p sound in
    record {
      in_list = λ j a h. elim (Bool-cases (key_eq k j)) [
        | inl own ↦
            (let same : a ≡ p.next = ground (arith, h, own) in
              rw (same, set_entry-same p.next e p.entries)
                (key_eq→eq k j own, ground (arith, fresh.0)))
        | inr other ↦
            (let found = (find_item-deleted k j a p.items (ground (arith, h, other))).0 in
              let old = sound.in_list j a found in
              let apart : (p.next == a) ≡ false =
                ground (arith, find_item-next p j a sound found) in
              rw (set_entry-other p.next a e p.entries apart) (old.0, ground (arith, old.1, apart)))
      ];
      in_map = λ a h. elim (Bool-cases (p.next == a)) [
        | inl own ↦
            (let same : a ≡ p.next = ground (arith, own) in
              rw (same, set_entry-same p.next e p.entries, key_eq_refl k) refl)
        | inr other ↦
            subst (λ (y : Entry). find_item y.key ((k, p.next) ∷ delete_item k p.items) ≡ some a)
              (sym (set_entry-other p.next a e p.entries other))
              (listed_key a (ground (arith, h, other)))
      ];
      counted = λ a h. elim (Bool-cases (p.next == a)) [
        | inl own ↦
            (let same : a ≡ p.next = ground (arith, own) in
              rw (same, set_entry-same p.next e p.entries) (ground (arith, fresh.1)))
        | inr other ↦
            rw (set_entry-other p.next a e p.entries other)
              (ground (arith, sound.counted a (ground (arith, h, other)), other))
      ];
      kept = λ a h. ground (arith, h, sound.kept a);
      made = λ a h. ground (arith, h, sound.made a);
    }
  where
    listed_key :
        (a : ℕ)
        → 0 < count a p.lru_list
        → (if key_eq k (p.entries a).key
            then some p.next
            else find_item (p.entries a).key (delete_item k p.items))
          ≡ some a
    listed_key a h = elim (Bool-cases (key_eq k (p.entries a).key)) [
      | inl e ↦
          (let same = ap (λ (j : EntryKey). find_item j p.items) (key_eq→eq k _ e) in
            ground (arith, missing, same, sound.in_map a h))
      | inr e ↦ rw e (rw (find_item-delete_item k (p.entries a).key p.items, e) (sound.in_map a h))
    ]

pub give_back-IsSound :
    (p : Pool) (a n now : ℕ) (rest : List ℕ)
    → IsSound p
    → take_lease n p.leased ≡ some (a, rest)
    → IsSound (give_back a now (record p { leased = rest }))
unfolding give_back is_current
give_back-IsSound p a n now rest sound taken =
    let e = p.entries a in
    let counts = λ (x : ℕ). count-take_lease x n p.leased a rest taken in
    let ha = sound.kept a (ground (arith, counts a)) in
    let current : (elim (find_item e.key p.items) [ none ↦ false | some b ↦ a == b ]) ≡ true =
      rw (sound.in_map a ha) (ground arith) in
    reordered p (give_back a now (record p { leased = rest })) sound refl refl
      (λ x. rw current (count-move_to_front x a p.lru_list ha))
      (λ x.
        set_entry-key a x (record e { leases = e.leases - 1; last_touched = now }) p.entries refl)
      (λ x hx. ground (
        arith,
        counts x,
        set_entry-leases a x (count a p.leased - 1) (count x p.leased)
            (record e { leases = e.leases - 1; last_touched = now }) p.entries
            (ground (arith, sound.counted a (sound.made a ha))) (λ m. sound.counted x hx),
      ))
      (λ x hx.
        rw current
          (rw (count-move_to_front x a p.lru_list ha) (sound.kept x (omega (arith, hx, counts x)))))
