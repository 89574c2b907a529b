-- ===== src/AgentPool/Leases.antt =====
-- A leased engine stays in the pool, and is the only one of its session.

use compshare_agent.Prelude.{
  ℕ, zero, suc, ◌+◌, ◌-◌, ◌<◌, none, some, List, [], ◌∷◌, ◌≡◌, ap, arith, length, ltb, inl, inr,
  Bool-cases, Option-cases,
}
use compshare_agent.AgentPool.{
  EntryKey, Pool, find_item, evict, last_idle, evict_one_idle_lru_locked, shrink, cache_hit,
  insert_built, take_lease, give_back, release, reverse_onto, evict_idle, Step, hits, inserts,
  releases, collects, after_hit, step, steps, new_with_deps,
}
use compshare_agent.AgentPool.Entries.{IsSound, count, find_item-delete_item}
use compshare_agent.AgentPool.Evictions.{shrink-IsSound, evict_idle_from-IsSound}
use compshare_agent.AgentPool.Leasing.{use_entry-IsSound, add_entry-IsSound, give_back-IsSound}

release-IsSound : (n now : ℕ) (p : Pool) → IsSound p → IsSound (release n now p)
unfolding release
release-IsSound n now p sound = elim (Option-cases (take_lease n p.leased)) [
  | inl e ↦ rw (e, release) sound
  | inr ((a, rest), e) ↦
      (let back = give_back a now (record p { leased = rest }) in
        rw (e, release)
          (shrink-IsSound (length back.items) back.capacity back
            (give_back-IsSound p a n now rest sound e)))
]

find_item-listed :
    (p : Pool) (k : EntryKey) (a : ℕ)
    → IsSound p
    → find_item k p.items ≡ some a
    → 0 < count a p.lru_list
find_item-listed p k a sound e = omega (arith, (sound.in_list k a e).1)

cache_hit-IsSound :
    (k : EntryKey) (now : ℕ) (p : Pool) → IsSound p → IsSound (after_hit p (cache_hit k now p))
unfolding cache_hit after_hit
cache_hit-IsSound k now p sound = elim (Option-cases (find_item k p.items)) [
  | inl e ↦ rw (e, after_hit) sound
  | inr (a, e) ↦
      rw (e, after_hit) (use_entry-IsSound p a now sound (find_item-listed p k a sound e))
]

-- Making room brings no key into the map.
shrink-find_item :
    (fuel limit : ℕ) (p : Pool) (k : EntryKey)
    → find_item k p.items ≡ none
    → find_item k (shrink fuel limit p).items ≡ none
unfolding shrink evict_one_idle_lru_locked evict
shrink-find_item zero limit p k h = h
shrink-find_item (suc fuel) limit p k h = elim (Bool-cases (ltb limit (length p.items))) [
  | inr full ↦ rw (full, shrink) h
  | inl full ↦ elim (Option-cases (last_idle p.entries p.lru_list)) [
    | inl e ↦ rw (full, e, shrink) h
    | inr (a, e) ↦
        rw (full, e, shrink)
          (shrink-find_item fuel limit (evict a p) k
            (ground (arith, find_item-delete_item (p.entries a).key k p.items, h)))
  ]
]

insert_built-IsSound :
    (k : EntryKey) (eng now : ℕ) (p : Pool) → IsSound p → IsSound (insert_built k eng now p).0
unfolding insert_built
insert_built-IsSound k eng now p sound = elim (Option-cases (find_item k p.items)) [
  | inr (a, e) ↦
      rw (e, insert_built) (use_entry-IsSound p a now sound (find_item-listed p k a sound e))
  | inl e ↦
      rw (e, insert_built)
        (add_entry-IsSound k eng now (shrink (length p.items) (p.capacity - 1) p)
          (shrink-IsSound (length p.items) (p.capacity - 1) p sound)
          (shrink-find_item (length p.items) (p.capacity - 1) p k e))
]

count-reverse_onto :
    (x : ℕ) (l acc : List ℕ) → count x (reverse_onto l acc) ≡ count x l + count x acc
unfolding reverse_onto
count-reverse_onto x [] acc = omega arith
count-reverse_onto x (a ∷ l) acc = omega (arith, count-reverse_onto x l (a ∷ acc))

step-IsSound : (e : Step) (p : Pool) → IsSound p → IsSound (step e p)
unfolding step evict_idle
step-IsSound (hits k now) p sound = cache_hit-IsSound k now p sound
step-IsSound (inserts k eng now) p sound = insert_built-IsSound k eng now p sound
step-IsSound (releases n now) p sound = release-IsSound n now p sound
step-IsSound (collects now) p sound =
    evict_idle_from-IsSound (now - p.idle_ttl) (reverse_onto p.lru_list []) p
      (λ a. omega (arith, count-reverse_onto a p.lru_list [])) sound

pub new_with_deps-IsSound : (capacity idle_ttl : ℕ) → IsSound (new_with_deps capacity idle_ttl)
unfolding new_with_deps find_item
new_with_deps-IsSound capacity idle_ttl = record {
  in_list = λ k a h. ground (arith, h);
  in_map = λ a h. ground (arith, h);
  counted = λ a h. ground (arith, h);
  kept = λ a h. h;
  made = λ a h. ground (arith, h);
}

-- After any sequence of hits, insertions, releases and collections the map, the list and the
-- leases of a pool agree, if they did before.
pub steps-IsSound : (es : List Step) (p : Pool) → IsSound p → IsSound (steps es p)
unfolding steps
steps-IsSound [] p sound = sound
steps-IsSound (e ∷ es) p sound = steps-IsSound es (step e p) (step-IsSound e p sound)

-- In a sound pool, two leases of the same owner and session hold the same entry, which is the one
-- that the map has: no session is ever served by two engines at once.
pub leased-IsUnique :
    (p : Pool) (a b : ℕ)
    → IsSound p
    → 0 < count a p.leased
    → 0 < count b p.leased
    → (p.entries a).key ≡ (p.entries b).key
    → (a ≡ b) × (find_item (p.entries a).key p.items ≡ some a)
leased-IsUnique p a b sound ha hb same =
    let one = sound.in_map a (sound.kept a ha) in
    let two = sound.in_map b (sound.kept b hb) in
    (ground (arith, one, two, ap (λ (k : EntryKey). find_item k p.items) same), one)

-- Whatever the callers of a new pool did, two leases of the same owner and session that are held
-- at the same time hold the same entry, and it is the one that the map has for the session.
pub held-IsUnique :
    (capacity idle_ttl : ℕ) (es : List Step) (a b : ℕ)
    → let p = steps es (new_with_deps capacity idle_ttl) in
      0 < count a p.leased
      → 0 < count b p.leased
      → (p.entries a).key ≡ (p.entries b).key
      → (a ≡ b) × (find_item (p.entries a).key p.items ≡ some a)
held-IsUnique capacity idle_ttl es a b ha hb same =
    let p = steps es (new_with_deps capacity idle_ttl) in
    let sound =
      steps-IsSound es (new_with_deps capacity idle_ttl)
        (new_with_deps-IsSound capacity idle_ttl) in
    leased-IsUnique p a b sound ha hb same
