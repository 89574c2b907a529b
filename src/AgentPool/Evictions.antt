-- ===== src/AgentPool/Evictions.antt =====
-- What an eviction and a reordering keep of a sound pool.

use compshare_agent.Prelude.{
  ℕ, zero, suc, ◌≤◌, ◌<◌, some, List, [], ◌∷◌, ◌≡◌, sym, ap, ◌∙◌, arith, length, ltb, ◌==◌, inl,
  inr, Bool-cases, Option-cases,
}
use compshare_agent.AgentPool.{
  Entry, Pool, find_item, move_to_front, evict, last_idle, evict_one_idle_lru_locked, shrink,
  evict_idle_from,
}
use compshare_agent.AgentPool.Entries.{IsSound, count, count-remove_addr, evict-IsSound}

pub count-move_to_front :
    (x a : ℕ) (l : List ℕ) → 0 < count a l → count x (move_to_front a l) ≡ count x l
unfolding move_to_front
count-move_to_front x a l h = omega (arith, count-remove_addr x a l h)

pub last_idle-IsIdle :
    (entries : ℕ → Entry) (l : List ℕ) (a : ℕ)
    → last_idle entries l ≡ some a
    → (0 < count a l) × ((entries a).leases ≡ 0)
unfolding last_idle
last_idle-IsIdle entries [] a h = ground (arith, h)
last_idle-IsIdle entries (b ∷ bs) a h = elim (Option-cases (last_idle entries bs)) [
  | inl e ↦ ground (arith, h, e)
  | inr (c, e) ↦ ground (arith, h, e, last_idle-IsIdle entries bs c e)
]

-- A pool whose entries keep their keys and whose list is only reordered.
pub reordered :
    (p q : Pool)
    → IsSound p
    → q.items ≡ p.items
    → q.next ≡ p.next
    → ((x : ℕ) → count x q.lru_list ≡ count x p.lru_list)
    → ((x : ℕ) → (q.entries x).key ≡ (p.entries x).key)
    → ((x : ℕ) → x < q.next → (q.entries x).leases ≡ count x q.leased)
    → ((x : ℕ) → 0 < count x q.leased → 0 < count x q.lru_list)
    → IsSound q
reordered p q sound items next counts keys counted kept = record {
  in_list = λ k a h.
      let old = sound.in_list k a (ap (find_item k) (sym items) ∙ h) in
      (keys a ∙ old.0, counts a ∙ old.1);
  in_map = λ a h. rw (items, keys a) (sound.in_map a (omega (arith, counts a, h)));
  counted = counted;
  kept = kept;
  made = λ a h. rw next (sound.made a (omega (arith, counts a, h)));
}

-- An eviction takes an entry that is not leased.
pub shrink-IsSound : (fuel limit : ℕ) (p : Pool) → IsSound p → IsSound (shrink fuel limit p)
unfolding shrink evict_one_idle_lru_locked
shrink-IsSound zero limit p sound = sound
shrink-IsSound (suc fuel) limit p sound = elim (Bool-cases (ltb limit (length p.items))) [
  | inr full ↦ rw (full, shrink) sound
  | inl full ↦ elim (Option-cases (last_idle p.entries p.lru_list)) [
    | inl e ↦ rw (full, e, shrink) sound
    | inr (a, e) ↦
        (let idle = last_idle-IsIdle p.entries p.lru_list a e in
          rw (full, e, shrink)
            (shrink-IsSound fuel limit (evict a p) (evict-IsSound p a sound idle.0 idle.1)))
  ]
]

pub evict_idle_from-IsSound :
    (deadline : ℕ) (l : List ℕ) (p : Pool)
    → ((a : ℕ) → count a l ≤ count a p.lru_list)
    → IsSound p
    → IsSound (evict_idle_from deadline l p)
unfolding evict_idle_from evict
evict_idle_from-IsSound deadline [] p inside sound = sound
evict_idle_from-IsSound deadline (a ∷ rest) p inside sound =
    elim (Bool-cases (ltb deadline (p.entries a).last_touched)) [
      | inl recent ↦ rw (recent, evict_idle_from) sound
      | inr old ↦ elim (Bool-cases ((p.entries a).leases == 0)) [
        | inl idle ↦
            rw (old, idle, evict_idle_from)
              (evict_idle_from-IsSound deadline rest (evict a p)
                (λ x.
                  ground
                    (arith, inside x, count-remove_addr x a p.lru_list (ground (arith, inside a))))
                (evict-IsSound p a sound (ground (arith, inside a)) (ground (arith, idle))))
        | inr busy ↦
            rw (old, busy, evict_idle_from)
              (evict_idle_from-IsSound deadline rest p (λ x. ground (arith, inside x)) sound)
      ]
    ]
