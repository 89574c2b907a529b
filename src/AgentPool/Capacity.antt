-- ===== src/AgentPool/Capacity.antt =====
-- The soft limit of a pool: the loops that evict end, and stop above the limit only when every
-- entry is leased.
use compshare_agent.Prelude.{
  ℕ, zero, suc, ◌≤◌, ◌<◌, none, some, List, [], ◌∷◌, ◌≡◌, arith, length, ltb, ◌==◌, inl, inr, ◌⊎◌,
  Bool-cases, Option-cases,
}
use compshare_agent.AgentPool.{
  EntryKey, Entry, Pool, key_eq, find_item, delete_item, evict, last_idle,
  evict_one_idle_lru_locked, shrink, take_lease, give_back, release,
}
use compshare_agent.AgentPool.Entries.{IsSound, count, evict-IsSound}
use compshare_agent.AgentPool.Evictions.{last_idle-IsIdle}
use compshare_agent.AgentPool.Leasing.{give_back-IsSound}

length-delete_item :
    (k : EntryKey) (items : List (EntryKey × ℕ)) → length (delete_item k items) ≤ length items
unfolding delete_item
length-delete_item k [] = omega arith
length-delete_item k ((j, a) ∷ items) = ground (arith, length-delete_item k items)

length-delete_item_found :
    (k : EntryKey) (a : ℕ) (items : List (EntryKey × ℕ))
    → find_item k items ≡ some a
    → length (delete_item k items) < length items
unfolding delete_item find_item
length-delete_item_found k a [] h = ground (arith, h)
length-delete_item_found k a ((j, b) ∷ items) h = elim (Bool-cases (key_eq j k)) [
  | inl e ↦ rw (e, delete_item) (omega (arith, length-delete_item k items))
  | inr e ↦
      rw (e, delete_item) (omega (arith, length-delete_item_found k a items (ground (arith, h, e))))
]

last_idle-none :
    (entries : ℕ → Entry) (l : List ℕ) (a : ℕ)
    → last_idle entries l ≡ none
    → 0 < count a l
    → 0 < (entries a).leases
unfolding last_idle
last_idle-none entries [] a h k = ground (arith, k)
last_idle-none entries (b ∷ bs) a h k = elim (Option-cases (last_idle entries bs)) [
  | inr (c, e) ↦ ground (arith, h, e)
  | inl e ↦ elim (Bool-cases (a == b)) [
    | inl same ↦ (let is_b : a ≡ b = ground (arith, same) in rw is_b (ground (arith, h, e)))
    | inr other ↦ last_idle-none entries bs a e (ground (arith, k, other))
  ]
]

-- The pool is within the limit, or every entry that it has is leased.
abbrev pub IsWithin : ℕ → Pool → Type 0
IsWithin limit p =
    (length p.items ≤ limit) ⊎ ((a : ℕ) → 0 < count a p.lru_list → 0 < (p.entries a).leases)

-- The loop that evicts while a pool is above a limit ends within as many rounds as the pool has
-- entries, and then the pool is within the limit or every entry is leased.
pub shrink-IsWithin :
    (fuel limit : ℕ) (p : Pool)
    → IsSound p
    → length p.items ≤ fuel
    → IsWithin limit (shrink fuel limit p)
unfolding shrink evict_one_idle_lru_locked evict delete_item
shrink-IsWithin zero limit p sound enough = inl (omega (arith, enough))
shrink-IsWithin (suc fuel) limit p sound enough = elim (Bool-cases (ltb limit (length p.items))) [
  | inr full ↦ rw (full, shrink) (inl (ground (arith, full)))
  | inl full ↦ elim (Option-cases (last_idle p.entries p.lru_list)) [
    | inl e ↦ rw (full, e, shrink) (inr (λ a h. last_idle-none p.entries p.lru_list a e h))
    | inr (a, e) ↦
        (let idle = last_idle-IsIdle p.entries p.lru_list a e in
          rw (full, e, shrink)
            (shrink-IsWithin fuel limit (evict a p) (evict-IsSound p a sound idle.0 idle.1)
              (fewer a idle.0)))
  ]
]
  where
    fewer : (a : ℕ) → 0 < count a p.lru_list → length (delete_item (p.entries a).key p.items) ≤ fuel
    fewer a h =
        omega
          (arith, enough, length-delete_item_found (p.entries a).key a p.items (sound.in_map a h))

-- Giving back a lease of a sound pool leaves it within its capacity, or with leased entries only.
pub release-IsWithin :
    (n now : ℕ) (p : Pool) (a : ℕ) (rest : List ℕ)
    → IsSound p
    → take_lease n p.leased ≡ some (a, rest)
    → IsWithin p.capacity (release n now p)
unfolding release give_back
release-IsWithin n now p a rest sound e =
    let back = give_back a now (record p { leased = rest }) in
    rw (e, release)
      (shrink-IsWithin (length back.items) p.capacity back
        (give_back-IsSound p a n now rest sound e) (omega arith))
