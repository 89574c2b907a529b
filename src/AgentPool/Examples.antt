-- ===== src/AgentPool/Examples.antt =====
-- Runs of the engine pool at concrete inputs.
use compshare_agent.Prelude.{ℕ, String, some, List, [], ◌∷◌, ◌≡◌, refl, arith}
use compshare_agent.AgentPool.{
  EntryKey, Pool, new_with_deps, key_eq, find_item, delete_item, remove_addr, move_to_front,
  set_entry, evict, last_idle, evict_one_idle_lru_locked, shrink, use_entry, cache_hit, add_entry,
  insert_built, take_lease, give_back, is_current, release, hits, inserts, releases, Step, step,
  steps, after_hit, or_default,
}
use compshare_agent.AgentPool.Entries.{IsSound}
use compshare_agent.AgentPool.Leases.{steps-IsSound, new_with_deps-IsSound, held-IsUnique}
use compshare_agent.AgentPool.Capacity.{IsWithin, shrink-IsWithin, release-IsWithin}

abbrev session : String → EntryKey
session id = record {
  owner = record { top_organization_id = 1; organization_id = 2 };
  session_id = id;
}

-- Two turns of one session and one of another, in a pool for one engine.
abbrev crowded : List Step
crowded =
    inserts (session "a") 10 1
    ∷ hits (session "a") 2
    ∷ inserts (session "b") 11 3
    ∷ releases 0 4
    ∷ []

abbrev after_crowd : Pool
after_crowd = steps crowded (new_with_deps 1 0)

crowd-IsSound : IsSound after_crowd
crowd-IsSound = steps-IsSound crowded (new_with_deps 1 0) (new_with_deps-IsSound 1 0)

-- The other session's engine went when its lease was given back, the leased one stayed.
one_left : after_crowd.lru_list ≡ 0 ∷ []
unfolding steps step cache_hit insert_built release shrink evict_one_idle_lru_locked evict last_idle
    use_entry add_entry take_lease find_item delete_item remove_addr move_to_front set_entry key_eq
    new_with_deps or_default after_hit give_back is_current
one_left = refl

steps-IsSound_example : IsSound (steps crowded (new_with_deps 1 0))
steps-IsSound_example = steps-IsSound crowded (new_with_deps 1 0) (new_with_deps-IsSound 1 0)

-- Two turns of one session at once.
abbrev shared : List Step
shared = inserts (session "a") 10 1 ∷ hits (session "a") 2 ∷ []

held-IsUnique_example :
    let p = steps shared (new_with_deps 1 0) in
    ◌≡◌ {A = ℕ} 0 0 × (find_item (p.entries 0).key p.items ≡ some 0)
unfolding steps step cache_hit insert_built shrink use_entry add_entry find_item delete_item
    remove_addr move_to_front set_entry key_eq new_with_deps or_default after_hit
held-IsUnique_example = held-IsUnique 1 0 shared 0 0 (omega arith) (omega arith) refl

-- Two sessions in a pool for one engine, none of them given back.
abbrev over_full : Pool
over_full = steps (inserts (session "a") 10 1 ∷ inserts (session "b") 11 2 ∷ []) (new_with_deps 1 0)

over_full-IsSound : IsSound over_full
over_full-IsSound = steps-IsSound _ (new_with_deps 1 0) (new_with_deps-IsSound 1 0)

shrink-IsWithin_example : IsWithin 1 (shrink 2 1 over_full)
unfolding steps step insert_built shrink evict_one_idle_lru_locked last_idle add_entry find_item
    delete_item set_entry key_eq new_with_deps or_default
shrink-IsWithin_example = shrink-IsWithin 2 1 over_full over_full-IsSound (omega arith)

release-IsWithin_example : IsWithin over_full.capacity (release 0 5 over_full)
unfolding steps step insert_built shrink evict_one_idle_lru_locked last_idle add_entry find_item
    delete_item set_entry key_eq new_with_deps or_default take_lease
release-IsWithin_example = release-IsWithin 0 5 over_full 1 (0 ∷ []) over_full-IsSound refl
