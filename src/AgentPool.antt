-- ===== src/AgentPool.antt =====
-- internal/agentpool/pool.go: the cache of engines, one for each owner and session. An entry is an
-- address into a store, since the LRU list, the map and the release function of a lease share it.
-- `leased` holds the release functions that were not called yet. The pool's mutex makes each
-- function below one step; getOrCreate is two steps, since it builds an engine outside the lock.
-- The entry's own mutex, which serializes the turns of a session, and the engine are left out: an
-- engine is known by its number.
pub mod Entries
pub mod Evictions
pub mod Leasing
pub mod Leases
pub mod Capacity
mod Examples
use compshare_agent.Prelude.{
  ℕ, zero, suc, ◌+◌, ◌-◌, String, Bool, true, false, ◌&&◌, not, Option, none, some, List, [], ◌∷◌,
  ◌++◌, length, ltb, leb, ◌==◌, if◌then◌else◌, str_eq,
}
use compshare_agent.Broker.{Owner, owner_eq}

pub record EntryKey : Type 0 where
  pub owner : Owner
  pub session_id : String

pub record Entry : Type 0 where
  pub key : EntryKey
  pub eng : ℕ
  pub leases : ℕ
  pub last_touched : ℕ

-- `lru_list` has the most recently used entry first.
pub record Pool : Type 0 where
  pub capacity : ℕ
  pub idle_ttl : ℕ
  pub lru_list : List ℕ
  pub items : List (EntryKey × ℕ)
  pub entries : ℕ → Entry
  pub next : ℕ
  pub leased : List ℕ

pub key_eq : EntryKey → EntryKey → Bool
key_eq a b = owner_eq a.owner b.owner && str_eq a.session_id b.session_id

pub find_item : EntryKey → List (EntryKey × ℕ) → Option ℕ
find_item k [] = none
find_item k ((j, a) ∷ items) = if key_eq j k then some a else find_item k items

pub delete_item : EntryKey → List (EntryKey × ℕ) → List (EntryKey × ℕ)
delete_item k [] = []
delete_item k ((j, a) ∷ items) =
    if key_eq j k then delete_item k items else (j, a) ∷ delete_item k items

-- list.Remove.
pub remove_addr : ℕ → List ℕ → List ℕ
remove_addr a [] = []
remove_addr a (b ∷ bs) = if a == b then bs else b ∷ remove_addr a bs

-- list.MoveToFront.
pub move_to_front : ℕ → List ℕ → List ℕ
move_to_front a l = a ∷ remove_addr a l

pub set_entry : ℕ → Entry → (ℕ → Entry) → ℕ → Entry
set_entry a e entries b = if a == b then e else entries b

abbrev pub blank_entry : Entry
blank_entry = record {
  key = record { owner = record { top_organization_id = 0; organization_id = 0 }; session_id = "" };
  eng = 0;
  leases = 0;
  last_touched = 0;
}

pub or_default : ℕ → ℕ → ℕ
or_default n d = if n == 0 then d else n

-- NewWithDeps, with 200 entries and 30 minutes where the options give none.
pub new_with_deps : ℕ → ℕ → Pool
new_with_deps capacity idle_ttl = record {
  capacity = or_default capacity 200;
  idle_ttl = or_default idle_ttl 1_800_000_000_000;
  lru_list = [];
  items = [];
  entries = λ a. blank_entry;
  next = 0;
  leased = [];
}

-- `p.lruList.Remove(el); delete(p.items, e.key)`.
pub evict : ℕ → Pool → Pool
evict a p = record p {
  lru_list = remove_addr a p.lru_list;
  items = delete_item (p.entries a).key p.items;
}

-- The last address, from the front, of an entry that is not leased.
pub last_idle : (ℕ → Entry) → List ℕ → Option ℕ
last_idle entries [] = none
last_idle entries (a ∷ rest) =
    let behind = last_idle entries rest in
    elim behind [ some b ↦ some b | none ↦ if (entries a).leases == 0 then some a else none ]

-- evictOneIdleLRULocked; none where it returns false.
pub evict_one_idle_lru_locked : Pool → Option Pool
evict_one_idle_lru_locked p = elim (last_idle p.entries p.lru_list) [
  | none ↦ none
  | some a ↦ some (evict a p)
]

-- `for len(p.items) > limit && p.evictOneIdleLRULocked() {}`, on fuel.
pub shrink : ℕ → ℕ → Pool → Pool
shrink zero limit p = p
shrink (suc fuel) limit p =
    let next_pool : Pool = elim (evict_one_idle_lru_locked p) [
      | none ↦ p
      | some q ↦ shrink fuel limit q
    ] in
    if ltb limit (length p.items) then next_pool else p

-- A lease of the entry at `a`.
pub use_entry : ℕ → ℕ → Pool → Pool
use_entry a now p =
    let e = p.entries a in
    record p {
      entries = set_entry a (record e { leases = e.leases + 1; last_touched = now }) p.entries;
      lru_list = move_to_front a p.lru_list;
      leased = a ∷ p.leased;
    }

-- The fast path of getOrCreate; none on a miss.
pub cache_hit : EntryKey → ℕ → Pool → Option (Pool × ℕ)
cache_hit k now p = elim (find_item k p.items) [
  | none ↦ none
  | some a ↦ some (use_entry a now p, a)
]

pub add_entry : EntryKey → ℕ → ℕ → Pool → Pool
add_entry k eng now p = record p {
  entries =
      set_entry p.next (record { key = k; eng = eng; leases = 1; last_touched = now }) p.entries;
  lru_list = p.next ∷ p.lru_list;
  items = (k, p.next) ∷ delete_item k p.items;
  next = p.next + 1;
  leased = p.next ∷ p.leased;
}

-- What getOrCreate does once it has built the engine `eng`. Where the source shrinks while there
-- are `capacity` entries or more, the limit here is one less (the capacity is positive).
pub insert_built : EntryKey → ℕ → ℕ → Pool → Pool × ℕ
insert_built k eng now p = elim (find_item k p.items) [
  | some a ↦ (use_entry a now p, a)
  | none ↦ let q = shrink (length p.items) (p.capacity - 1) p in (add_entry k eng now q, q.next)
]

-- A lease that was passed over.
pub keep_lease : ℕ → Option (ℕ × List ℕ) → Option (ℕ × List ℕ)
keep_lease b none = none
keep_lease b (some (a, rest)) = some (a, b ∷ rest)

-- The `n`-th of the leases that are held, and the others.
pub take_lease : ℕ → List ℕ → Option (ℕ × List ℕ)
take_lease n [] = none
take_lease zero (a ∷ rest) = some (a, rest)
take_lease (suc n) (b ∷ rest) = keep_lease b (take_lease n rest)

-- The entry is the one that the map has for its key.
pub is_current : ℕ → Pool → Bool
is_current a p = elim (find_item (p.entries a).key p.items) [ none ↦ false | some b ↦ a == b ]

-- The release function of a lease of `a`, before it shrinks the pool.
pub give_back : ℕ → ℕ → Pool → Pool
give_back a now p =
    let e = p.entries a in
    record p {
      entries = set_entry a (record e { leases = e.leases - 1; last_touched = now }) p.entries;
      lru_list = if is_current a p then move_to_front a p.lru_list else p.lru_list;
    }

-- The call of the `n`-th release function.
pub release : ℕ → ℕ → Pool → Pool
release n now p = elim (take_lease n p.leased) [
  | none ↦ p
  | some (a, rest) ↦
      let q = give_back a now (record p { leased = rest }) in shrink (length q.items) q.capacity q
]

pub reverse_onto : List ℕ → List ℕ → List ℕ
reverse_onto [] acc = acc
reverse_onto (a ∷ l) acc = reverse_onto l (a ∷ acc)

-- The loop of evictIdle, on the entries from the back of the list.
pub evict_idle_from : ℕ → List ℕ → Pool → Pool
evict_idle_from deadline [] p = p
evict_idle_from deadline (a ∷ rest) p =
    let swept =
      evict_idle_from deadline rest (if (p.entries a).leases == 0 then evict a p else p) in
    if ltb deadline (p.entries a).last_touched then p else swept

pub evict_idle : ℕ → Pool → Pool
evict_idle now p = evict_idle_from (now - p.idle_ttl) (reverse_onto p.lru_list []) p

-- What can happen to a pool, in any interleaving of its callers. A lease is a hit, or the engine
-- that was built after a miss.
pub data Step : Type 0 where
  hits : EntryKey → ℕ → Step
  inserts : EntryKey → ℕ → ℕ → Step
  releases : ℕ → ℕ → Step
  collects : ℕ → Step

pub after_hit : Pool → Option (Pool × ℕ) → Pool
after_hit p none = p
after_hit p (some (q, a)) = q

pub step : Step → Pool → Pool
step (hits k now) p = after_hit p (cache_hit k now p)
step (inserts k eng now) p = (insert_built k eng now p).0
step (releases n now) p = release n now p
step (collects now) p = evict_idle now p

pub steps : List Step → Pool → Pool
steps [] p = p
steps (e ∷ es) p = steps es (step e p)
