-- ===== src/AgentPool/Entries.antt =====
-- The map, the LRU list and the leases of a pool agree, whatever its callers do: the list has the
-- entries of the map, each once, an entry has as many leases as were not given back, and an entry
-- that is leased is in the list.
use compshare_agent.Prelude.{
  ℕ, zero, suc, ◌+◌, ◌<◌, true, false, Option, none, some, List, [], ◌∷◌, ◌≡◌, refl, ap, ◌∙◌, arith,
  ◌==◌, if◌then◌else◌, eq_iff, inl, inr, Bool-cases,
}
use compshare_agent.Broker.Claims.{owner_eq→eq, owner_eq_refl}
use compshare_agent.AgentPool.{
  EntryKey, Pool, key_eq, find_item, delete_item, remove_addr, evict, keep_lease, take_lease,
}

pub key_eq→eq : (a b : EntryKey) → key_eq a b ≡ true → a ≡ b
unfolding key_eq
key_eq→eq a b h = ground (arith, owner_eq→eq a.owner b.owner, eq_iff a.session_id b.session_id)

pub key_eq_refl : (a : EntryKey) → key_eq a a ≡ true
unfolding key_eq
key_eq_refl a = ground (arith, owner_eq_refl a.owner, eq_iff a.session_id a.session_id)

-- How often an address occurs.
abbrev pub count : ℕ → List ℕ → ℕ
count a [] = 0
count a (b ∷ bs) = (if a == b then 1 else 0) + count a bs

pub count-remove_addr :
    (x a : ℕ) (l : List ℕ)
    → 0 < count a l
    → count x (remove_addr a l) + (if x == a then 1 else 0) ≡ count x l
unfolding remove_addr
count-remove_addr x a [] h = ground (arith, h)
count-remove_addr x a (b ∷ bs) h = elim (Bool-cases (a == b)) [
  | inl e ↦ rw e (ground arith)
  | inr e ↦ rw e (ground (arith, count-remove_addr x a bs))
]

pub count-take_lease :
    (x n : ℕ) (l : List ℕ) (a : ℕ) (rest : List ℕ)
    → take_lease n l ≡ some (a, rest)
    → count x rest + (if x == a then 1 else 0) ≡ count x l
unfolding take_lease keep_lease
count-take_lease x n [] a rest h = ground (arith, h)
count-take_lease x zero (b ∷ bs) a rest h = ground (arith, h)
count-take_lease x (suc n) (b ∷ bs) a rest h = go (take_lease n bs) refl (count-take_lease x n bs) h
  where
    go :
        (o : Option (ℕ × List ℕ))
        → take_lease n bs ≡ o
        → ((c : ℕ) (more : List ℕ)
            → take_lease n bs ≡ some (c, more)
            → count x more + (if x == c then 1 else 0) ≡ count x bs)
        → keep_lease b o ≡ some (a, rest)
        → count x rest + (if x == a then 1 else 0) ≡ (if x == b then 1 else 0) + count x bs
    go none e ih k = ground (arith, k)
    go (some (c, more)) e ih k = ground (arith, ih c more e, k)

pub find_item-delete_item :
    (k j : EntryKey) (items : List (EntryKey × ℕ))
    → find_item j (delete_item k items) ≡ (if key_eq k j then none else find_item j items)
unfolding find_item delete_item
find_item-delete_item k j [] = ground arith
find_item-delete_item k j ((i, a) ∷ items) =
    let rest = find_item-delete_item k j items in
    elim (Bool-cases (key_eq i k)) [
      | inl e ↦
          rw (e, delete_item)
            (rw (rest, key_eq→eq i k e)
              (elim (Bool-cases (key_eq k j)) [ inl g ↦ rw g refl | inr g ↦ rw g refl ]))
      | inr e ↦
          rw (e, delete_item)
            (elim (Bool-cases (key_eq i j)) [
              | inl f ↦
                  rw (f, find_item)
                    (elim (Bool-cases (key_eq k j)) [
                      | inl g ↦ ground (arith, key_eq→eq i j f, key_eq→eq k j g, key_eq_refl i, e)
                      | inr g ↦ rw g refl
                    ])
              | inr f ↦ rw (f, find_item) rest
            ])
    ]

-- The agreement of the parts of a pool.
pub record IsSound (p : Pool) : Type 0 where
  pub in_list :
      (k : EntryKey) (a : ℕ)
      → find_item k p.items ≡ some a
      → ((p.entries a).key ≡ k) × (count a p.lru_list ≡ 1)
  pub in_map : (a : ℕ) → 0 < count a p.lru_list → find_item (p.entries a).key p.items ≡ some a
  pub counted : (a : ℕ) → a < p.next → (p.entries a).leases ≡ count a p.leased
  pub kept : (a : ℕ) → 0 < count a p.leased → 0 < count a p.lru_list
  pub made : (a : ℕ) → 0 < count a p.lru_list → a < p.next

pub find_item-deleted :
    (k j : EntryKey) (b : ℕ) (items : List (EntryKey × ℕ))
    → find_item j (delete_item k items) ≡ some b
    → (find_item j items ≡ some b) × (key_eq k j ≡ false)
find_item-deleted k j b items h = elim (Bool-cases (key_eq k j)) [
  | inl e ↦ ground (arith, h, find_item-delete_item k j items, e)
  | inr e ↦ ground (arith, h, find_item-delete_item k j items, e)
]

-- Another entry of the list has another key.
other_key :
    (p : Pool) (a b : ℕ)
    → IsSound p
    → 0 < count a p.lru_list
    → 0 < count b p.lru_list
    → (b == a) ≡ false
    → key_eq (p.entries a).key (p.entries b).key ≡ false
other_key p a b sound ha hb other = elim (Bool-cases (key_eq (p.entries a).key (p.entries b).key)) [
  | inr e ↦ e
  | inl e ↦
      (let same = ap (λ (k : EntryKey). find_item k p.items) (key_eq→eq _ _ e) in
        ground (arith, same, sound.in_map a ha, sound.in_map b hb, other))
]

once : (p : Pool) (a : ℕ) → IsSound p → 0 < count a p.lru_list → count a p.lru_list ≡ 1
once p a sound h = (sound.in_list (p.entries a).key a (sound.in_map a h)).1

-- An entry that is still in the list after another left it.
remains :
    (p : Pool) (a b : ℕ)
    → IsSound p
    → 0 < count a p.lru_list
    → 0 < count b (remove_addr a p.lru_list)
    → (0 < count b p.lru_list) × ((b == a) ≡ false)
remains p a b sound ha hb = elim (Bool-cases (b == a)) [
  | inl e ↦
      (let same : b ≡ a = ground (arith, e) in
        ground (arith, count-remove_addr b a p.lru_list ha, once p a sound ha, same, e))
  | inr e ↦ (ground (arith, count-remove_addr b a p.lru_list ha, e), e)
]

stays :
    (p : Pool) (a b : ℕ)
    → 0 < count a p.lru_list
    → 0 < count b p.lru_list
    → (b == a) ≡ false
    → count b (remove_addr a p.lru_list) ≡ count b p.lru_list
stays p a b ha hb e = ground (arith, count-remove_addr b a p.lru_list ha, e)

differs :
    (p : Pool) (a b : ℕ) (k : EntryKey)
    → key_eq (p.entries a).key k ≡ false
    → (p.entries b).key ≡ k
    → (b == a) ≡ false
differs p a b k other key = elim (Bool-cases (b == a)) [
  | inr e ↦ e
  | inl e ↦
      (let same : (p.entries a).key ≡ k = rw (← (the_same e)) key in
        ground (arith, key_eq_refl k, ap (λ (j : EntryKey). key_eq j k) same, other))
]
  where
    the_same : (b == a) ≡ true → b ≡ a
    the_same e = ground (arith, e)

pub evict-IsSound :
    (p : Pool) (a : ℕ)
    → IsSound p
    → 0 < count a p.lru_list
    → (p.entries a).leases ≡ 0
    → IsSound (evict a p)
unfolding evict
evict-IsSound p a sound ha idle = record {
  in_list = λ k b h.
      let found = find_item-deleted (p.entries a).key k b p.items h in
      let old = sound.in_list k b found.0 in
      (old.0, stays p a b ha (omega (arith, old.1)) (differs p a b k found.1 old.0) ∙ old.1);
  in_map = λ b hb.
      let still = remains p a b sound ha hb in
      rw (find_item-delete_item (p.entries a).key (p.entries b).key p.items)
        (rw (other_key p a b sound ha still.0 still.1) (sound.in_map b still.0));
  counted = sound.counted;
  kept = λ b hb. elim (Bool-cases (b == a)) [
    | inl e ↦
        (let same : b ≡ a = ground (arith, e) in
          ground (
            arith,
            sound.counted a (sound.made a ha),
            idle,
            hb,
            ap (λ (x : ℕ). count x p.leased) same,
          ))
    | inr e ↦ omega (arith, stays p a b ha (sound.kept b hb) e, sound.kept b hb)
  ];
  made = λ b hb. sound.made b (ground (arith, count-remove_addr b a p.lru_list ha));
}
