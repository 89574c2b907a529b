-- ===== src/Entities/Tracking.antt =====
-- internal/entity/registry.go: which of the calls of a registry its state comes from.
use compshare_agent.Prelude.{
  ℕ, ◌-◌, ◌≤◌, String, true, false, Option, none, some, List, [], ◌∷◌, ◌++◌, ◌≡◌, inl, inr, refl,
  sym, ◌∙◌, ap, arith, Bool-cases, Option-cases, ltb, length, Except, ok, err, All, All-snoc,
  append_assoc, append-nil,
}
use compshare_agent.Value.{Fields, Items}
use compshare_agent.Workflow.Types.{GoError}
use compshare_agent.Entities.Snapshot.{EntityText}
use compshare_agent.Entities.Registry.{
  EntityRegistry, RefreshReason, refresh, sync_from_describe, install, mark_invalidated,
  record_refresh_failure, invalidates_registry, fresh_and_complete_at, needs_refresh, hosts_of,
  total_of, rows_of, collect, is_failed, default_registry_freshness_ttl,
}
use compshare_agent.Entities.Verify.{
  RegistryCall, refreshed, completed, registry_step, registry_steps, rows_of_result,
}

-- A completed action that changes no instance.
abbrev pub IsHarmless : RegistryCall → Type 0
IsHarmless (refreshed reason now answer) = ⊥
IsHarmless (completed action) = invalidates_registry action ≡ false

-- The last refresh of the calls: it succeeded at `now`, and no later action changes an instance.
pub record LastListing (calls : List RegistryCall) (now : ℕ) (result : Option Fields) : Type 0 where
  pub before : List RegistryCall
  pub later : List RegistryCall
  pub reason : RefreshReason
  pub split : calls ≡ before ++ refreshed reason now (ok result) ∷ later
  pub is_harmless : All IsHarmless later

pub rows_of_result_lem :
    (result : Option Fields) (items : Items)
    → hosts_of result ≡ some items
    → rows_of_result result ≡ rows_of items
unfolding rows_of_result
rows_of_result_lem result items e = rw (e, rows_of_result) refl

record IsFresh (r : EntityRegistry) (at : ℕ) : Type 0 where
  last : ℕ
  synced : r.last_full_sync ≡ some last
  unchanged : r.invalidated ≡ false
  not_failed : is_failed r.last_sync_event ≡ false
  recent : at - last ≤ default_registry_freshness_ttl
  whole : r.truncated ≡ false

fresh_and_complete_lem :
    (r : EntityRegistry) (at : ℕ) → fresh_and_complete_at r at ≡ true → IsFresh r at
unfolding fresh_and_complete_at needs_refresh
fresh_and_complete_lem r at h = elim (Option-cases r.last_full_sync) [
  | inl e ↦ (let bad = (rw (e, needs_refresh) at h) in ground (arith, bad))
  | inr (last, e) ↦
      (let parts = (rw (e, needs_refresh) at h) in
        record {
          last = last;
          synced = e;
          unchanged = ground (arith, parts);
          not_failed = ground (arith, parts);
          recent = ground (arith, parts);
          whole = ground (arith, parts);
        })
]

some-injective : {a b : ℕ} → some a ≡ some b → a ≡ b
some-injective h = cc

not_less : (m n : ℕ) → ltb m n ≡ false → n ≤ m
not_less m n h = ground (arith, h)

LastListing-snoc :
    {calls : List RegistryCall} {now : ℕ} {result : Option Fields} (call : RegistryCall)
    → LastListing calls now result
    → IsHarmless call
    → LastListing (calls ++ call ∷ []) now result
LastListing-snoc call l h = record {
  before = l.before;
  later = l.later ++ call ∷ [];
  reason = l.reason;
  split = ap (λ cs. cs ++ call ∷ []) l.split ∙ append_assoc l.before _ (call ∷ []);
  is_harmless = All-snoc IsHarmless l.later call l.is_harmless h;
}

LastListing-now :
    (calls : List RegistryCall) (reason : RefreshReason) (now : ℕ) (result : Option Fields)
    → LastListing (calls ++ refreshed reason now (ok result) ∷ []) now result
LastListing-now calls reason now result = record {
  before = calls;
  later = [];
  reason = reason;
  split = refl;
  is_harmless = tt;
}

module _ (lib : EntityText) where
  -- The registry is what the last listing gave.
  pub record IsListing (calls : List RegistryCall) (r : EntityRegistry) : Type 0 where
    pub now : ℕ
    pub result : Option Fields
    pub items : Items
    pub listing : LastListing calls now result
    pub readable : hosts_of result ≡ some items
    pub synced : r.last_full_sync ≡ some now
    pub read : r.instances ≡ collect lib (rows_of_result result) []
    pub cut : r.truncated ≡ ltb (length r.instances) (total_of lib result)

  pub data IsTracked (calls : List RegistryCall) (r : EntityRegistry) : Type 0 where
    never : r.last_full_sync ≡ none → IsTracked calls r
    failed : is_failed r.last_sync_event ≡ true → IsTracked calls r
    changed : r.invalidated ≡ true → IsTracked calls r
    listed : IsListing calls r → IsTracked calls r

  -- A complete listing that is not too old, with no later change.
  pub record CurrentListing (calls : List RegistryCall) (at : ℕ) : Type 0 where
    pub now : ℕ
    pub result : Option Fields
    pub items : Items
    pub listing : LastListing calls now result
    pub readable : hosts_of result ≡ some items
    pub is_fresh : at - now ≤ default_registry_freshness_ttl
    pub is_complete : total_of lib result ≤ length (collect lib (rows_of_result result) [])

  pub IsTracked-current :
      (calls : List RegistryCall) (r : EntityRegistry) (at : ℕ)
      → IsTracked calls r
      → fresh_and_complete_at r at ≡ true
      → (l : CurrentListing calls at) × (r.instances ≡ collect lib (rows_of_result l.result) [])
  IsTracked-current calls r at t f =
      let fresh = fresh_and_complete_lem r at f in
      elim t [
        | never h ↦ (let bad = sym fresh.synced ∙ h in cc)
        | failed h ↦ (let bad = sym h ∙ fresh.not_failed in cc)
        | changed h ↦ (let bad = sym h ∙ fresh.unchanged in cc)
        | listed h ↦ (
          record {
            now = h.now;
            result = h.result;
            items = h.items;
            listing = h.listing;
            readable = h.readable;
            is_fresh = rw (sym (some-injective (sym fresh.synced ∙ h.synced))) fresh.recent;
            is_complete = not_less _ _ (
                sym (h.cut ∙ ap (λ is. ltb (length is) (total_of lib h.result)) h.read)
                ∙ fresh.whole);
          },
          h.read,
        )
      ]

module _ (lib : EntityText) (class : GoError → String) where
  IsTracked-refresh :
      (calls : List RegistryCall) (reason : RefreshReason) (now : ℕ)
      (answer : Except GoError (Option Fields)) (r : EntityRegistry)
      → IsTracked lib
          (calls ++ refreshed reason now answer ∷ [])
          (refresh lib class reason now answer r)
  unfolding refresh sync_from_describe install record_refresh_failure rows_of_result
  IsTracked-refresh calls reason now (err e) r = failed refl
  IsTracked-refresh calls reason now (ok result) r = elim (Option-cases (hosts_of result)) [
    | inl e ↦ rw (e, refresh) (failed refl)
    | inr (items, e) ↦
        rw (e, refresh)
          (listed record {
            now = now;
            result = result;
            items = items;
            listing = LastListing-now calls reason now result;
            readable = e;
            synced = refl;
            read = ap (λ rows. collect lib rows []) (sym (rows_of_result_lem result items e));
            cut = refl;
          })
  ]

  IsTracked-completed :
      (calls : List RegistryCall) (action : String) (r : EntityRegistry)
      → IsTracked lib calls r
      → IsTracked lib (calls ++ completed action ∷ []) (mark_invalidated action r).0
  unfolding mark_invalidated
  IsTracked-completed calls action r t = elim (Bool-cases (invalidates_registry action)) [
    | inl e ↦ rw e (changed refl)
    | inr e ↦ rw e (elim t [
      | never h ↦ never h
      | failed h ↦ failed h
      | changed h ↦ changed h
      | listed h ↦ listed (record {
        now = h.now;
        result = h.result;
        items = h.items;
        listing = LastListing-snoc (completed action) h.listing e;
        readable = h.readable;
        synced = h.synced;
        read = h.read;
        cut = h.cut;
      })
    ])
  ]

  IsTracked-step :
      (calls : List RegistryCall) (call : RegistryCall) (r : EntityRegistry)
      → IsTracked lib calls r
      → IsTracked lib (calls ++ call ∷ []) (registry_step lib class call r)
  unfolding registry_step
  IsTracked-step calls (refreshed reason now answer) r t =
      IsTracked-refresh calls reason now answer r
  IsTracked-step calls (completed action) r t = IsTracked-completed calls action r t

  pub IsTracked-steps :
      (before calls : List RegistryCall) (r : EntityRegistry)
      → IsTracked lib before r
      → IsTracked lib (before ++ calls) (registry_steps lib class calls r)
  unfolding registry_steps
  IsTracked-steps before [] r t = rw (append-nil before) t
  IsTracked-steps before (call ∷ calls) r t = rw (sym (append_assoc before (call ∷ []) calls)) (
      IsTracked-steps (before ++ call ∷ []) calls (registry_step lib class call r)
        (IsTracked-step before call r t))
