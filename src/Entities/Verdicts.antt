-- ===== src/Entities/Verdicts.antt =====
-- internal/entity/exact_target_verifier.go: what a verdict on an instance rests on.
use compshare_agent.Prelude.{
  unsaid, ℕ, String, false, Option, none, some, List, [], ◌≡◌, ◌⊎◌, inl, inr, refl, sym, ◌∙◌, ap,
  Bool-cases, Option-cases, if◌then◌else◌, str_eq, eq_iff, Has,
}
use compshare_agent.Value.{Fields, Items}
use compshare_agent.Workflow.Types.{GoError}
use compshare_agent.Actions.Judge.{has_key}
use compshare_agent.Entities.Snapshot.{EntityText}
use compshare_agent.Entities.Registry.{
  EntityRegistry, new_registry, fresh_and_complete_at, collect, hosts_of, rows_of,
}
use compshare_agent.Entities.Verify.{
  RegistryCall, ExistenceVerdict, existence_unavailable, existence_verified, existence_not_found,
  registry_steps, verify_exact_target, verify_by_query, describe_response_has_id, rows_of_result,
  any_has_id,
}
use compshare_agent.Entities.Listing.{Names, Echoes, has_key-collect_iff, any_has_id_iff}
use compshare_agent.Entities.Tracking.{
  CurrentListing, rows_of_result_lem, never, IsTracked-current, IsTracked-steps,
}

module _ (lib : EntityText) where
  -- What the point query answered about the id.
  pub record Answered (describe : Option (String → Option (Option Fields))) (id : String)
      (answer : Option (Option Fields)) : Type 0 where
    pub query : String → Option (Option Fields)
    pub given : describe ≡ some query
    pub told : query id ≡ answer

  -- The point query, where it does not fail, gives a usable response: one with a listing.
  abbrev pub IsUsable : Option (String → Option (Option Fields)) → String → Type 0
  IsUsable describe id =
      (raw : Option Fields)
      → Answered describe id (some raw)
      → (items : Items) × (hosts_of raw ≡ some items)

  -- A usable response of the point query about the id.
  pub record Response (describe : Option (String → Option (Option Fields))) (id : String)
      : Type 0 where
    pub raw : Option Fields
    pub items : Items
    pub answered : Answered describe id (some raw)
    pub readable : hosts_of raw ≡ some items

  -- What a verdict rests on.
  abbrev pub IsJustified :
      List RegistryCall
      → String
      → ℕ
      → Option (String → Option (Option Fields))
      → ExistenceVerdict
      → Type 0
  IsJustified calls id at describe existence_verified =
      ((l : CurrentListing lib calls at) × Has (Names lib id) (rows_of_result l.result))
      ⊎ ((response : Response describe id) × Has (Echoes id) (rows_of response.items))
  IsJustified calls id at describe existence_not_found =
      (lib.trim_space id ≡ "")
      ⊎ ((l : CurrentListing lib calls at) × ¬ Has (Names lib id) (rows_of_result l.result))
      ⊎ ((response : Response describe id) × ¬ Has (Echoes id) (rows_of response.items))
  IsJustified calls id at describe existence_unavailable =
      (describe ≡ none) ⊎ Answered describe id none

  IsJustified-query :
      (calls : List RegistryCall) (id : String) (at : ℕ)
      (describe : Option (String → Option (Option Fields)))
      → IsUsable describe id
      → str_eq (lib.trim_space id) "" ≡ false
      → IsJustified calls id at describe (verify_by_query lib describe id)
  unfolding verify_by_query describe_response_has_id
  IsJustified-query calls id at none usable e = inl refl
  IsJustified-query calls id at (some query) usable e = elim (Option-cases (query id)) [
    | inl told ↦ rw told (inr record { query = query; given = refl; told = told })
    | inr (raw, told) ↦
        (let by : Answered (some query) id (some raw) = record {
          query = query;
          given = refl;
          told = told;
        } in
          let (items, readable) = usable raw by in
          let response : Response (some query) id = record {
            raw = raw;
            items = items;
            answered = by;
            readable = readable;
          } in
          let rows = rows_of_result_lem raw items readable in
          let (forth, back) = any_has_id_iff id (rows_of items) in
          elim (Bool-cases (any_has_id id (rows_of items))) [
            | inl has ↦ rw (told, e, rows, has) (inr (response, forth has))
            | inr has ↦
                rw (told, e, rows, has) (inr (inr (response, λ found. unsaid has (back found))))
          ])
  ]

  IsJustified-listing :
      (calls : List RegistryCall) (id : String) (at : ℕ)
      (describe : Option (String → Option (Option Fields))) (r : EntityRegistry)
      (l : CurrentListing lib calls at)
      → r.instances ≡ collect lib (rows_of_result l.result) []
      → IsJustified calls id at describe
          (if has_key id r.instances then existence_verified else existence_not_found)
  IsJustified-listing calls id at describe r l read =
      let (forth, back) = has_key-collect_iff lib id (rows_of_result l.result) in
      elim (Bool-cases (has_key id r.instances)) [
        | inl e ↦ rw e (inl (l, forth (ap (has_key id) (sym read) ∙ e)))
        | inr e ↦ rw e (inr (inl (l, λ found. unsaid e (ap (has_key id) read ∙ back found))))
      ]

  -- After any calls on a new registry, if the point query fails or gives a response with a listing:
  -- VerifyExactTarget says that an instance exists only if a current listing or the response of the
  -- point query has its id; that it does not exist only if its id is blank, a current listing has no
  -- such id, or the response has none; and that this is unknown only if there is no point query or it
  -- failed. A listing is current if it is complete and at most 30 seconds old, no refresh came after
  -- it, and no action that changes an instance.
  pub verify-IsJustified :
      (class : GoError → String) (calls : List RegistryCall) (id : String) (at : ℕ)
      (describe : Option (String → Option (Option Fields)))
      → IsUsable describe id
      → IsJustified calls id at describe
          (verify_exact_target lib (registry_steps lib class calls new_registry) id at describe)
  unfolding verify_exact_target
  verify-IsJustified class calls id at describe usable =
      let r = registry_steps lib class calls new_registry in
      let tracked = IsTracked-steps lib class [] calls new_registry (never refl) in
      elim (Bool-cases (str_eq (lib.trim_space id) "")) [
        | inl e ↦ rw e (inl ((eq_iff (lib.trim_space id) "").0 e))
        | inr e ↦ elim (Bool-cases (fresh_and_complete_at r at)) [
          | inl f ↦
              (let (l, read) = IsTracked-current lib calls r at tracked f in
                rw (e, f) (IsJustified-listing calls id at describe r l read))
          | inr f ↦ rw (e, f) (IsJustified-query calls id at describe usable e)
        ]
      ]
