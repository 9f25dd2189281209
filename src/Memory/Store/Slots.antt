-- ===== src/Memory/Store/Slots.antt =====
-- internal/memory/fake_repository.go: an active memory takes its slot.
use harness_loop_agent.Base.{
  ◌≡◌, refl, sym, subst, inl, inr, String, Bool, true, false, List, [], ◌∷◌, some, ok, arith,
  eq_iff, str_eq, Bool-cases, Option-cases, All,
}
use harness_loop_agent.Base.Word.{Time}
use harness_loop_agent.Base.Dict.{Dict, lookup, insert, lookup-insert, Each, Each-lookup}
use harness_loop_agent.Memory.{Owner, Record, is_active}
use harness_loop_agent.Memory.Store.{
  new_fake_repository, FakeRepository, Mutation, MutationTarget, MutationResult, holds_slot,
  retires, check_slot, retired, apply_targets, commit_mutation,
}
use harness_loop_agent.Memory.Store.Steps.{MemorySteps, MemorySteps-OwnIds, new-OwnIds}
use harness_loop_agent.Memory.Store.Moves.{OwnIds, OwnIds-put, commit_mutation-Commits}

module _ {F : Type 0} where
  check_slot-Each :
      (owner : Owner) (v : Record F) (targets : List MutationTarget) (rs : Dict (Record F))
      → check_slot owner v targets rs ≡ ok tt
      → Each (λ k old. holds_slot owner v old ≡ true → retires old.id targets ≡ true) rs
  unfolding check_slot
  check_slot-Each owner v targets [] h = tt
  check_slot-Each owner v targets (entry ∷ rs) h =
      (λ f. ground (arith, h, f), check_slot-Each owner v targets rs (ground (arith, h)))

  -- A memory after the targets are stored: it stands as it did and no target superseded it, or it
  -- has the new status of a target.
  apply_targets-cases :
      (by : String) (now : Time) (ts : List MutationTarget) (rs : Dict (Record F)) (k : String)
      (u : Record F)
      → OwnIds rs
      → All (λ t. is_active t.new_status ≡ false) ts
      → lookup k (apply_targets by now ts rs) ≡ some u
      → is_active u.status ≡ true
      → (lookup k rs ≡ some u) × (retires k ts ≡ false)
  unfolding apply_targets
  apply_targets-cases by now [] rs k u own h e a = (e, refl)
  apply_targets-cases by now (t ∷ ts) rs k u own h e a = elim (Option-cases (lookup t.id rs)) [
    | inl n ↦
        let (there, spared) =
          apply_targets-cases by now ts rs k u own h.1 (ground (arith, e, n)) a in
        (there, ground (arith, spared, there, n, eq_iff t.id k))
    | inr (old, n) ↦
        let old' = retired by now t old in
        let at : old.id ≡ t.id = own t.id old n in
        let rs' = insert old.id old' rs in
        let (there, spared) =
          apply_targets-cases by now ts rs' k u (OwnIds-put rs old' own) h.1 (ground (arith, e, n))
            a in
        elim (Bool-cases (str_eq old.id k)) [
          | inl same ↦
              let is_u : old' ≡ u = ground (arith, there, lookup-insert old.id k old' rs) in
              ground (arith, h.0, subst (λ (x : Record F). is_active x.status ≡ true) (sym is_u) a)
          | inr differ ↦
              (ground (arith, there, lookup-insert old.id k old' rs), ground (arith, spared, at))
        ]
  ]

  -- When `CommitMutation`, on a repository built from a new one, has stored a new memory that is active
  -- and has a slot key, by targets none of which becomes active, the new memory is the only active
  -- one of its owner in its scope, namespace and slot; a replay stores nothing and is not meant.
  pub commit_mutation-slot :
      (in_unit : F → Bool) (wall : Time) (r r' : FakeRepository F) (m : Mutation F)
      (result : MutationResult F) (new u : Record F) (k version : String)
      → MemorySteps in_unit (new_fake_repository version) r
      → All (λ t. is_active t.new_status ≡ false) m.targets
      → commit_mutation in_unit wall r m ≡ ok (result, r')
      → result.replayed ≡ false
      → m.new_memory ≡ some new
      → lookup k r'.records ≡ some u
      → holds_slot m.owner new u ≡ true
      → k ≡ new.id
  unfolding holds_slot
  commit_mutation-slot in_unit wall r r' m result new u k version built calm h fresh given there
        holds =
      let own =
        MemorySteps-OwnIds in_unit (new_fake_repository version) r built
          (new-OwnIds in_unit version) in
      elim (commit_mutation-Commits in_unit wall r r' m result h) [
        | inl (_, old) ↦ ground (arith, old, fresh)
        | inr (new', v, now, given', made, absent, fine, clear, _, rs) ↦
            let same : new' ≡ new = ground (arith, given, given') in
            let mid = apply_targets new'.id now m.targets r.records in
            elim (Bool-cases (str_eq v.id k)) [
              | inl e ↦ ground (arith, e, made, same, eq_iff v.id k)
              | inr e ↦
                  let (before, spared) =
                    apply_targets-cases new'.id now m.targets r.records k u own calm
                      (ground (arith, rs, there, e, lookup-insert v.id k v mid))
                      (ground (arith, holds)) in
                  let retired_then =
                    Each-lookup
                      (λ k old.
                        holds_slot m.owner new' old ≡ true → retires old.id m.targets ≡ true)
                      k r.records before (check_slot-Each m.owner new' m.targets r.records clear)
                      (subst (λ x. holds_slot m.owner x u ≡ true) (sym same) holds) in
                  ground (arith, own k u before, spared, retired_then)
            ]
      ]
