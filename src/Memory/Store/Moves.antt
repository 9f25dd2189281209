-- ===== src/Memory/Store/Moves.antt =====
-- internal/memory/fake_repository.go: how the calls move the status of a memory.
use harness_loop_agent.Base.{
  ℕ, ◌≡◌, refl, sym, subst, ◌⊎◌, inl, inr, String, Bool, true, List, [], ◌∷◌, none, some,
  Result-cases, ok, arith, eq_iff, str_eq, Bool-cases, Option-cases,
}
use harness_loop_agent.Base.Word.{Time, inc}
use harness_loop_agent.Base.Dict.{Dict, lookup, insert, lookup-insert}
use harness_loop_agent.Memory.{Owner, Status, can_transition, same_owner, Record}
use harness_loop_agent.Memory.Store.{
  check_slot, FakeRepository, Mutation, MutationTarget, MutationResult, check_targets, retired,
  apply_targets, commit_mutation, commit_fresh, transition_memory, transition_fresh, owner_key,
  or_now,
}

-- A status stays, or moves as `CanTransition` lets it.
abbrev pub MovesTo : Status → Status → Type 0
MovesTo a b = (b ≡ a) ⊎ (can_transition a b ≡ true)

module _ {F : Type 0} where
  -- Every memory is stored under its id.
  abbrev pub OwnIds : Dict (Record F) → Type 0
  OwnIds rs = (k : String) (v : Record F) → lookup k rs ≡ some v → v.id ≡ k

  -- Each memory is still there, and its status stayed or made a move.
  abbrev pub Follows : Dict (Record F) → Dict (Record F) → Type 0
  Follows rs rs' =
      (k : String) (v : Record F)
      → lookup k rs ≡ some v
      → (u : Record F) × (lookup k rs' ≡ some u) × MovesTo v.status u.status

  pub Follows-put :
      (rs : Dict (Record F)) (k : String) (u : Record F)
      → ((v : Record F) → lookup k rs ≡ some v → MovesTo v.status u.status)
      → Follows rs (insert k u rs)
  Follows-put rs k u moves id v h = elim (Bool-cases (str_eq k id)) [
    | inl e ↦ (u, ground (arith, lookup-insert k id u rs), moves v (ground (arith, eq_iff k id)))
    | inr e ↦ (v, ground (arith, lookup-insert k id u rs), inl refl)
  ]

  pub Follows-same : (rs rs' : Dict (Record F)) → rs' ≡ rs → Follows rs rs'
  Follows-same rs rs' same id v h = (v, rw same h, inl refl)

  pub OwnIds-put : (rs : Dict (Record F)) (u : Record F) → OwnIds rs → OwnIds (insert u.id u rs)
  OwnIds-put rs u own k v h = ground (arith, lookup-insert u.id k u rs, eq_iff u.id k, own k v)

  -- Every target is there, and its new status is one that its status may become.
  abbrev pub Allowed : Dict (Record F) → List MutationTarget → Type 0
  Allowed rs [] = Unit
  Allowed rs (t ∷ ts) =
      ((v : Record F) × (lookup t.id rs ≡ some v) × (can_transition v.status t.new_status ≡ true))
      × Allowed rs ts

  pub check_targets-Allowed :
      (rs : Dict (Record F)) (owner : Owner) (ts : List MutationTarget)
      → check_targets rs owner ts ≡ ok tt
      → Allowed rs ts
  unfolding check_targets
  check_targets-Allowed rs owner [] h = tt
  check_targets-Allowed rs owner (t ∷ ts) h = elim (Option-cases (lookup t.id rs)) [
    | inl n ↦ ground (arith, h, n)
    | inr (v, n) ↦
        ((v, n, ground (arith, h, n)), check_targets-Allowed rs owner ts (ground (arith, h, n)))
  ]

  -- The targets of a mutation are stored, one after the other, over memories that have moved from
  -- where they were when the targets were checked.
  pub apply_targets-Follows :
      (by : String) (now : Time) (ts : List MutationTarget) (before rs : Dict (Record F))
      → Allowed before ts
      → OwnIds rs
      → Follows before rs
      → Follows before (apply_targets by now ts rs) × OwnIds (apply_targets by now ts rs)
  unfolding apply_targets
  apply_targets-Follows by now [] before rs a own h = (h, own)
  apply_targets-Follows by now (t ∷ ts) before rs a own h =
      let (v, was, may) = a.0 in
      let (u, there, moved) = h t.id v was in
      let u' = retired by now t u in
      let at : u.id ≡ t.id = own t.id u there in
      let next : Follows before (insert u.id u' rs) = λ k w f. elim (Bool-cases (str_eq u.id k)) [
        | inl e ↦ (
          u',
          ground (arith, lookup-insert u.id k u' rs),
          inr (ground (arith, eq_iff u.id k, at, f, was, may)),
        )
        | inr e ↦ let (x, here, m) = h k w f in (x, ground (arith, lookup-insert u.id k u' rs), m)
      ] in
      rw there
        (apply_targets-Follows by now ts before (insert u.id u' rs) a.1 (OwnIds-put rs u' own) next)

  -- What a mutation of the repository does to the records.
  abbrev pub Commits : FakeRepository F → FakeRepository F → Mutation F → Type 0
  Commits r r' m =
      (new v : Record F) × (now : Time) × (m.new_memory ≡ some new)
      × (v ≡ record new { created_at = now; updated_at = now })
      × (lookup new.id r.records ≡ none)
      × (check_targets r.records m.owner m.targets ≡ ok tt)
      × (check_slot m.owner new m.targets r.records ≡ ok tt)
      × (same_owner new.owner m.owner ≡ true)
      × (r'.records ≡ insert v.id v (apply_targets new.id now m.targets r.records))

  commit_fresh-Commits :
      (in_unit : F → Bool) (wall : Time) (r r' : FakeRepository F) (m : Mutation F) (new : Record F)
      (key : String) (result : MutationResult F)
      → m.new_memory ≡ some new
      → commit_fresh in_unit wall r m new key ≡ ok (result, r')
      → Commits r r' m
  unfolding commit_fresh
  commit_fresh-Commits in_unit wall r r' m new key result given h =
      let now = or_now m.occurred_at wall in
      elim (Option-cases (lookup new.id r.records)) [
        | inr (v, n) ↦ ground (arith, h, n)
        | inl n ↦ elim (Result-cases (check_targets r.records m.owner m.targets)) [
          | inr (e, t) ↦ ground (arith, h, n, t)
          | inl (_, t) ↦ elim (Result-cases (check_slot m.owner new m.targets r.records)) [
            | inr (e, f) ↦ ground (arith, h, n, t, f)
            | inl (_, f) ↦ (
              new,
              record new { created_at = now; updated_at = now },
              now,
              given,
              refl,
              n,
              ground (arith, t),
              ground (arith, f),
              ground (arith, h),
              ground (arith, h, n, t, f),
            )
          ]
        ]
      ]

  pub commit_mutation-Commits :
      (in_unit : F → Bool) (wall : Time) (r r' : FakeRepository F) (m : Mutation F)
      (result : MutationResult F)
      → commit_mutation in_unit wall r m ≡ ok (result, r')
      → ((r' ≡ r) × (result.replayed ≡ true)) ⊎ Commits r r' m
  unfolding commit_mutation
  commit_mutation-Commits in_unit wall r r' m result h = elim (Option-cases m.new_memory) [
    | inl n ↦ ground (arith, h, n)
    | inr (new, n) ↦
        let key = owner_key m.owner m.idempotency_key in
        elim (Option-cases (lookup key r.idempotency)) [
          | inl f ↦
              inr (
                commit_fresh-Commits in_unit wall r r' m new key result n (ground (arith, h, n, f)))
          | inr (old, f) ↦ inl (ground (arith, h, n, f), ground (arith, h, n, f))
        ]
  ]

  pub commit_mutation-Follows :
      (in_unit : F → Bool) (wall : Time) (r r' : FakeRepository F) (m : Mutation F)
      (result : MutationResult F)
      → commit_mutation in_unit wall r m ≡ ok (result, r')
      → OwnIds r.records
      → Follows r.records r'.records × OwnIds r'.records
  commit_mutation-Follows in_unit wall r r' m result h own =
      elim (commit_mutation-Commits in_unit wall r r' m result h) [
        | inl (same, _) ↦ (
          Follows-same r.records r'.records (ground (arith, same)),
          subst (λ (s : FakeRepository F). OwnIds s.records) (sym same) own,
        )
        | inr (new, v, now, _, made, absent, fine, _, _, rs) ↦
            let moved =
              apply_targets-Follows new.id now m.targets r.records r.records
                (check_targets-Allowed r.records m.owner m.targets fine) own
                (Follows-same r.records r.records refl) in
            let mid = apply_targets new.id now m.targets r.records in
            (
              λ k w f.
                  (let (u, there, m') = moved.0 k w f in
                    (
                      u,
                      ground (
                        arith,
                        rs,
                        made,
                        lookup-insert v.id k v mid,
                        eq_iff v.id k,
                        absent,
                        f,
                        there,
                      ),
                      m',
                    )),
              rw rs (OwnIds-put mid v moved.1),
            )
      ]

  transition_fresh-Follows :
      (r r' : FakeRepository F) (owner : Owner) (id : String) (version : ℕ) (to : Status)
      (key input_hash : String) (now : Time) (result : MutationResult F)
      → transition_fresh r owner id version to key input_hash now ≡ ok (result, r')
      → OwnIds r.records
      → Follows r.records r'.records × OwnIds r'.records
  unfolding transition_fresh
  transition_fresh-Follows r r' owner id version to key input_hash now result h own =
      elim (Option-cases (lookup id r.records)) [
        | inl n ↦ ground (arith, h, n)
        | inr (old, n) ↦
            let v : Record F = record old {
              status = to;
              row_version = inc old.row_version;
              updated_at = now;
            } in
            let at : old.id ≡ id = own id old n in
            let made : r'.records ≡ insert id v r.records = ground (arith, h, n) in
            (
              subst (Follows r.records) (sym made)
                  (Follows-put r.records id v (λ w f. inr (ground (arith, h, n, f)))),
              subst OwnIds (sym made)
                  (subst (λ k. OwnIds (insert k v r.records)) at (OwnIds-put r.records v own)),
            )
      ]

  pub transition_memory-Follows :
      (r r' : FakeRepository F) (owner : Owner) (id : String) (version : ℕ) (to : Status)
      (actor reason idempotency_key input_hash : String) (now : Time) (result : MutationResult F)
      → transition_memory r owner id version to actor reason idempotency_key input_hash now
        ≡ ok (result, r')
      → OwnIds r.records
      → Follows r.records r'.records × OwnIds r'.records
  unfolding transition_memory
  transition_memory-Follows r r' owner id version to actor reason idempotency_key input_hash now
        result h own =
      let key = owner_key owner idempotency_key in
      elim (Option-cases (lookup key r.idempotency)) [
        | inl f ↦
            transition_fresh-Follows r r' owner id version to key input_hash now result
              (ground (arith, h, f)) own
        | inr (old, f) ↦
            let same : r'.records ≡ r.records = ground (arith, h, f) in
            (Follows-same r.records r'.records same, subst OwnIds (sym same) own)
      ]
