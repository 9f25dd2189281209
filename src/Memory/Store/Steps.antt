-- ===== src/Memory/Store/Steps.antt =====
-- internal/memory/fake_repository.go: the calls that change the records as steps, and what holds after
-- any sequence of them.
use harness_loop_agent.Base.{ℕ, ◌≡◌, refl, String, Bool, true, some, ok, arith}
use harness_loop_agent.Base.Word.{Time}
use harness_loop_agent.Base.Dict.{lookup}
use harness_loop_agent.Memory.{
  Owner, Status, candidate, active, rejected, superseded, revoked, expired, obsolete,
  can_transition, Record,
}
use harness_loop_agent.Memory.Store.{
  FakeRepository, Mutation, MutationResult, CandidateActivation, new_fake_repository,
  commit_mutation, transition_memory,
}
use harness_loop_agent.Memory.Store.Endings.{activate_candidate_superseding, expire}
use harness_loop_agent.Memory.Store.Lapses.{activate-Follows, expire-Follows}
use harness_loop_agent.Memory.Store.Moves.{
  MovesTo, OwnIds, Follows, commit_mutation-Follows, transition_memory-Follows,
}

obsolete-MovesTo : (a b : Status) → obsolete a ≡ true → MovesTo a b → b ≡ a
unfolding can_transition obsolete
obsolete-MovesTo candidate b o m = ground arith
obsolete-MovesTo active b o m = ground arith
obsolete-MovesTo rejected b o m = ground arith
obsolete-MovesTo superseded b o m = ground arith
obsolete-MovesTo revoked b o m = ground arith
obsolete-MovesTo expired b o m = ground arith
obsolete-MovesTo (Status.other t) b o m = ground arith

module _ {F : Type 0} (in_unit : F → Bool) where
  pub data MemoryStep : FakeRepository F → FakeRepository F → Type 0 where
    by_commit :
        (wall : Time) (r r' : FakeRepository F) (m : Mutation F) (result : MutationResult F)
        → commit_mutation in_unit wall r m ≡ ok (result, r')
        → MemoryStep r r'
    by_transition :
        (r r' : FakeRepository F) (owner : Owner) (id : String) (version : ℕ) (to : Status)
        (actor reason idempotency_key input_hash : String) (now : Time) (result : MutationResult F)
        → transition_memory r owner id version to actor reason idempotency_key input_hash now
          ≡ ok (result, r')
        → MemoryStep r r'
    by_activate :
        (wall : Time) (r r' : FakeRepository F) (a : CandidateActivation)
        (result : MutationResult F)
        → activate_candidate_superseding wall r a ≡ ok (result, r')
        → MemoryStep r r'
    by_expire :
        (r : FakeRepository F) (owner : Owner) (now : Time) (limit : ℕ)
        → MemoryStep r (expire r owner now limit).1

  pub data MemorySteps : FakeRepository F → FakeRepository F → Type 0 where
    stay : (r : FakeRepository F) → MemorySteps r r
    step : (r s t : FakeRepository F) → MemoryStep r s → MemorySteps s t → MemorySteps r t

  pub MemoryStep-Follows :
      (r r' : FakeRepository F)
      → MemoryStep r r'
      → OwnIds r.records
      → Follows r.records r'.records × OwnIds r'.records
  MemoryStep-Follows r r' (by_commit wall _ _ m result h) own =
      commit_mutation-Follows in_unit wall r r' m result h own
  MemoryStep-Follows r r' (by_transition _ _ o i v t a e k n w result h) own =
      transition_memory-Follows r r' o i v t a e k n w result h own
  MemoryStep-Follows r r' (by_activate wall _ _ a result h) own =
      activate-Follows wall r r' a result h own
  MemoryStep-Follows r _ (by_expire _ owner now limit) own = expire-Follows r owner now limit own

  pub MemorySteps-OwnIds :
      (r s : FakeRepository F) → MemorySteps r s → OwnIds r.records → OwnIds s.records
  MemorySteps-OwnIds r s (stay _) own = own
  MemorySteps-OwnIds r s (step _ m _ h hs) own =
      MemorySteps-OwnIds m s hs (MemoryStep-Follows r m h own).1

  pub new-OwnIds : (version : String) → OwnIds (new_fake_repository {F = F} version).records
  unfolding lookup
  new-OwnIds version k v h = ground arith

  obsolete_stays :
      (r s : FakeRepository F) (k : String) (v : Record F)
      → OwnIds r.records
      → MemorySteps r s
      → lookup k r.records ≡ some v
      → obsolete v.status ≡ true
      → (u : Record F) × (lookup k s.records ≡ some u) × (u.status ≡ v.status)
  obsolete_stays r s k v own (stay _) e o = (v, e, refl)
  obsolete_stays r s k v own (step _ m _ h hs) e o =
      let (moves, own') = MemoryStep-Follows r m h own in
      let (w, there, moved) = moves k v e in
      let same : w.status ≡ v.status = obsolete-MovesTo v.status w.status o moved in
      let (u, at_end, final) = obsolete_stays m s k w own' hs there (ground (arith, same)) in
      (u, at_end, ground (arith, same))

  -- In a repository built from a new one, a memory that is rejected, superseded, revoked or expired
  -- stays so, and stays there, whatever calls follow: none brings it back.
  pub obsolete-final :
      (version : String) (r s : FakeRepository F) (k : String) (v : Record F)
      → MemorySteps (new_fake_repository version) r
      → MemorySteps r s
      → lookup k r.records ≡ some v
      → obsolete v.status ≡ true
      → (u : Record F) × (lookup k s.records ≡ some u) × (u.status ≡ v.status)
  obsolete-final version r s k v built hs =
      obsolete_stays r s k v
        (MemorySteps-OwnIds (new_fake_repository version) r built (new-OwnIds version)) hs
