-- ===== src/Workflow/Store/Leases.antt =====
-- Claims exclude one another while their lease runs, and fence the commits.
use harness_loop_agent.Base.{
  ◌≤◌, ◌<◌, ◌≡◌, ◌≢◌, inl, inr, String, true, false, List, ◌++◌, none, some, ok, arith, eq_iff,
  Result-cases,
}
use harness_loop_agent.Base.Dict.{lookup, insert, lookup-insert_self}
use harness_loop_agent.Workflow.State.{pending}
use harness_loop_agent.Workflow.Checkpoint.{
  StoredWorkflow, StoredWait, WorkflowOwner, same_owner, validate_owner, validate_claim,
  validate_checkpoint,
}
use harness_loop_agent.Workflow.Store.{MemoryDurableStore, owned_run, waits_of, events_of}
use harness_loop_agent.Workflow.Store.Claims.{is_held, holds, ClaimRunRequest, claim_run}
use harness_loop_agent.Workflow.Store.Commit.{
  CommitExecutionRequest, commit_execution, resolve_wait, append_wait, validate_committed_events,
}

-- The run that an owner sees under an id, inverted.
pub owned_run-lookup :
    (s : MemoryDurableStore) (o : WorkflowOwner) (id : String) {run : StoredWorkflow}
    → owned_run s o id ≡ ok run
    → (lookup id s.runs ≡ some run) × (same_owner run.owner o ≡ true)
unfolding owned_run
owned_run-lookup s o id h = ground arith

-- What a successful `ClaimRun` does: the run was pending, at the expected version, and free; it has
-- the claim now, and nothing else has changed.
pub record Claimed (s : MemoryDurableStore) (q : ClaimRunRequest) (run : StoredWorkflow)
    (t : MemoryDurableStore) : Type 0 where
  pub before : StoredWorkflow
  pub owner : validate_owner q.owner ≡ ok tt
  pub owned : owned_run s q.owner q.run_id ≡ ok before
  pub status : before.checkpoint.control.status ≡ pending
  pub version : before.checkpoint.control.state_version ≡ q.expected_state_version
  pub free : is_held before.claim q.now ≡ false
  pub bounded : validate_claim q.claim q.now ≡ ok tt
  pub claimed : run ≡ record before { claim = some q.claim; updated_at = q.now }
  pub stored : t ≡ record s { runs = insert q.run_id run s.runs }

pub claim_run-Claimed :
    (s : MemoryDurableStore) (q : ClaimRunRequest) {run : StoredWorkflow} {t : MemoryDurableStore}
    → claim_run s q ≡ ok (run, t)
    → Claimed s q run t
unfolding claim_run
claim_run-Claimed s q h = elim (Result-cases (owned_run s q.owner q.run_id)) [
  | inr (e, x) ↦ absurd (ground arith)
  | inl (before, x) ↦ record {
    before = before;
    owner = ground arith;
    owned = x;
    status = ground arith;
    version = ground arith;
    free = ground arith;
    bounded = ground arith;
    claimed = ground arith;
    stored = ground arith;
  }
]

-- What a successful commit does: the claim was held under the token, the version was the expected
-- one and grows, the events fit, and the claim is gone.
pub record Committed (s : MemoryDurableStore) (q : CommitExecutionRequest) (t : MemoryDurableStore)
    : Type 0 where
  pub before : StoredWorkflow
  pub owned : owned_run s q.owner q.run_id ≡ ok before
  pub held : holds before.claim q.token q.now ≡ true
  pub version : before.checkpoint.control.state_version ≡ q.expected_state_version
  pub later : q.expected_state_version < q.checkpoint.control.state_version
  pub same_run : q.checkpoint.meta.run_id ≡ q.run_id
  pub valid : validate_checkpoint q.checkpoint ≡ ok tt
  pub counted :
      validate_committed_events before.checkpoint.control.event_sequence
        q.checkpoint.control.event_sequence q.run_id q.events
      ≡ ok tt
  pub stored :
      t.runs
      ≡ insert q.run_id
          (record before { checkpoint = q.checkpoint; claim = none; updated_at = q.now })
          s.runs
  pub resolved : List StoredWait
  pub waits : List StoredWait
  pub resolves : resolve_wait (waits_of s q.run_id) q ≡ ok resolved
  pub appended : append_wait resolved q ≡ ok waits
  pub waits_are : t.waits ≡ insert q.run_id waits s.waits
  pub events : t.events ≡ insert q.run_id (events_of s q.run_id ++ q.events) s.events

pub commit-Committed :
    (s : MemoryDurableStore) (q : CommitExecutionRequest) {t : MemoryDurableStore}
    → commit_execution s q ≡ ok t
    → Committed s q t
unfolding commit_execution
commit-Committed s q h = elim (Result-cases (owned_run s q.owner q.run_id)) [
  | inr (e, x) ↦ absurd (ground arith)
  | inl (before, x) ↦ elim (Result-cases (resolve_wait (waits_of s q.run_id) q)) [
    | inr (e, y) ↦ absurd (ground arith)
    | inl (ws, y) ↦ elim (Result-cases (append_wait ws q)) [
      | inr (e, z) ↦ absurd (ground arith)
      | inl (vs, z) ↦ record {
        before = before;
        owned = x;
        held = ground arith;
        version = ground arith;
        later = ground arith;
        same_run = ground (arith, eq_iff q.checkpoint.meta.run_id q.run_id);
        valid = ground arith;
        counted = ground arith;
        stored = ground arith;
        resolved = ws;
        waits = vs;
        resolves = y;
        appended = z;
        waits_are = ground arith;
        events = ground arith;
      }
    ]
  ]
]

module _ (s : MemoryDurableStore) (q : ClaimRunRequest) {run : StoredWorkflow}
    {t : MemoryDurableStore} (claimed : claim_run s q ≡ ok (run, t)) where
  lookup-claimed : lookup q.run_id t.runs ≡ some run
  lookup-claimed =
      let c = claim_run-Claimed s q claimed in
      ground (arith, lookup-insert_self q.run_id run s.runs)

  -- After `ClaimRun` has succeeded, no `ClaimRun` of the same run by anyone succeeds on the store
  -- it leaves at a time before the end of the lease.
  pub claim_run-exclusive :
      (q' : ClaimRunRequest) {r' : StoredWorkflow × MemoryDurableStore}
      → q'.run_id ≡ q.run_id
      → q'.now < q.claim.lease_until
      → claim_run t q' ≢ ok r'
  unfolding is_held
  claim_run-exclusive q' {r'} same early h =
      let c = claim_run-Claimed s q claimed in
      let c' = claim_run-Claimed t q' {run = r'.0} {t = r'.1} h in
      let found = owned_run-lookup t q'.owner q'.run_id c'.owned in
      ground (arith, lookup-claimed, found, c.claimed, c'.free)

  -- After `ClaimRun` has succeeded, a `ClaimRun` of the same run by the same owner at the same
  -- version, with a valid claim, at or after the end of the lease, succeeds on the store it leaves,
  -- and puts the new claim in the place of the old.
  pub claim_run-takeover :
      (q' : ClaimRunRequest)
      → q'.run_id ≡ q.run_id
      → q'.owner ≡ q.owner
      → q'.expected_state_version ≡ q.expected_state_version
      → q.claim.lease_until ≤ q'.now
      → validate_claim q'.claim q'.now ≡ ok tt
      → let run' = record run { claim = some q'.claim; updated_at = q'.now } in
        claim_run t q' ≡ ok (run', record t { runs = insert q.run_id run' t.runs })
  unfolding claim_run owned_run validate_claim
  claim_run-takeover q' same owner version late fits =
      let c = claim_run-Claimed s q claimed in
      let found = owned_run-lookup s q.owner q.run_id c.owned in
      ground (arith, lookup-claimed, found, c)

  -- After `ClaimRun` has succeeded, no commit of the same run under another token than that of the
  -- claim succeeds on the store it leaves.
  pub claim_run-fences :
      (c : CommitExecutionRequest) {u : MemoryDurableStore}
      → c.run_id ≡ q.run_id
      → c.token ≢ q.claim.token
      → commit_execution t c ≢ ok u
  unfolding holds
  claim_run-fences c same other h =
      let d = claim_run-Claimed s q claimed in
      let m = commit-Committed t c h in
      let found = owned_run-lookup t c.owner c.run_id m.owned in
      ground (arith, lookup-claimed, found, d.claimed, m.held, eq_iff q.claim.token c.token)

-- Once a commit of a run has succeeded, no commit of that run succeeds on the store it leaves,
-- under any token and at any time, before the run is claimed again.
pub commit_once :
    (s : MemoryDurableStore) (q q' : CommitExecutionRequest) {t u : MemoryDurableStore}
    → commit_execution s q ≡ ok t
    → q'.run_id ≡ q.run_id
    → commit_execution t q' ≢ ok u
unfolding holds
commit_once s q q' h same h' =
    let m = commit-Committed s q h in
    let m' = commit-Committed _ q' h' in
    let found = owned_run-lookup _ q'.owner q'.run_id m'.owned in
    ground (
      arith,
      lookup-insert_self q.run_id
          (record m.before { checkpoint = q.checkpoint; claim = none; updated_at = q.now }) s.runs,
      m.stored,
      found,
      m'.held,
    )
