-- ===== src/Workflow/Durable/Refusal.antt =====
-- A resume that the runner refuses, seen from the runtime: `execute` commits the state all the same,
-- and the store refuses a checkpoint that is no later than the stored one.
use harness_loop_agent.Base.{◌≡◌, Bool, true, false, Option, some, Result, ok, err, arith}
use harness_loop_agent.Base.Word.{is_zero}
use harness_loop_agent.Workflow.Errors.{Error, workflow, state_conflict}
use harness_loop_agent.Workflow.Ident.{valid_identifier}
use harness_loop_agent.Workflow.Wait.{ResumeCommand}
use harness_loop_agent.Workflow.State.{WorkflowState}
use harness_loop_agent.Workflow.Event.{MemoryCollector, new_memory_collector}
use harness_loop_agent.Workflow.Runner.{Runner, Context, result_of, new_runner}
use harness_loop_agent.Workflow.Checkpoint.{
  WorkflowOwner, ActorRef, StoredWorkflow, CheckpointEnvelope, encode_checkpoint, envelope_of,
  validate_checkpoint,
}
use harness_loop_agent.Workflow.Checkpoint.RoundTrip.{encode_parts}
use harness_loop_agent.Workflow.Store.{
  MemoryDurableStore, create_run, owned_run, get_run, get_current_wait,
}
use harness_loop_agent.Workflow.Store.Claims.{holds, claim_run, claim_wait, renew_claim}
use harness_loop_agent.Workflow.Store.Commit.{CommitExecutionRequest, commit_execution}
use harness_loop_agent.Workflow.Durable.{
  DurableStore, DurableRuntime, full, Observed, beside, nodes_beside, token_of,
}
use harness_loop_agent.Workflow.Durable.Calls.{
  execute, commit_outcome, commit_request, run_or_resume, runner_options,
}

-- The memory store as the runtime's store, beside whatever else the world holds. A call that fails
-- leaves the store as it was.
abbrev with_store {ℓ} :
    {A : Type ℓ} {V : Type 0}
    → MemoryDurableStore × V
    → Result Error (A × MemoryDurableStore)
    → Result Error A × (MemoryDurableStore × V)
with_store (s, v) (ok (a, t)) = (ok a, (t, v))
with_store (s, v) (err e) = (err e, (s, v))

abbrev read_store {ℓ} :
    {A : Type ℓ} {V : Type 0}
    → MemoryDurableStore × V
    → Result Error A
    → Result Error A × (MemoryDurableStore × V)
read_store w r = (r, w)

abbrev write_store :
    {V : Type 0}
    → MemoryDurableStore × V
    → Result Error MemoryDurableStore
    → Result Error (Unit {0}) × (MemoryDurableStore × V)
write_store (s, v) (ok t) = (ok tt, (t, v))
write_store (s, v) (err e) = (err e, (s, v))

abbrev create_store :
    {V : Type 0}
    → MemoryDurableStore × V
    → Result Error (StoredWorkflow × Bool × MemoryDurableStore)
    → Result Error (StoredWorkflow × Bool) × (MemoryDurableStore × V)
create_store (s, v) (ok (r, new, t)) = (ok (r, new), (t, v))
create_store (s, v) (err e) = (err e, (s, v))

unfoldable pub memory_store : {V : Type 0} → DurableStore (MemoryDurableStore × V)
memory_store = record {
  create_run = λ run w. create_store w (create_run w.0 run);
  get_run = λ owner id w. read_store w (get_run w.0 owner id);
  get_current_wait = λ owner id w. read_store w (get_current_wait w.0 owner id);
  claim_run = λ q w. with_store w (claim_run w.0 q);
  claim_wait = λ q w. with_store w (claim_wait w.0 q);
  renew_claim = λ q w. write_store w (renew_claim w.0 q);
  commit_execution = λ q w. write_store w (commit_execution w.0 q);
}

-- A commit of a state that has not moved on is a state conflict, when everything before it is in
-- order: the run is there and held under the token at the expected version.
pub commit_unmoved :
    (s : MemoryDurableStore) (q : CommitExecutionRequest) (run : StoredWorkflow)
    → is_zero q.now ≡ false
    → valid_identifier q.token ≡ true
    → validate_checkpoint q.checkpoint ≡ ok tt
    → owned_run s q.owner q.run_id ≡ ok run
    → holds run.claim q.token q.now ≡ true
    → run.checkpoint.control.state_version ≡ q.expected_state_version
    → q.checkpoint.control.state_version ≡ q.expected_state_version
    → commit_execution s q ≡ err (workflow state_conflict "")
unfolding commit_execution
commit_unmoved s q run z i v o h e e' = ground arith

module _ {T V : Type 0} (ctx : Context (MemoryDurableStore × V))
    (r : DurableRuntime T (MemoryDurableStore × V)) (stored_in : r.store ≡ memory_store)
    {runner : Runner T (Observed (MemoryDurableStore × V))}
    (built : new_runner (beside r.now) (nodes_beside r.nodes) (runner_options ctx r)
      ≡ ok runner) where
  -- On a runtime over the memory store, if the runner returns the state as it was with an error
  -- `e`, while the state can be encoded, the token is a valid identifier, and the stored run is
  -- held under it at the version of the state when the clock is read next, then `execute` returns
  -- the state with a state conflict in the place of `e`, and the store as it was at that reading of
  -- the clock: the claim stays.
  pub execute-refused :
      (owner : WorkflowOwner) (claimed stored : StoredWorkflow) (s : WorkflowState T)
      (command : Option ResumeCommand) (actor : ActorRef) (w w' : MemoryDurableStore × V)
      (c : MemoryCollector) (e : Error) (envelope : CheckpointEnvelope)
      → run_or_resume ctx r runner s command (new_memory_collector, w)
        ≡ (result_of s, some e, (c, w'))
      → encode_checkpoint s r.codec r.max_checkpoint_bytes ≡ ok envelope
      → let (now, w1) = r.now w' in
        is_zero now ≡ false
        → valid_identifier (token_of claimed.claim) ≡ true
        → owned_run w1.0 owner s.meta.run_id ≡ ok stored
        → holds stored.claim (token_of claimed.claim) now ≡ true
        → stored.checkpoint.control.state_version ≡ s.control.state_version
        → execute ctx r owner claimed s command actor w
          ≡ (full (result_of s), some (workflow state_conflict ""), w1)
  unfolding execute commit_outcome commit_request envelope_of memory_store
  execute-refused owner claimed stored s command actor w w' c e envelope ran enc z i o h v =
      let (raw, q, fits, valid, ve, shape) = encode_parts r.codec s r.max_checkpoint_bytes enc in
      let now = r.now w' in
      let request = commit_request ctx r owner claimed s command actor envelope c.events now.0 in
      let refused : commit_execution now.1.0 request ≡ err (workflow state_conflict "") =
        commit_unmoved now.1.0 request stored z i ve o h v (ground (arith, shape)) in
      ground (arith, refused, built, ran, enc, stored_in)
