-- ===== src/Workflow/Durable.antt =====
-- internal/workflow/durable_runtime.go. The store is an interface: its calls act on the world, and
-- so do the clock, the source of tokens and the nodes. The actor that the context carries to the
-- nodes is not modelled: a node's call takes it from the world.
pub mod Calls
pub mod Events
pub mod Observed
pub mod Commits
pub mod Refusal
use harness_loop_agent.Base.{
  ℕ, ◌+◌, ◌<◌, String, Bool, true, false, not, ◌||◌, List, [], ◌∷◌, map, Option, none, some, Result,
  ok, err, ◌>>=◌, ◌>>◌, reject_if, is_none, is_some, if◌then◌else◌, str_eq, ltb,
}
use harness_loop_agent.Base.Word.{Time}
use harness_loop_agent.Workflow.Errors.{
  Error, workflow, contract_error, state_error, codec_incompatible,
}
use harness_loop_agent.Workflow.Ident.{valid_identifier}
use harness_loop_agent.Workflow.Wait.{WaitPoint, ResumeCommand, validate_resume}
use harness_loop_agent.Workflow.State.{RunStatus, is_pending, is_suspended, WorkflowState}
use harness_loop_agent.Workflow.Event.{NodeEvent, MemoryCollector, new_memory_collector, observe}
use harness_loop_agent.Workflow.Node.{Node, NodeInput, NodeResult, RunResult}
use harness_loop_agent.Workflow.Runner.{
  Runner, RunnerOptions, Clock, Context, Observer, Outcome, result_of, new_runner,
}
use harness_loop_agent.Workflow.Runner.Exec.{run, resume}
use harness_loop_agent.Workflow.Checkpoint.{
  WorkflowOwner, validate_owner, ActorRef, validate_actor, Claim, validate_claim, StoredWait,
  CheckpointEnvelope, StoredWorkflow, StateCodec, encode_checkpoint, decode_checkpoint,
  min_lease_duration, max_lease_duration,
}
use harness_loop_agent.Workflow.Store.Claims.{ClaimRunRequest, ClaimWaitRequest, RenewClaimRequest}
use harness_loop_agent.Workflow.Store.Commit.{CommitExecutionRequest}

-- The interface `DurableStore` of internal/workflow/durable.go, as the runtime calls it.
pub record DurableStore (W : Type 0) : Type 0 where
  pub create_run : StoredWorkflow → W → Result Error (StoredWorkflow × Bool) × W
  pub get_run : WorkflowOwner → String → W → Result Error StoredWorkflow × W
  pub get_current_wait : WorkflowOwner → String → W → Result Error StoredWait × W
  pub claim_run : ClaimRunRequest → W → Result Error StoredWorkflow × W
  pub claim_wait : ClaimWaitRequest → W → Result Error StoredWorkflow × W
  pub renew_claim : RenewClaimRequest → W → Result Error (Unit {0}) × W
  pub commit_execution : CommitExecutionRequest → W → Result Error (Unit {0}) × W

pub record DurableRuntime (T W : Type 0) : Type 0 where
  pub store : DurableStore W
  pub nodes : List (Node T W)
  pub codec : StateCodec T
  pub definition : String
  pub lease_duration : ℕ
  pub max_checkpoint_bytes : ℕ  -- int
  pub now : Clock W
  pub new_claim_token : W → String × W

-- What a method returns beside the error: `bare` is a result whose state is the zero value, with
-- the given status, or the empty one.
pub data Reply (T : Type 0) : Type 0 where
  full : RunResult T → Reply T
  bare : Option RunStatus → Reply T

-- The observer is the collector, which stands in the world beside the rest.
abbrev pub Observed : Type 0 → Type 0
Observed W = MemoryCollector × W

abbrev pub collected :
    {W : Type 0} → W → MemoryCollector → Result Error MemoryCollector → Option Error × Observed W
collected w c (ok d) = (none, (d, w))
collected w c (err e) = (some e, (c, w))

abbrev pub collect : {W : Type 0} → Observer (Observed W)
collect event (c, w) = collected w c (observe c event)

-- A call on the rest of the world leaves the collector alone.
abbrev pub beside {ℓ} : {A : Type ℓ} {W : Type 0} → (W → A × W) → Observed W → A × Observed W
beside f (c, w) = let (a, w') = f w in (a, (c, w'))

abbrev pub node_beside : {T W : Type 0} → Node T W → Node T (Observed W)
node_beside n = record {
  id = n.id;
  execute = λ given world.
      let (output, failure, w') = n.execute given world.1 in (output, failure, (world.0, w'));
}

abbrev pub nodes_beside : {T W : Type 0} → List (Node T W) → List (Node T (Observed W))
nodes_beside [] = []
nodes_beside (n ∷ ns) = node_beside n ∷ nodes_beside ns

-- The parts of `NewDurableRuntime` that can fail; the store and the codec are there.
unfoldable pub new_durable_runtime :
    {T W : Type 0} → DurableRuntime T W → Result Error (DurableRuntime T W)
new_durable_runtime {W} r = do
  reject_if (not (valid_identifier r.definition)) contract_error
  checked ← new_runner r.now r.nodes (record { observer = none; now = none })
  reject_if (ltb r.lease_duration min_lease_duration || ltb max_lease_duration r.lease_duration)
      contract_error
  ok r

abbrev pub token_of : Option Claim → String
token_of none = ""
token_of (some c) = c.token

pub record StartWorkflowInput (T : Type 0) : Type 0 where
  pub owner : WorkflowOwner
  pub idempotency_key : String
  pub state : WorkflowState T
