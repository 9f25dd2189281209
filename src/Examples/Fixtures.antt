-- ===== src/Examples/Fixtures.antt =====
-- A workflow of two nodes: one that drafts, and one that asks for an approval before it goes on.
use harness_loop_agent.Base.{ℕ, ◌+◌, List, [], ◌∷◌, none, some, Result, ok, err}
use harness_loop_agent.Workflow.Errors.{Error, contract_error}
use harness_loop_agent.Workflow.Wait.{WaitPoint, WaitKind, HumanAction, ResumeCommand}
use harness_loop_agent.Workflow.State.{
  RunStatus, RunMetadata, BudgetState, ControlState, WorkflowState,
}
use harness_loop_agent.Workflow.Node.{Node, NodeInput, NodeResult, Directive}
use harness_loop_agent.Workflow.Runner.{Runner, RunnerOptions, Clock, Context, noop_observer}
use harness_loop_agent.Workflow.Checkpoint.{
  WorkflowOwner, Claim, CheckpointEnvelope, StoredWorkflow, StateCodec, Bytes, ActorRef, StoredWait,
}
use harness_loop_agent.Workflow.Store.{MemoryDurableStore}
use harness_loop_agent.Workflow.Store.Claims.{ClaimRunRequest, ClaimWaitRequest}
use harness_loop_agent.Workflow.Store.Commit.{CommitExecutionRequest, new_wait}
use harness_loop_agent.Workflow.Store.Waits.{taken}
use harness_loop_agent.Workflow.Durable.{DurableRuntime, Observed, nodes_beside, beside, collect}
use harness_loop_agent.Workflow.Durable.Refusal.{memory_store}

abbrev pub minute : ℕ
minute = 60000000000

abbrev pub meta : RunMetadata
meta = record {
  workflow_id = "order";
  definition_version = "v1";
  run_id = "run-1";
  source = record { kind = ""; id = "" };
  started_at = 1;
}

abbrev pub pending_control : ControlState
pending_control = record {
  status = RunStatus.pending;
  current_node = "";
  completed_nodes = [];
  pending_wait = none;
  state_version = 1;
  steps_executed = 0;
  resume_count = 0;
  event_sequence = 0;
  current_attempt = 0;
}

abbrev pub budget : BudgetState
budget = record { max_steps = 5; max_resumes = 2; deadline = 0 }

abbrev pub fresh : WorkflowState ℕ
fresh = record { meta = meta; control = pending_control; budget = budget; body = 7 }

abbrev pub wait_point : WaitPoint
wait_point = record {
  id = "wait-1";
  run_id = "run-1";
  node_id = "ask";
  kind = WaitKind.approval;
  version = 3;
  content_hash = "hash";
  allowed_actions = HumanAction.approve ∷ HumanAction.reject ∷ [];
  payload_ref = "";
  expires_at = 10 + minute;
}

abbrev pub waiting_control : ControlState
waiting_control = record pending_control {
  status = RunStatus.suspended;
  current_node = "ask";
  completed_nodes = "draft" ∷ [];
  pending_wait = some wait_point;
  state_version = 6;
  steps_executed = 2;
}

abbrev pub waiting : WorkflowState ℕ
waiting = record fresh { control = waiting_control }

abbrev pub running_state : WorkflowState ℕ
running_state = record fresh { control = record pending_control { status = RunStatus.running } }

abbrev pub approval : ResumeCommand
approval = record {
  run_id = "run-1";
  wait_id = "wait-1";
  version = 3;
  content_hash = "hash";
  action = HumanAction.approve;
  payload_ref = "";
}

-- The world is the clock.
abbrev pub clock : Clock ℕ
clock w = (w, w + 1)

abbrev pub alive : Context ℕ
alive w = (none, w)

abbrev pub go_on : NodeInput ℕ → NodeResult ℕ
go_on given = record { state = given.state; directive = Directive.continue; wait = none }

abbrev pub draft : {W : Type 0} → Node ℕ W
draft = record { id = "draft"; execute = λ given w. (go_on given, none, w) }

abbrev pub answer : NodeInput ℕ → NodeResult ℕ
answer given = elim given.resume [
  | none ↦ record { state = given.state; directive = Directive.suspend; wait = some wait_point }
  | some _ ↦ go_on given
]

abbrev pub ask : {W : Type 0} → Node ℕ W
ask = record { id = "ask"; execute = λ given w. (answer given, none, w) }

abbrev pub both : {W : Type 0} → List (Node ℕ W)
both = draft ∷ ask ∷ []

abbrev pub plain : RunnerOptions ℕ
plain = record { observer = none; now = some clock }

abbrev pub runner : Runner ℕ ℕ
runner = record {
  nodes = both;
  indexes = ("ask", 1) ∷ ("draft", 0) ∷ [];
  observer = noop_observer;
  now = clock;
}

-- The body is a number below 256, as one byte.
abbrev pub decode_byte : Bytes → Result Error ℕ
decode_byte (b ∷ []) = ok b
decode_byte _ = err contract_error

abbrev pub codec : StateCodec ℕ
codec = record {
  schema_id = "order";
  schema_version = 1;
  encode = λ n. ok (n ∷ []);
  decode = decode_byte;
}

abbrev pub envelope : CheckpointEnvelope
envelope = record {
  schema_id = "order";
  schema_version = 1;
  definition_version = "v1";
  meta = meta;
  control = pending_control;
  budget = budget;
  body = 7 ∷ [];
}

abbrev pub owner : WorkflowOwner
owner = record { tenant_id = 1; owner_id = 2 }

abbrev pub actor : ActorRef
actor = record { kind = "user"; id = "2" }

abbrev pub stored : StoredWorkflow
stored = record {
  owner = owner;
  idempotency_key = "key";
  checkpoint = envelope;
  claim = none;
  created_at = 2;
  updated_at = 2;
}

abbrev pub holding : StoredWorkflow → MemoryDurableStore
holding run = record { runs = ("run-1", run) ∷ []; waits = []; events = [] }

abbrev pub first_claim : Claim
first_claim = record { token = "token-1"; lease_until = 3 + minute }

abbrev pub second_claim : Claim
second_claim = record { token = "token-2"; lease_until = 10 + minute + minute }

abbrev pub first_request : ClaimRunRequest
first_request = record {
  owner = owner;
  run_id = "run-1";
  expected_state_version = 1;
  claim = first_claim;
  now = 3;
}

-- Asked for while the first claim is held, and after it.
abbrev pub early_request : ClaimRunRequest
early_request = record first_request { claim = second_claim; now = 10 }

abbrev pub late_request : ClaimRunRequest
late_request = record first_request { claim = second_claim; now = 10 + minute }

abbrev pub claimed : StoredWorkflow
claimed = record stored { claim = some first_claim; updated_at = 3 }

-- The run after its first execution.
abbrev pub committed_envelope : CheckpointEnvelope
committed_envelope = record envelope { control = waiting_control }

abbrev pub first_commit : CommitExecutionRequest
first_commit = record {
  owner = owner;
  run_id = "run-1";
  token = "token-1";
  expected_state_version = 1;
  checkpoint = committed_envelope;
  events = [];
  resolved_wait_id = "";
  resolved_action = none;
  actor = none;
  now = 4;
}

-- A commit under a claim that has been superseded, or that never was.
abbrev pub foreign_commit : CommitExecutionRequest
foreign_commit = record first_commit { token = "token-2"; now = 5 }

abbrev pub committed : StoredWorkflow
committed = record claimed { checkpoint = committed_envelope; claim = none; updated_at = 4 }

abbrev pub open_wait : StoredWait
open_wait = new_wait wait_point

abbrev pub committed_store : MemoryDurableStore
committed_store = record {
  runs = ("run-1", committed) ∷ [];
  waits = ("run-1", open_wait ∷ []) ∷ [];
  events = ("run-1", []) ∷ [];
}

abbrev pub answer_request : ClaimWaitRequest
answer_request = record {
  owner = owner;
  run_id = "run-1";
  expected_state_version = 6;
  command = approval;
  actor = actor;
  claim = record { token = "token-3"; lease_until = 5 + minute };
  now = 5;
}

abbrev pub rival_request : ClaimWaitRequest
rival_request = record answer_request {
  claim = record { token = "token-4"; lease_until = 6 + minute };
  now = 6;
}

abbrev pub answered : StoredWorkflow
answered = record committed { claim = some answer_request.claim; updated_at = 5 }

abbrev pub answered_store : MemoryDurableStore
answered_store = record committed_store {
  runs = ("run-1", answered) ∷ [];
  waits = ("run-1", taken open_wait answer_request.claim ∷ []) ∷ [];
}

-- A runtime on the memory store; the world holds the store and the clock.
abbrev pub World : Type 0
World = MemoryDurableStore × ℕ

abbrev pub world_clock : Clock World
world_clock (s, t) = (t, (s, t + 1))

abbrev pub world_alive : Context World
world_alive w = (none, w)

abbrev pub runtime : DurableRuntime ℕ World
runtime = record {
  store = memory_store;
  nodes = both;
  codec = codec;
  definition = "v1";
  lease_duration = minute;
  max_checkpoint_bytes = 0;
  now = world_clock;
  new_claim_token = λ w. ("token-3", w);
}

abbrev pub runtime_runner : Runner ℕ (Observed World)
runtime_runner = record {
  nodes = nodes_beside both;
  indexes = ("ask", 1) ∷ ("draft", 0) ∷ [];
  observer = collect;
  now = beside world_clock;
}

-- The run waits again, and both its resumes are used up.
abbrev pub used_up : WorkflowState ℕ
used_up = record waiting { control = record waiting_control { resume_count = 2 } }

abbrev pub used_up_run : StoredWorkflow
used_up_run = record answered { checkpoint = record envelope { control = used_up.control } }

abbrev pub used_up_store : MemoryDurableStore
used_up_store = record answered_store { runs = ("run-1", used_up_run) ∷ [] }
