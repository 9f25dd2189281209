-- ===== src/Workflow/Durable/Calls.antt =====
-- internal/workflow/durable_runtime.go: the methods of the runtime, cut at their early returns.
use harness_loop_agent.Base.{
  ◌+◌, String, Bool, not, List, Option, none, some, Result, ok, err, ◌>>◌, reject_if, if◌then◌else◌,
  str_eq,
}
use harness_loop_agent.Base.Word.{Time}
use harness_loop_agent.Workflow.Errors.{
  Error, workflow, contract_error, state_error, codec_incompatible,
}
use harness_loop_agent.Workflow.Ident.{valid_identifier}
use harness_loop_agent.Workflow.Wait.{ResumeCommand, validate_resume}
use harness_loop_agent.Workflow.State.{is_pending, is_suspended, WorkflowState}
use harness_loop_agent.Workflow.Event.{NodeEvent, new_memory_collector}
use harness_loop_agent.Workflow.Runner.{
  Runner, RunnerOptions, Context, Outcome, result_of, new_runner,
}
use harness_loop_agent.Workflow.Runner.Exec.{run, resume}
use harness_loop_agent.Workflow.Checkpoint.{
  WorkflowOwner, validate_owner, ActorRef, validate_actor, Claim, validate_claim, StoredWait,
  CheckpointEnvelope, StoredWorkflow, encode_checkpoint, decode_checkpoint,
}
use harness_loop_agent.Workflow.Store.Claims.{ClaimRunRequest, ClaimWaitRequest}
use harness_loop_agent.Workflow.Store.Commit.{CommitExecutionRequest}
use harness_loop_agent.Workflow.Durable.{
  DurableRuntime, Reply, full, bare, Observed, collect, beside, nodes_beside, token_of,
  StartWorkflowInput,
}

module _ {T W : Type 0} (ctx : Context W) (r : DurableRuntime T W) where
  abbrev pub runner_options : RunnerOptions (Observed W)
  runner_options = record { observer = some collect; now = some (beside r.now) }

  -- `runner.Run` or `runner.Resume`, by whether there is a command.
  abbrev pub run_or_resume :
      Runner T (Observed W)
      → WorkflowState T
      → Option ResumeCommand
      → Observed W
      → Outcome T (Observed W)
  run_or_resume runner s none world = run (beside ctx) runner s world
  run_or_resume runner s (some command) world = resume (beside ctx) runner s command world

  unfoldable pub commit_request :
      WorkflowOwner
      → StoredWorkflow
      → WorkflowState T
      → Option ResumeCommand
      → ActorRef
      → CheckpointEnvelope
      → List NodeEvent
      → Time
      → CommitExecutionRequest
  commit_request owner claimed s command actor envelope events now = record {
    owner = owner;
    run_id = s.meta.run_id;
    token = token_of claimed.claim;
    expected_state_version = s.control.state_version;
    checkpoint = envelope;
    events = events;
    resolved_wait_id = elim command [ none ↦ "" | some c ↦ c.wait_id ];
    resolved_action = elim command [ none ↦ none | some c ↦ some c.action ];
    actor = elim command [ none ↦ none | some c ↦ some actor ];
    now = now;
  }

  -- `execute` behind the run: the checkpoint is encoded and committed with the events.
  unfoldable pub commit_outcome :
      WorkflowOwner
      → StoredWorkflow
      → WorkflowState T
      → Option ResumeCommand
      → ActorRef
      → Outcome T (Observed W)
      → Reply T × Option Error × W
  unfolding commit_request
  commit_outcome owner claimed s command actor (result, run_err, (collector, w)) =
      elim (encode_checkpoint result.state r.codec r.max_checkpoint_bytes) [
        | err e ↦ (full result, some e, w)
        | ok envelope ↦
            let (now, w1) = r.now w in
            let q = commit_request owner claimed s command actor envelope collector.events now in
            let (committed, w2) = r.store.commit_execution q w1 in
            elim committed [ err e ↦ (full result, some e, w2) | ok _ ↦ (full result, run_err, w2) ]
      ]

  -- `execute`
  unfoldable pub execute :
      WorkflowOwner
      → StoredWorkflow
      → WorkflowState T
      → Option ResumeCommand
      → ActorRef
      → W
      → Reply T × Option Error × W
  execute owner claimed s command actor w =
      elim (new_runner (beside r.now) (nodes_beside r.nodes) runner_options) [
        | err e ↦ (full (result_of s), some e, w)
        | ok runner ↦
            commit_outcome owner claimed s command actor
              (run_or_resume runner s command (new_memory_collector, w))
      ]

  -- `newClaim`
  unfoldable pub new_claim : Time → W → Result Error Claim × W
  new_claim now w =
      let (token, w1) = r.new_claim_token w in
      let claim : Claim = record { token = token; lease_until = now + r.lease_duration } in
      ((do validate_claim claim now; ok claim), w1)

  unfoldable pub get : WorkflowOwner → String → W → Reply T × Option Error × W
  get owner run_id w =
      let (got, w1) = r.store.get_run owner run_id w in
      elim got [
        | err e ↦ (bare none, some e, w1)
        | ok stored ↦ elim (decode_checkpoint stored.checkpoint r.definition r.codec) [
          | err e ↦ (bare (some stored.checkpoint.control.status), some e, w1)
          | ok s ↦ (full (result_of s), none, w1)
        ]
      ]

  unfoldable pub get_current_wait : WorkflowOwner → String → W → Result Error StoredWait × W
  get_current_wait owner run_id w = r.store.get_current_wait owner run_id w

  unfoldable pub renew : WorkflowOwner → String → String → W → Result Error (Unit {0}) × W
  renew owner run_id token w =
      let (now, w1) = r.now w in
      r.store.renew_claim
        (record {
          owner = owner;
          run_id = run_id;
          token = token;
          until = now + r.lease_duration;
          now = now;
        })
        w1

  -- `Start` from the claim on, for the run that is stored.
  unfoldable pub claim_and_run :
      StartWorkflowInput T → StoredWorkflow → Time → W → Reply T × Option Error × W
  claim_and_run input stored now w =
      let given : Reply T = full (result_of input.state) in
      let (claim, w1) = new_claim now w in
      elim claim [
        | err e ↦ (given, some e, w1)
        | ok c ↦
            let q : ClaimRunRequest = record {
              owner = input.owner;
              run_id = stored.checkpoint.meta.run_id;
              expected_state_version = stored.checkpoint.control.state_version;
              claim = c;
              now = now;
            } in
            let (claimed, w2) = r.store.claim_run q w1 in
            elim claimed [
              | err e ↦ (given, some e, w2)
              | ok held ↦ elim (decode_checkpoint held.checkpoint r.definition r.codec) [
                | err e ↦ (given, some e, w2)
                | ok s ↦ execute input.owner held s none (record { kind = ""; id = "" }) w2
              ]
            ]
      ]

  -- `Start` behind `CreateRun`: a run that was stored before goes on only if it is pending.
  unfoldable pub start_stored :
      StartWorkflowInput T
      → StoredWorkflow
      → StoredWorkflow
      → Bool
      → Time
      → W
      → Reply T × Option Error × W
  start_stored input stored existing created now w =
      if created
      then claim_and_run input stored now w
      else elim (decode_checkpoint existing.checkpoint r.definition r.codec) [
        | err e ↦ (bare none, some e, w)
        | ok s ↦
            if not (is_pending s.control.status)
            then (full (result_of s), none, w)
            else claim_and_run input existing now w
      ]

  -- What `Start` checks before it touches the store.
  unfoldable pub start_envelope : StartWorkflowInput T → Result Error CheckpointEnvelope
  start_envelope input = do
    validate_owner input.owner
    reject_if (not (valid_identifier input.idempotency_key)) contract_error
    reject_if (not (str_eq input.state.meta.definition_version r.definition))
        (workflow codec_incompatible "")
    encode_checkpoint input.state r.codec r.max_checkpoint_bytes

  -- `Start`
  unfoldable pub start : StartWorkflowInput T → W → Reply T × Option Error × W
  start input w = elim (start_envelope input) [
    | err e ↦ (full (result_of input.state), some e, w)
    | ok envelope ↦
        let (now, w1) = r.now w in
        let stored : StoredWorkflow = record {
          owner = input.owner;
          idempotency_key = input.idempotency_key;
          checkpoint = envelope;
          claim = none;
          created_at = now;
          updated_at = now;
        } in
        let (made, w2) = r.store.create_run stored w1 in
        elim made [
          | err e ↦ (full (result_of input.state), some e, w2)
          | ok (existing, created) ↦ start_stored input stored existing created now w2
        ]
  ]

  -- `Resume` from the claim on.
  unfoldable pub claim_and_resume :
      WorkflowOwner
      → ActorRef
      → String
      → ResumeCommand
      → WorkflowState T
      → Time
      → W
      → Reply T × Option Error × W
  claim_and_resume owner actor run_id command s now w =
      let given : Reply T = full (result_of s) in
      let (claim, w1) = new_claim now w in
      elim claim [
        | err e ↦ (given, some e, w1)
        | ok c ↦
            let q : ClaimWaitRequest = record {
              owner = owner;
              run_id = run_id;
              expected_state_version = s.control.state_version;
              command = command;
              actor = actor;
              claim = c;
              now = now;
            } in
            let (claimed, w2) = r.store.claim_wait q w1 in
            elim claimed [
              | err e ↦ (given, some e, w2)
              | ok held ↦ elim (decode_checkpoint held.checkpoint r.definition r.codec) [
                | err e ↦ (given, some e, w2)
                | ok s' ↦ execute owner held s' (some command) actor w2
              ]
            ]
      ]

  -- `Resume` of a stored state.
  unfoldable pub resume_state :
      WorkflowOwner
      → ActorRef
      → String
      → ResumeCommand
      → WorkflowState T
      → W
      → Reply T × Option Error × W
  resume_state owner actor run_id command s w =
      if not (is_suspended s.control.status)
      then (full (result_of s), some state_error, w)
      else elim s.control.pending_wait [
        | none ↦ (full (result_of s), some state_error, w)
        | some wait ↦
            let (now, w1) = r.now w in
            elim (do validate_resume wait command now; validate_actor actor) [
              | err e ↦ (full (result_of s), some e, w1)
              | ok _ ↦ claim_and_resume owner actor run_id command s now w1
            ]
      ]

  -- `Resume`
  unfoldable pub resume_run :
      WorkflowOwner → ActorRef → String → ResumeCommand → W → Reply T × Option Error × W
  resume_run owner actor run_id command w =
      let (got, w1) = r.store.get_run owner run_id w in
      elim got [
        | err e ↦ (bare none, some e, w1)
        | ok stored ↦ elim (decode_checkpoint stored.checkpoint r.definition r.codec) [
          | err e ↦ (bare (some stored.checkpoint.control.status), some e, w1)
          | ok s ↦ resume_state owner actor run_id command s w1
        ]
      ]
