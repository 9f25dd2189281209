-- ===== src/Workflow/Store/Commit.antt =====
-- internal/workflow/memory_durable_store.go: `CommitExecution`.
use harness_loop_agent.Base.{
  ℕ, ◌+◌, ◌-◌, ◌%◌, String, Bool, false, not, ◌||◌, ◌&&◌, List, [], ◌∷◌, ◌++◌, Option, none, some,
  Result, ok, err, ◌>>=◌, ◌>>◌, reject_if, or_fail, is_empty, if◌then◌else◌, str_eq, leb, ◌==◌,
  length, get_last?, set_last,
}
use harness_loop_agent.Base.Word.{Time, is_zero, inc, word_mod}
use harness_loop_agent.Base.Dict.{insert}
use harness_loop_agent.Workflow.Errors.{Error, workflow, contract_error, lease_lost, state_conflict}
use harness_loop_agent.Workflow.Ident.{valid_identifier}
use harness_loop_agent.Workflow.Wait.{WaitPoint, HumanAction}
use harness_loop_agent.Workflow.State.{is_suspended}
use harness_loop_agent.Workflow.Event.{NodeEvent, valid_event_type}
use harness_loop_agent.Workflow.Checkpoint.{
  WorkflowOwner, ActorRef, validate_actor, WaitStatus, resolved, is_processing, StoredWait,
  wait_transition, CheckpointEnvelope, validate_checkpoint,
}
use harness_loop_agent.Workflow.Store.{MemoryDurableStore, waits_of, events_of, owned_run}
use harness_loop_agent.Workflow.Store.Claims.{holds}

pub record CommitExecutionRequest : Type 0 where
  pub owner : WorkflowOwner
  pub run_id : String
  pub token : String
  pub expected_state_version : ℕ  -- uint64
  pub checkpoint : CheckpointEnvelope
  pub events : List NodeEvent
  pub resolved_wait_id : String
  pub resolved_action : Option HumanAction
  pub actor : Option ActorRef
  pub now : Time

-- The loop of `validateCommittedEvents`; `number` is the sequence that the next event must have.
unfoldable pub check_events : ℕ → String → List NodeEvent → Result Error (Unit {0})
check_events number run_id [] = ok tt
check_events number run_id (e ∷ es) = do
  reject_if
      (not (str_eq e.run_id run_id)
        || not (e.sequence == number)
        || not (valid_event_type e.kind)
        || not (valid_identifier e.workflow_id)
        || not (valid_identifier e.node_id))
      (workflow state_conflict "")
  check_events (inc number) run_id es

-- `validateCommittedEvents`; `final-previous` is taken modulo 2 ^ 64.
unfoldable pub validate_committed_events : ℕ → ℕ → String → List NodeEvent → Result Error (Unit {0})
unfolding check_events
validate_committed_events previous final run_id events =
    if is_empty events && (final == previous) then ok tt else (do
      reject_if (is_empty events || not (length events == (final + word_mod - previous) % word_mod))
          (workflow state_conflict "")
      check_events (inc previous) run_id events)

-- `_ = wait.Transition(WaitResolved)`: a refusal leaves the wait.
abbrev transitioned : StoredWait → Result Error StoredWait → StoredWait
transitioned w (ok v) = v
transitioned w (err e) = w

abbrev claimed_by : StoredWait → String → Bool
claimed_by w token = elim w.claim [ none ↦ false | some c ↦ str_eq c.token token ]

-- `request.Actor.Validate() != nil` has an error of its own.
abbrev mask : Result Error (Unit {0}) → Result Error (Unit {0})
mask (ok u) = ok u
mask (err e) = err contract_error

unfoldable pub resolve_wait :
    List StoredWait → CommitExecutionRequest → Result Error (List StoredWait)
resolve_wait waits q = if str_eq q.resolved_wait_id "" then ok waits else (do
  wait ← or_fail (get_last? waits) (workflow state_conflict "")
  reject_if
      (not (str_eq wait.point.id q.resolved_wait_id)
        || not (is_processing wait.status)
        || not (claimed_by wait q.token))
      (workflow state_conflict "")
  actor ← or_fail q.actor contract_error
  mask (validate_actor actor)
  let done = record (transitioned wait (wait_transition wait resolved)) {
    resolved_action = q.resolved_action;
    resolved_at = q.now;
    resolved_by = some actor;
  }
  ok (set_last waits done))

abbrev pub is_last : List StoredWait → String → Bool
is_last waits id = elim (get_last? waits) [ none ↦ false | some w ↦ str_eq w.point.id id ]

abbrev pub new_wait : WaitPoint → StoredWait
new_wait point = record {
  point = point;
  status = WaitStatus.pending;
  record_version = 1;
  claim = none;
  resolved_action = none;
  resolved_by = none;
  resolved_at = 0;
}

-- The wait of a suspended checkpoint is stored behind the others.
unfoldable pub append_wait :
    List StoredWait → CommitExecutionRequest → Result Error (List StoredWait)
append_wait waits q =
    if is_suspended q.checkpoint.control.status
    then (do
      point ← or_fail q.checkpoint.control.pending_wait (workflow state_conflict "")
      reject_if (is_last waits point.id) (workflow state_conflict "")
      ok (waits ++ new_wait point ∷ []))
    else ok waits

-- `CommitExecution`
unfoldable pub commit_execution :
    MemoryDurableStore → CommitExecutionRequest → Result Error MemoryDurableStore
commit_execution s q = do
  reject_if (is_zero q.now || not (valid_identifier q.token)) contract_error
  validate_checkpoint q.checkpoint
  run ← owned_run s q.owner q.run_id
  reject_if (not (holds run.claim q.token q.now)) (workflow lease_lost "")
  reject_if (not (run.checkpoint.control.state_version == q.expected_state_version))
      (workflow state_conflict "")
  reject_if
      (not (str_eq q.checkpoint.meta.run_id q.run_id)
        || leb q.checkpoint.control.state_version q.expected_state_version)
      (workflow state_conflict "")
  validate_committed_events run.checkpoint.control.event_sequence
      q.checkpoint.control.event_sequence q.run_id q.events
  resolved_waits ← resolve_wait (waits_of s q.run_id) q
  waits ← append_wait resolved_waits q
  let committed = record run { checkpoint = q.checkpoint; claim = none; updated_at = q.now }
  ok (record {
    runs = insert q.run_id committed s.runs;
    waits = insert q.run_id waits s.waits;
    events = insert q.run_id (events_of s q.run_id ++ q.events) s.events;
  })
