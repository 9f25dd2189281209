-- ===== src/Workflow/Store.antt =====
-- internal/workflow/memory_durable_store.go. Each method holds the mutex, so it is one step; it
-- returns an error before it writes, so an error comes without a store. A request is a record of
-- internal/workflow/durable.go.
pub mod Claims
pub mod Commit
pub mod Create
pub mod Leases
pub mod Waits
pub mod Sound
use harness_loop_agent.Base.{
  ℕ, zero, suc, ◌+◌, ◌-◌, ◌%◌, String, Bool, true, false, not, ◌||◌, ◌&&◌, List, [], ◌∷◌, ◌++◌,
  Option, none, some, Result, ok, err, ◌>>=◌, ◌>>◌, reject_if, or_fail, is_empty, is_some,
  if◌then◌else◌, str_eq, ltb, leb, ◌==◌, length, get_last?, set_last,
}
use harness_loop_agent.Base.Word.{Time, is_zero, after, inc, word_mod}
use harness_loop_agent.Base.Dict.{Dict, lookup, insert}
use harness_loop_agent.Workflow.Errors.{
  Error, workflow, contract_error, not_found, idempotency_conflict, claim_conflict, lease_lost,
  state_conflict,
}
use harness_loop_agent.Workflow.Ident.{valid_identifier, SourceRef}
use harness_loop_agent.Workflow.Wait.{WaitPoint, HumanAction, ResumeCommand, validate_resume}
use harness_loop_agent.Workflow.State.{ControlState, BudgetState, is_pending, is_suspended}
use harness_loop_agent.Workflow.Event.{NodeEvent, valid_event_type}
use harness_loop_agent.Workflow.Checkpoint.{
  Bytes, WorkflowOwner, same_owner, validate_owner, ActorRef, validate_actor, Claim, validate_claim,
  WaitStatus, processing, resolved, is_processing, wait_terminal, StoredWait, wait_transition,
  CheckpointEnvelope, validate_checkpoint, StoredWorkflow, validate_stored, max_lease_duration,
}
use harness_loop_agent.Workflow.Checkpoint

pub record MemoryDurableStore : Type 0 where
  pub runs : Dict StoredWorkflow
  pub waits : Dict (List StoredWait)
  pub events : Dict (List NodeEvent)

abbrev pub new_memory_durable_store : MemoryDurableStore
new_memory_durable_store = record { runs = []; waits = []; events = [] }

-- A missing key reads as nil.
abbrev pub or_nil {ℓ} : {A : Type ℓ} → Option (List A) → List A
or_nil none = []
or_nil (some xs) = xs

abbrev pub waits_of : MemoryDurableStore → String → List StoredWait
waits_of s run_id = or_nil (lookup run_id s.waits)

abbrev pub events_of : MemoryDurableStore → String → List NodeEvent
events_of s run_id = or_nil (lookup run_id s.events)

-- `bytes` under `reflect.DeepEqual`.
unfoldable pub same_bytes : Bytes → Bytes → Bool
same_bytes [] [] = true
same_bytes (a ∷ xs) (b ∷ ys) = (a == b) && same_bytes xs ys
same_bytes _ _ = false

unfoldable pub same_budget : BudgetState → BudgetState → Bool
same_budget a b =
    (a.max_steps == b.max_steps) && (a.max_resumes == b.max_resumes) && (a.deadline == b.deadline)

unfoldable pub same_source : SourceRef → SourceRef → Bool
same_source a b = str_eq a.kind b.kind && str_eq a.id b.id

unfoldable pub same_start_request : StoredWorkflow → StoredWorkflow → Bool
unfolding same_bytes same_budget same_source
same_start_request left right =
    let a = left.checkpoint in
    let b = right.checkpoint in
    str_eq a.meta.workflow_id b.meta.workflow_id
    && str_eq a.definition_version b.definition_version
    && str_eq a.schema_id b.schema_id
    && (a.schema_version == b.schema_version)
    && same_bytes a.body b.body
    && same_budget a.budget b.budget
    && same_source a.meta.source b.meta.source

-- The test of `CreateRun` on each stored run.
unfoldable pub same_key : StoredWorkflow → StoredWorkflow → Bool
unfolding same_owner
same_key existing run =
    same_owner existing.owner run.owner
    && str_eq existing.checkpoint.meta.workflow_id run.checkpoint.meta.workflow_id
    && str_eq existing.idempotency_key run.idempotency_key

-- `range s.runs`, up to the first run with the key.
unfoldable pub find_key : Dict StoredWorkflow → StoredWorkflow → Option StoredWorkflow
unfolding same_key
find_key [] run = none
find_key ((id, existing) ∷ m) run = if same_key existing run then some existing else find_key m run

abbrev pub replay_or_conflict :
    MemoryDurableStore
    → StoredWorkflow
    → StoredWorkflow
    → Result Error (StoredWorkflow × Bool × MemoryDurableStore)
replay_or_conflict s run existing =
    if same_start_request existing run
    then ok (existing, false, s)
    else err (workflow idempotency_conflict "")

abbrev pub create_new :
    MemoryDurableStore → StoredWorkflow → Result Error (StoredWorkflow × Bool × MemoryDurableStore)
create_new s run = do
  let run_id = run.checkpoint.meta.run_id
  reject_if (is_some (lookup run_id s.runs)) (workflow idempotency_conflict "")
  ok (run, true, record s { runs = insert run_id run s.runs })

-- `CreateRun`: the stored run, and whether it is new.
unfoldable pub create_run :
    MemoryDurableStore → StoredWorkflow → Result Error (StoredWorkflow × Bool × MemoryDurableStore)
create_run s run = do
  validate_stored run
  elim (find_key s.runs run) [
    | some existing ↦ replay_or_conflict s run existing
    | none ↦ create_new s run
  ]

-- `run, ok := s.runs[runID]; if !ok || run.Owner != owner`
unfoldable pub owned_run : MemoryDurableStore → WorkflowOwner → String → Result Error StoredWorkflow
unfolding same_owner
owned_run s owner run_id = do
  run ← or_fail (lookup run_id s.runs) (workflow not_found "")
  reject_if (not (same_owner run.owner owner)) (workflow not_found "")
  ok run

-- `GetRun`
abbrev pub get_run : MemoryDurableStore → WorkflowOwner → String → Result Error StoredWorkflow
get_run s owner run_id = owned_run s owner run_id

-- The loop of `GetCurrentWait`, from the last wait back.
unfoldable pub last_open : List StoredWait → Option StoredWait
unfolding wait_terminal
last_open [] = none
last_open (w ∷ ws) = elim (last_open ws) [
  | some v ↦ some v
  | none ↦ if wait_terminal w.status then none else some w
]

unfoldable pub get_current_wait :
    MemoryDurableStore → WorkflowOwner → String → Result Error StoredWait
get_current_wait s owner run_id = do
  run ← owned_run s owner run_id
  or_fail (last_open (waits_of s run_id)) (workflow not_found "")

-- `ListNodeEvents`
unfoldable pub list_node_events :
    MemoryDurableStore → WorkflowOwner → String → Result Error (List NodeEvent)
list_node_events s owner run_id = do run ← owned_run s owner run_id; ok (events_of s run_id)
