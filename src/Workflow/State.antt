-- ===== src/Workflow/State.antt =====
-- internal/workflow/state.go: the state of a run and its life cycle. Counters are bit patterns of
-- Go's `int`, `int64` and `uint64`; `other` is a text that is none of the status constants.
pub mod Lifecycle
pub mod Valid
use harness_loop_agent.Base.{
  ℕ, String, Bool, true, false, not, ◌||◌, ◌&&◌, List, [], ◌∷◌, Option, none, some, Result, ok, err,
  ◌>>=◌, ◌>>◌, reject_if, is_none, is_some, if◌then◌else◌,
}
use harness_loop_agent.Base.Word.{Time, is_zero, inc, is_negative}
use harness_loop_agent.Workflow.Errors.{Error, contract_error, state_error}
use harness_loop_agent.Workflow.Ident.{SourceRef, valid_identifier, validate_source}
use harness_loop_agent.Workflow.Wait.{WaitPoint}

pub data RunStatus : Type 0 where
  pending running suspended completed failed cancelled expired : RunStatus
  other : String → RunStatus

unfoldable pub valid_status : RunStatus → Bool
valid_status (other _) = false
valid_status _ = true

unfoldable pub terminal : RunStatus → Bool
terminal completed = true
terminal failed = true
terminal cancelled = true
terminal expired = true
terminal _ = false

abbrev pub is_suspended : RunStatus → Bool
is_suspended suspended = true
is_suspended _ = false

abbrev pub is_pending : RunStatus → Bool
is_pending pending = true
is_pending _ = false

abbrev pub is_running : RunStatus → Bool
is_running running = true
is_running _ = false

unfoldable pub allowed_transition : RunStatus → RunStatus → Bool
allowed_transition pending running = true
allowed_transition pending cancelled = true
allowed_transition pending expired = true
allowed_transition running suspended = true
allowed_transition running completed = true
allowed_transition running failed = true
allowed_transition running cancelled = true
allowed_transition running expired = true
allowed_transition suspended running = true
allowed_transition suspended failed = true
allowed_transition suspended cancelled = true
allowed_transition suspended expired = true
allowed_transition _ _ = false

pub record RunMetadata : Type 0 where
  pub workflow_id : String
  pub definition_version : String
  pub run_id : String
  pub source : SourceRef
  pub started_at : Time

unfoldable pub validate_metadata : RunMetadata → Result Error (Unit {0})
validate_metadata m = do
  reject_if
      (not (valid_identifier m.workflow_id)
        || not (valid_identifier m.definition_version)
        || not (valid_identifier m.run_id))
      contract_error
  reject_if (is_zero m.started_at) contract_error
  validate_source m.source

pub record BudgetState : Type 0 where
  pub max_steps : ℕ  -- int
  pub max_resumes : ℕ  -- int
  pub deadline : Time

unfoldable pub validate_budget : BudgetState → Result Error (Unit {0})
validate_budget b = reject_if (is_negative b.max_steps || is_negative b.max_resumes) contract_error

pub record ControlState : Type 0 where
  pub status : RunStatus
  pub current_node : String
  pub completed_nodes : List String
  pub pending_wait : Option WaitPoint
  pub state_version : ℕ  -- uint64
  pub steps_executed : ℕ  -- int
  pub resume_count : ℕ  -- int
  pub event_sequence : ℕ  -- int64
  pub current_attempt : ℕ  -- int

-- `Transition`; on an error the state stays as it was.
unfoldable pub transition : ControlState → RunStatus → Result Error ControlState
unfolding allowed_transition valid_status
transition s next = do
  reject_if
      (not (valid_status s.status)
        || not (valid_status next)
        || not (allowed_transition s.status next))
      state_error
  ok (record s { status = next; state_version = inc s.state_version })

unfoldable pub touch : ControlState → ControlState
touch s = record s { state_version = inc s.state_version }

-- `Data` is the field `body`.
pub record WorkflowState (T : Type 0) : Type 0 where
  pub meta : RunMetadata
  pub control : ControlState
  pub budget : BudgetState
  pub body : T

unfoldable pub validate_control : ControlState → Result Error (Unit {0})
unfolding valid_status
validate_control c = do
  reject_if (not (valid_status c.status)) state_error
  reject_if
      (is_negative c.steps_executed
        || is_negative c.resume_count
        || is_negative c.event_sequence
        || is_negative c.current_attempt)
      state_error
  reject_if
      (if is_suspended c.status
        then is_none c.pending_wait || not (valid_identifier c.current_node)
        else is_some c.pending_wait)
      state_error

-- The method `Validate`; its tests on the control state are `validate_control`.
unfoldable pub validate : {T : Type 0} → WorkflowState T → Result Error (Unit {0})
unfolding validate_control
validate s = do validate_metadata s.meta; validate_budget s.budget; validate_control s.control
