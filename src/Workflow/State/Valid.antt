-- ===== src/Workflow/State/Valid.antt =====
-- What `WorkflowState.Validate` accepts, as a record of facts.
use harness_loop_agent.Base.{◌<◌, ◌≡◌, ◌↔◌, true, ok, arith, is_some}
use harness_loop_agent.Base.Word.{sign_bit}
use harness_loop_agent.Workflow.Ident.{valid_identifier}
use harness_loop_agent.Workflow.State.{
  is_suspended, valid_status, ControlState, WorkflowState, validate_metadata, validate_budget,
  validate_control, validate,
}

-- A wait point is there exactly while the run is suspended, at a named node.
pub record HasWait (c : ControlState) : Type 0 where
  pub present : is_some c.pending_wait ≡ is_suspended c.status
  pub at_node : is_suspended c.status ≡ true → valid_identifier c.current_node ≡ true

pub record Counters (c : ControlState) : Type 0 where
  pub steps : c.steps_executed < sign_bit
  pub resumes : c.resume_count < sign_bit
  pub events : c.event_sequence < sign_bit
  pub attempts : c.current_attempt < sign_bit

pub validate_control_iff :
    (c : ControlState)
    → (validate_control c ≡ ok tt) ↔ ((valid_status c.status ≡ true) × HasWait c × Counters c)
unfolding validate_control
validate_control_iff c = (λ h. ground arith, λ h. ground arith)

pub record IsValid {T : Type 0} (s : WorkflowState T) : Type 0 where
  pub meta : validate_metadata s.meta ≡ ok tt
  pub budget : validate_budget s.budget ≡ ok tt
  pub status : valid_status s.control.status ≡ true
  pub wait : HasWait s.control
  pub counters : Counters s.control

-- `Validate` accepts exactly the states whose metadata and budget pass their own checks, whose
-- status is a constant, whose counters are not negative, and which have a wait point exactly
-- while they are suspended, then at a named node.
pub validate-IsValid : {T : Type 0} (s : WorkflowState T) → (validate s ≡ ok tt) ↔ IsValid s
unfolding validate
validate-IsValid s = (
  λ h. ground (arith, validate_control_iff s.control),
  λ h. ground (arith, validate_control_iff s.control),
)
