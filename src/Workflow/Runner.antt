-- ===== src/Workflow/Runner.antt =====
-- internal/workflow/runner.go. The clock, the observer, the context and the nodes act on a world
-- `W`, which each call passes on. A method returns the result, the error if there is one, and the
-- world. The loop of `executeFrom` recurs on the nodes that are left.
pub mod Exec
pub mod Shape
pub mod Build
pub mod Outcome
pub mod Cases
pub mod Loop
pub mod Progress
use harness_loop_agent.Base.{
  ℕ, zero, suc, ◌-◌, String, Bool, true, false, not, ◌||◌, ◌&&◌, List, [], ◌∷◌, ◌++◌, Option, none,
  some, Result, ok, err, ◌>>=◌, ◌>>◌, reject_if, if◌then◌else◌, is_empty, is_some, drop, str_eq,
  ◌==◌,
}
use harness_loop_agent.Base.Word.{Time, is_zero, before, inc, slt, sle}
use harness_loop_agent.Base.Dict.{Dict, lookup}
use harness_loop_agent.Workflow.Errors.{
  Error, ErrorCode, workflow, wrapping, joins, contract_error, state_error, step_budget,
  resume_budget, timeout, cancelled, observer_failed, invalid_resume, deadline_exceeded,
  is_deadline, code_of, normalize_node_error,
}
use harness_loop_agent.Workflow.Ident.{valid_identifier}
use harness_loop_agent.Workflow.Wait.{WaitPoint, ResumeCommand, validate_wait, validate_resume}
use harness_loop_agent.Workflow.State.{
  RunStatus, pending, running, suspended, completed, failed, expired, is_pending, is_suspended,
  is_running, ControlState, WorkflowState, transition, touch, validate,
}
use harness_loop_agent.Workflow.State
use harness_loop_agent.Workflow.Event.{
  NodeEventType, NodeEvent, node_started, node_completed, node_suspended, node_resumed, node_failed,
}
use harness_loop_agent.Workflow.Node.{
  Directive, continue, suspend, NodeInput, NodeResult, RunResult, Node,
}

abbrev pub Observer : Type 0 → Type 0
Observer W = NodeEvent → W → Option Error × W

abbrev pub Clock : Type 0 → Type 0
Clock W = W → Time × W

-- `ctx.Err()`
abbrev pub Context : Type 0 → Type 0
Context W = W → Option Error × W

pub record RunnerOptions (W : Type 0) : Type 0 where
  pub observer : Option (Observer W)
  pub now : Option (Clock W)

pub record Runner (T W : Type 0) : Type 0 where
  pub nodes : List (Node T W)
  pub indexes : Dict ℕ
  pub observer : Observer W
  pub now : Clock W

-- `NoopObserver`
abbrev pub noop_observer : {W : Type 0} → Observer W
noop_observer event w = (none, w)

abbrev pub or_default {ℓ} : {A : Type ℓ} → Option A → A → A
or_default none d = d
or_default (some a) d = a

module _ {T W : Type 0} where
  -- The loop of `NewRunner`; a key is new when it is written, so the map grows at its front.
  unfoldable pub index_nodes : ℕ → Dict ℕ → List (Node T W) → Result Error (Dict ℕ)
  index_nodes i indexes [] = ok indexes
  index_nodes i indexes (n ∷ ns) = do
    reject_if (not (valid_identifier n.id)) contract_error
    reject_if (is_some (lookup n.id indexes)) contract_error
    index_nodes (suc i) ((n.id, i) ∷ indexes) ns

  unfoldable pub new_runner :
      Clock W → List (Node T W) → RunnerOptions W → Result Error (Runner T W)
  unfolding index_nodes
  new_runner system_clock nodes options = do
    reject_if (is_empty nodes) contract_error
    indexes ← index_nodes 0 [] nodes
    ok (record {
      nodes = nodes;
      indexes = indexes;
      observer = or_default options.observer noop_observer;
      now = or_default options.now system_clock;
    })

abbrev expiry : Option ErrorCode → RunStatus
expiry (some cancelled) = State.cancelled
expiry (some timeout) = expired
expiry _ = failed

-- `statusForError`
unfoldable pub status_for_error : Error → RunStatus
status_for_error e = expiry (code_of e)

-- `budget > 0 && used >= budget`
unfoldable pub over_budget : ℕ → ℕ → Bool
over_budget budget used = slt 0 budget && sle budget used

-- `&Error{Code: …, NodeID: node, Err: err}` for an error of the context.
unfoldable pub context_failure : String → Error → Error
unfolding is_deadline
context_failure node e =
    if is_deadline e then wrapping timeout node e else wrapping cancelled node e

abbrev pub Outcome : Type 0 → Type 0 → Type 0
Outcome T W = RunResult T × Option Error × W

-- `RunResult[T]{State: state, Status: state.Control.Status}`
abbrev pub result_of : {T : Type 0} → WorkflowState T → RunResult T
result_of s = record { state = s; status = s.control.status }

-- The two counters that `emit` moves before it observes.
unfoldable pub count_event : {T : Type 0} → WorkflowState T → WorkflowState T
unfolding touch
count_event s = record s {
  control = touch (record s.control { event_sequence = inc s.control.event_sequence });
}

unfoldable pub event_of :
    {T : Type 0}
    → WorkflowState T
    → NodeEventType
    → String
    → String
    → Option ErrorCode
    → ℕ
    → Time
    → NodeEvent
event_of s kind node wait code duration at = record {
  sequence = s.control.event_sequence;
  workflow_id = s.meta.workflow_id;
  run_id = s.meta.run_id;
  node_id = node;
  kind = kind;
  status = s.control.status;
  attempt = s.control.current_attempt;
  resume_count = s.control.resume_count;
  wait_id = wait;
  error_code = code;
  duration = duration;
  occurred_at = at;
}

module _ {T W : Type 0} (ctx : Context W) (r : Runner T W) where
  -- `contextOrDeadlineError`
  unfoldable pub context_or_deadline_error : WorkflowState T → W → Option Error × W
  unfolding context_failure
  context_or_deadline_error s w =
      let (e, w1) = ctx w in
      elim e [
        | some cause ↦ (some (context_failure s.control.current_node cause), w1)
        | none ↦
            if is_zero s.budget.deadline
            then (none, w1)
            else (let (t, w2) = r.now w1 in
                if before t s.budget.deadline
                then (none, w2)
                else (some (wrapping timeout s.control.current_node deadline_exceeded), w2))
      ]

  -- `emit`
  unfoldable pub emit :
      WorkflowState T
      → NodeEventType
      → String
      → String
      → Option ErrorCode
      → ℕ
      → W
      → WorkflowState T × Option Error × W
  emit s kind node wait code duration w =
      let s' = count_event s in
      let (t, w1) = r.now w in
      let (e, w2) = r.observer (event_of s' kind node wait code duration t) w1 in (s', e, w2)
