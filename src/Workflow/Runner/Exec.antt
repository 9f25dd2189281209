-- ===== src/Workflow/Runner/Exec.antt =====
-- internal/workflow/runner.go: `Run`, `Resume` and the loop of `executeFrom`, cut at its early
-- returns. `k` is what follows a completed node: the rest of the loop.
use harness_loop_agent.Base.{
  ℕ, ◌-◌, String, not, ◌||◌, List, [], ◌∷◌, ◌++◌, Option, none, some, Result, ok, err,
  if◌then◌else◌, is_empty, is_some, drop, str_eq, ◌==◌,
}
use harness_loop_agent.Base.Word.{Time, inc}
use harness_loop_agent.Base.Dict.{lookup}
use harness_loop_agent.Workflow.Errors.{
  Error, workflow, wrapping, joins, contract_error, state_error, step_budget, resume_budget,
  observer_failed, invalid_resume, code_of, normalize_node_error,
}
use harness_loop_agent.Workflow.Wait.{WaitPoint, ResumeCommand, validate_wait, validate_resume}
use harness_loop_agent.Workflow.State.{
  running, suspended, completed, failed, is_pending, is_suspended, is_running, ControlState,
  WorkflowState, transition, touch, validate,
}
use harness_loop_agent.Workflow.Event.{
  node_started, node_completed, node_suspended, node_resumed, node_failed,
}
use harness_loop_agent.Workflow.Node.{Directive, continue, suspend, NodeInput, NodeResult, Node}
use harness_loop_agent.Workflow.Runner.{
  Runner, Context, Outcome, result_of, context_or_deadline_error, emit, over_budget,
  status_for_error,
}

-- `Transition(target)` on the state, where a refusal is joined to the error at hand.
abbrev pub with_control : {T : Type 0} → WorkflowState T → ControlState → WorkflowState T
with_control s c = record s { control = c }

-- `_ = state.Control.Transition(…)`: a refusal leaves the state.
abbrev keep_or : ControlState → Result Error ControlState → ControlState
keep_or c (ok d) = d
keep_or c (err e) = c

-- The state with the body that the node returned, and the node among the completed ones.
unfoldable pub mark_completed :
    {T : Type 0} → WorkflowState T → String → NodeResult T → WorkflowState T
mark_completed s node output =
    let c = record s.control { completed_nodes = s.control.completed_nodes ++ node ∷ [] } in
    record s { control = touch c; body = output.state.body }

-- The state with the body that the node returned, and the wait point that it asks for.
unfoldable pub propose : {T : Type 0} → WorkflowState T → WaitPoint → NodeResult T → WorkflowState T
propose s point output = record s {
  control = record s.control { pending_wait = some point };
  body = output.state.body;
}

-- What the node is given.
abbrev pub node_input :
    {T W : Type 0} → WorkflowState T → Node T W → Option ResumeCommand → NodeInput T
node_input s n resume = record {
  state = s;
  resume = resume;
  execution_id = record {
    run_id = s.meta.run_id;
    node_id = n.id;
    attempt = s.control.current_attempt;
  };
}

-- The control state with which a node starts.
unfoldable pub enter : ControlState → String → ControlState
enter c node = touch (record c {
  current_node = node;
  current_attempt = inc (if str_eq c.current_node node then c.current_attempt else 0);
  steps_executed = inc c.steps_executed;
})

module _ {T W : Type 0} where
  abbrev pub stop_with : WorkflowState T → Error → W → Result Error ControlState → Outcome T W
  stop_with s e w (ok c) = (result_of (with_control s c), some e, w)
  stop_with s e w (err refusal) = (result_of s, some (joins e refusal), w)

  -- `stopBeforeNode`
  unfoldable pub stop_before_node : WorkflowState T → Error → W → Outcome T W
  stop_before_node s e w = stop_with s e w (transition s.control (status_for_error e))

  -- `observerFailure`
  unfoldable pub observer_failure : WorkflowState T → String → Error → W → Outcome T W
  observer_failure s node cause w =
      let c =
        if is_running s.control.status || is_suspended s.control.status
        then keep_or s.control (transition s.control failed)
        else s.control in
      (
        result_of (with_control s (record c { pending_wait = none })),
        some (wrapping observer_failed node cause),
        w,
      )

module _ {T W : Type 0} (ctx : Context W) (r : Runner T W) where
  abbrev pub fail_with :
      WorkflowState T → String → Error → ℕ → W → Result Error ControlState → Outcome T W
  fail_with s node e duration w (err refusal) = (result_of s, some (joins e refusal), w)
  fail_with s node e duration w (ok c) =
      let (s', observed, w1) =
        emit ctx r (with_control s c) node_failed node "" (code_of e) duration w in
      (result_of s', some (elim observed [ none ↦ e | some o ↦ joins e o ]), w1)

  -- `nodeFailure`
  unfoldable pub node_failure : WorkflowState T → String → Error → ℕ → W → Outcome T W
  node_failure s node cause duration w =
      let e = normalize_node_error node cause in
      fail_with s node e duration w (transition s.control (status_for_error e))

  -- The `DirectiveContinue` case, with `k` for the next round of the loop.
  unfoldable pub complete_node :
      (WorkflowState T → W → Outcome T W)
      → WorkflowState T
      → String
      → NodeResult T
      → ℕ
      → W
      → Outcome T W
  complete_node k s node output duration w =
      let s1 = mark_completed s node output in
      let (s2, observed, w1) = emit ctx r s1 node_completed node "" none duration w in
      elim observed [ some e ↦ observer_failure s2 node e w1 | none ↦ k s2 w1 ]

  abbrev pub suspend_with :
      WorkflowState T → String → WaitPoint → ℕ → W → Result Error ControlState → Outcome T W
  suspend_with s node point duration w (err e) = (result_of s, some e, w)
  suspend_with s node point duration w (ok c) =
      let (s1, observed, w1) =
        emit ctx r (with_control s c) node_suspended node point.id none duration w in
      elim observed [
        | some e ↦ observer_failure s1 node e w1
        | none ↦ (record { state = s1; status = suspended }, none, w1)
      ]

  -- The `DirectiveSuspend` case.
  unfoldable pub suspend_node : WorkflowState T → String → NodeResult T → ℕ → W → Outcome T W
  suspend_node s node output duration w = elim output.wait [
    | none ↦ node_failure s node contract_error duration w
    | some point ↦
        let (now, w1) = r.now w in
        elim (validate_wait point now) [
          | err e ↦ node_failure s node e duration w1
          | ok _ ↦
              if not (str_eq point.run_id s.meta.run_id) || not (str_eq point.node_id node)
              then node_failure s node contract_error duration w1
              else (let s1 = propose s point output in
                  suspend_with s1 node point duration w1 (transition s1.control suspended))
        ]
  ]

  -- The `switch` on the directive, behind the tests of the output.
  unfoldable pub settle :
      (WorkflowState T → W → Outcome T W)
      → WorkflowState T
      → String
      → NodeResult T
      → ℕ
      → W
      → Outcome T W
  settle k s node output duration w = elim output.directive [
    | continue ↦
        if is_some output.wait
        then node_failure s node contract_error duration w
        else complete_node k s node output duration w
    | suspend ↦ suspend_node s node output duration w
    | Directive.other _ ↦ node_failure s node contract_error duration w
  ]

  -- From the call of the node to the tests of what it returned.
  unfoldable pub invoke :
      (WorkflowState T → W → Outcome T W)
      → WorkflowState T
      → Node T W
      → Option ResumeCommand
      → Time
      → W
      → Outcome T W
  invoke k s n resume started_at w =
      let (output, failure, w1) = n.execute (node_input s n resume) w in
      let (ended, w2) = r.now w1 in
      let (stop, w3) = context_or_deadline_error ctx r s w2 in
      elim stop [
        | some e ↦ node_failure s n.id e (ended - started_at) w3
        | none ↦ elim failure [
          | some e ↦ node_failure s n.id e (ended - started_at) w3
          | none ↦ settle k s n.id output (ended - started_at) w3
        ]
      ]

  -- From the start of the clock and the `node.started` event on.
  unfoldable pub start_node :
      (WorkflowState T → W → Outcome T W)
      → Node T W
      → WorkflowState T
      → Option ResumeCommand
      → W
      → Outcome T W
  start_node k n s resume w =
      let (started_at, w1) = r.now w in
      let (s1, observed, w2) = emit ctx r s node_started n.id "" none 0 w1 in
      elim observed [
        | some e ↦ observer_failure s1 n.id e w2
        | none ↦ invoke k s1 n resume started_at w2
      ]

  -- One round of the loop.
  unfoldable pub run_node :
      (WorkflowState T → W → Outcome T W)
      → Node T W
      → WorkflowState T
      → Option ResumeCommand
      → W
      → Outcome T W
  run_node k n s resume w =
      let (stop, w1) = context_or_deadline_error ctx r s w in
      elim stop [
        | some e ↦ stop_before_node s e w1
        | none ↦
            if over_budget s.budget.max_steps s.control.steps_executed
            then stop_before_node s (workflow step_budget n.id) w1
            else start_node k n (with_control s (enter s.control n.id)) resume w1
      ]

  abbrev pub finish_with : WorkflowState T → W → Result Error ControlState → Outcome T W
  finish_with s w (err e) = (result_of s, some e, w)
  finish_with s w (ok c) = (record { state = with_control s c; status = completed }, none, w)

  -- `executeFrom` from the first of the given nodes on. A resume command goes to that node alone.
  unfoldable pub execute_from :
      List (Node T W) → WorkflowState T → Option ResumeCommand → W → Outcome T W
  execute_from [] s resume w = finish_with s w (transition s.control completed)
  execute_from (n ∷ ns) s resume w = run_node (λ s' w'. execute_from ns s' none w') n s resume w

  abbrev pub begin_with : WorkflowState T → W → Result Error ControlState → Outcome T W
  begin_with s w (err e) = (result_of s, some e, w)
  begin_with s w (ok c) = execute_from r.nodes (with_control s c) none w

  -- `Run`
  unfoldable pub run : WorkflowState T → W → Outcome T W
  run s w = elim (validate s) [
    | err e ↦ (result_of s, some e, w)
    | ok _ ↦
        if not (is_pending s.control.status)
          || is_some s.control.pending_wait
          || not (str_eq s.control.current_node "")
          || not (is_empty s.control.completed_nodes)
          || not (s.control.steps_executed == 0)
          || not (s.control.resume_count == 0)
        then (result_of s, some state_error, w)
        else begin_with s w (transition s.control running)
  ]

  abbrev pub resume_with :
      WorkflowState T → ℕ → ResumeCommand → W → Result Error ControlState → Outcome T W
  resume_with s index command w (err e) = (result_of s, some e, w)
  resume_with s index command w (ok c) =
      execute_from (drop index r.nodes) (with_control s c) (some command) w

  -- `Resume` once the command is accepted and its node is found. A failing observer leaves the
  -- state as it was before the event.
  unfoldable pub reenter : WorkflowState T → WaitPoint → ℕ → ResumeCommand → W → Outcome T W
  reenter s wait index command w =
      let (s1, observed, w1) = emit ctx r s node_resumed wait.node_id wait.id none 0 w in
      elim observed [
        | some e ↦ (result_of s, some (wrapping observer_failed wait.node_id e), w1)
        | none ↦
            let c = record s1.control {
              pending_wait = none;
              resume_count = inc s1.control.resume_count;
            } in
            resume_with (with_control s1 c) index command w1 (transition c running)
      ]

  -- `Resume` behind its tests of the context and the budgets.
  unfoldable pub admit : WorkflowState T → WaitPoint → ResumeCommand → W → Outcome T W
  admit s wait command w =
      let (now, w1) = r.now w in
      elim (validate_resume wait command now) [
        | err e ↦ (result_of s, some e, w1)
        | ok _ ↦ elim (lookup wait.node_id r.indexes) [
          | none ↦ (result_of s, some (workflow invalid_resume wait.node_id), w1)
          | some index ↦
              if not (str_eq wait.node_id s.control.current_node)
              then (result_of s, some (workflow invalid_resume wait.node_id), w1)
              else reenter s wait index command w1
        ]
      ]

  unfoldable pub resume_within : WorkflowState T → WaitPoint → ResumeCommand → W → Outcome T W
  resume_within s wait command w =
      let (stop, w1) = context_or_deadline_error ctx r s w in
      elim stop [
        | some e ↦ (result_of s, some e, w1)
        | none ↦
            if over_budget s.budget.max_resumes s.control.resume_count
            then (result_of s, some (workflow resume_budget s.control.current_node), w1)
            else if over_budget s.budget.max_steps s.control.steps_executed
            then (result_of s, some (workflow step_budget s.control.current_node), w1)
            else admit s wait command w1
      ]

  -- `Resume`
  unfoldable pub resume : WorkflowState T → ResumeCommand → W → Outcome T W
  resume s command w = elim (validate s) [
    | err e ↦ (result_of s, some e, w)
    | ok _ ↦
        if not (is_suspended s.control.status)
        then (result_of s, some state_error, w)
        else elim s.control.pending_wait [
          | none ↦ (result_of s, some state_error, w)
          | some wait ↦ resume_within s wait command w
        ]
  ]
