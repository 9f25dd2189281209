-- ===== src/Workflow/Runner/Shape.antt =====
-- The shape of what a run returns.
use harness_loop_agent.Base.{
  ℕ, ◌≡◌, ◌⊎◌, String, true, List, [], ◌∷◌, Option, none, some, arith, is_some, All,
}
use harness_loop_agent.Workflow.Errors.{Error, contract_error}
use harness_loop_agent.Workflow.Ident.{valid_identifier}
use harness_loop_agent.Workflow.Wait.{ResumeCommand, WaitPoint}
use harness_loop_agent.Workflow.State.{
  running, suspended, is_suspended, terminal, RunMetadata, BudgetState, WorkflowState, transition,
  touch,
}
use harness_loop_agent.Workflow.Node.{Node, NodeResult}
use harness_loop_agent.Workflow.Runner.{
  Runner, Context, Outcome, status_for_error, count_event, emit,
}
use harness_loop_agent.Workflow.Runner.Exec.{
  stop_before_node, observer_failure, node_failure, complete_node, suspend_node, suspend_with,
  settle, invoke, enter, mark_completed, propose, start_node, run_node, execute_from,
}

module _ {T : Type 0} (m : RunMetadata) (b : BudgetState) where
  -- A run under way, with the metadata `m` and the budget `b`.
  pub record Runs (s : WorkflowState T) : Type 0 where
    pub status : s.control.status ≡ running
    pub no_wait : s.control.pending_wait ≡ none
    pub meta : s.meta ≡ m
    pub budget : s.budget ≡ b

module _ {T W : Type 0} (m : RunMetadata) (b : BudgetState) where
  -- A run that has stopped: it is suspended, with a wait point at a named node, or it has ended,
  -- without one. No node has touched the metadata or the budget.
  pub record Stopped (o : Outcome T W) : Type 0 where
    pub agrees : o.0.status ≡ o.0.state.control.status
    pub stopped : (o.0.status ≡ suspended) ⊎ (terminal o.0.status ≡ true)
    pub present : is_some o.0.state.control.pending_wait ≡ is_suspended o.0.status
    pub at_node : o.0.status ≡ suspended → valid_identifier o.0.state.control.current_node ≡ true
    pub meta : o.0.state.meta ≡ m
    pub budget : o.0.state.budget ≡ b

module _ {T W : Type 0} {m : RunMetadata} {b : BudgetState} where
  stop_before_node-Stopped :
      (s : WorkflowState T) (e : Error) (w : W) → Runs m b s → Stopped m b (stop_before_node s e w)
  unfolding stop_before_node status_for_error transition terminal
  stop_before_node-Stopped s e w h = ground arith

  observer_failure-Stopped :
      (s : WorkflowState T) (node : String) (e : Error) (w : W)
      → s.meta ≡ m
      → s.budget ≡ b
      → (s.control.status ≡ running) ⊎ (s.control.status ≡ suspended)
      → Stopped m b (observer_failure s node e w)
  unfolding observer_failure transition terminal
  observer_failure-Stopped s node e w hm hb h = ground arith

module _ {T W : Type 0} {m : RunMetadata} {b : BudgetState} (ctx : Context W) (r : Runner T W) where
  node_failure-Stopped :
      (s : WorkflowState T) (node : String) (e : Error) (duration : ℕ) (w : W)
      → Runs m b s
      → Stopped m b (node_failure ctx r s node e duration w)
  unfolding node_failure status_for_error transition terminal emit count_event touch
  node_failure-Stopped s node e duration w h = ground arith

  suspend_with-Stopped :
      (s : WorkflowState T) (node : String) (point : WaitPoint) (duration : ℕ) (w : W)
      → valid_identifier s.control.current_node ≡ true
      → s.control.status ≡ running
      → s.control.pending_wait ≡ some point
      → s.meta ≡ m
      → s.budget ≡ b
      → Stopped m b (suspend_with ctx r s node point duration w (transition s.control suspended))
  unfolding transition terminal emit count_event touch
  suspend_with-Stopped s node point duration w v st p hm hb =
      grind (arith, observer_failure-Stopped)

  suspend_node-Stopped :
      (s : WorkflowState T) (node : String) (output : NodeResult T) (duration : ℕ) (w : W)
      → valid_identifier s.control.current_node ≡ true
      → Runs m b s
      → Stopped m b (suspend_node ctx r s node output duration w)
  unfolding suspend_node propose
  suspend_node-Stopped s node output duration w v h =
      grind (arith, node_failure-Stopped, suspend_with-Stopped)

  complete_node-Stopped :
      (k : WorkflowState T → W → Outcome T W)
      → ((s : WorkflowState T) (w : W) → Runs m b s → Stopped m b (k s w))
      → (s : WorkflowState T) (node : String) (output : NodeResult T) (duration : ℕ) (w : W)
      → Runs m b s
      → Stopped m b (complete_node ctx r k s node output duration w)
  unfolding complete_node mark_completed emit count_event touch
  complete_node-Stopped k kh s node output duration w h = grind (arith, observer_failure-Stopped)

  settle-Stopped :
      (k : WorkflowState T → W → Outcome T W)
      → ((s : WorkflowState T) (w : W) → Runs m b s → Stopped m b (k s w))
      → (s : WorkflowState T) (node : String) (output : NodeResult T) (duration : ℕ) (w : W)
      → valid_identifier s.control.current_node ≡ true
      → Runs m b s
      → Stopped m b (settle ctx r k s node output duration w)
  unfolding settle
  settle-Stopped k kh s node output duration w v h = ground (
    arith,
    node_failure-Stopped s node contract_error duration w h,
    suspend_node-Stopped s node output duration w v h,
    complete_node-Stopped k kh s node output duration w h,
  )

  invoke-Stopped :
      (k : WorkflowState T → W → Outcome T W)
      → ((s : WorkflowState T) (w : W) → Runs m b s → Stopped m b (k s w))
      → (s : WorkflowState T) (n : Node T W) (resume : Option ResumeCommand) (at : ℕ) (w : W)
      → valid_identifier s.control.current_node ≡ true
      → Runs m b s
      → Stopped m b (invoke ctx r k s n resume at w)
  unfolding invoke
  invoke-Stopped k kh s n resume at w v h = grind (arith, node_failure-Stopped, settle-Stopped k kh)

  start_node-Stopped :
      (k : WorkflowState T → W → Outcome T W)
      → ((s : WorkflowState T) (w : W) → Runs m b s → Stopped m b (k s w))
      → (n : Node T W) (s : WorkflowState T) (resume : Option ResumeCommand) (w : W)
      → valid_identifier s.control.current_node ≡ true
      → Runs m b s
      → Stopped m b (start_node ctx r k n s resume w)
  unfolding start_node emit count_event touch
  start_node-Stopped k kh n s resume w v h =
      grind (arith, observer_failure-Stopped, invoke-Stopped k kh)

  run_node-Stopped :
      (k : WorkflowState T → W → Outcome T W)
      → ((s : WorkflowState T) (w : W) → Runs m b s → Stopped m b (k s w))
      → (n : Node T W) (s : WorkflowState T) (resume : Option ResumeCommand) (w : W)
      → valid_identifier n.id ≡ true
      → Runs m b s
      → Stopped m b (run_node ctx r k n s resume w)
  unfolding run_node enter touch
  run_node-Stopped k kh n s resume w v h =
      grind (arith, stop_before_node-Stopped, start_node-Stopped k kh)

  pub execute_from-Stopped :
      (ns : List (Node T W)) (s : WorkflowState T) (resume : Option ResumeCommand) (w : W)
      → All (λ n. valid_identifier n.id ≡ true) ns
      → Runs m b s
      → Stopped m b (execute_from ctx r ns s resume w)
  unfolding execute_from transition terminal
  execute_from-Stopped [] s resume w v h = ground arith
  execute_from-Stopped (n ∷ ns) s resume w v h =
      run_node-Stopped _ (λ s' w' h'. execute_from-Stopped ns s' none w' v.1 h') n s resume w v.0 h
