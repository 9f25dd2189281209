-- ===== src/Workflow/Runner/Progress.antt =====
-- How far one round of the loop takes a run: it stops with the nodes completed so far, or the loop
-- goes on with one node more. Versions and event numbers are followed up to the point where a word
-- would wrap.
use harness_loop_agent.Base.{
  ℕ, ◌+◌, ◌≤◌, ◌<◌, ◌≡◌, refl, ◌⊎◌, inl, inr, String, Bool, true, false, [], ◌∷◌, ◌++◌, Option,
  none, arith, Option-cases,
}
use harness_loop_agent.Base.Word.{word_mod, sign_bit}
use harness_loop_agent.Workflow.Errors.{Error, contract_error}
use harness_loop_agent.Workflow.Wait.{ResumeCommand, WaitPoint}
use harness_loop_agent.Workflow.State.{
  RunStatus, running, suspended, completed, ControlState, WorkflowState, transition, touch,
}
use harness_loop_agent.Workflow.Event.{node_completed, node_started}
use harness_loop_agent.Workflow.Node.{Node, NodeResult}
use harness_loop_agent.Workflow.Runner.{
  Runner, Context, Outcome, status_for_error, count_event, emit, over_budget,
}
use harness_loop_agent.Workflow.Runner.Cases.{any_world, settle_cases, invoke_cases, run_node_cases}
use harness_loop_agent.Workflow.Runner.Exec.{
  stop_before_node, observer_failure, node_failure, complete_node, suspend_node, suspend_with,
  settle, invoke, enter, mark_completed, propose, start_node, run_node, with_control,
}

-- No counter of `c` wraps within a round.
pub record Room (c : ControlState) : Type 0 where
  pub version : c.state_version + 8 < word_mod
  pub events : c.event_sequence + 4 < sign_bit
  pub steps : c.steps_executed + 1 < sign_bit

abbrev pub is_completed : RunStatus → Bool
is_completed completed = true
is_completed _ = false

-- The run has stopped short of the end, with the steps of `c` and its completed nodes, to which at
-- most `node` is added, at most `v` versions and `e` events later.
pub record Late {T W : Type 0} (v e : ℕ) (node : String) (c : ControlState) (o : Outcome T W)
    : Type 0 where
  pub unfinished : is_completed o.0.status ≡ false
  pub completed :
      (o.0.state.control.completed_nodes ≡ c.completed_nodes)
      ⊎ (o.0.state.control.completed_nodes ≡ c.completed_nodes ++ node ∷ [])
  pub steps : o.0.state.control.steps_executed ≡ c.steps_executed
  pub version_low : c.state_version < o.0.state.control.state_version
  pub version_high : o.0.state.control.state_version ≤ c.state_version + v
  pub events_low : c.event_sequence ≤ o.0.state.control.event_sequence
  pub events_high : o.0.state.control.event_sequence ≤ c.event_sequence + e

-- `d` is `c` after the node has completed, `v` versions and `e` events later.
pub record Next (v e : ℕ) (node : String) (c d : ControlState) : Type 0 where
  pub status : d.status ≡ running
  pub no_wait : d.pending_wait ≡ none
  pub current : d.current_node ≡ node
  pub completed : d.completed_nodes ≡ c.completed_nodes ++ node ∷ []
  pub steps : d.steps_executed ≡ c.steps_executed
  pub resumes : d.resume_count ≡ c.resume_count
  pub version : d.state_version ≡ c.state_version + v
  pub events : d.event_sequence ≡ c.event_sequence + e

module _ {T W : Type 0} where
  stop_before_node-Late :
      (node : String) (s : WorkflowState T) (e : Error) (w : W)
      → s.control.status ≡ running
      → s.control.state_version + 1 < word_mod
      → Late 1 0 node s.control (stop_before_node s e w)
  unfolding stop_before_node status_for_error transition
  stop_before_node-Late node s e w h b = ground arith

  observer_failure-Late :
      (s : WorkflowState T) (node : String) (e : Error) (w : W)
      → (s.control.status ≡ running) ⊎ (s.control.status ≡ suspended)
      → s.control.state_version + 1 < word_mod
      → Late 1 0 node s.control (observer_failure s node e w)
  unfolding observer_failure transition
  observer_failure-Late s node e w h b = ground arith

module _ {T W : Type 0} (ctx : Context W) (r : Runner T W) where
  node_failure-Late :
      (s : WorkflowState T) (node : String) (e : Error) (duration : ℕ) (w : W)
      → s.control.status ≡ running
      → s.control.state_version + 2 < word_mod
      → s.control.event_sequence + 1 < word_mod
      → Late 2 1 node s.control (node_failure ctx r s node e duration w)
  unfolding node_failure status_for_error transition emit count_event touch
  node_failure-Late s node e duration w h b b' = ground arith

  suspend_with-Late :
      (s : WorkflowState T) (node : String) (point : WaitPoint) (duration : ℕ) (w : W)
      → s.control.status ≡ running
      → s.control.state_version + 3 < word_mod
      → s.control.event_sequence + 1 < word_mod
      → Late 3 1 node s.control
          (suspend_with ctx r s node point duration w (transition s.control suspended))
  unfolding transition emit count_event touch observer_failure
  suspend_with-Late s node point duration w h b b' = ground arith

  suspend_node-Late :
      (s : WorkflowState T) (node : String) (output : NodeResult T) (duration : ℕ) (w : W)
      → s.control.status ≡ running
      → s.control.state_version + 3 < word_mod
      → s.control.event_sequence + 1 < word_mod
      → Late 3 1 node s.control (suspend_node ctx r s node output duration w)
  unfolding suspend_node propose
  suspend_node-Late s node output duration w h b b' =
      grind (arith, node_failure-Late, suspend_with-Late)

  -- The run stops, or `k` goes on from a state in which the node has completed.
  abbrev pub Advances :
      (WorkflowState T → W → Outcome T W)
      → ℕ
      → ℕ
      → String
      → ControlState
      → WorkflowState T
      → Outcome T W
      → Type 0
  Advances k v e node c s o =
      Late (v + 1) e node c o
      ⊎ ((s' : WorkflowState T) × (w' : W) × Next v e node c s'.control
          × (s'.meta ≡ s.meta)
          × (s'.budget ≡ s.budget)
          × (o ≡ k s' w'))

  complete_node-Advances :
      (k : WorkflowState T → W → Outcome T W)
      → (s : WorkflowState T) (node : String) (output : NodeResult T) (duration : ℕ) (w : W)
      → s.control.status ≡ running
      → s.control.pending_wait ≡ none
      → s.control.current_node ≡ node
      → s.control.state_version + 3 < word_mod
      → s.control.event_sequence + 1 < word_mod
      → Advances k 2 1 node s.control s (complete_node ctx r k s node output duration w)
  unfolding complete_node mark_completed emit count_event touch observer_failure transition
  complete_node-Advances k s node output duration w h p c b b' =
      let (s', observed, w') =
        emit ctx r (mark_completed s node output) node_completed node "" none duration w in
      elim (Option-cases observed) [
        | inr (e, failed) ↦ inl (ground arith)
        | inl done ↦ inr (s', w', ground arith, refl, refl, ground arith)
      ]

  Late-weaken :
      {v e v' e' : ℕ} {node : String} {c : ControlState} {o : Outcome T W}
      → v ≤ v'
      → e ≤ e'
      → Late v e node c o
      → Late v' e' node c o
  Late-weaken p q h = ground arith

  settle-Advances :
      (k : WorkflowState T → W → Outcome T W)
      → (s : WorkflowState T) (node : String) (output : NodeResult T) (duration : ℕ) (w : W)
      → s.control.status ≡ running
      → s.control.pending_wait ≡ none
      → s.control.current_node ≡ node
      → s.control.state_version + 3 < word_mod
      → s.control.event_sequence + 1 < word_mod
      → Advances k 2 1 node s.control s (settle ctx r k s node output duration w)
  settle-Advances k s node output duration w h p c b b' =
      settle_cases ctx r (λ w. Unit) (any_world ctx r) (Advances k 2 1 node s.control s) k s node
        output duration w
        (inl (
          Late-weaken (omega arith) (omega arith)
            (node_failure-Late s node contract_error duration w h (omega arith) b')))
        (inl (suspend_node-Late s node output duration w h b b'))
        (complete_node-Advances k s node output duration w h p c b b')

  invoke-Advances :
      (k : WorkflowState T → W → Outcome T W)
      → (s : WorkflowState T) (n : Node T W) (resume : Option ResumeCommand) (at : ℕ) (w : W)
      → s.control.status ≡ running
      → s.control.pending_wait ≡ none
      → s.control.current_node ≡ n.id
      → s.control.state_version + 3 < word_mod
      → s.control.event_sequence + 1 < word_mod
      → Advances k 2 1 n.id s.control s (invoke ctx r k s n resume at w)
  invoke-Advances k s n resume at w h p c b b' =
      invoke_cases ctx r (λ w. Unit) (any_world ctx r) (Advances k 2 1 n.id s.control s) k s n
        resume at w (λ g w'' t. tt) tt
        (λ e duration w' u. inl (
          Late-weaken (omega arith) (omega arith)
            (node_failure-Late s n.id e duration w' h (omega arith) b')))
        (λ output duration w' u. settle-Advances k s n.id output duration w' h p c b b')

  -- Relative to the state before an event has been counted.
  Advances-count_event :
      (k : WorkflowState T → W → Outcome T W)
      → (node : String) (s : WorkflowState T) {o : Outcome T W}
      → s.control.state_version + 1 < word_mod
      → s.control.event_sequence + 1 < word_mod
      → Advances k 2 1 node (count_event s).control (count_event s) o
      → Advances k 3 2 node s.control s o
  unfolding count_event touch
  Advances-count_event k node s b b' (inl h) = inl (ground arith)
  Advances-count_event k node s b b' (inr (s', w', h, hm, hb, e)) =
      inr (s', w', ground arith, hm, hb, e)

  start_node-Advances :
      (k : WorkflowState T → W → Outcome T W)
      → (n : Node T W) (s : WorkflowState T) (resume : Option ResumeCommand) (w : W)
      → s.control.status ≡ running
      → s.control.pending_wait ≡ none
      → s.control.current_node ≡ n.id
      → s.control.state_version + 4 < word_mod
      → s.control.event_sequence + 2 < word_mod
      → Advances k 3 2 n.id s.control s (start_node ctx r k n s resume w)
  unfolding start_node emit count_event touch observer_failure transition
  start_node-Advances k n s resume w h p c b b' =
      let read = r.now w in
      let (s1, observed, w1) = emit ctx r s node_started n.id "" none 0 read.1 in
      elim (Option-cases observed) [
        | inr (e, failed) ↦ inl (ground arith)
        | inl done ↦
            let e : start_node ctx r k n s resume w ≡ invoke ctx r k s1 n resume read.0 w1 =
              ground arith in
            rw e (
              Advances-count_event k n.id s (omega arith) (omega arith)
                (invoke-Advances k s1 n resume read.0 w1 h p c (ground arith) (ground arith)))
      ]

  -- One round: the run stops before the node, with nothing changed but its status, or the node is
  -- entered, which the step budget allows, and the run stops there or goes on behind it.
  pub run_node-Advances :
      (k : WorkflowState T → W → Outcome T W)
      → (n : Node T W) (s : WorkflowState T) (resume : Option ResumeCommand) (w : W)
      → s.control.status ≡ running
      → s.control.pending_wait ≡ none
      → Room s.control
      → Late 1 0 n.id s.control (run_node ctx r k n s resume w)
        ⊎ ((over_budget s.budget.max_steps s.control.steps_executed ≡ false)
            × Advances k 3 2 n.id (enter s.control n.id) s (run_node ctx r k n s resume w))
  unfolding enter touch
  run_node-Advances k n s resume w h p room =
      run_node_cases ctx r (λ w. Unit) (any_world ctx r)
        (λ o.
          Late 1 0 n.id s.control o
          ⊎ ((over_budget s.budget.max_steps s.control.steps_executed ≡ false)
              × Advances k 3 2 n.id (enter s.control n.id) s o))
        k n s resume w tt
        (λ e w' u. inl (stop_before_node-Late n.id s e w' h (ground (arith, room))))
        (λ w' u left. inr (
          left,
          start_node-Advances k n (with_control s (enter s.control n.id)) resume w' h p refl
              (ground (arith, room)) (ground (arith, room)),
        ))
