-- ===== src/Workflow/Durable/Observed.antt =====
-- The loop of the runner, observed by the collector: no event is refused, and the collector covers
-- the run all along.
use harness_loop_agent.Base.{
  ℕ, suc, ◌+◌, ◌*◌, ◌≤◌, ◌<◌, ◌≡◌, refl, sym, String, true, List, [], ◌∷◌, Option, none, Result, ok,
  err, arith, length, All, ◌∙◌,
}
use harness_loop_agent.Base.Word.{sign_bit}
use harness_loop_agent.Base.Dict.{Dict}
use harness_loop_agent.Workflow.Errors.{
  Error, ErrorCode, contract_error, code_of, normalize_node_error,
}
use harness_loop_agent.Workflow.Ident.{valid_identifier}
use harness_loop_agent.Workflow.Wait.{WaitPoint, ResumeCommand}
use harness_loop_agent.Workflow.State.{
  RunStatus, suspended, WorkflowState, ControlState, transition, touch,
}
use harness_loop_agent.Workflow.Event.{
  NodeEventType, MemoryCollector, valid_event_type, node_completed, node_suspended, node_failed,
  node_started,
}
use harness_loop_agent.Workflow.Node.{Node, NodeInput, NodeResult}
use harness_loop_agent.Workflow.Runner.{
  Runner, Clock, Context, Outcome, emit, count_event, status_for_error,
}
use harness_loop_agent.Workflow.Runner.Exec.{
  stop_before_node, node_failure, complete_node, suspend_with, suspend_node, settle, invoke,
  start_node, run_node, fail_with, enter, execute_from, with_control, mark_completed, propose,
}
use harness_loop_agent.Workflow.Runner.Cases.{
  Quiet, suspend_node_cases, settle_cases, invoke_cases, run_node_cases,
}
use harness_loop_agent.Workflow.Durable.{Observed, collect, beside, node_beside, nodes_beside}
use harness_loop_agent.Workflow.Durable.Events.{Covers, Covers-same, observe-Covers}

-- The runner of `execute`.
abbrev pub observed_runner :
    {T W : Type 0} → Clock W → List (Node T W) → Dict ℕ → Runner T (Observed W)
observed_runner clock ns ix = record {
  nodes = nodes_beside ns;
  indexes = ix;
  observer = collect;
  now = beside clock;
}

-- The collector covers the state that comes back, which has counted no more than `top` events.
pub record Covered {T W : Type 0} (base top : ℕ) (o : Outcome T (Observed W)) : Type 0 where
  pub covers : Covers base o.2.0 o.0.state
  pub bounded : o.0.state.control.event_sequence ≤ top

transition_keeps :
    (c d : ControlState) (t : RunStatus)
    → transition c t ≡ ok d
    → d.event_sequence ≡ c.event_sequence
unfolding transition
transition_keeps c d t h = ground arith

module _ {T W : Type 0} (clock : Clock W) (ctx0 : Context W) (ns0 : List (Node T W)) (ix : Dict ℕ)
    (base : ℕ) where
  abbrev runner : Runner T (Observed W)
  runner = observed_runner clock ns0 ix

  abbrev ctx : Context (Observed W)
  ctx = beside ctx0

  emit-Covers :
      (s : WorkflowState T) (kind : NodeEventType) (node wait : String) (code : Option ErrorCode)
      (duration : ℕ) (w : Observed W)
      → Covers base w.0 s
      → valid_event_type kind ≡ true
      → valid_identifier node ≡ true
      → s.control.event_sequence + 1 < sign_bit
      → (d : MemoryCollector) × (emit ctx runner s kind node wait code duration w
          ≡ (count_event s, none, (d, (clock w.1).1)))
        × Covers base d (count_event s)
  unfolding emit
  emit-Covers s kind node wait code duration w h k n b =
      let (d, e, cov) =
        observe-Covers base w.0 s kind node wait code duration (clock w.1).0 h k n b in
      (d, rw e, cov)

  stop_before_node-Covered :
      (s : WorkflowState T) (e : Error) (w : Observed W) {top : ℕ}
      → Covers base w.0 s
      → s.control.event_sequence ≤ top
      → Covered base top (stop_before_node s e w)
  unfolding stop_before_node transition
  stop_before_node-Covered s e w h t = ground arith

  fail_with-Covered :
      (s : WorkflowState T) (node : String) (e : Error) (duration : ℕ) (w : Observed W) {top : ℕ}
      → Covers base w.0 s
      → valid_identifier node ≡ true
      → s.control.event_sequence + 1 ≤ top
      → top < sign_bit
      → (m : Result Error ControlState)
      → ((c : ControlState) → m ≡ ok c → c.event_sequence ≡ s.control.event_sequence)
      → Covered base top (fail_with ctx runner s node e duration w m)
  unfolding count_event touch valid_event_type
  fail_with-Covered s node e duration w h n t b (err x) keep = record {
    covers = h;
    bounded = omega arith;
  }
  fail_with-Covered s node e duration w h n t b (ok c) keep =
      let h' = Covers-same base w.0 {t = with_control s c} refl (sym (keep c refl)) h in
      let (d, q, cov) =
        emit-Covers (with_control s c) node_failed node "" (code_of e) duration w h' refl n
          (omega (arith, keep c refl)) in
      rw q (record { covers = cov; bounded = ground (arith, keep c refl) })

  node_failure-Covered :
      (s : WorkflowState T) (node : String) (e : Error) (duration : ℕ) (w : Observed W) {top : ℕ}
      → Covers base w.0 s
      → valid_identifier node ≡ true
      → s.control.event_sequence + 1 ≤ top
      → top < sign_bit
      → Covered base top (node_failure ctx runner s node e duration w)
  unfolding node_failure
  node_failure-Covered s node e duration w h n t b =
      fail_with-Covered s node (normalize_node_error node e) duration w h n t b
        (transition s.control (status_for_error (normalize_node_error node e)))
        (λ c q. transition_keeps s.control c _ q)

  suspend_with-Covered :
      (s : WorkflowState T) (node : String) (point : WaitPoint) (duration : ℕ) (w : Observed W)
      {top : ℕ}
      → Covers base w.0 s
      → valid_identifier node ≡ true
      → s.control.event_sequence + 1 ≤ top
      → top < sign_bit
      → (m : Result Error ControlState)
      → ((c : ControlState) → m ≡ ok c → c.event_sequence ≡ s.control.event_sequence)
      → Covered base top (suspend_with ctx runner s node point duration w m)
  unfolding count_event touch valid_event_type
  suspend_with-Covered s node point duration w h n t b (err x) keep = record {
    covers = h;
    bounded = omega arith;
  }
  suspend_with-Covered s node point duration w h n t b (ok c) keep =
      let h' = Covers-same base w.0 {t = with_control s c} refl (sym (keep c refl)) h in
      let (d, q, cov) =
        emit-Covers (with_control s c) node_suspended node point.id none duration w h' refl n
          (omega (arith, keep c refl)) in
      let s' = count_event (with_control s c) in
      let e : suspend_with ctx runner s node point duration w (ok c)
          ≡ (record { state = s'; status = suspended }, none, (d, (clock w.1).1)) =
        ground (arith, q) in
      rw e (record { covers = cov; bounded = ground (arith, keep c refl) })

  -- The collector is `c`.
  abbrev Collects : MemoryCollector → Observed W → Type 0
  Collects c w = w.0 ≡ c

  quiet : (c : MemoryCollector) → Quiet ctx runner (Collects c)
  quiet c = record { clock = λ w h. h; context = λ w h. h }

  suspend_node-Covered :
      (s : WorkflowState T) (node : String) (output : NodeResult T) (duration : ℕ) (w : Observed W)
      {top : ℕ}
      → Covers base w.0 s
      → valid_identifier node ≡ true
      → s.control.event_sequence + 1 ≤ top
      → top < sign_bit
      → Covered base top (suspend_node ctx runner s node output duration w)
  unfolding propose
  suspend_node-Covered s node output duration w {top} h n t b =
      suspend_node_cases ctx runner (Collects w.0) (quiet w.0) (Covered base top) s node output
        duration w refl (λ e w' same. node_failure-Covered s node e duration w' (rw same h) n t b)
        (λ point now w' same v p q.
          suspend_with-Covered (propose s point output) node point duration w'
            (Covers-same base w'.0 {s = s} refl refl (rw same h)) n t b _
            (λ c' k. transition_keeps _ c' _ k))

  complete_node-Covered :
      (k : WorkflowState T → Observed W → Outcome T (Observed W)) {top : ℕ}
      → (s : WorkflowState T) (node : String) (output : NodeResult T) (duration : ℕ)
        (w : Observed W)
      → ((s' : WorkflowState T) (w' : Observed W)
          → Covers base w'.0 s'
          → s'.control.event_sequence ≡ s.control.event_sequence + 1
          → Covered base top (k s' w'))
      → Covers base w.0 s
      → valid_identifier node ≡ true
      → s.control.event_sequence + 1 ≤ top
      → top < sign_bit
      → Covered base top (complete_node ctx runner k s node output duration w)
  unfolding complete_node mark_completed count_event touch valid_event_type
  complete_node-Covered k s node output duration w kh h n t b =
      let s' = mark_completed s node output in
      let (d, q, cov) =
        emit-Covers s' node_completed node "" none duration w
          (Covers-same base w.0 {t = s'} refl refl h) refl n (omega arith) in
      let e : complete_node ctx runner k s node output duration w
          ≡ k (count_event s') (d, (clock w.1).1) =
        ground (arith, q) in
      rw e (kh (count_event s') (d, (clock w.1).1) cov (ground arith))

  settle-Covered :
      (k : WorkflowState T → Observed W → Outcome T (Observed W)) {top : ℕ}
      → (s : WorkflowState T) (node : String) (output : NodeResult T) (duration : ℕ)
        (w : Observed W)
      → ((s' : WorkflowState T) (w' : Observed W)
          → Covers base w'.0 s'
          → s'.control.event_sequence ≡ s.control.event_sequence + 1
          → Covered base top (k s' w'))
      → Covers base w.0 s
      → valid_identifier node ≡ true
      → s.control.event_sequence + 1 ≤ top
      → top < sign_bit
      → Covered base top (settle ctx runner k s node output duration w)
  settle-Covered k {top} s node output duration w kh h n t b =
      settle_cases ctx runner (Collects w.0) (quiet w.0) (Covered base top) k s node output duration
        w (node_failure-Covered s node contract_error duration w h n t b)
        (suspend_node-Covered s node output duration w h n t b)
        (complete_node-Covered k s node output duration w kh h n t b)

  -- A node that leaves the collector to the runner.
  abbrev KeepsCollector : Node T (Observed W) → Type 0
  KeepsCollector n = (g : NodeInput T) (w : Observed W) → (n.execute g w).2.0 ≡ w.0

  invoke-Covered :
      (k : WorkflowState T → Observed W → Outcome T (Observed W)) {top : ℕ}
      → (s : WorkflowState T) (n : Node T (Observed W)) (resume : Option ResumeCommand) (at : ℕ)
        (w : Observed W)
      → KeepsCollector n
      → ((s' : WorkflowState T) (w' : Observed W)
          → Covers base w'.0 s'
          → s'.control.event_sequence ≡ s.control.event_sequence + 1
          → Covered base top (k s' w'))
      → Covers base w.0 s
      → valid_identifier n.id ≡ true
      → s.control.event_sequence + 1 ≤ top
      → top < sign_bit
      → Covered base top (invoke ctx runner k s n resume at w)
  invoke-Covered k {top} s n resume at w keeps kh h v t b =
      invoke_cases ctx runner (Collects w.0) (quiet w.0) (Covered base top) k s n resume at w
        (λ g w' same. keeps g w' ∙ same) refl
        (λ e duration w' same. node_failure-Covered s n.id e duration w' (rw same h) v t b)
        (λ output duration w' same. settle-Covered k s n.id output duration w' kh (rw same h) v t b)

  start_node-Covered :
      (k : WorkflowState T → Observed W → Outcome T (Observed W)) {top : ℕ}
      → (n : Node T (Observed W)) (s : WorkflowState T) (resume : Option ResumeCommand)
        (w : Observed W)
      → KeepsCollector n
      → ((s' : WorkflowState T) (w' : Observed W)
          → Covers base w'.0 s'
          → s'.control.event_sequence ≡ s.control.event_sequence + 2
          → Covered base top (k s' w'))
      → Covers base w.0 s
      → valid_identifier n.id ≡ true
      → s.control.event_sequence + 2 ≤ top
      → top < sign_bit
      → Covered base top (start_node ctx runner k n s resume w)
  unfolding start_node count_event touch valid_event_type
  start_node-Covered k n s resume w keeps kh h v t b =
      let read = clock w.1 in
      let (d, q, cov) =
        emit-Covers s node_started n.id "" none 0 (w.0, read.1) h refl v (omega arith) in
      let e : start_node ctx runner k n s resume w
          ≡ invoke ctx runner k (count_event s) n resume read.0 (d, (clock read.1).1) =
        ground (arith, q) in
      rw e (
        invoke-Covered k (count_event s) n resume read.0 (d, (clock read.1).1) keeps
          (λ s' w' c q'. kh s' w' c (ground arith)) cov v (ground arith) b)

  run_node-Covered :
      (k : WorkflowState T → Observed W → Outcome T (Observed W)) {top : ℕ}
      → (n : Node T (Observed W)) (s : WorkflowState T) (resume : Option ResumeCommand)
        (w : Observed W)
      → KeepsCollector n
      → ((s' : WorkflowState T) (w' : Observed W)
          → Covers base w'.0 s'
          → s'.control.event_sequence ≡ s.control.event_sequence + 2
          → Covered base top (k s' w'))
      → Covers base w.0 s
      → valid_identifier n.id ≡ true
      → s.control.event_sequence + 2 ≤ top
      → top < sign_bit
      → Covered base top (run_node ctx runner k n s resume w)
  unfolding enter touch
  run_node-Covered k {top} n s resume w keeps kh h v t b =
      run_node_cases ctx runner (Collects w.0) (quiet w.0) (Covered base top) k n s resume w refl
        (λ e w' same. stop_before_node-Covered s e w' (rw same h) (omega arith))
        (λ w' same left.
          start_node-Covered k n (with_control s (enter s.control n.id)) resume w' keeps kh
            (Covers-same base w'.0 {s = s} refl refl (rw same h)) v t b)

  pub execute_from-Covered :
      (ns : List (Node T W)) (s : WorkflowState T) (resume : Option ResumeCommand) (w : Observed W)
      → All (λ n. valid_identifier n.id ≡ true) ns
      → Covers base w.0 s
      → s.control.event_sequence + 2 * length ns < sign_bit
      → Covered base
          (s.control.event_sequence + 2 * length ns)
          (execute_from ctx runner (nodes_beside ns) s resume w)
  unfolding execute_from transition
  execute_from-Covered [] s resume w v h b = ground arith
  execute_from-Covered (n ∷ ns) s resume w v h b =
      run_node-Covered _ (node_beside n) s resume w (λ g w'. refl)
        (λ s' w' c q.
          let same : s'.control.event_sequence + 2 * length ns
              ≡ s.control.event_sequence + 2 * suc (length ns) =
            omega arith in
          rw (← same) (execute_from-Covered ns s' none w' v.1 c (omega arith)))
        h v.0 (omega arith) b
