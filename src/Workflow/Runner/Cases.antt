-- ===== src/Workflow/Runner/Cases.antt =====
-- Case rules for the parts of a round: a predicate holds of what a part returns if it holds on
-- each of the part's ways out.
use harness_loop_agent.Base.{
  ℕ, ◌-◌, ◌≡◌, String, false, Option, ok, arith, Option-cases, Result-cases, eq_iff, inl, inr,
}
use harness_loop_agent.Base.Word.{Time}
use harness_loop_agent.Workflow.Errors.{Error, contract_error, workflow, step_budget}
use harness_loop_agent.Workflow.Wait.{ResumeCommand, WaitPoint, validate_wait}
use harness_loop_agent.Workflow.State.{WorkflowState, transition, suspended}
use harness_loop_agent.Workflow.Node.{Node, NodeInput, NodeResult}
use harness_loop_agent.Workflow.Runner.{
  Runner, Context, Outcome, over_budget, context_or_deadline_error,
}
use harness_loop_agent.Workflow.Runner.Exec.{
  stop_before_node, node_failure, complete_node, suspend_node, suspend_with, settle, invoke, enter,
  start_node, run_node, with_control, propose, node_input,
}

-- A property of the world that the clock and the context keep.
pub record Quiet {T W : Type 0} (ctx : Context W) (r : Runner T W) (Q : W → Type 0) : Type 0 where
  pub clock : (w : W) → Q w → Q (r.now w).1
  pub context : (w : W) → Q w → Q (ctx w).1

-- A node keeps it too.
abbrev pub NodeKeeps : {T W : Type 0} → (W → Type 0) → Node T W → Type 0
NodeKeeps {T} {W} Q n = (g : NodeInput T) (w : W) → Q w → Q (n.execute g w).2

pub any_world : {T W : Type 0} (ctx : Context W) (r : Runner T W) → Quiet ctx r (λ w. Unit)
any_world ctx r = record { clock = λ w h. tt; context = λ w h. tt }

module _ {T W : Type 0} (ctx : Context W) (r : Runner T W) (Q : W → Type 0) (quiet : Quiet ctx r Q)
    (P : Outcome T W → Type 0) where
  context_or_deadline-Quiet :
      (s : WorkflowState T) (w : W) → Q w → Q (context_or_deadline_error ctx r s w).1
  unfolding context_or_deadline_error
  context_or_deadline-Quiet s w h =
      ground (arith, quiet.context w h, quiet.clock (ctx w).1 (quiet.context w h))

  pub suspend_node_cases :
      (s : WorkflowState T) (node : String) (output : NodeResult T) (duration : ℕ) (w : W)
      → Q w
      → ((e : Error) (w' : W) → Q w' → P (node_failure ctx r s node e duration w'))
      → ((point : WaitPoint) (now : Time) (w' : W)
          → Q w'
          → validate_wait point now ≡ ok tt
          → point.run_id ≡ s.meta.run_id
          → point.node_id ≡ node
          → let s' = propose s point output in
            P (suspend_with ctx r s' node point duration w' (transition s'.control suspended)))
      → P (suspend_node ctx r s node output duration w)
  unfolding suspend_node
  suspend_node_cases s node output duration w h failing parking =
      let read = r.now w in
      elim (Option-cases output.wait) [
        | inl e ↦ ground (arith, failing contract_error w h)
        | inr (point, e) ↦ elim (Result-cases (validate_wait point read.0)) [
          | inr (x, q) ↦ ground (arith, failing x read.1 (quiet.clock w h))
          | inl (u, q) ↦ ground (
            arith,
            failing contract_error read.1 (quiet.clock w h),
            parking point read.0 read.1 (quiet.clock w h) q,
            eq_iff point.run_id s.meta.run_id,
            eq_iff point.node_id node,
          )
        ]
      ]

  pub settle_cases :
      (k : WorkflowState T → W → Outcome T W)
      → (s : WorkflowState T) (node : String) (output : NodeResult T) (duration : ℕ) (w : W)
      → P (node_failure ctx r s node contract_error duration w)
      → P (suspend_node ctx r s node output duration w)
      → P (complete_node ctx r k s node output duration w)
      → P (settle ctx r k s node output duration w)
  unfolding settle
  settle_cases k s node output duration w failing parking completing = ground arith

  pub invoke_cases :
      (k : WorkflowState T → W → Outcome T W)
      → (s : WorkflowState T) (n : Node T W) (resume : Option ResumeCommand) (at : Time) (w : W)
      → NodeKeeps Q n
      → Q w
      → ((e : Error) (duration : ℕ) (w' : W) → Q w' → P (node_failure ctx r s n.id e duration w'))
      → ((output : NodeResult T) (duration : ℕ) (w' : W)
          → Q w'
          → P (settle ctx r k s n.id output duration w'))
      → P (invoke ctx r k s n resume at w)
  unfolding invoke
  invoke_cases k s n resume at w keeps h failing settling =
      let called = n.execute (node_input s n resume) w in
      let h1 = keeps (node_input s n resume) w h in
      let ended = r.now called.2 in
      let h3 = context_or_deadline-Quiet s ended.1 (quiet.clock called.2 h1) in
      let stop = context_or_deadline_error ctx r s ended.1 in
      elim (Option-cases stop.0) [
        | inr (e, q) ↦ ground (arith, failing e (ended.0 - at) stop.1 h3)
        | inl q ↦ elim (Option-cases called.1) [
          | inr (e, q') ↦ ground (arith, failing e (ended.0 - at) stop.1 h3)
          | inl q' ↦ ground (arith, settling called.0 (ended.0 - at) stop.1 h3)
        ]
      ]

  pub run_node_cases :
      (k : WorkflowState T → W → Outcome T W)
      → (n : Node T W) (s : WorkflowState T) (resume : Option ResumeCommand) (w : W) → Q w
      → ((e : Error) (w' : W) → Q w' → P (stop_before_node s e w'))
      → ((w' : W)
          → Q w'
          → over_budget s.budget.max_steps s.control.steps_executed ≡ false
          → P (start_node ctx r k n (with_control s (enter s.control n.id)) resume w'))
      → P (run_node ctx r k n s resume w)
  unfolding run_node
  run_node_cases k n s resume w h stopping starting =
      let h1 = context_or_deadline-Quiet s w h in
      let stop = context_or_deadline_error ctx r s w in
      elim (Option-cases stop.0) [
        | inr (e, q) ↦ ground (arith, stopping e stop.1 h1)
        | inl q ↦ ground (arith, stopping (workflow step_budget n.id) stop.1 h1, starting stop.1 h1)
      ]
