-- ===== src/Workflow/Runner/Loop.antt =====
-- How far the whole loop takes a run.
use harness_loop_agent.Base.{
  ℕ, ◌+◌, ◌*◌, ◌≤◌, ◌<◌, ◌≡◌, refl, sym, ap, ◌∙◌, inl, inr, String, true, false, List, [], ◌∷◌,
  ◌++◌, Option, none, arith, length,
}
use mathlib.Core.List.{append-nil, append_assoc}
use harness_loop_agent.Base.Word.{word_mod, sign_bit}
use harness_loop_agent.Workflow.Wait.{ResumeCommand}
use harness_loop_agent.Workflow.State.{running, ControlState, WorkflowState, transition, touch}
use harness_loop_agent.Workflow.Node.{Node}
use harness_loop_agent.Workflow.Runner.{Runner, Context, Outcome, over_budget}
use harness_loop_agent.Workflow.Runner.Exec.{enter, execute_from}
use harness_loop_agent.Workflow.Runner.Progress.{is_completed, Late, Next, run_node-Advances}

module _ {T W : Type 0} where
  abbrev pub ids : List (Node T W) → List String
  ids [] = []
  ids (n ∷ ns) = n.id ∷ ids ns

  -- The run has completed the nodes `done`, in order, and no other; all of `ns` if it has the
  -- status completed. The version has grown, and a step budget that was kept is kept.
  pub record Reached (ns : List (Node T W)) (s : WorkflowState T) (o : Outcome T W) : Type 0 where
    pub done : List (Node T W)
    pub left : List (Node T W)
    pub split : ns ≡ done ++ left
    pub completed : o.0.state.control.completed_nodes ≡ s.control.completed_nodes ++ ids done
    pub all_done : is_completed o.0.status ≡ true → left ≡ []
    pub version_low : s.control.state_version < o.0.state.control.state_version
    pub version_high : o.0.state.control.state_version ≤ s.control.state_version + 4 * length ns + 1
    pub events_low : s.control.event_sequence ≤ o.0.state.control.event_sequence
    pub events_high : o.0.state.control.event_sequence ≤ s.control.event_sequence + 2 * length ns
    pub steps_low : s.control.steps_executed ≤ o.0.state.control.steps_executed
    pub steps_high : o.0.state.control.steps_executed ≤ s.control.steps_executed + length ns
    pub budget :
        0 < s.budget.max_steps
        → s.control.steps_executed ≤ s.budget.max_steps
        → o.0.state.control.steps_executed ≤ s.budget.max_steps

  -- No counter wraps in the rounds for `ns`, and the step budget is not negative.
  pub record Ample (ns : List (Node T W)) (s : WorkflowState T) : Type 0 where
    pub version : s.control.state_version + 4 * length ns + 8 < word_mod
    pub events : s.control.event_sequence + 2 * length ns + 4 < sign_bit
    pub steps : s.control.steps_executed + length ns + 1 < sign_bit
    pub budget : s.budget.max_steps < sign_bit

-- A step that the budget allows stays within it.
budget_step : (b n : ℕ) → 0 < b → b < sign_bit → n < sign_bit → over_budget b n ≡ false → n + 1 ≤ b
unfolding over_budget
budget_step b n p q h e = ground arith

module _ {T W : Type 0} (n : Node T W) (ns : List (Node T W)) (s : WorkflowState T) where
  -- A run that stops in the round for `n`, as seen from the state before the round.
  Late-Reached :
      {v e : ℕ} (c : ControlState) (o : Outcome T W)
      → c.completed_nodes ≡ s.control.completed_nodes
      → s.control.state_version ≤ c.state_version
      → c.state_version + v ≤ s.control.state_version + 5
      → s.control.event_sequence ≤ c.event_sequence
      → c.event_sequence + e ≤ s.control.event_sequence + 2
      → s.control.steps_executed ≤ c.steps_executed
      → c.steps_executed ≤ s.control.steps_executed + 1
      → (0 < s.budget.max_steps
          → s.control.steps_executed ≤ s.budget.max_steps
          → c.steps_executed ≤ s.budget.max_steps)
      → Late v e n.id c o
      → Reached (n ∷ ns) s o
  Late-Reached c o same vl vh el eh sl sh b h = elim h.completed [
    | inl q ↦ record {
      done = [];
      left = n ∷ ns;
      split = refl;
      completed = q ∙ same ∙ sym (append-nil _);
      all_done = λ f. cc (h.unfinished, f);
      version_low = omega arith;
      version_high = omega arith;
      events_low = omega arith;
      events_high = omega arith;
      steps_low = omega arith;
      steps_high = omega arith;
      budget = λ p k. omega (arith, b p k);
    }
    | inr q ↦ record {
      done = n ∷ [];
      left = ns;
      split = refl;
      completed = q ∙ ap (λ l. l ++ n.id ∷ []) same;
      all_done = λ f. cc (h.unfinished, f);
      version_low = omega arith;
      version_high = omega arith;
      events_low = omega arith;
      events_high = omega arith;
      steps_low = omega arith;
      steps_high = omega arith;
      budget = λ p k. omega (arith, b p k);
    }
  ]

  -- A run that goes on behind `n`.
  Next-Reached :
      (c : ControlState) (s' : WorkflowState T) (o : Outcome T W)
      → c.completed_nodes ≡ s.control.completed_nodes
      → c.state_version ≡ s.control.state_version + 1
      → c.event_sequence ≡ s.control.event_sequence
      → c.steps_executed ≡ s.control.steps_executed + 1
      → (0 < s.budget.max_steps
          → s.control.steps_executed ≤ s.budget.max_steps
          → c.steps_executed ≤ s.budget.max_steps)
      → s'.budget ≡ s.budget
      → Next 3 2 n.id c s'.control
      → Reached ns s' o
      → Reached (n ∷ ns) s o
  Next-Reached c s' o same v e st b hb h t = record {
    done = n ∷ t.done;
    left = t.left;
    split = ap (λ l. n ∷ l) t.split;
    completed =
        t.completed
        ∙ ap (λ l. l ++ ids t.done) (h.completed ∙ ap (λ l. l ++ n.id ∷ []) same)
        ∙ append_assoc s.control.completed_nodes (n.id ∷ []) (ids t.done);
    all_done = t.all_done;
    version_low = omega arith;
    version_high = omega arith;
    events_low = omega arith;
    events_high = omega arith;
    steps_low = omega arith;
    steps_high = omega arith;
    budget = λ p k.
        let q : s'.budget.max_steps ≡ s.budget.max_steps = ap (λ x. x.max_steps) hb in
        omega (arith, b p k, t.budget (omega arith) (omega (arith, b p k)));
  }

module _ {T W : Type 0} (ctx : Context W) (r : Runner T W) where
  -- From a state that is running without a wait point, where no counter wraps in the rounds that
  -- are left and the step budget is not negative, the loop completes a prefix of the nodes it is
  -- given, in their order, and all of them if the run completes; the version grows, by at most four
  -- for each node and one; the event sequence grows by at most two and the steps by at most one for
  -- each node; and a positive step budget that was kept before is kept.
  pub execute_from-Reached :
      (ns : List (Node T W)) (s : WorkflowState T) (resume : Option ResumeCommand) (w : W)
      → s.control.status ≡ running
      → s.control.pending_wait ≡ none
      → Ample ns s
      → Reached ns s (execute_from ctx r ns s resume w)
  unfolding execute_from enter touch transition
  execute_from-Reached [] s resume w h p a = record {
    done = [];
    left = [];
    split = refl;
    completed = ground (arith, append-nil s.control.completed_nodes);
    all_done = λ f. refl;
    version_low = ground arith;
    version_high = ground arith;
    events_low = ground arith;
    events_high = ground arith;
    steps_low = ground arith;
    steps_high = ground arith;
    budget = λ p k. ground arith;
  }
  execute_from-Reached (n ∷ ns) s resume w h p a =
      let k = λ (s' : WorkflowState T) (w' : W). execute_from ctx r ns s' none w' in
      elim (run_node-Advances ctx r k n s resume w h p (ground arith)) [
        | inl late ↦
            Late-Reached n ns s s.control _ refl (omega arith) (omega arith) (omega arith)
              (omega arith) (omega arith) (omega arith) (λ q b. b) late
        | inr (left, inl late) ↦
            Late-Reached n ns s (enter s.control n.id) _ refl (ground arith) (ground arith)
              (ground arith) (ground arith) (ground arith) (ground arith)
              (λ p' q. ground (arith, budget_step s.budget.max_steps s.control.steps_executed)) late
        | inr (left, inr (s', w', h', hm, hb, e)) ↦
            let q : s'.budget.max_steps ≡ s.budget.max_steps = ap (λ x. x.max_steps) hb in
            let room : Ample ns s' = record {
              version = omega arith;
              events = omega arith;
              steps = omega arith;
              budget = omega arith;
            } in
            let t = execute_from-Reached ns s' none w' h'.status h'.no_wait room in
            Next-Reached n ns s (enter s.control n.id) s' _ refl (ground arith) (ground arith)
              (ground arith)
              (λ p' q. ground (arith, budget_step s.budget.max_steps s.control.steps_executed)) hb
              h' (rw e t)
      ]
