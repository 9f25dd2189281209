-- ===== src/Workflow/Runner/Outcome.antt =====
-- What `Run` and `Resume` return, on every path.
use harness_loop_agent.Base.{
  ℕ, ◌≡◌, refl, ◌⊎◌, inl, inr, true, false, List, [], Option, none, some, ok, arith, is_some,
  All-drop, drop, eq_iff, str_eq, Option-cases, Result-cases, Bool-cases,
}
use harness_loop_agent.Base.Word.{inc, Time}
use harness_loop_agent.Base.Dict.{lookup}
use harness_loop_agent.Workflow.Wait.{ResumeCommand, WaitPoint, validate_resume}
use harness_loop_agent.Workflow.Wait.Accepts.{Accepts, validate_resume-Accepts}
use harness_loop_agent.Workflow.State.{
  pending, suspended, running, is_suspended, WorkflowState, transition, validate, touch,
}
use harness_loop_agent.Workflow.Event.{node_resumed}
use harness_loop_agent.Workflow.Runner.{
  Runner, RunnerOptions, Clock, Context, Outcome, result_of, new_runner, over_budget, emit,
  count_event, context_or_deadline_error,
}
use harness_loop_agent.Workflow.Runner.Exec.{
  run, resume, resume_within, admit, reenter, execute_from, with_control,
}
use harness_loop_agent.Workflow.Runner.Shape.{Runs, Stopped, execute_from-Stopped}
use harness_loop_agent.Workflow.Runner.Build.{IsNamed, Heads, new_runner-IsNamed, new_runner-lookup}
use harness_loop_agent.Workflow.Node.{Node}

-- A run that has not begun.
pub record IsFresh {T : Type 0} (s : WorkflowState T) : Type 0 where
  pub status : s.control.status ≡ pending
  pub no_wait : s.control.pending_wait ≡ none
  pub no_node : s.control.current_node ≡ ""
  pub nothing_done : s.control.completed_nodes ≡ []
  pub no_steps : s.control.steps_executed ≡ 0
  pub no_resumes : s.control.resume_count ≡ 0

-- The state as it was, and an error.
pub record Refused {T W : Type 0} (s : WorkflowState T) (o : Outcome T W) : Type 0 where
  pub unchanged : o.0 ≡ result_of s
  pub error : is_some o.1 ≡ true

-- The state in which the loop starts, and the one in which it goes on after a wait.
abbrev pub started : {T : Type 0} → WorkflowState T → WorkflowState T
started s =
    with_control s
      (record s.control { status = running; state_version = inc s.control.state_version })

abbrev pub resumed : {T : Type 0} → WorkflowState T → WorkflowState T
resumed s = with_control s (record s.control {
  status = running;
  pending_wait = none;
  state_version = inc (inc s.control.state_version);
  resume_count = inc s.control.resume_count;
  event_sequence = inc s.control.event_sequence;
})

-- A command that a suspended run takes up: the run waits at `wait`, whose node is the `index`th,
-- neither budget is used up, and the point accepts the command at the time `at`.
pub record Enters {T W : Type 0} (r : Runner T W) (s : WorkflowState T) (c : ResumeCommand)
    (wait : WaitPoint) (index : ℕ) (at : Time) : Type 0 where
  pub status : s.control.status ≡ suspended
  pub waits : s.control.pending_wait ≡ some wait
  pub resumes_left : over_budget s.budget.max_resumes s.control.resume_count ≡ false
  pub steps_left : over_budget s.budget.max_steps s.control.steps_executed ≡ false
  pub accepts : Accepts wait c at
  pub found : lookup wait.node_id r.indexes ≡ some index
  pub current : wait.node_id ≡ s.control.current_node

module _ {T W : Type 0} (ctx : Context W) (r : Runner T W) where
  pub run-started :
      (s : WorkflowState T) (w : W)
      → validate s ≡ ok tt
      → IsFresh s
      → run ctx r s w ≡ execute_from ctx r r.nodes (started s) none w
  unfolding run transition
  run-started s w v f = ground (arith, eq_iff s.control.current_node "")

  -- The clock's reading in `Resume`, behind the tests of the context and the deadline.
  abbrev pub resume_time : WorkflowState T → W → Time
  resume_time s w = (r.now (context_or_deadline_error ctx r s w).1).0

  -- A command is refused, or accepted at a time, and the loop goes on with it from the node that
  -- waits.
  abbrev pub ResumeCase : WorkflowState T → ResumeCommand → Time → Outcome T W → Type 0
  ResumeCase s c at o =
      Refused s o
      ⊎ ((wait : WaitPoint) × (index : ℕ) × (w : W) × Enters r s c wait index at
          × (o ≡ execute_from ctx r (drop index r.nodes) (resumed s) (some c) w))

  reenter-ResumeCase :
      (s : WorkflowState T) (wait : WaitPoint) (index : ℕ) (at : Time) (c : ResumeCommand) (w : W)
      → Enters r s c wait index at
      → ResumeCase s c at (reenter ctx r s wait index c w)
  unfolding reenter transition emit count_event touch
  reenter-ResumeCase s wait index at c w h =
      let observed = emit ctx r s node_resumed wait.node_id wait.id none 0 w in
      elim (Option-cases observed.1) [
        | inl e ↦ inr (wait, index, observed.2, h, ground arith)
        | inr (x, e) ↦ inl (ground arith)
      ]

  admit-ResumeCase :
      (s : WorkflowState T) (wait : WaitPoint) (c : ResumeCommand) (w : W)
      → s.control.status ≡ suspended
      → s.control.pending_wait ≡ some wait
      → over_budget s.budget.max_resumes s.control.resume_count ≡ false
      → over_budget s.budget.max_steps s.control.steps_executed ≡ false
      → ResumeCase s c (r.now w).0 (admit ctx r s wait c w)
  unfolding admit
  admit-ResumeCase s wait c w st p hr hs =
      let read = r.now w in
      elim (Result-cases (validate_resume wait c read.0)) [
        | inr (x, e) ↦ inl (ground arith)
        | inl (u, e) ↦ elim (Option-cases (lookup wait.node_id r.indexes)) [
          | inl q ↦ inl (ground arith)
          | inr (index, q) ↦ elim (Bool-cases (str_eq wait.node_id s.control.current_node)) [
            | inr f ↦ inl (ground arith)
            | inl t ↦
                let h : Enters r s c wait index read.0 = record {
                  status = st;
                  waits = p;
                  resumes_left = hr;
                  steps_left = hs;
                  accepts = (validate_resume-Accepts wait c read.0).0 e;
                  found = q;
                  current = (eq_iff _ _).0 t;
                } in
                let entered : admit ctx r s wait c w ≡ reenter ctx r s wait index c read.1 =
                  ground arith in
                rw entered (reenter-ResumeCase s wait index read.0 c read.1 h)
          ]
        ]
      ]

  within_cases :
      (s : WorkflowState T) (wait : WaitPoint) (c : ResumeCommand) (w : W)
      → Refused s (resume_within ctx r s wait c w)
        ⊎ ((over_budget s.budget.max_resumes s.control.resume_count ≡ false)
            × (over_budget s.budget.max_steps s.control.steps_executed ≡ false)
            × (resume_within ctx r s wait c w
                ≡ admit ctx r s wait c (context_or_deadline_error ctx r s w).1))
  unfolding resume_within
  within_cases s wait c w = ground arith

  pub resume_cases :
      (s : WorkflowState T) (c : ResumeCommand) (w : W)
      → Refused s (resume ctx r s c w)
        ⊎ ((wait : WaitPoint) × (validate s ≡ ok tt)
            × (s.control.status ≡ suspended)
            × (s.control.pending_wait ≡ some wait)
            × (resume ctx r s c w ≡ resume_within ctx r s wait c w))
  unfolding resume
  resume_cases s c w = elim (Option-cases s.control.pending_wait) [
    | inl p ↦ inl (ground arith)
    | inr (wait, p) ↦ elim (Result-cases (validate s)) [
      | inr (x, e) ↦ inl (ground arith)
      | inl (u, e) ↦ elim (Bool-cases (is_suspended s.control.status)) [
        | inr f ↦ inl (ground arith)
        | inl t ↦ inr (wait, e, ground arith, p, ground arith)
      ]
    ]
  ]

  -- Every resume is refused, with the state as it was, or goes on from the node that waits.
  pub resume-ResumeCase :
      (s : WorkflowState T) (c : ResumeCommand) (w : W)
      → ResumeCase s c (resume_time s w) (resume ctx r s c w)
  resume-ResumeCase s c w = elim (resume_cases s c w) [
    | inl no_change ↦ inl no_change
    | inr (wait, v, st, p, e) ↦ rw e (elim (within_cases s wait c w) [
      | inl no_change ↦ inl no_change
      | inr (hr, hs, q) ↦ rw q (admit-ResumeCase s wait c _ st p hr hs)
    ])
  ]

module _ {T W : Type 0} (clock : Clock W) (ns : List (Node T W)) (options : RunnerOptions W)
    {r : Runner T W} (built : new_runner clock ns options ≡ ok r) (ctx : Context W) where
  execute-Stopped :
      (k : ℕ) (s : WorkflowState T) (command : Option ResumeCommand) (w : W)
      → Runs s.meta s.budget s
      → Stopped s.meta s.budget (execute_from ctx r (drop k r.nodes) s command w)
  execute-Stopped k s command w h =
      execute_from-Stopped ctx r (drop k r.nodes) s command w
        (All-drop IsNamed k r.nodes (new_runner-IsNamed clock ns options built).1) h

  -- On a runner that `NewRunner` built, `Run` of a state that passes `Validate` and has not begun
  -- always returns, whatever its nodes, observer and context do, with a run that is suspended with
  -- a wait point at a named node, or has a terminal status and no wait point; the status it reports
  -- is the state's, and the metadata and the budget are those of the start.
  pub run-Stopped :
      (s : WorkflowState T) (w : W)
      → validate s ≡ ok tt
      → IsFresh s
      → Stopped s.meta s.budget (run ctx r s w)
  run-Stopped s w v f = rw (run-started ctx r s w v f) (
      execute_from-Stopped ctx r r.nodes (started s) none w
        (new_runner-IsNamed clock ns options built).1
        (record { status = refl; no_wait = f.no_wait; meta = refl; budget = refl }))

  -- `Run` of a state that does not pass `Validate`, or that has begun, returns an error and the
  -- state as it was.
  pub run-Refused :
      (s : WorkflowState T) (w : W)
      → ¬ ((validate s ≡ ok tt) × IsFresh s)
      → Refused s (run ctx r s w)
  unfolding run transition
  run-Refused s w h = ground (arith, eq_iff s.control.current_node "")

  -- On a runner that `NewRunner` built, `Resume` of any state with any command either returns an
  -- error and the state as it was; or the state was suspended at a wait point that accepts the
  -- command at the clock's reading in `Resume`, neither budget was used up, the node that waits is a node of the
  -- runner, and the run has stopped again: suspended with a wait point at a named node, or with a
  -- terminal status and no wait point, with the metadata and the budget as they were.
  pub resume-Stopped :
      (s : WorkflowState T) (c : ResumeCommand) (w : W)
      → Refused s (resume ctx r s c w)
        ⊎ (((wait : WaitPoint) × (index : ℕ) × Enters r s c wait index (resume_time ctx r s w)
              × Heads wait.node_id (drop index r.nodes))
            × Stopped s.meta s.budget (resume ctx r s c w))
  resume-Stopped s c w = elim (resume-ResumeCase ctx r s c w) [
    | inl no_change ↦ inl no_change
    | inr (wait, index, w', h, e) ↦ inr (
      (wait, index, h, new_runner-lookup clock ns options built wait.node_id index h.found),
      rw e (
          execute-Stopped index (resumed s) (some c) w'
            (record { status = refl; no_wait = refl; meta = refl; budget = refl })),
    )
  ]
