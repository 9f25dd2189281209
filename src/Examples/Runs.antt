-- ===== src/Examples/Runs.antt =====
-- The runner and the runtime on the workflow of two nodes.
use harness_loop_agent.Base.{ℕ, ◌≡◌, refl, ◌⊎◌, true, none, some, ok, arith, drop, All}
use harness_loop_agent.Base.Dict.{lookup, insert}
use harness_loop_agent.Workflow.Ident.{valid_identifier}
use harness_loop_agent.Workflow.Wait.{WaitPoint, ResumeCommand}
use harness_loop_agent.Workflow.State.{RunStatus, WorkflowState, validate}
use harness_loop_agent.Workflow.Event.{new_memory_collector}
use harness_loop_agent.Workflow.Runner.{new_runner, Outcome, result_of}
use harness_loop_agent.Workflow.Runner.Exec.{run, resume, execute_from}
use harness_loop_agent.Workflow.Runner.Shape.{Stopped}
use harness_loop_agent.Workflow.Runner.Build.{Heads, new_runner-lookup}
use harness_loop_agent.Workflow.Runner.Outcome.{
  IsFresh, Refused, Enters, run-Stopped, run-Refused, resume_time, resume-Stopped,
}
use harness_loop_agent.Workflow.Runner.Loop.{Reached, Ample, execute_from-Reached}
use harness_loop_agent.Workflow.Durable.{beside, nodes_beside, full}
use harness_loop_agent.Workflow.Durable.Observed.{observed_runner}
use harness_loop_agent.Workflow.Durable.Commits.{Committable, run-Committable}
use harness_loop_agent.Workflow.Durable.Calls.{execute, run_or_resume, runner_options}
use harness_loop_agent.Workflow.Durable.Refusal.{execute-refused}
use harness_loop_agent.Workflow.Errors.{workflow, resume_budget, state_conflict}
use harness_loop_agent.Workflow.Checkpoint.{encode_checkpoint}
use harness_loop_agent.Workflow.Store.{owned_run}
use harness_loop_agent.Workflow.Store.Claims.{holds}
use harness_loop_agent.Examples.Fixtures.{
  world_clock, world_alive, runtime, runtime_runner, used_up, used_up_run, used_up_store, owner,
  actor, codec, fresh, waiting, running_state, approval, clock, alive, both, plain, runner,
}

built : new_runner clock both plain ≡ ok runner
unfolding new_runner valid_identifier lookup
built = refl

fresh-valid : validate fresh ≡ ok tt
unfolding validate harness_loop_agent.Workflow.State.validate_metadata valid_identifier
    harness_loop_agent.Workflow.Ident.validate_source
    harness_loop_agent.Workflow.State.validate_budget
fresh-valid = refl

fresh-IsFresh : IsFresh fresh
fresh-IsFresh = record {
  status = refl;
  no_wait = refl;
  no_node = refl;
  nothing_done = refl;
  no_steps = refl;
  no_resumes = refl;
}

run_status : (run alive runner fresh 10).0.status ≡ RunStatus.suspended
unfolding run resume execute_from validate valid_identifier lookup new_runner
    harness_loop_agent.Workflow.State.validate_metadata
    harness_loop_agent.Workflow.Ident.validate_source
    harness_loop_agent.Workflow.State.validate_budget
    harness_loop_agent.Workflow.Runner.Exec.resume_within
    harness_loop_agent.Workflow.Runner.context_or_deadline_error
    harness_loop_agent.Workflow.Runner.over_budget harness_loop_agent.Workflow.Runner.Exec.admit
    harness_loop_agent.Workflow.Wait.validate_resume harness_loop_agent.Workflow.Wait.validate_wait
    harness_loop_agent.Workflow.Runner.Exec.reenter harness_loop_agent.Workflow.Runner.emit
    harness_loop_agent.Workflow.State.transition harness_loop_agent.Workflow.Runner.count_event
    harness_loop_agent.Workflow.Runner.Exec.complete_node
    harness_loop_agent.Workflow.Runner.Exec.enter harness_loop_agent.Workflow.Runner.Exec.invoke
    harness_loop_agent.Workflow.Runner.Exec.mark_completed
    harness_loop_agent.Workflow.Runner.Exec.propose harness_loop_agent.Workflow.Runner.Exec.run_node
    harness_loop_agent.Workflow.Runner.Exec.settle
    harness_loop_agent.Workflow.Runner.Exec.start_node
    harness_loop_agent.Workflow.Runner.Exec.suspend_node
run_status = refl

resume_status : (resume alive runner waiting approval 20).0.status ≡ RunStatus.completed
unfolding run resume execute_from validate valid_identifier lookup new_runner
    harness_loop_agent.Workflow.State.validate_metadata
    harness_loop_agent.Workflow.Ident.validate_source
    harness_loop_agent.Workflow.State.validate_budget
    harness_loop_agent.Workflow.Runner.Exec.resume_within
    harness_loop_agent.Workflow.Runner.context_or_deadline_error
    harness_loop_agent.Workflow.Runner.over_budget harness_loop_agent.Workflow.Runner.Exec.admit
    harness_loop_agent.Workflow.Wait.validate_resume harness_loop_agent.Workflow.Wait.validate_wait
    harness_loop_agent.Workflow.Runner.Exec.reenter harness_loop_agent.Workflow.Runner.emit
    harness_loop_agent.Workflow.State.transition harness_loop_agent.Workflow.Runner.count_event
    harness_loop_agent.Workflow.Runner.Exec.complete_node
    harness_loop_agent.Workflow.Runner.Exec.enter harness_loop_agent.Workflow.Runner.Exec.invoke
    harness_loop_agent.Workflow.Runner.Exec.mark_completed
    harness_loop_agent.Workflow.Runner.Exec.propose harness_loop_agent.Workflow.Runner.Exec.run_node
    harness_loop_agent.Workflow.Runner.Exec.settle
    harness_loop_agent.Workflow.Runner.Exec.start_node
    harness_loop_agent.Workflow.Runner.Exec.suspend_node
resume_status = refl

new_runner-lookup_example : Heads "ask" (drop 1 runner.nodes)
unfolding lookup
new_runner-lookup_example = new_runner-lookup clock both plain built "ask" 1 refl

run-Stopped_example : Stopped fresh.meta fresh.budget (run alive runner fresh 10)
run-Stopped_example = run-Stopped clock both plain built alive fresh 10 fresh-valid fresh-IsFresh

waiting_has_begun : ¬ ((validate waiting ≡ ok tt) × IsFresh waiting)
waiting_has_begun (v, h) = ground (arith, h.status)

run-Refused_example : Refused waiting (run alive runner waiting 20)
run-Refused_example = run-Refused clock both plain built alive waiting 20 waiting_has_begun

resume-Stopped_example :
    Refused waiting (resume alive runner waiting approval 20)
    ⊎ (((wait : WaitPoint) × (index : ℕ) × Enters runner waiting approval wait index
            (resume_time alive runner waiting 20)
          × Heads wait.node_id (drop index runner.nodes))
        × Stopped waiting.meta waiting.budget (resume alive runner waiting approval 20))
resume-Stopped_example = resume-Stopped clock both plain built alive waiting approval 20

both-Ample : Ample {W = ℕ} both running_state
both-Ample = record {
  version = omega arith;
  events = omega arith;
  steps = omega arith;
  budget = omega arith;
}

execute_from-Reached_example :
    Reached both running_state (execute_from alive runner both running_state none 10)
execute_from-Reached_example =
    execute_from-Reached alive runner both running_state none 10 refl refl both-Ample

both-named : All (λ n. valid_identifier n.id ≡ true) (both {W = ℕ})
unfolding valid_identifier
both-named = (refl, (refl, tt))

run-Committable_example : Committable fresh (
    run (beside alive) (observed_runner clock both runner.indexes) fresh (new_memory_collector, 10))
run-Committable_example =
    run-Committable clock alive both runner.indexes fresh 10 both-named fresh-valid fresh-IsFresh
      (omega arith) (omega arith) (omega arith)

runtime-built :
    new_runner
      (beside world_clock)
      (nodes_beside runtime.nodes)
      (runner_options world_alive runtime)
    ≡ ok runtime_runner
unfolding new_runner valid_identifier harness_loop_agent.Workflow.Runner.index_nodes lookup insert
runtime-built = refl

used_up-resume :
    run_or_resume world_alive runtime runtime_runner used_up
      (some approval)
      (new_memory_collector, (used_up_store, 20))
    ≡ (
      result_of used_up,
      some (workflow resume_budget "ask"),
      (new_memory_collector, (used_up_store, 20)),
    )
unfolding run resume execute_from validate valid_identifier lookup new_runner
    harness_loop_agent.Workflow.State.validate_metadata
    harness_loop_agent.Workflow.Ident.validate_source
    harness_loop_agent.Workflow.State.validate_budget
    harness_loop_agent.Workflow.Runner.Exec.resume_within
    harness_loop_agent.Workflow.Runner.context_or_deadline_error
    harness_loop_agent.Workflow.Runner.over_budget harness_loop_agent.Workflow.Runner.Exec.admit
    harness_loop_agent.Workflow.Wait.validate_resume harness_loop_agent.Workflow.Wait.validate_wait
    harness_loop_agent.Workflow.Runner.Exec.reenter harness_loop_agent.Workflow.Runner.emit
    harness_loop_agent.Workflow.State.transition harness_loop_agent.Workflow.Runner.count_event
    harness_loop_agent.Workflow.Runner.Exec.complete_node
    harness_loop_agent.Workflow.Runner.Exec.enter harness_loop_agent.Workflow.Runner.Exec.invoke
    harness_loop_agent.Workflow.Runner.Exec.mark_completed
    harness_loop_agent.Workflow.Runner.Exec.propose harness_loop_agent.Workflow.Runner.Exec.run_node
    harness_loop_agent.Workflow.Runner.Exec.settle
    harness_loop_agent.Workflow.Runner.Exec.start_node
    harness_loop_agent.Workflow.Runner.Exec.suspend_node
used_up-resume = refl

used_up-encode : encode_checkpoint used_up codec 0 ≡ ok used_up_run.checkpoint
unfolding encode_checkpoint valid_identifier validate
    harness_loop_agent.Workflow.State.validate_metadata
    harness_loop_agent.Workflow.Ident.validate_source
    harness_loop_agent.Workflow.State.validate_budget
    harness_loop_agent.Workflow.Checkpoint.validate_checkpoint
used_up-encode = refl

token-valid : valid_identifier "token-3" ≡ true
unfolding valid_identifier
token-valid = refl

used_up-owned : owned_run used_up_store owner "run-1" ≡ ok used_up_run
unfolding owned_run lookup
used_up-owned = refl

used_up-held : holds used_up_run.claim "token-3" 20 ≡ true
unfolding holds
used_up-held = refl

execute-refused_example :
    execute world_alive runtime owner used_up_run used_up (some approval) actor (used_up_store, 20)
    ≡ (full (result_of used_up), some (workflow state_conflict ""), (used_up_store, 21))
execute-refused_example =
    execute-refused world_alive runtime refl runtime-built owner used_up_run used_up_run used_up
      (some approval) actor (used_up_store, 20) (used_up_store, 20) new_memory_collector
      (workflow resume_budget "ask") used_up_run.checkpoint used_up-resume used_up-encode refl
      token-valid used_up-owned used_up-held refl
