-- ===== src/Workflow/Durable/Commits.antt =====
-- What the runtime commits after a run passes the checks of the store.
use harness_loop_agent.Base.{
  ℕ, suc, ◌+◌, ◌*◌, ◌≤◌, ◌<◌, ◌≡◌, refl, true, List, [], ◌∷◌, Option, none, ok, arith, length, All,
  ap,
}
use harness_loop_agent.Base.Word.{word_mod, sign_bit}
use harness_loop_agent.Base.Dict.{Dict, lookup}
use harness_loop_agent.Workflow.Ident.{valid_identifier}
use harness_loop_agent.Workflow.Wait.{ResumeCommand}
use harness_loop_agent.Workflow.State.{
  WorkflowState, validate, RunMetadata, BudgetState, validate_metadata, validate_budget,
}
use harness_loop_agent.Workflow.State.Valid.{validate-IsValid}
use harness_loop_agent.Workflow.Event.{new_memory_collector}
use harness_loop_agent.Workflow.Node.{Node}
use harness_loop_agent.Workflow.Runner.{Clock, Context, Outcome}
use harness_loop_agent.Workflow.Runner.Exec.{run, resume, execute_from}
use harness_loop_agent.Workflow.Runner.Outcome.{IsFresh, started, run-started}
use harness_loop_agent.Workflow.Runner.Shape.{Runs, execute_from-Stopped}
use harness_loop_agent.Workflow.Runner.Loop.{Ample, execute_from-Reached}
use harness_loop_agent.Workflow.Store.Commit.{validate_committed_events}
use harness_loop_agent.Workflow.Durable.{Observed, beside, nodes_beside}
use harness_loop_agent.Workflow.Durable.Events.{Covers, Covers-same, validate_committed-Covers}
use harness_loop_agent.Workflow.Durable.Observed.{observed_runner, execute_from-Covered}

-- The checks of `CommitExecution` that compare a checkpoint with the stored run: it is of the run,
-- its version is later, and the batch of events is contiguous and covers its count.
pub record Committable {T W : Type 0} (s : WorkflowState T) (o : Outcome T (Observed W))
    : Type 0 where
  pub same_run : o.0.state.meta.run_id ≡ s.meta.run_id
  pub later : s.control.state_version < o.0.state.control.state_version
  pub events :
      validate_committed_events s.control.event_sequence o.0.state.control.event_sequence
        s.meta.run_id o.2.0.events
      ≡ ok tt

-- The identifiers of validated metadata.
metadata_ids :
    (m : RunMetadata)
    → validate_metadata m ≡ ok tt
    → (valid_identifier m.workflow_id ≡ true) × (valid_identifier m.run_id ≡ true)
unfolding validate_metadata
metadata_ids m h = ground arith

budget_nonneg : (b : BudgetState) → validate_budget b ≡ ok tt → b.max_steps < sign_bit
unfolding validate_budget
budget_nonneg b h = ground arith

length-nodes_beside : {T W : Type 0} (ns : List (Node T W)) → length (nodes_beside ns) ≡ length ns
length-nodes_beside [] = refl
length-nodes_beside (n ∷ ns) = ap suc (length-nodes_beside ns)

All-nodes_beside :
    {T W : Type 0} (ns : List (Node T W))
    → All (λ n. valid_identifier n.id ≡ true) ns
    → All (λ n. valid_identifier n.id ≡ true) (nodes_beside ns)
All-nodes_beside [] h = h
All-nodes_beside (n ∷ ns) h = (h.0, All-nodes_beside ns h.1)

-- A fresh collector covers a state that has metadata of its own.
fresh-Covers :
    {T : Type 0} (s : WorkflowState T)
    → validate_metadata s.meta ≡ ok tt
    → Covers s.control.event_sequence new_memory_collector s
unfolding lookup
fresh-Covers s h = record {
  numbered = tt;
  count = omega arith;
  last = omega arith;
  workflow = (metadata_ids s.meta h).0;
  run = (metadata_ids s.meta h).1;
}

module _ {T W : Type 0} (clock : Clock W) (ctx : Context W) (ns : List (Node T W))
    (ix : Dict ℕ) where
  -- The loop over `rest`, from a state that the collector covers since `s`.
  loop-Committable :
      (rest : List (Node T W)) (s t : WorkflowState T) (resume : Option ResumeCommand)
      (w : Observed W)
      → All (λ n. valid_identifier n.id ≡ true) rest
      → Runs s.meta s.budget t
      → Ample (nodes_beside {W = W} rest) t
      → s.control.state_version ≤ t.control.state_version
      → Covers s.control.event_sequence w.0 t
      → Committable s
          (execute_from (beside ctx) (observed_runner clock ns ix) (nodes_beside rest) t resume w)
  loop-Committable rest s t resume w v runs room later cov =
      let r = observed_runner clock ns ix in
      let far =
        execute_from-Reached (beside ctx) r (nodes_beside rest) t resume w runs.status runs.no_wait
          room in
      let shape =
        execute_from-Stopped (beside ctx) r (nodes_beside rest) t resume w (All-nodes_beside rest v)
          runs in
      let fits : t.control.event_sequence + 2 * length rest < sign_bit =
        omega (arith, room.events, length-nodes_beside {W = W} rest) in
      let seen =
        execute_from-Covered clock ctx ns ix s.control.event_sequence rest t resume w v cov fits in
      record {
        same_run = ap (λ m. m.run_id) shape.meta;
        later = omega (arith, far.version_low);
        events = rw (← ap (λ m. m.run_id) shape.meta) (
            validate_committed-Covers s.control.event_sequence _ _ seen.covers
              (omega (arith, seen.bounded)));
      }

  -- `Run` of a state that passes `Validate` and has not begun, on nodes with valid names and with a
  -- new collector as its observer, ends in an outcome that passes the checks which
  -- `CommitExecution` makes against the stored run: the run id is the same, the version is later,
  -- and the events collected are a contiguous batch that covers the event sequence; where no
  -- counter wraps on the way.
  pub run-Committable :
      (s : WorkflowState T) (w : W)
      → All (λ n. valid_identifier n.id ≡ true) ns
      → validate s ≡ ok tt
      → IsFresh s
      → s.control.state_version + 4 * length ns + 10 < word_mod
      → s.control.event_sequence + 2 * length ns + 4 < sign_bit
      → length ns + 1 < sign_bit
      → Committable s (run (beside ctx) (observed_runner clock ns ix) s (new_memory_collector, w))
  run-Committable s w v valid fresh bv be bs =
      rw
        (run-started (beside ctx) (observed_runner clock ns ix) s (new_memory_collector, w) valid
          fresh)
        (loop-Committable ns s (started s) none (new_memory_collector, w) v
          (record { status = refl; no_wait = fresh.no_wait; meta = refl; budget = refl })
          (record {
            version = ground (arith, length-nodes_beside {W = W} ns);
            events = omega (arith, length-nodes_beside {W = W} ns);
            steps = ground (arith, length-nodes_beside {W = W} ns, fresh.no_steps);
            budget = budget_nonneg s.budget ((validate-IsValid s).0 valid).budget;
          })
          (ground arith)
          (Covers-same s.control.event_sequence new_memory_collector refl refl
            (fresh-Covers s ((validate-IsValid s).0 valid).meta)))
