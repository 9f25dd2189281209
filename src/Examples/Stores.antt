-- ===== src/Examples/Stores.antt =====
-- The memory store: creating, claiming, committing and waiting.
use harness_loop_agent.Base.{◌+◌, ◌≡◌, refl, eq_iff, ◌≢◌, String, true, false, some, ok, arith}
use harness_loop_agent.Base.Dict.{lookup, insert}
use harness_loop_agent.Workflow.State.{RunStatus}
use harness_loop_agent.Workflow.Checkpoint.{StoredWait, StoredWorkflow, validate_claim}
use harness_loop_agent.Workflow.Store.{
  MemoryDurableStore, new_memory_durable_store, create_run, owned_run, get_current_wait,
}
use harness_loop_agent.Workflow.Store.Claims.{claim_run, claim_wait}
use harness_loop_agent.Workflow.Store.Commit.{commit_execution}
use harness_loop_agent.Workflow.Store.Create.{create-create}
use harness_loop_agent.Workflow.Store.Leases.{
  claim_run-exclusive, claim_run-takeover, claim_run-fences, commit_once,
}
use harness_loop_agent.Workflow.Store.Waits.{claim_wait-exclusive}
use harness_loop_agent.Workflow.Store.Sound.{
  IsSound, Stores, here, next, creates, claims_run, commits, Stores-IsSound,
  new_memory_durable_store-IsSound, Stores-get_current_wait,
}
use harness_loop_agent.Examples.Fixtures.{
  minute, owner, stored, holding, claimed, first_request, early_request, late_request, first_commit,
  foreign_commit, committed, committed_store, answer_request, rival_request, answered,
  answered_store, second_claim,
}

stored-create : create_run new_memory_durable_store stored ≡ ok (stored, true, holding stored)
unfolding create_run harness_loop_agent.Workflow.Checkpoint.validate_stored
    harness_loop_agent.Workflow.Checkpoint.validate_owner
    harness_loop_agent.Workflow.Ident.valid_identifier
    harness_loop_agent.Workflow.Checkpoint.validate_checkpoint
    harness_loop_agent.Workflow.State.validate harness_loop_agent.Workflow.State.validate_metadata
    harness_loop_agent.Workflow.Ident.validate_source
    harness_loop_agent.Workflow.State.validate_budget harness_loop_agent.Workflow.Store.find_key
    lookup insert
stored-create = refl

stored-claim : claim_run (holding stored) first_request ≡ ok (claimed, holding claimed)
unfolding claim_run harness_loop_agent.Workflow.Checkpoint.validate_owner validate_claim
    harness_loop_agent.Workflow.Ident.valid_identifier owned_run lookup insert
stored-claim = refl

claimed-commit : commit_execution (holding claimed) first_commit ≡ ok committed_store
unfolding commit_execution harness_loop_agent.Workflow.Ident.valid_identifier
    harness_loop_agent.Workflow.Checkpoint.validate_checkpoint
    harness_loop_agent.Workflow.State.validate harness_loop_agent.Workflow.State.validate_metadata
    harness_loop_agent.Workflow.Ident.validate_source
    harness_loop_agent.Workflow.State.validate_budget owned_run lookup
    harness_loop_agent.Workflow.Store.Claims.holds
    harness_loop_agent.Workflow.Store.Commit.validate_committed_events
    harness_loop_agent.Workflow.Store.Commit.resolve_wait
    harness_loop_agent.Workflow.Store.Commit.append_wait insert
claimed-commit = refl

committed-claim : claim_wait committed_store answer_request ≡ ok (answered, answered_store)
unfolding claim_wait harness_loop_agent.Workflow.Checkpoint.validate_owner
    harness_loop_agent.Workflow.Checkpoint.validate_actor
    harness_loop_agent.Workflow.Ident.valid_identifier validate_claim owned_run lookup
    harness_loop_agent.Workflow.Checkpoint.wait_terminal
    harness_loop_agent.Workflow.Wait.validate_resume harness_loop_agent.Workflow.Wait.validate_wait
    insert
committed-claim = refl

late-valid : validate_claim late_request.claim late_request.now ≡ ok tt
unfolding validate_claim harness_loop_agent.Workflow.Ident.valid_identifier
late-valid = refl

create-create_example :
    (owned_run (holding stored) owner "run-1" ≡ ok stored)
    × ((id : String)
        → id ≢ "run-1"
        → lookup id (holding stored).runs ≡ lookup id new_memory_durable_store.runs)
    × ((holding stored).waits ≡ new_memory_durable_store.waits)
    × ((holding stored).events ≡ new_memory_durable_store.events)
    × (create_run (holding stored) stored ≡ ok (stored, false, holding stored))
create-create_example = create-create new_memory_durable_store stored stored-create

claim_run-exclusive_example :
    claim_run (holding claimed) early_request ≢ ok (claimed, holding claimed)
claim_run-exclusive_example =
    claim_run-exclusive (holding stored) first_request stored-claim early_request refl (omega arith)

claim_run-takeover_example :
    claim_run (holding claimed) late_request
    ≡ ok (
      record claimed { claim = some second_claim; updated_at = 10 + minute },
      record (holding claimed) {
        runs =
            insert "run-1"
              (record claimed { claim = some second_claim; updated_at = 10 + minute })
              (holding claimed).runs;
      },
    )
claim_run-takeover_example =
    claim_run-takeover (holding stored) first_request stored-claim late_request refl refl refl
      (omega arith) late-valid

token_differs : foreign_commit.token ≢ first_request.claim.token
token_differs = λ h. ground (arith, (eq_iff "token-2" "token-1").1 h)

claim_run-fences_example : commit_execution (holding claimed) foreign_commit ≢ ok committed_store
claim_run-fences_example =
    claim_run-fences (holding stored) first_request stored-claim foreign_commit refl token_differs

commit_once_example : commit_execution committed_store first_commit ≢ ok committed_store
commit_once_example = commit_once (holding claimed) first_commit first_commit claimed-commit refl

claim_wait-exclusive_example :
    claim_wait answered_store rival_request ≢ ok (answered, answered_store)
claim_wait-exclusive_example =
    claim_wait-exclusive committed_store answer_request rival_request committed-claim refl
      (omega arith)

history : Stores new_memory_durable_store committed_store
history =
    next
      (next (next here (creates stored stored true refl stored-create))
        (claims_run first_request claimed stored-claim))
      (commits first_commit claimed-commit)

Stores-IsSound_example : IsSound committed_store
Stores-IsSound_example = Stores-IsSound history new_memory_durable_store-IsSound

committed-owned : owned_run committed_store owner "run-1" ≡ ok committed
unfolding owned_run lookup
committed-owned = refl

Stores-get_current_wait_example :
    (w : StoredWait) × (get_current_wait committed_store owner "run-1" ≡ ok w)
    × (committed.checkpoint.control.pending_wait ≡ some w.point)
Stores-get_current_wait_example =
    Stores-get_current_wait owner "run-1" committed history committed-owned refl
