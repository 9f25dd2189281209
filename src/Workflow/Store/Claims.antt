-- ===== src/Workflow/Store/Claims.antt =====
-- internal/workflow/memory_durable_store.go: claims with leases, and the commit of an execution.
use harness_loop_agent.Base.{
  ℕ, ◌-◌, String, Bool, false, not, ◌||◌, ◌&&◌, List, Option, none, some, Result, ok, ◌>>=◌, ◌>>◌,
  reject_if, or_fail, is_empty, if◌then◌else◌, str_eq, ltb, ◌==◌, get_last?, set_last,
}
use harness_loop_agent.Base.Word.{Time, is_zero, after, inc}
use harness_loop_agent.Base.Dict.{insert}
use harness_loop_agent.Workflow.Errors.{
  Error, workflow, contract_error, not_found, claim_conflict, lease_lost, state_conflict,
}
use harness_loop_agent.Workflow.Wait.{ResumeCommand, validate_resume}
use harness_loop_agent.Workflow.State.{is_pending, is_suspended}
use harness_loop_agent.Workflow.Checkpoint.{
  WorkflowOwner, validate_owner, ActorRef, validate_actor, Claim, validate_claim, processing,
  is_processing, wait_terminal, StoredWait, StoredWorkflow, max_lease_duration,
}
use harness_loop_agent.Workflow.Store.{MemoryDurableStore, waits_of, owned_run}

-- `claim != nil && claim.LeaseUntil.After(now)`
unfoldable pub is_held : Option Claim → Time → Bool
is_held none now = false
is_held (some c) now = after c.lease_until now

-- The claim is there under this token, and its lease has not ended.
unfoldable pub holds : Option Claim → String → Time → Bool
holds none token now = false
holds (some c) token now = str_eq c.token token && after c.lease_until now

pub record ClaimRunRequest : Type 0 where
  pub owner : WorkflowOwner
  pub run_id : String
  pub expected_state_version : ℕ  -- uint64
  pub claim : Claim
  pub now : Time

-- `ClaimRun`
unfoldable pub claim_run :
    MemoryDurableStore → ClaimRunRequest → Result Error (StoredWorkflow × MemoryDurableStore)
unfolding is_held
claim_run s q = do
  validate_owner q.owner
  reject_if (is_zero q.now) contract_error
  validate_claim q.claim q.now
  run ← owned_run s q.owner q.run_id
  reject_if
      (not (is_pending run.checkpoint.control.status)
        || not (run.checkpoint.control.state_version == q.expected_state_version))
      (workflow state_conflict "")
  reject_if (is_held run.claim q.now) (workflow claim_conflict "")
  let claimed = record run { claim = some q.claim; updated_at = q.now }
  ok (claimed, record s { runs = insert q.run_id claimed s.runs })

pub record ClaimWaitRequest : Type 0 where
  pub owner : WorkflowOwner
  pub run_id : String
  pub expected_state_version : ℕ  -- uint64
  pub command : ResumeCommand
  pub actor : ActorRef
  pub claim : Claim
  pub now : Time

-- `ClaimWait`
unfoldable pub claim_wait :
    MemoryDurableStore → ClaimWaitRequest → Result Error (StoredWorkflow × MemoryDurableStore)
unfolding is_held
claim_wait s q = do
  validate_owner q.owner
  validate_actor q.actor
  reject_if (is_zero q.now) contract_error
  validate_claim q.claim q.now
  run ← owned_run s q.owner q.run_id
  reject_if
      (not (is_suspended run.checkpoint.control.status)
        || not (run.checkpoint.control.state_version == q.expected_state_version))
      (workflow state_conflict "")
  let waits = waits_of s q.run_id
  wait ← or_fail (get_last? waits) (workflow not_found "")
  reject_if (wait_terminal wait.status) (workflow state_conflict "")
  reject_if (is_processing wait.status && is_held wait.claim q.now) (workflow claim_conflict "")
  validate_resume wait.point q.command q.now
  let taken = record wait {
    status = processing;
    record_version = inc wait.record_version;
    claim = some q.claim;
  }
  let claimed = record run { claim = some q.claim; updated_at = q.now }
  ok (
    claimed,
    record s {
      runs = insert q.run_id claimed s.runs;
      waits = insert q.run_id (set_last waits taken) s.waits;
    },
  )

pub record RenewClaimRequest : Type 0 where
  pub owner : WorkflowOwner
  pub run_id : String
  pub token : String
  pub until : Time
  pub now : Time

abbrev pub renewed : Time → Option Claim → Option Claim
renewed until none = none
renewed until (some c) = some (record c { lease_until = until })

abbrev pub has_token : Option Claim → String → Bool
has_token none token = false
has_token (some c) token = str_eq c.token token

-- The wait that the renewed run is processing has its lease renewed too.
abbrev pub renew_wait : Time → String → StoredWait → StoredWait
renew_wait until token w =
    if is_processing w.status && has_token w.claim token
    then record w { claim = renewed until w.claim }
    else w

abbrev pub renew_last : Time → String → List StoredWait → List StoredWait
renew_last until token waits = elim (get_last? waits) [
  | none ↦ waits
  | some w ↦ set_last waits (renew_wait until token w)
]

-- `RenewClaim`
unfoldable pub renew_claim :
    MemoryDurableStore → RenewClaimRequest → Result Error MemoryDurableStore
unfolding holds
renew_claim s q = do
  reject_if (not (after q.until q.now) || ltb max_lease_duration (q.until - q.now)) contract_error
  run ← owned_run s q.owner q.run_id
  reject_if (not (holds run.claim q.token q.now)) (workflow lease_lost "")
  let kept = record run { claim = renewed q.until run.claim; updated_at = q.now }
  let waits = waits_of s q.run_id
  ok (record s {
    runs = insert q.run_id kept s.runs;
    waits =
        if is_empty waits
        then s.waits
        else insert q.run_id (renew_last q.until q.token waits) s.waits;
  })
