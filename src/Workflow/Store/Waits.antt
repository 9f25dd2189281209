-- ===== src/Workflow/Store/Waits.antt =====
-- `ClaimWait`: who may take up a wait.
use harness_loop_agent.Base.{
  ◌<◌, ◌≡◌, ap, ◌≢◌, inl, inr, ◌&&◌, false, some, ok, arith, Option-cases, Result-cases, get_last?,
  set_last, get_last?-set_last,
}
use harness_loop_agent.Base.Word.{inc}
use harness_loop_agent.Base.Dict.{lookup, insert, lookup-insert_self}
use harness_loop_agent.Workflow.Wait.Accepts.{Accepts, validate_resume-Accepts}
use harness_loop_agent.Workflow.State.{suspended}
use harness_loop_agent.Workflow.Checkpoint.{
  StoredWorkflow, StoredWait, Claim, wait_terminal, is_processing, processing,
}
use harness_loop_agent.Workflow.Store.{MemoryDurableStore, owned_run, waits_of}
use harness_loop_agent.Workflow.Store.Claims.{is_held, ClaimWaitRequest, claim_wait}

-- The wait as `ClaimWait` leaves it.
abbrev pub taken : StoredWait → Claim → StoredWait
taken w c = record w { status = processing; record_version = inc w.record_version; claim = some c }

-- What a successful `ClaimWait` does: the run was suspended at the expected version, its last wait
-- was open, free, and accepts the command; the run and the wait have the claim now.
pub record Taken (s : MemoryDurableStore) (q : ClaimWaitRequest) (run : StoredWorkflow)
    (t : MemoryDurableStore) : Type 0 where
  pub before : StoredWorkflow
  pub wait : StoredWait
  pub owned : owned_run s q.owner q.run_id ≡ ok before
  pub status : before.checkpoint.control.status ≡ suspended
  pub version : before.checkpoint.control.state_version ≡ q.expected_state_version
  pub last : get_last? (waits_of s q.run_id) ≡ some wait
  pub live : wait_terminal wait.status ≡ false
  pub free : (is_processing wait.status && is_held wait.claim q.now) ≡ false
  pub accepts : Accepts wait.point q.command q.now
  pub claimed : run ≡ record before { claim = some q.claim; updated_at = q.now }
  pub runs : t.runs ≡ insert q.run_id run s.runs
  pub waits :
      t.waits ≡ insert q.run_id (set_last (waits_of s q.run_id) (taken wait q.claim)) s.waits

pub claim_wait-Taken :
    (s : MemoryDurableStore) (q : ClaimWaitRequest) {run : StoredWorkflow} {t : MemoryDurableStore}
    → claim_wait s q ≡ ok (run, t)
    → Taken s q run t
unfolding claim_wait
claim_wait-Taken s q h = elim (Result-cases (owned_run s q.owner q.run_id)) [
  | inr (e, x) ↦ absurd (ground arith)
  | inl (before, x) ↦ elim (Option-cases (get_last? (waits_of s q.run_id))) [
    | inl y ↦ absurd (ground arith)
    | inr (wait, y) ↦ record {
      before = before;
      wait = wait;
      owned = x;
      status = ground arith;
      version = ground arith;
      last = y;
      live = ground arith;
      free = ground arith;
      accepts = (validate_resume-Accepts wait.point q.command q.now).0 (ground arith);
      claimed = ground arith;
      runs = ground arith;
      waits = ground arith;
    }
  ]
]

-- After `ClaimWait` has succeeded, no `ClaimWait` of the same run, with any command and by any
-- actor, succeeds on the store it leaves at a time before the end of the lease.
pub claim_wait-exclusive :
    (s : MemoryDurableStore) (q q' : ClaimWaitRequest) {run : StoredWorkflow}
    {t : MemoryDurableStore} {r' : StoredWorkflow × MemoryDurableStore}
    → claim_wait s q ≡ ok (run, t)
    → q'.run_id ≡ q.run_id
    → q'.now < q.claim.lease_until
    → claim_wait t q' ≢ ok r'
unfolding is_held
claim_wait-exclusive s q q' {run} {t} {r'} h same early h' =
    let c = claim_wait-Taken s q h in
    let c' = claim_wait-Taken t q' {run = r'.0} {t = r'.1} h' in
    let last = get_last?-set_last (waits_of s q.run_id) (taken c.wait q.claim) c.last in
    ground (
      arith,
      last,
      c.waits,
      c'.last,
      c'.free,
      ap (λ k. lookup k t.waits) same,
      lookup-insert_self q.run_id (set_last (waits_of s q.run_id) (taken c.wait q.claim)) s.waits,
    )
