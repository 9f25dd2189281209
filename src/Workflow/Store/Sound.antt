-- ===== src/Workflow/Store/Sound.antt =====
-- An invariant of the store under every operation of it: what is stored is valid and under its own
-- id, and a suspended run has its pending wait as its last wait, which is open.
use harness_loop_agent.Base.{
  ◌≡◌, refl, ap, subst, inl, inr, String, Bool, true, false, List, [], ◌∷◌, ◌++◌, Option, none,
  some, ok, arith, eq_iff, str_eq, Option-cases, Bool-cases, Result-cases, get_last?, set_last,
  get_last?-set_last, get_last?-append, is_empty, if◌then◌else◌,
}
use harness_loop_agent.Base.Word.{Time}
use harness_loop_agent.Base.Dict.{lookup, insert, lookup-insert}
use harness_loop_agent.Workflow.Wait.{WaitPoint}
use harness_loop_agent.Workflow.State.{pending, suspended, is_suspended}
use harness_loop_agent.Workflow.Checkpoint.{
  StoredWorkflow, StoredWait, WorkflowOwner, validate_checkpoint, validate_stored, wait_terminal,
}
use harness_loop_agent.Workflow.Store.{
  MemoryDurableStore, new_memory_durable_store, owned_run, waits_of, create_run, last_open,
  get_current_wait,
}
use harness_loop_agent.Workflow.Store.Claims.{
  ClaimRunRequest, claim_run, ClaimWaitRequest, claim_wait, RenewClaimRequest, renew_claim,
  renew_last, renew_wait, renewed,
}
use harness_loop_agent.Workflow.Store.Leases.{claim_run-Claimed, owned_run-lookup, commit-Committed}
use harness_loop_agent.Workflow.Store.Waits.{taken, claim_wait-Taken}
use harness_loop_agent.Workflow.Store.Commit.{
  CommitExecutionRequest, commit_execution, append_wait, new_wait,
}

-- The last wait is open, and is the one that the checkpoint waits for.
abbrev pub LastIs : Option StoredWait → Option WaitPoint → Type 0
LastIs none p = ⊥
LastIs (some w) p = (p ≡ some w.point) × (wait_terminal w.status ≡ false)

pub record Fits (id : String) (run : StoredWorkflow) (waits : List StoredWait) : Type 0 where
  pub own_id : run.checkpoint.meta.run_id ≡ id
  pub valid : validate_checkpoint run.checkpoint ≡ ok tt
  pub waiting :
      is_suspended run.checkpoint.control.status ≡ true
      → LastIs (get_last? waits) run.checkpoint.control.pending_wait

pub record IsSound (s : MemoryDurableStore) : Type 0 where
  pub at :
      (id : String) (run : StoredWorkflow)
      → lookup id s.runs ≡ some run
      → Fits id run (waits_of s id)

-- A successful operation of the store. `Start` creates runs from pending states.
pub data StoreStep (s : MemoryDurableStore) : MemoryDurableStore → Type 0 where
  creates :
      {t : MemoryDurableStore} (run stored : StoredWorkflow) (new : Bool)
      → run.checkpoint.control.status ≡ pending
      → create_run s run ≡ ok (stored, new, t)
      → StoreStep s t
  claims_run :
      {t : MemoryDurableStore} (q : ClaimRunRequest) (run : StoredWorkflow)
      → claim_run s q ≡ ok (run, t)
      → StoreStep s t
  claims_wait :
      {t : MemoryDurableStore} (q : ClaimWaitRequest) (run : StoredWorkflow)
      → claim_wait s q ≡ ok (run, t)
      → StoreStep s t
  renews : {t : MemoryDurableStore} (q : RenewClaimRequest) → renew_claim s q ≡ ok t → StoreStep s t
  commits :
      {t : MemoryDurableStore} (q : CommitExecutionRequest)
      → commit_execution s q ≡ ok t
      → StoreStep s t

pub data Stores (s : MemoryDurableStore) : MemoryDurableStore → Type 0 where
  here : Stores s s
  next : {t u : MemoryDurableStore} → Stores s t → StoreStep t u → Stores s u

-- One run is written, and with it the waits of that run at most.
module _ (s t : MemoryDurableStore) (id : String) (run : StoredWorkflow) (waits : List StoredWait)
    (runs_are : t.runs ≡ insert id run s.runs)
    (waits_are : (j : String) → waits_of t j ≡ (if str_eq id j then waits else waits_of s j)) where
  write-IsSound : IsSound s → Fits id run waits → IsSound t
  write-IsSound h f = record {
    at = λ j r e. elim (Bool-cases (str_eq id j)) [
      | inl same ↦
          let q : run ≡ r = ground (arith, lookup-insert id j run s.runs) in
          let ws : waits_of t j ≡ waits = ground (arith, waits_are j) in
          rw ws
            (subst (λ k. Fits k r waits) ((eq_iff id j).0 same) (subst (λ x. Fits id x waits) q f))
      | inr other ↦
          let found : lookup j s.runs ≡ some r = ground (arith, lookup-insert id j run s.runs) in
          let ws : waits_of t j ≡ waits_of s j = ground (arith, waits_are j) in
          rw ws (h.at j r found)
    ];
  }

-- The waits under each id after a write, and where nothing is written.
waits_of-insert :
    (s t : MemoryDurableStore) (id : String) (waits : List StoredWait)
    → t.waits ≡ insert id waits s.waits
    → (j : String) → waits_of t j ≡ (if str_eq id j then waits else waits_of s j)
waits_of-insert s t id waits q j = ground (arith, lookup-insert id j waits s.waits)

waits_of-same :
    (s t : MemoryDurableStore) (id : String)
    → t.waits ≡ s.waits
    → (j : String) → waits_of t j ≡ (if str_eq id j then waits_of s id else waits_of s j)
waits_of-same s t id q j = elim (Bool-cases (str_eq id j)) [
  | inl same ↦ ground (arith, ap (λ k. lookup k s.waits) ((eq_iff id j).0 same))
  | inr other ↦ ground arith
]

create_run-IsSound :
    (s t : MemoryDurableStore) (run stored : StoredWorkflow) (new : Bool)
    → run.checkpoint.control.status ≡ pending
    → create_run s run ≡ ok (stored, new, t)
    → IsSound s
    → IsSound t
unfolding create_run validate_stored
create_run-IsSound s t run stored false p h sound = let e : t ≡ s = ground arith in rw e sound
create_run-IsSound s t run stored true p h sound =
    write-IsSound s t run.checkpoint.meta.run_id run (waits_of s run.checkpoint.meta.run_id)
      (ground arith) (waits_of-same s t run.checkpoint.meta.run_id (ground arith)) sound
      (record { own_id = refl; valid = ground arith; waiting = λ e. cc (p, e) })

claim_run-IsSound :
    (s t : MemoryDurableStore) (q : ClaimRunRequest) (run : StoredWorkflow)
    → claim_run s q ≡ ok (run, t)
    → IsSound s
    → IsSound t
claim_run-IsSound s t q run h sound =
    let c = claim_run-Claimed s q h in
    let old = sound.at q.run_id c.before (owned_run-lookup s q.owner q.run_id c.owned).0 in
    write-IsSound s t q.run_id run (waits_of s q.run_id) (ground (arith, c.stored))
      (waits_of-same s t q.run_id (ground (arith, c.stored))) sound
      (rw c.claimed (record { own_id = old.own_id; valid = old.valid; waiting = old.waiting }))

claim_wait-IsSound :
    (s t : MemoryDurableStore) (q : ClaimWaitRequest) (run : StoredWorkflow)
    → claim_wait s q ≡ ok (run, t)
    → IsSound s
    → IsSound t
unfolding wait_terminal
claim_wait-IsSound s t q run h sound =
    let c = claim_wait-Taken s q h in
    let old = sound.at q.run_id c.before (owned_run-lookup s q.owner q.run_id c.owned).0 in
    let ws = set_last (waits_of s q.run_id) (taken c.wait q.claim) in
    let last = get_last?-set_last (waits_of s q.run_id) (taken c.wait q.claim) c.last in
    let was = rw c.last at (old.waiting (rw c.status refl)) in
    write-IsSound s t q.run_id run ws c.runs (waits_of-insert s t q.run_id ws c.waits) sound (
      rw c.claimed
        (record { own_id = old.own_id; valid = old.valid; waiting = λ e. rw last (was.0, refl) }))

-- A renewal leaves the point and the status of the last wait.
LastIs-renew :
    (until : Time) (token : String) (waits : List StoredWait) (p : Option WaitPoint)
    → LastIs (get_last? waits) p
    → LastIs (get_last? (renew_last until token waits)) p
LastIs-renew until token waits p h = elim (Option-cases (get_last? waits)) [
  | inl e ↦ absurd (rw e at h)
  | inr (w, e) ↦
      let v = renew_wait until token w in
      let same : renew_last until token waits ≡ set_last waits v = ground arith in
      let was = rw e at h in
      rw same (rw (get_last?-set_last waits v e) (ground (arith, was.0), ground (arith, was.1)))
]

renew_claim-IsSound :
    (s t : MemoryDurableStore) (q : RenewClaimRequest)
    → renew_claim s q ≡ ok t
    → IsSound s
    → IsSound t
unfolding renew_claim
renew_claim-IsSound s t q h sound = elim (Result-cases (owned_run s q.owner q.run_id)) [
  | inr (e, x) ↦ absurd (ground arith)
  | inl (run, x) ↦
      let old = sound.at q.run_id run (owned_run-lookup s q.owner q.run_id x).0 in
      let run' = record run { claim = renewed q.until run.claim; updated_at = q.now } in
      let ws = renew_last q.until q.token (waits_of s q.run_id) in
      let runs_are : t.runs ≡ insert q.run_id run' s.runs = ground arith in
      let moved : Fits q.run_id run' ws = record {
        own_id = old.own_id;
        valid = old.valid;
        waiting = λ e. LastIs-renew q.until q.token (waits_of s q.run_id) _ (old.waiting e);
      } in
      let kept : Fits q.run_id run' (waits_of s q.run_id) = record {
        own_id = old.own_id;
        valid = old.valid;
        waiting = old.waiting;
      } in
      elim (Bool-cases (is_empty (waits_of s q.run_id))) [
        | inl none_left ↦
            write-IsSound s t q.run_id run' (waits_of s q.run_id) runs_are
              (waits_of-same s t q.run_id (ground arith)) sound kept
        | inr some_left ↦
            write-IsSound s t q.run_id run' ws runs_are
              (waits_of-insert s t q.run_id ws (ground arith)) sound moved
      ]
]

-- The resolved waits, with the wait of a suspended checkpoint behind them.
append_wait-LastIs :
    (waits ws : List StoredWait) (q : CommitExecutionRequest)
    → append_wait waits q ≡ ok ws
    → is_suspended q.checkpoint.control.status ≡ true
    → LastIs (get_last? ws) q.checkpoint.control.pending_wait
unfolding append_wait wait_terminal
append_wait-LastIs waits ws q h e = elim (Option-cases q.checkpoint.control.pending_wait) [
  | inl p ↦ absurd (ground arith)
  | inr (point, p) ↦
      let built : ws ≡ waits ++ new_wait point ∷ [] = ground arith in
      rw built (rw (get_last?-append waits (new_wait point)) (p, refl))
]

commit-IsSound :
    (s t : MemoryDurableStore) (q : CommitExecutionRequest)
    → commit_execution s q ≡ ok t
    → IsSound s
    → IsSound t
commit-IsSound s t q h sound =
    let c = commit-Committed s q h in
    write-IsSound s t q.run_id _ c.waits c.stored (waits_of-insert s t q.run_id c.waits c.waits_are)
      sound
      (record {
        own_id = c.same_run;
        valid = c.valid;
        waiting = λ e. append_wait-LastIs c.resolved c.waits q c.appended e;
      })

StoreStep-IsSound : {s t : MemoryDurableStore} → StoreStep s t → IsSound s → IsSound t
StoreStep-IsSound {s} {t} (creates run stored new p h) sound =
    create_run-IsSound s t run stored new p h sound
StoreStep-IsSound {s} {t} (claims_run q run h) sound = claim_run-IsSound s t q run h sound
StoreStep-IsSound {s} {t} (claims_wait q run h) sound = claim_wait-IsSound s t q run h sound
StoreStep-IsSound {s} {t} (renews q h) sound = renew_claim-IsSound s t q h sound
StoreStep-IsSound {s} {t} (commits q h) sound = commit-IsSound s t q h sound

-- Any sequence of successful calls of `CreateRun` with a pending run, `ClaimRun`, `ClaimWait`,
-- `RenewClaim` and `CommitExecution` leads from a sound store to a sound one: every run is stored
-- under its own id with a valid checkpoint, and the last wait of a suspended run is open and is the
-- checkpoint's wait point.
pub Stores-IsSound : {s t : MemoryDurableStore} → Stores s t → IsSound s → IsSound t
Stores-IsSound here sound = sound
Stores-IsSound (next r st) sound = StoreStep-IsSound st (Stores-IsSound r sound)

pub new_memory_durable_store-IsSound : IsSound new_memory_durable_store
unfolding lookup
new_memory_durable_store-IsSound = record { at = λ id run e. cc }

last_open-last :
    (ws : List StoredWait) (w : StoredWait)
    → get_last? ws ≡ some w
    → wait_terminal w.status ≡ false
    → last_open ws ≡ some w
unfolding last_open
last_open-last [] w h o = cc
last_open-last (v ∷ []) w h o = ground arith
last_open-last (v ∷ u ∷ ws) w h o = rw (last_open-last (u ∷ ws) w h o)

-- In every store that such calls reach from the empty one, `GetCurrentWait` of a suspended run by
-- its owner succeeds, with a wait whose point is the pending wait of the run's checkpoint.
pub Stores-get_current_wait :
    {s : MemoryDurableStore} (o : WorkflowOwner) (id : String) (run : StoredWorkflow)
    → Stores new_memory_durable_store s
    → owned_run s o id ≡ ok run
    → run.checkpoint.control.status ≡ suspended
    → (w : StoredWait) × (get_current_wait s o id ≡ ok w)
      × (run.checkpoint.control.pending_wait ≡ some w.point)
unfolding get_current_wait
Stores-get_current_wait {s} o id run r own st =
    let sound = Stores-IsSound r new_memory_durable_store-IsSound in
    let fits = sound.at id run (owned_run-lookup s o id own).0 in
    let last = fits.waiting (rw st refl) in
    elim (Option-cases (get_last? (waits_of s id))) [
      | inl e ↦ absurd (rw e at last)
      | inr (w, e) ↦
          let is = rw e at last in
          (w, ground (arith, last_open-last (waits_of s id) w e is.1), is.0)
    ]
