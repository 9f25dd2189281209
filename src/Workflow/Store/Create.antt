-- ===== src/Workflow/Store/Create.antt =====
-- `CreateRun`: new runs, replays and conflicts.
use harness_loop_agent.Base.{
  ◌≡◌, refl, ◌≢◌, String, true, false, [], ◌∷◌, none, some, ok, err, arith, eq_iff,
}
use text.Mathlib.TextPositions.{eq_refl}
use harness_loop_agent.Base.Dict.{Dict, lookup, insert, lookup-insert, lookup-insert_self}
use harness_loop_agent.Workflow.Errors.{workflow, idempotency_conflict}
use harness_loop_agent.Workflow.Checkpoint.{Bytes, StoredWorkflow, same_owner, validate_stored}
use harness_loop_agent.Workflow.Store.{
  MemoryDurableStore, same_bytes, same_budget, same_source, same_start_request, same_key, find_key,
  create_run, owned_run,
}

same_bytes_refl : (xs : Bytes) → same_bytes xs xs ≡ true
unfolding same_bytes
same_bytes_refl [] = refl
same_bytes_refl (x ∷ xs) = ground (arith, same_bytes_refl xs)

same_start_request_refl : (r : StoredWorkflow) → same_start_request r r ≡ true
unfolding same_start_request same_budget same_source
same_start_request_refl r = simp (eq_refl, same_bytes_refl) (ground arith)

same_key_refl : (r : StoredWorkflow) → same_key r r ≡ true
unfolding same_key same_owner
same_key_refl r = simp (eq_refl) (ground arith)

find_key-insert :
    (k : String) (r : StoredWorkflow) (m : Dict StoredWorkflow)
    → find_key m r ≡ none
    → find_key (insert k r m) r ≡ some r
unfolding find_key insert
find_key-insert k r [] h = rw same_key_refl
find_key-insert k r ((j, v) ∷ m) h = ground (arith, same_key_refl r, find_key-insert k r m)

module _ (s : MemoryDurableStore) (run : StoredWorkflow) where
  create_run-new :
      {stored : StoredWorkflow} {t : MemoryDurableStore}
      → create_run s run ≡ ok (stored, true, t)
      → (validate_stored run ≡ ok tt)
        × (find_key s.runs run ≡ none)
        × (lookup run.checkpoint.meta.run_id s.runs ≡ none)
        × (stored ≡ run)
        × (t ≡ record s { runs = insert run.checkpoint.meta.run_id run s.runs })
  unfolding create_run
  create_run-new h = ground arith

  -- After `CreateRun` has stored a new run, its owner finds it under its id; the runs under other
  -- ids, the waits and the events are as they were; and the same request again returns the stored
  -- run as one that is not new, and leaves the store as it is.
  pub create-create :
      {stored : StoredWorkflow} {t : MemoryDurableStore}
      → create_run s run ≡ ok (stored, true, t)
      → (owned_run t run.owner run.checkpoint.meta.run_id ≡ ok run)
        × ((id : String) → id ≢ run.checkpoint.meta.run_id → lookup id t.runs ≡ lookup id s.runs)
        × (t.waits ≡ s.waits)
        × (t.events ≡ s.events)
        × (create_run t run ≡ ok (run, false, t))
  unfolding create_run owned_run same_owner
  create-create {stored} {t} h =
      let (v, k, l, e, q) = create_run-new h in
      let id = run.checkpoint.meta.run_id in
      (
        ground (arith, lookup-insert_self id run s.runs),
        λ j ne. ground (arith, lookup-insert id j run s.runs, eq_iff id j),
        ground arith,
        ground arith,
        ground (arith, find_key-insert id run s.runs k, same_start_request_refl run),
      )

  -- A request under the key of a stored run that asks for something else is a conflict.
  pub create_run-conflict :
      (existing : StoredWorkflow)
      → validate_stored run ≡ ok tt
      → find_key s.runs run ≡ some existing
      → same_start_request existing run ≡ false
      → create_run s run ≡ err (workflow idempotency_conflict "")
  unfolding create_run
  create_run-conflict existing v k h = ground arith
