-- ===== src/Memory/Store/Projections.antt =====
-- internal/memory/fake_repository.go: the projections that wait for a worker, and the reads by id and by
-- version.
use harness_loop_agent.Base.{
  ℕ, ◌+◌, String, Bool, true, false, not, ◌&&◌, List, [], ◌∷◌, ◌++◌, Option, none, some, Result, ok,
  ◌>>=◌, ◌>>◌, reject_if, or_fail, if◌then◌else◌, ◌==◌,
}
use harness_loop_agent.Base.Word.{Time, inc, after}
use harness_loop_agent.Base.Dict.{Dict, lookup, insert}
use harness_loop_agent.Memory.Content.{MemoryError, invalid_input, not_found, bounded_reason}
use harness_loop_agent.Memory.{Owner, valid_owner, same_owner, Record}
use harness_loop_agent.Memory.Store.{
  FakeRepository, Projection, ProjectionStatus, pending, processing, completed, failed,
  permanent_failed, owner_key, or_zero,
}

-- Pending, or failed for now.
abbrev pub is_waiting : ProjectionStatus → Bool
is_waiting pending = true
is_waiting failed = true
is_waiting _ = false

abbrev pub begun : Time → Projection → Projection
begun now p = record p { status = processing; attempt = inc p.attempt; claimed_at = some now }

-- The loop of `ClaimProjections`, with what it has handed out so far.
abbrev pub claim_each : ℕ → Time → ℕ → Dict Projection → List Projection × Dict Projection
claim_each limit now taken [] = ([], [])
claim_each limit now taken ((id, p) ∷ rest) =
    let chosen : Bool = is_waiting p.status && not (after p.available_at now) in
    let (out, more) = claim_each limit now (if chosen then taken + 1 else taken) rest in
    if taken == limit
    then ([], (id, p) ∷ rest)
    else if chosen
    then (begun now p ∷ out, (id, begun now p) ∷ more)
    else (out, (id, p) ∷ more)

module _ {F : Type 0} where
  -- `ClaimProjections`
  unfoldable pub claim_projections :
      FakeRepository F → ℕ → Time → List Projection × FakeRepository F
  claim_projections r limit now =
      let (out, projections) = claim_each limit now 0 r.projections in
      (out, record r { projections = projections })

  -- `CompleteProjection`
  unfoldable pub complete_projection :
      FakeRepository F → Owner → String → Time → Result MemoryError (FakeRepository F)
  complete_projection r owner id now = do
    p ← or_fail (lookup id r.projections) not_found
    reject_if (not (same_owner p.owner owner)) not_found
    let next = record p { status = completed; processed_at = some now; last_error_code = "" }
    ok (record r { projections = insert id next r.projections })

  -- `FailProjection`
  unfoldable pub fail_projection :
      FakeRepository F
      → Owner
      → String
      → String
      → Time
      → Bool
      → Result MemoryError (FakeRepository F)
  unfolding bounded_reason
  fail_projection r owner id code next_time permanent = do
    p ← or_fail (lookup id r.projections) not_found
    reject_if (not (same_owner p.owner owner)) not_found
    let next = record p {
      status = if permanent then permanent_failed else failed;
      available_at = next_time;
      last_error_code = bounded_reason code;
    }
    ok (record r { projections = insert id next r.projections })

  -- `MutationVersion`
  unfoldable pub mutation_version : FakeRepository F → Owner → Result MemoryError ℕ
  mutation_version r owner = do
    reject_if (not (valid_owner owner)) invalid_input
    ok (or_zero (lookup (owner_key owner "version") r.mutation_versions))

  abbrev pub if_owned : Owner → Option (Record F) → List (Record F)
  if_owned owner none = []
  if_owned owner (some v) = if same_owner v.owner owner then v ∷ [] else []

  -- `BatchGet`
  unfoldable pub batch_get : FakeRepository F → Owner → List String → List (Record F)
  batch_get r owner [] = []
  batch_get r owner (id ∷ ids) = if_owned owner (lookup id r.records) ++ batch_get r owner ids

-- The loop of `PendingProjectionCount`.
unfoldable pub waiting_count : Dict Projection → ℕ
waiting_count [] = 0
waiting_count (entry ∷ rest) =
    let more = waiting_count rest in if is_waiting entry.1.status then more + 1 else more

-- `PendingProjectionCount`
unfoldable pub pending_projection_count : {F : Type 0} → FakeRepository F → ℕ
unfolding waiting_count
pending_projection_count r = waiting_count r.projections
