-- ===== src/Memory/Store.antt =====
-- internal/memory/repository.go and fake_repository.go: the repository in memory, whose mutex makes each
-- method one step. Copies made against aliasing are the values themselves. A call that reads the
-- clock where it is given no time has the reading as a parameter.
pub mod Endings
pub mod Lapses
pub mod Projections
pub mod Slots
pub mod Moves
pub mod Steps
use Prim.Native.String.{◌++◌ as append}
use harness_loop_agent.Base.{
  ℕ, ◌+◌, ◌≡◌, String, Bool, true, false, not, ◌||◌, ◌&&◌, List, [], ◌∷◌, Option, none, some,
  Result, ok, err, ◌>>=◌, ◌>>◌, reject_if, or_fail, if◌then◌else◌, ◌==◌, ltb, str_eq, is_some,
}
use harness_loop_agent.Base.Word.{Time, inc, before, is_zero, slt}
use harness_loop_agent.Base.Dict.{Dict, lookup, insert}
use harness_loop_agent.Base.Text.{decimal}
use harness_loop_agent.Memory.Content.{
  MemoryError, invalid_input, not_found, state_conflict, idempotency_conflict,
  normalize_audit_fields,
}
use harness_loop_agent.Memory.{
  Owner, valid_owner, same_owner, same_scope, Status, active, superseded, expired, can_transition,
  is_candidate, is_active, is_superseded, Record, validate,
}

pub data RelationType : Type 0 where
  supersedes duplicate_of conflicts_with refines derived_from related_to : RelationType
  other : String → RelationType

pub record Relation : Type 0 where
  pub from_id : String
  pub to_id : String
  pub kind : RelationType  -- Type
  pub reason_code : String

pub record MutationTarget : Type 0 where
  pub id : String
  pub expected_row_version : ℕ  -- uint64
  pub new_status : Status

pub record Mutation (F : Type 0) : Type 0 where
  pub owner : Owner
  pub new_memory : Option (Record F)
  pub targets : List MutationTarget
  pub relations : List Relation
  pub actor : String
  pub reason_code : String
  pub idempotency_key : String
  pub input_hash : String
  pub occurred_at : Time

pub record MutationResult (F : Type 0) : Type 0 where
  pub memory : Record F
  pub relations : List Relation
  pub replayed : Bool

pub record CandidateActivation : Type 0 where
  pub owner : Owner
  pub candidate_id : String
  pub superseded_id : String
  pub candidate_version : ℕ  -- uint64
  pub target_version : ℕ  -- uint64
  pub actor : String
  pub reason_code : String
  pub idempotency_key : String
  pub input_hash : String
  pub occurred_at : Time

pub data ProjectionStatus : Type 0 where
  pending processing completed failed permanent_failed : ProjectionStatus

pub record Projection : Type 0 where
  pub id : String
  pub owner : Owner
  pub memory_id : String
  pub content_hash : String
  pub model_version : String
  pub status : ProjectionStatus
  pub attempt : ℕ  -- int
  pub available_at : Time
  pub claimed_at : Option Time
  pub processed_at : Option Time
  pub last_error_code : String

pub record FakeRepository (F : Type 0) : Type 0 where
  pub records : Dict (Record F)
  pub idempotency : Dict (MutationResult F)
  pub input_hashes : Dict String
  pub projections : Dict Projection
  pub projection_version : String
  pub mutation_versions : Dict ℕ  -- uint64

abbrev pub new_fake_repository : {F : Type 0} → String → FakeRepository F
new_fake_repository version = record {
  records = [];
  idempotency = [];
  input_hashes = [];
  projections = [];
  projection_version = version;
  mutation_versions = [];
}

-- `ownerKey`
unfoldable pub owner_key : Owner → String → String
owner_key owner key =
    append (decimal owner.tenant_id) (append ":" (append (decimal owner.user_id) (append ":" key)))

-- A missing key reads as the zero value.
abbrev pub or_blank : Option String → String
or_blank none = ""
or_blank (some s) = s

abbrev pub or_zero : Option ℕ → ℕ
or_zero none = 0
or_zero (some n) = n

-- `now.IsZero()`: the clock's reading instead.
abbrev pub or_now : Time → Time → Time
or_now given wall = if is_zero given then wall else given

-- A target that supersedes the memory.
abbrev pub retires : String → List MutationTarget → Bool
retires id [] = false
retires id (t ∷ ts) = (str_eq t.id id && is_superseded t.new_status) || retires id ts

module _ {F : Type 0} where
  -- What a request under a known key gets.
  abbrev pub replay :
      FakeRepository F
      → String
      → String
      → MutationResult F
      → Result MemoryError (MutationResult F × FakeRepository F)
  replay r key input_hash result =
      if not (str_eq (or_blank (lookup key r.input_hashes)) input_hash)
      then err idempotency_conflict
      else ok (record result { replayed = true }, r)

  abbrev pub new_projection : FakeRepository F → Owner → Record F → Time → Projection
  new_projection r owner v now = record {
    id =
        owner_key owner
          (append v.id (append ":" (append v.content_hash (append ":" r.projection_version))));
    owner = owner;
    memory_id = v.id;
    content_hash = v.content_hash;
    model_version = r.projection_version;
    status = pending;
    attempt = 0;
    available_at = now;
    claimed_at = none;
    processed_at = none;
    last_error_code = "";
  }

  -- A projection for a memory that is active from now on.
  abbrev pub project : FakeRepository F → Owner → Record F → Time → Dict Projection
  project r owner v now =
      let p = new_projection r owner v now in
      if is_active v.status then insert p.id p r.projections else r.projections

  -- The maps that remember a result under a key, and the owner's version, which grows by one.
  abbrev pub remember :
      FakeRepository F → Owner → String → String → MutationResult F → FakeRepository F
  remember r owner key input_hash result =
      let version = owner_key owner "version" in
      record r {
        idempotency = insert key result r.idempotency;
        input_hashes = insert key input_hash r.input_hashes;
        mutation_versions =
            insert version (inc (or_zero (lookup version r.mutation_versions))) r.mutation_versions;
      }

  -- The loop of `CommitMutation` that checks the targets.
  unfoldable pub check_targets :
      Dict (Record F) → Owner → List MutationTarget → Result MemoryError (Unit {0})
  check_targets records owner [] = ok tt
  check_targets records owner (t ∷ ts) = do
    old ← or_fail (lookup t.id records) not_found
    reject_if (not (same_owner old.owner owner)) not_found
    reject_if
        (not (old.row_version == t.expected_row_version)
          || not (can_transition old.status t.new_status))
        state_conflict
    check_targets records owner ts

  -- The old memory is active in the slot that an active new memory takes.
  unfoldable pub holds_slot : Owner → Record F → Record F → Bool
  holds_slot owner v old =
      is_active v.status
      && not (str_eq v.slot_key "")
      && same_owner old.owner owner
      && is_active old.status
      && same_scope old.scope v.scope
      && str_eq old.namespace v.namespace
      && str_eq old.slot_key v.slot_key

  -- The loop of `CommitMutation` that looks for memories in the slot.
  unfoldable pub check_slot :
      Owner → Record F → List MutationTarget → Dict (Record F) → Result MemoryError (Unit {0})
  unfolding holds_slot
  check_slot owner v targets [] = ok tt
  check_slot owner v targets (entry ∷ rest) = do
    reject_if (holds_slot owner v entry.1 && not (retires entry.1.id targets)) state_conflict
    check_slot owner v targets rest

  -- A target of a mutation, as it is stored.
  abbrev pub retired : String → Time → MutationTarget → Record F → Record F
  retired by now t old = record old {
    status = t.new_status;
    row_version = inc old.row_version;
    updated_at = now;
    superseded_by = if is_superseded t.new_status then by else old.superseded_by;
  }

  abbrev pub retire :
      String → Time → MutationTarget → Dict (Record F) → Option (Record F) → Dict (Record F)
  retire by now t records none = records
  retire by now t records (some old) = insert old.id (retired by now t old) records

  -- The loop of `CommitMutation` that stores the targets, which are all there.
  unfoldable pub apply_targets :
      String → Time → List MutationTarget → Dict (Record F) → Dict (Record F)
  apply_targets by now [] records = records
  apply_targets by now (t ∷ ts) records =
      apply_targets by now ts (retire by now t records (lookup t.id records))

  module _ (in_unit : F → Bool) where
    -- `CommitMutation` for a key that was not seen before.
    unfoldable pub commit_fresh :
        Time
        → FakeRepository F
        → Mutation F
        → Record F
        → String
        → Result MemoryError (MutationResult F × FakeRepository F)
    commit_fresh wall r m new key = do
      let now = or_now m.occurred_at wall
      validate in_unit new now
      reject_if (not (same_owner new.owner m.owner)) not_found
      reject_if (is_some (lookup new.id r.records)) state_conflict
      check_targets r.records m.owner m.targets
      check_slot m.owner new m.targets r.records
      let v : Record F = record new { created_at = now; updated_at = now }
      let result : MutationResult F = record {
        memory = v;
        relations = m.relations;
        replayed = false;
      }
      ok (
        result,
        remember
            (record r {
              records = insert v.id v (apply_targets new.id now m.targets r.records);
              projections = project r m.owner v now;
            })
            m.owner key m.input_hash result,
      )

    -- `CommitMutation`
    unfoldable pub commit_mutation :
        Time
        → FakeRepository F
        → Mutation F
        → Result MemoryError (MutationResult F × FakeRepository F)
    unfolding commit_fresh
    commit_mutation wall r m = do
      reject_if (not (valid_owner m.owner)) invalid_input
      new ← or_fail m.new_memory invalid_input
      reject_if (str_eq m.idempotency_key "" || str_eq m.input_hash "") invalid_input
      audit ← normalize_audit_fields m.actor m.reason_code
      let key = owner_key m.owner m.idempotency_key
      elim (lookup key r.idempotency) [
        | some result ↦ replay r key m.input_hash result
        | none ↦ commit_fresh wall r m new key
      ]

  -- `TransitionMemory` for a key that was not seen before.
  unfoldable pub transition_fresh :
      FakeRepository F
      → Owner
      → String
      → ℕ
      → Status
      → String
      → String
      → Time
      → Result MemoryError (MutationResult F × FakeRepository F)
  transition_fresh r owner id version to key input_hash now = do
    old ← or_fail (lookup id r.records) not_found
    reject_if (not (same_owner old.owner owner)) not_found
    reject_if (not (old.row_version == version) || not (can_transition old.status to))
        state_conflict
    let v : Record F = record old {
      status = to;
      row_version = inc old.row_version;
      updated_at = now;
    }
    let result : MutationResult F = record { memory = v; relations = []; replayed = false }
    ok (
      result,
      remember (record r { records = insert id v r.records; projections = project r owner v now })
          owner key input_hash result,
    )

  -- `TransitionMemory`
  unfoldable pub transition_memory :
      FakeRepository F
      → Owner
      → String
      → ℕ
      → Status
      → String
      → String
      → String
      → String
      → Time
      → Result MemoryError (MutationResult F × FakeRepository F)
  unfolding transition_fresh
  transition_memory r owner id version to actor reason idempotency_key input_hash now = do
    audit ← normalize_audit_fields actor reason
    let key = owner_key owner idempotency_key
    elim (lookup key r.idempotency) [
      | some result ↦ replay r key input_hash result
      | none ↦ transition_fresh r owner id version to key input_hash now
    ]
