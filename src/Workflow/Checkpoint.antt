-- ===== src/Workflow/Checkpoint.antt =====
-- internal/workflow/durable.go: owners, actors, claims, stored waits and checkpoints. Bytes are a
-- list of numbers; the copies that the source makes of slices and pointers are the values.
pub mod RoundTrip
use harness_loop_agent.Base.{
  ℕ, ◌+◌, ◌-◌, ◌*◌, ◌^◌, String, Bool, true, false, not, ◌||◌, ◌&&◌, List, [], ◌∷◌, Option, none,
  some, Result, ok, err, ◌>>=◌, ◌>>◌, reject_if, is_empty, if◌then◌else◌, str_eq, ltb, ◌==◌, length,
}
use harness_loop_agent.Base.Word.{Time, is_zero, after, inc, slt, sle}
use harness_loop_agent.Workflow.Errors.{
  Error, workflow, wrapping, contract_error, state_error, codec_incompatible, checkpoint_too_large,
}
use harness_loop_agent.Workflow.Ident.{valid_identifier}
use harness_loop_agent.Workflow.Wait.{WaitPoint, HumanAction}
use harness_loop_agent.Workflow.State.{
  RunMetadata, ControlState, BudgetState, WorkflowState, validate,
}

abbrev pub Bytes : Type 0
Bytes = List ℕ

-- 24 hours, in nanoseconds.
abbrev pub max_lease_duration : ℕ
max_lease_duration = 86400000000000

abbrev pub min_lease_duration : ℕ
min_lease_duration = 1000000000

abbrev pub default_checkpoint_size : ℕ
default_checkpoint_size = 1048576

pub record WorkflowOwner : Type 0 where
  pub tenant_id : ℕ  -- uint64
  pub owner_id : ℕ  -- uint64

unfoldable pub same_owner : WorkflowOwner → WorkflowOwner → Bool
same_owner a b = (a.tenant_id == b.tenant_id) && (a.owner_id == b.owner_id)

unfoldable pub validate_owner : WorkflowOwner → Result Error (Unit {0})
validate_owner o = reject_if ((o.tenant_id == 0) || (o.owner_id == 0)) contract_error

pub record ActorRef : Type 0 where
  pub kind : String
  pub id : String

unfoldable pub validate_actor : ActorRef → Result Error (Unit {0})
validate_actor a =
    reject_if (not (valid_identifier a.kind) || not (valid_identifier a.id)) contract_error

pub record Claim : Type 0 where
  pub token : String
  pub lease_until : Time

-- The difference is taken only where the lease ends after `now`.
unfoldable pub validate_claim : Claim → Time → Result Error (Unit {0})
validate_claim c now =
    reject_if
      (not (valid_identifier c.token)
        || not (after c.lease_until now)
        || ltb max_lease_duration (c.lease_until - now))
      contract_error

pub data WaitStatus : Type 0 where
  pending processing resolved expired cancelled : WaitStatus
  other : String → WaitStatus

unfoldable pub valid_wait_status : WaitStatus → Bool
valid_wait_status (other _) = false
valid_wait_status _ = true

unfoldable pub wait_terminal : WaitStatus → Bool
wait_terminal resolved = true
wait_terminal expired = true
wait_terminal cancelled = true
wait_terminal _ = false

abbrev pub is_processing : WaitStatus → Bool
is_processing processing = true
is_processing _ = false

unfoldable pub allowed_wait_transition : WaitStatus → WaitStatus → Bool
allowed_wait_transition pending processing = true
allowed_wait_transition pending expired = true
allowed_wait_transition pending cancelled = true
allowed_wait_transition processing processing = true
allowed_wait_transition processing resolved = true
allowed_wait_transition processing expired = true
allowed_wait_transition processing cancelled = true
allowed_wait_transition _ _ = false

-- `none` stands for the empty action of a wait that is not resolved.
pub record StoredWait : Type 0 where
  pub point : WaitPoint
  pub status : WaitStatus
  pub record_version : ℕ  -- uint64
  pub claim : Option Claim
  pub resolved_action : Option HumanAction
  pub resolved_by : Option ActorRef
  pub resolved_at : Time

unfoldable pub wait_transition : StoredWait → WaitStatus → Result Error StoredWait
unfolding valid_wait_status allowed_wait_transition
wait_transition w next = do
  reject_if
      (not (valid_wait_status w.status)
        || not (valid_wait_status next)
        || not (allowed_wait_transition w.status next))
      state_error
  ok (record w {
    status = next;
    record_version = inc w.record_version;
    claim = if is_processing next then w.claim else none;
  })

pub record CheckpointEnvelope : Type 0 where
  pub schema_id : String
  pub schema_version : ℕ  -- uint64
  pub definition_version : String
  pub meta : RunMetadata
  pub control : ControlState
  pub budget : BudgetState
  pub body : Bytes

-- `if err != nil { return &Error{Code: CodeCodecIncompatible, Err: err} }`
abbrev pub wrap_codec : Result Error (Unit {0}) → Result Error (Unit {0})
wrap_codec (ok u) = ok u
wrap_codec (err e) = err (wrapping codec_incompatible "" e)

abbrev pub state_of : CheckpointEnvelope → WorkflowState Bytes
state_of e = record { meta = e.meta; control = e.control; budget = e.budget; body = e.body }

unfoldable pub validate_checkpoint : CheckpointEnvelope → Result Error (Unit {0})
validate_checkpoint e = do
  reject_if
      (not (valid_identifier e.schema_id)
        || (e.schema_version == 0)
        || not (valid_identifier e.definition_version)
        || is_empty e.body)
      (workflow codec_incompatible "")
  reject_if (not (str_eq e.meta.definition_version e.definition_version))
      (workflow codec_incompatible "")
  wrap_codec (validate (state_of e))

pub record StoredWorkflow : Type 0 where
  pub owner : WorkflowOwner
  pub idempotency_key : String
  pub checkpoint : CheckpointEnvelope
  pub claim : Option Claim
  pub created_at : Time
  pub updated_at : Time

unfoldable pub validate_stored : StoredWorkflow → Result Error (Unit {0})
validate_stored r = do
  validate_owner r.owner
  reject_if
      (not (valid_identifier r.idempotency_key) || is_zero r.created_at || is_zero r.updated_at)
      contract_error
  validate_checkpoint r.checkpoint

pub record StateCodec (T : Type 0) : Type 0 where
  pub schema_id : String
  pub schema_version : ℕ  -- uint64
  pub encode : T → Result Error Bytes
  pub decode : Bytes → Result Error T

-- `maxBytes <= 0` stands for the default size.
unfoldable pub byte_limit : ℕ → ℕ
byte_limit max_bytes = if sle max_bytes 0 then default_checkpoint_size else max_bytes

module _ {T : Type 0} where
  unfoldable pub envelope_of : WorkflowState T → StateCodec T → Bytes → CheckpointEnvelope
  envelope_of s codec raw = record {
    schema_id = codec.schema_id;
    schema_version = codec.schema_version;
    definition_version = s.meta.definition_version;
    meta = s.meta;
    control = s.control;
    budget = s.budget;
    body = raw;
  }

  -- `EncodeCheckpoint`; the length of a slice is far below the sign bit.
  unfoldable pub encode_checkpoint :
      WorkflowState T → StateCodec T → ℕ → Result Error CheckpointEnvelope
  unfolding byte_limit envelope_of
  encode_checkpoint s codec max_bytes = do
    reject_if (not (valid_identifier codec.schema_id) || (codec.schema_version == 0))
        (workflow codec_incompatible "")
    validate s
    raw ← codec.encode s.body
    reject_if (ltb (byte_limit max_bytes) (length raw)) (workflow checkpoint_too_large "")
    let envelope = envelope_of s codec raw
    validate_checkpoint envelope
    ok envelope

  -- `DecodeCheckpoint`
  unfoldable pub decode_checkpoint :
      CheckpointEnvelope → String → StateCodec T → Result Error (WorkflowState T)
  decode_checkpoint e definition codec = do
    validate_checkpoint e
    reject_if
        (not (str_eq e.schema_id codec.schema_id)
          || not (e.schema_version == codec.schema_version)
          || not (str_eq e.definition_version definition))
        (workflow codec_incompatible "")
    body ← codec.decode e.body
    ok (record { meta = e.meta; control = e.control; budget = e.budget; body = body })
