-- ===== src/Workflow/Checkpoint/RoundTrip.antt =====
-- Encoding and decoding of checkpoints.
use harness_loop_agent.Base.{ℕ, ◌≤◌, ◌≡◌, ok, arith, eq_iff, length, inl, inr, Result-cases}
use harness_loop_agent.Workflow.State.{WorkflowState, validate}
use harness_loop_agent.Workflow.Checkpoint.{
  Bytes, CheckpointEnvelope, StateCodec, byte_limit, validate_checkpoint, encode_checkpoint,
  decode_checkpoint, envelope_of,
}

module _ {T : Type 0} (codec : StateCodec T) where
  -- The business codec reads back what it wrote.
  abbrev pub ReadsBack : Type 0
  ReadsBack = (x : T) (raw : Bytes) → codec.encode x ≡ ok raw → codec.decode raw ≡ ok x

  pub encode_parts :
      (s : WorkflowState T) (max_bytes : ℕ) {e : CheckpointEnvelope}
      → encode_checkpoint s codec max_bytes ≡ ok e
      → (raw : Bytes) × (codec.encode s.body ≡ ok raw)
        × (length raw ≤ byte_limit max_bytes)
        × (validate s ≡ ok tt)
        × (validate_checkpoint e ≡ ok tt)
        × (e ≡ envelope_of s codec raw)
  unfolding encode_checkpoint
  encode_parts s max_bytes h = elim (Result-cases (codec.encode s.body)) [
    | inl (raw, q) ↦ (raw, q, ground arith, ground arith, ground arith, ground arith)
    | inr (x, q) ↦ absurd (ground arith)
  ]

  -- A checkpoint that was encoded decodes to the state it was made from, under the definition
  -- version of that state, if the codec reads back what it wrote; and its bytes are within the
  -- limit.
  pub decode-encode :
      (s : WorkflowState T) (max_bytes : ℕ) {e : CheckpointEnvelope}
      → ReadsBack
      → encode_checkpoint s codec max_bytes ≡ ok e
      → (decode_checkpoint e s.meta.definition_version codec ≡ ok s)
        × (length e.body ≤ byte_limit max_bytes)
  unfolding decode_checkpoint envelope_of
  decode-encode s max_bytes reads h =
      let (raw, q, fits, v, ve, shape) = encode_parts s max_bytes h in
      ground (
        arith,
        reads s.body raw q,
        eq_iff codec.schema_id codec.schema_id,
        eq_iff s.meta.definition_version s.meta.definition_version,
      )
