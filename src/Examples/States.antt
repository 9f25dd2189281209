-- ===== src/Examples/States.antt =====
-- The life cycle, the validity of states, the acceptance of commands, and the checkpoint codec.
use harness_loop_agent.Base.{◌≤◌, ◌≡◌, refl, ◌↔◌, true, false, ok, arith, length}
use harness_loop_agent.Base.Word.{inc}
use harness_loop_agent.Workflow.Ident.{valid_identifier}
use harness_loop_agent.Workflow.Wait.{validate_resume}
use harness_loop_agent.Workflow.Wait.Accepts.{Accepts, validate_resume-Accepts}
use harness_loop_agent.Workflow.State.{
  RunStatus, running, completed, transition, terminal, valid_status, validate, WorkflowState,
}
use harness_loop_agent.Workflow.State.Lifecycle.{◌⟶◌, transition-⟶, terminal-⟶}
use harness_loop_agent.Workflow.State.Valid.{IsValid, validate-IsValid}
use harness_loop_agent.Workflow.Checkpoint.{
  encode_checkpoint, decode_checkpoint, byte_limit, StateCodec,
}
use harness_loop_agent.Workflow.Checkpoint.RoundTrip.{ReadsBack, decode-encode}
use harness_loop_agent.Examples.Fixtures.{
  pending_control, fresh, waiting, wait_point, approval, codec, envelope,
}

transition-⟶_example :
    (transition pending_control running
      ≡ ok (record pending_control { status = running; state_version = 2 }))
    ↔ ((pending_control.status ⟶ running)
        × (record pending_control { status = running; state_version = 2 }
            ≡ record pending_control { status = running; state_version = inc 1 }))
transition-⟶_example =
    transition-⟶ pending_control (record pending_control { status = running; state_version = 2 })
      running

completed-valid : valid_status completed ≡ true
unfolding valid_status
completed-valid = refl

terminal-⟶_example : (terminal completed ≡ true) ↔ ((t : RunStatus) → ¬ (completed ⟶ t))
terminal-⟶_example = terminal-⟶ completed completed-valid

validate-IsValid_example : (validate waiting ≡ ok tt) ↔ IsValid waiting
validate-IsValid_example = validate-IsValid waiting

validate_resume-Accepts_example :
    (validate_resume wait_point approval 10 ≡ ok tt) ↔ Accepts wait_point approval 10
validate_resume-Accepts_example = validate_resume-Accepts wait_point approval 10

codec-ReadsBack : ReadsBack codec
codec-ReadsBack x raw e = ground arith

fresh-encode : encode_checkpoint fresh codec 0 ≡ ok envelope
unfolding encode_checkpoint harness_loop_agent.Workflow.Ident.valid_identifier validate
    harness_loop_agent.Workflow.State.validate_metadata
    harness_loop_agent.Workflow.Ident.validate_source
    harness_loop_agent.Workflow.State.validate_budget
    harness_loop_agent.Workflow.Checkpoint.validate_checkpoint
fresh-encode = refl

decode-encode_example :
    (decode_checkpoint envelope fresh.meta.definition_version codec ≡ ok fresh)
    × (length envelope.body ≤ byte_limit 0)
decode-encode_example = decode-encode codec fresh 0 codec-ReadsBack fresh-encode

blank_is_invalid : valid_identifier "  " ≡ false
unfolding valid_identifier
blank_is_invalid = refl

name_is_valid : valid_identifier " run-1 " ≡ true
unfolding valid_identifier
name_is_valid = refl
