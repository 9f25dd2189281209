-- ===== src/Workflow/Event.antt =====
-- internal/workflow/event.go: node events, and the collector that a durable run observes with. Its
-- mutex makes each method one step.
use harness_loop_agent.Base.{
  ℕ, String, Bool, true, false, not, ◌||◌, List, [], ◌∷◌, ◌++◌, Option, none, some, Result, ok,
  ◌>>◌, reject_if,
}
use harness_loop_agent.Base.Word.{Time, slt, sle}
use harness_loop_agent.Base.Dict.{Dict, lookup, insert}
use harness_loop_agent.Workflow.Errors.{Error, ErrorCode, contract_error}
use harness_loop_agent.Workflow.Ident.{valid_identifier}
use harness_loop_agent.Workflow.State.{RunStatus}

pub data NodeEventType : Type 0 where
  node_started node_completed node_suspended node_resumed node_failed node_skipped : NodeEventType
  other : String → NodeEventType

unfoldable pub valid_event_type : NodeEventType → Bool
valid_event_type (other _) = false
valid_event_type _ = true

pub record NodeEvent : Type 0 where
  pub sequence : ℕ  -- int64
  pub workflow_id : String
  pub run_id : String
  pub node_id : String
  pub kind : NodeEventType
  pub status : RunStatus
  pub attempt : ℕ  -- int
  pub resume_count : ℕ  -- int
  pub wait_id : String
  pub error_code : Option ErrorCode
  pub duration : ℕ
  pub occurred_at : Time

pub record MemoryCollector : Type 0 where
  pub events : List NodeEvent
  pub last_by_run : Dict ℕ

abbrev pub new_memory_collector : MemoryCollector
new_memory_collector = record { events = []; last_by_run = [] }

-- A missing key reads as 0.
abbrev pub or_zero : Option ℕ → ℕ
or_zero none = 0
or_zero (some n) = n

-- `Observe`
unfoldable pub observe : MemoryCollector → NodeEvent → Result Error MemoryCollector
unfolding valid_event_type
observe c event = do
  reject_if
      (slt event.sequence 1
        || not (valid_identifier event.workflow_id)
        || not (valid_identifier event.run_id)
        || not (valid_identifier event.node_id)
        || not (valid_event_type event.kind))
      contract_error
  reject_if (sle event.sequence (or_zero (lookup event.run_id c.last_by_run))) contract_error
  ok (record {
    events = c.events ++ event ∷ [];
    last_by_run = insert event.run_id event.sequence c.last_by_run;
  })
