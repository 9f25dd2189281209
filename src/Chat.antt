-- ===== src/Chat.antt =====
-- internal/chat/model.go and the errors of internal/chat/repository.go: sessions, messages, runs and
-- their events.
pub mod Store
pub mod Moves
pub mod Journal
pub mod Steps
pub mod Create
use harness_loop_agent.Base.{ℕ, String, Bool, true, false, Option, List}
use harness_loop_agent.Base.Word.{Time}

pub record Session : Type 0 where
  pub id : String
  pub user_id : ℕ
  pub tenant_id : ℕ
  pub title : String
  pub status : String
  pub created_at : Time
  pub updated_at : Time

pub record Owner : Type 0 where
  pub user_id : ℕ
  pub tenant_id : ℕ

pub record Message : Type 0 where
  pub id : String
  pub session_id : String
  pub run_id : String
  pub sequence : ℕ  -- int64
  pub role : String
  pub content : String
  pub created_at : Time

pub data RunStatus : Type 0 where
  queued running completed failed cancelled timed_out interrupted : RunStatus
  other : String → RunStatus

-- `Terminal`
abbrev pub terminal : RunStatus → Bool
terminal queued = false
terminal running = false
terminal (other _) = false
terminal _ = true

pub record Run : Type 0 where
  pub id : String
  pub session_id : String
  pub status : RunStatus
  pub model : String
  pub idempotency_key : String
  pub error_code : String
  pub error_message : String
  pub created_at : Time
  pub started_at : Option Time
  pub completed_at : Option Time

-- `Data`, here `payload`, is a map of values of any type: `D` stands for such maps.
pub record Event (D : Type 0) : Type 0 where
  pub run_id : String
  pub sequence : ℕ  -- int64
  pub kind : String
  pub payload : D
  pub created_at : Time

pub record CreateRunInput : Type 0 where
  pub session_id : String
  pub owner : Owner
  pub content : String
  pub model : String
  pub idempotency_key : String
  pub user_access_token : String
  pub knowledge_base_ids : List ℕ

pub record CreatedRun : Type 0 where
  pub run : Run
  pub created : Bool

pub data ChatError : Type 0 where
  not_found active_run invalid_state : ChatError
