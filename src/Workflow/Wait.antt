-- ===== src/Workflow/Wait.antt =====
-- internal/workflow/wait.go: the point at which a run waits for a person, and what resumes it.
-- `WaitRequest` and `WaitPoint` are one record. In each enumeration `other` holds a text that is
-- none of the constants.
pub mod Accepts
use harness_loop_agent.Base.{
  ℕ, String, Bool, true, false, not, ◌||◌, ◌&&◌, List, [], ◌∷◌, Result, ok, err, ◌>>=◌, ◌>>◌,
  reject_if, is_empty, str_eq, ◌==◌, if◌then◌else◌,
}
use harness_loop_agent.Base.Word.{Time, is_zero, after}
use harness_loop_agent.Workflow.Errors.{
  Error, workflow, wrapping, contract_error, wait_expired, invalid_resume,
}
use harness_loop_agent.Workflow.Ident.{valid_identifier}

pub data WaitKind : Type 0 where
  approval review edit input : WaitKind
  other : String → WaitKind

unfoldable pub valid_kind : WaitKind → Bool
valid_kind (other _) = false
valid_kind _ = true

pub data HumanAction : Type 0 where
  approve reject submit_edit cancel : HumanAction
  other : String → HumanAction

unfoldable pub valid_action : HumanAction → Bool
valid_action (HumanAction.other _) = false
valid_action _ = true

-- `==` on actions.
unfoldable pub same_action : HumanAction → HumanAction → Bool
same_action approve approve = true
same_action reject reject = true
same_action submit_edit submit_edit = true
same_action cancel cancel = true
same_action (HumanAction.other s) (HumanAction.other t) = str_eq s t
same_action _ _ = false

pub record WaitPoint : Type 0 where
  pub id : String
  pub run_id : String
  pub node_id : String
  pub kind : WaitKind
  pub version : ℕ  -- uint64
  pub content_hash : String
  pub allowed_actions : List HumanAction
  pub payload_ref : String
  pub expires_at : Time

-- `range p.AllowedActions`
unfoldable pub contains_action : HumanAction → List HumanAction → Bool
unfolding same_action
contains_action a [] = false
contains_action a (b ∷ bs) = same_action a b || contains_action a bs

-- The loop of `Validate` over the actions, with those it has seen.
unfoldable pub check_actions : List HumanAction → List HumanAction → Result Error (Unit {0})
unfolding valid_action contains_action
check_actions seen [] = ok tt
check_actions seen (a ∷ rest) = do
  reject_if (not (valid_action a)) contract_error
  reject_if (contains_action a seen) contract_error
  check_actions (a ∷ seen) rest

unfoldable pub validate_wait : WaitPoint → Time → Result Error (Unit {0})
unfolding valid_kind check_actions
validate_wait r now = do
  reject_if
      (not (valid_identifier r.id)
        || not (valid_identifier r.run_id)
        || not (valid_identifier r.node_id)
        || (r.version == 0)
        || not (valid_identifier r.content_hash))
      contract_error
  reject_if (not (valid_kind r.kind)) contract_error
  reject_if (is_empty r.allowed_actions) contract_error
  check_actions [] r.allowed_actions
  reject_if (is_zero r.expires_at || not (after r.expires_at now)) contract_error

pub record ResumeCommand : Type 0 where
  pub run_id : String
  pub wait_id : String
  pub version : ℕ  -- uint64
  pub content_hash : String
  pub action : HumanAction
  pub payload_ref : String

-- `if err != nil { return &Error{Code: CodeInvalidResume, Err: err} }`
abbrev wrap_invalid : Result Error (Unit {0}) → Result Error (Unit {0})
wrap_invalid (ok u) = ok u
wrap_invalid (err e) = err (wrapping invalid_resume "" e)

unfoldable pub validate_resume : WaitPoint → ResumeCommand → Time → Result Error (Unit {0})
validate_resume p command now = do
  reject_if (not (after p.expires_at now)) (workflow wait_expired "")
  wrap_invalid (validate_wait p now)
  reject_if
      (not (str_eq command.run_id p.run_id)
        || not (str_eq command.wait_id p.id)
        || not (command.version == p.version)
        || not (str_eq command.content_hash p.content_hash))
      (workflow invalid_resume "")
  reject_if
      (not (valid_action command.action) || not (contains_action command.action p.allowed_actions))
      (workflow invalid_resume "")
