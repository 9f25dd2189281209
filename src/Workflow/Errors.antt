-- ===== src/Workflow/Errors.antt =====
-- internal/workflow/errors.go, with the errors that the package wraps. The texts of the messages
-- are left out: nothing in the program branches on them.
use harness_loop_agent.Base.{
  String, Bool, true, false, ◌||◌, Option, none, some, if◌then◌else◌, str_eq,
}

pub data ErrorCode : Type 0 where
  invalid_contract invalid_state step_budget resume_budget timeout cancelled node_failed : ErrorCode
  observer_failed invalid_resume wait_expired not_found idempotency_conflict : ErrorCode
  claim_conflict lease_lost state_conflict codec_incompatible checkpoint_too_large : ErrorCode
  other : String → ErrorCode

-- `workflow c n` is `&Error{Code: c, NodeID: n}`, and `wrapping c n e` has `Err: e` too; `wraps` is
-- a wrapper of another package (`fmt.Errorf` with `%w`), and `joins` is `errors.Join`.
pub data Error : Type 0 where
  workflow : ErrorCode → String → Error
  wrapping : ErrorCode → String → Error → Error
  canceled deadline_exceeded : Error
  plain : String → Error
  wraps : Error → Error
  joins : Error → Error → Error

abbrev pub contract_error : Error
contract_error = workflow invalid_contract ""

abbrev pub state_error : Error
state_error = workflow invalid_state ""

-- `errors.Is(err, context.Canceled)`
unfoldable pub is_canceled : Error → Bool
is_canceled canceled = true
is_canceled (wrapping _ _ e) = is_canceled e
is_canceled (wraps e) = is_canceled e
is_canceled (joins e f) = is_canceled e || is_canceled f
is_canceled _ = false

-- `errors.Is(err, context.DeadlineExceeded)`
unfoldable pub is_deadline : Error → Bool
is_deadline deadline_exceeded = true
is_deadline (wrapping _ _ e) = is_deadline e
is_deadline (wraps e) = is_deadline e
is_deadline (joins e f) = is_deadline e || is_deadline f
is_deadline _ = false

abbrev pub or_else : Option Error → Option Error → Option Error
or_else none f = f
or_else (some e) f = some e

-- `errors.As(err, &workflowErr)`: the first `*Error` of the tree, in preorder.
unfoldable pub as_workflow : Error → Option Error
as_workflow (workflow c n) = some (workflow c n)
as_workflow (wrapping c n e) = some (wrapping c n e)
as_workflow (wraps e) = as_workflow e
as_workflow (joins e f) = or_else (as_workflow e) (as_workflow f)
as_workflow _ = none

abbrev own_code : Option Error → Option ErrorCode
own_code (some (workflow c n)) = some c
own_code (some (wrapping c n e)) = some c
own_code _ = none

-- `none` is the empty code.
unfoldable pub code_of : Error → Option ErrorCode
unfolding as_workflow
code_of e = own_code (as_workflow e)

-- `if workflowErr.NodeID == "" { copy.NodeID = nodeID; return &copy }; return err`
abbrev fill_node : String → Error → Option Error → Option Error
fill_node node e (some (workflow c n)) = if str_eq n "" then some (workflow c node) else some e
fill_node node e (some (wrapping c n cause)) =
    if str_eq n "" then some (wrapping c node cause) else some e
fill_node node e _ = none

abbrev or_node_failed : String → Error → Option Error → Error
or_node_failed node e (some f) = f
or_node_failed node e none = wrapping node_failed node e

-- `normalizeNodeError`
unfoldable pub normalize_node_error : String → Error → Error
unfolding is_canceled is_deadline as_workflow
normalize_node_error node e =
    if is_canceled e
    then wrapping cancelled node e
    else if is_deadline e
    then wrapping timeout node e
    else or_node_failed node e (fill_node node e (as_workflow e))
