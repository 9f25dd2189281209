-- ===== src/Workflow/Node.antt =====
-- internal/workflow/node.go: what a node is given and what it returns. A call reads and changes the
-- world outside, `W`, which is whatever the program's nodes, clock and observer depend on. The text
-- `run:node:attempt` of an execution id is kept as its three parts. The method `ID` is read as a
-- field: the nodes here are those whose `ID` returns one text at every call and changes nothing.
use harness_loop_agent.Base.{ℕ, String, Option}
use harness_loop_agent.Workflow.Errors.{Error}
use harness_loop_agent.Workflow.Wait.{WaitPoint, ResumeCommand}
use harness_loop_agent.Workflow.State.{WorkflowState, RunStatus}

pub data Directive : Type 0 where
  continue suspend : Directive
  other : String → Directive

pub record ExecutionId : Type 0 where
  pub run_id : String
  pub node_id : String
  pub attempt : ℕ

module _ (T : Type 0) where
  pub record NodeInput : Type 0 where
    pub state : WorkflowState T
    pub resume : Option ResumeCommand
    pub execution_id : ExecutionId

  pub record NodeResult : Type 0 where
    pub state : WorkflowState T
    pub directive : Directive
    pub wait : Option WaitPoint

  pub record RunResult : Type 0 where
    pub state : WorkflowState T
    pub status : RunStatus

pub record Node (T W : Type 0) : Type 0 where
  pub id : String
  pub execute : NodeInput T → W → NodeResult T × Option Error × W
