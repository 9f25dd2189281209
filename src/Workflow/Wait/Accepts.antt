-- ===== src/Workflow/Wait/Accepts.antt =====
-- When a resume command is accepted, said without the code's order of tests.
use harness_loop_agent.Base.{◌<◌, ◌≡◌, ◌↔◌, true, List, [], ◌∷◌, ok, arith, IsIn, eq_iff}
use harness_loop_agent.Base.Word.{Time}
use harness_loop_agent.Workflow.Wait.{
  HumanAction, approve, WaitPoint, ResumeCommand, same_action, contains_action, valid_action,
  validate_wait, validate_resume,
}

pub same_action_iff : (a b : HumanAction) → (same_action a b ≡ true) ↔ (a ≡ b)
unfolding same_action
same_action_iff (HumanAction.other s) (HumanAction.other t) = ground (arith, eq_iff s t)
same_action_iff approve b = ground arith
same_action_iff a b = ground arith

pub contains_action_iff :
    (a : HumanAction) (allowed : List HumanAction)
    → (contains_action a allowed ≡ true) ↔ IsIn a allowed
unfolding contains_action
contains_action_iff a [] = ground arith
contains_action_iff a (b ∷ bs) = ground (arith, same_action_iff a b, contains_action_iff a bs)

-- The command names the point's run, wait, version and content, asks for an action that the point
-- allows, and comes before the point ends.
pub record Accepts (p : WaitPoint) (c : ResumeCommand) (now : Time) : Type 0 where
  pub in_time : now < p.expires_at
  pub well_formed : validate_wait p now ≡ ok tt
  pub run : c.run_id ≡ p.run_id
  pub wait : c.wait_id ≡ p.id
  pub version : c.version ≡ p.version
  pub content : c.content_hash ≡ p.content_hash
  pub known : valid_action c.action ≡ true
  pub allowed : IsIn c.action p.allowed_actions

-- `ValidateResume` succeeds exactly on the commands that the point accepts: before its end, when
-- the point itself is valid, with its run, its id, its version and its content hash, and with a
-- known action that is among those it allows.
pub validate_resume-Accepts :
    (p : WaitPoint) (c : ResumeCommand) (now : Time)
    → (validate_resume p c now ≡ ok tt) ↔ Accepts p c now
unfolding validate_resume
validate_resume-Accepts p c now = ground (
  arith,
  eq_iff c.run_id p.run_id,
  eq_iff c.wait_id p.id,
  eq_iff c.content_hash p.content_hash,
  contains_action_iff c.action p.allowed_actions,
)
