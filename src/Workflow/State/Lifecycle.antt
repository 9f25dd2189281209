-- ===== src/Workflow/State/Lifecycle.antt =====
-- The life cycle of a run as a relation, and what `Transition` does with it.
use harness_loop_agent.Base.{◌≡◌, refl, ◌↔◌, true, false, ok, arith}
use harness_loop_agent.Base.Word.{inc}
use harness_loop_agent.Workflow.State.{
  RunStatus, pending, running, suspended, completed, failed, cancelled, expired, other,
  valid_status, terminal, allowed_transition, ControlState, transition,
}

-- The statuses a run can be ended in from outside: it has begun, or waits to begin.
pub data Live : RunStatus → Type 0 where
  waiting : Live pending
  working : Live running
  parked : Live suspended

infix 40 ◌⟶◌
pub data ◌⟶◌ : RunStatus → RunStatus → Type 0 where
  start : pending ⟶ running
  park : running ⟶ suspended
  resume : suspended ⟶ running
  finish : running ⟶ completed
  fail_running : running ⟶ failed
  fail_parked : suspended ⟶ failed
  cancel : {s : RunStatus} → Live s → s ⟶ cancelled
  expire : {s : RunStatus} → Live s → s ⟶ expired

ruleset edges = (
  start, park, resume, finish, fail_running, fail_parked, cancel, expire, waiting, working, parked,
)

allowed-⟶ : (s t : RunStatus) → allowed_transition s t ≡ true → s ⟶ t
unfolding allowed_transition
allowed-⟶ s t h = grind (arith, edges)

⟶-allowed : {s t : RunStatus} → s ⟶ t → allowed_transition s t ≡ true
unfolding allowed_transition
⟶-allowed start = refl
⟶-allowed park = refl
⟶-allowed resume = refl
⟶-allowed finish = refl
⟶-allowed fail_running = refl
⟶-allowed fail_parked = refl
⟶-allowed (cancel waiting) = refl
⟶-allowed (cancel working) = refl
⟶-allowed (cancel parked) = refl
⟶-allowed (expire waiting) = refl
⟶-allowed (expire working) = refl
⟶-allowed (expire parked) = refl

⟶-valid : {s t : RunStatus} → s ⟶ t → (valid_status s ≡ true) × (valid_status t ≡ true)
unfolding valid_status
⟶-valid start = (refl, refl)
⟶-valid park = (refl, refl)
⟶-valid resume = (refl, refl)
⟶-valid finish = (refl, refl)
⟶-valid fail_running = (refl, refl)
⟶-valid fail_parked = (refl, refl)
⟶-valid (cancel waiting) = (refl, refl)
⟶-valid (cancel working) = (refl, refl)
⟶-valid (cancel parked) = (refl, refl)
⟶-valid (expire waiting) = (refl, refl)
⟶-valid (expire working) = (refl, refl)
⟶-valid (expire parked) = (refl, refl)

-- `Transition` succeeds exactly along an edge of the life cycle; then it sets the status, counts
-- the version up, and leaves the other fields as they were.
pub transition-⟶ :
    (c d : ControlState) (t : RunStatus)
    → (transition c t ≡ ok d)
      ↔ ((c.status ⟶ t) × (d ≡ record c { status = t; state_version = inc c.state_version }))
unfolding transition
transition-⟶ c d t = (
  λ h. (allowed-⟶ c.status t (ground arith), ground arith),
  λ (e, q). ground (arith, ⟶-allowed e, ⟶-valid e),
)

⟶-live : {s t : RunStatus} → s ⟶ t → terminal s ≡ false
unfolding terminal
⟶-live start = refl
⟶-live park = refl
⟶-live resume = refl
⟶-live finish = refl
⟶-live fail_running = refl
⟶-live fail_parked = refl
⟶-live (cancel waiting) = refl
⟶-live (cancel working) = refl
⟶-live (cancel parked) = refl
⟶-live (expire waiting) = refl
⟶-live (expire working) = refl
⟶-live (expire parked) = refl

-- A status among the constants is terminal exactly when no edge of the life cycle leaves it.
pub terminal-⟶ :
    (s : RunStatus) → valid_status s ≡ true → (terminal s ≡ true) ↔ ((t : RunStatus) → ¬ (s ⟶ t))
unfolding valid_status terminal
terminal-⟶ pending v = (λ h. cc, λ h. absurd (h running start))
terminal-⟶ running v = (λ h. cc, λ h. absurd (h completed finish))
terminal-⟶ suspended v = (λ h. cc, λ h. absurd (h running resume))
terminal-⟶ (other s) v = (λ h. cc, λ h. cc)
terminal-⟶ completed v = (λ h t e. cc (⟶-live e), λ h. refl)
terminal-⟶ failed v = (λ h t e. cc (⟶-live e), λ h. refl)
terminal-⟶ cancelled v = (λ h t e. cc (⟶-live e), λ h. refl)
terminal-⟶ expired v = (λ h t e. cc (⟶-live e), λ h. refl)
