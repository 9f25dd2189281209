-- ===== src/ReminderDelivery.antt =====
-- internal/reminderdelivery/runtime.go: the dispatcher, which turns reminders that are due into
-- deliveries, and the worker, which hands deliveries to an adapter. The repository, the adapter, the
-- clock, the source of tokens and the observer act on a world; contexts, the tickers of the two `Run`
-- loops and the latencies that an observer is told are not modelled.
pub mod Dispatcher
pub mod Worker
pub mod Recording
pub mod Fake
pub mod Dispatched
pub mod Dispatches
pub mod Tried
pub mod Attempts
pub mod Works
use harness_loop_agent.Base.{ℕ, String, Bool, List, Option, Result}
use harness_loop_agent.Base.Word.{Time}
use harness_loop_agent.Reminder.{ReminderError, Reminder, state_conflict, lease_lost, Owner}
use harness_loop_agent.Reminder.Store.{Delivery}
use harness_loop_agent.Reminder.Store.Claims.{DueClaimRequest}
use harness_loop_agent.Reminder.Store.Deliveries.{CommitOccurrenceInput, DeliveryFailure}

-- What a call of the repository may return: an error of the package, or one of its storage.
pub data RepositoryError : Type 0 where
  known : ReminderError → RepositoryError
  foreign : String → RepositoryError

-- The calls of `reminder.Repository` that the runtime makes.
pub record Repository (W : Type 0) : Type 0 where
  pub claim_due : DueClaimRequest → W → Result RepositoryError (List Reminder) × W
  pub commit_occurrence : CommitOccurrenceInput → W → Result RepositoryError (Delivery × Bool) × W
  pub claim_deliveries : ℕ → Time → ℕ → String → W → Result RepositoryError (List Delivery) × W
  pub complete_delivery : String → String → Time → W → Result RepositoryError (Unit {0}) × W
  pub fail_delivery : DeliveryFailure → W → Result RepositoryError (Unit {0}) × W

-- The number of claims of a tick, its error if it has one, and the world after it.
abbrev pub Ticked : Type 0 → Type 0
Ticked W = ℕ × Option RepositoryError × W

-- A second, in nanoseconds.
abbrev pub second : ℕ
second = 1000000000

unfoldable pub stable_code : RepositoryError → String
stable_code (known lease_lost) = "lease_lost"
stable_code (known state_conflict) = "state_conflict"
stable_code _ = "repository_error"
