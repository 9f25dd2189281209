-- ===== src/Examples/Ticks.antt =====
-- The dispatcher and the worker over a repository with one reminder, on a clock that stands still.
use harness_loop_agent.Base.{
  ℕ, ◌≡◌, ◌≢◌, ◌⊎◌, refl, String, Bool, true, false, Option, none, some, Result, ok, err, arith,
  str_eq,
}
use harness_loop_agent.Base.Word.{Time}
use harness_loop_agent.Base.Dict.{lookup}
use harness_loop_agent.Base.Text.{trim}
use harness_loop_agent.Reminder.{ReminderError}
use harness_loop_agent.Reminder.Store.{FakeRepository, Delivery}
use harness_loop_agent.Reminder.Steps.{IsKept}
use harness_loop_agent.Reminder.Reached.{Reached-IsKept}
use harness_loop_agent.Reminder.Claimed.{Waits}
use harness_loop_agent.Reminder.Taken
use harness_loop_agent.ReminderDelivery.{Ticked}
use harness_loop_agent.ReminderDelivery.Fake.{fake, beside, observe_beside, hook_beside}
use harness_loop_agent.ReminderDelivery.Dispatcher.{DispatcherConfig, dispatch_tick}
use harness_loop_agent.ReminderDelivery.Dispatched.{Committed, Replayed}
use harness_loop_agent.ReminderDelivery.Dispatches.{dispatch_tick-EndsWell}
use harness_loop_agent.ReminderDelivery.Worker.{
  WorkerConfig, DeliveryRequest, DeliveryResult, AdapterError, delivery_error, work_tick,
}
use harness_loop_agent.ReminderDelivery.Tried.{Tried}
use harness_loop_agent.ReminderDelivery.Works.{work_tick-EndsWell}
use harness_loop_agent.ReminderDelivery.Recording.{RecordingAdapter, new_recording_adapter, deliver}
use harness_loop_agent.Examples.Reminders.{
  digest, created, created-Reached, committed, committed-Reached, delivery, delivery_there, tea,
  tea_there,
}

abbrev clock : RecordingAdapter → Time × RecordingAdapter
clock x = (60, x)

abbrev new_token : RecordingAdapter → String × RecordingAdapter
new_token x = ("w", x)

abbrev observe : String → String → String → ℕ → RecordingAdapter → RecordingAdapter
observe event status code attempt x = x

abbrev dispatcher : DispatcherConfig
dispatcher = record {
  batch_size = 10;
  max_batches = 3;
  lease_duration = 30000000000;
  interval = 1000000000;
}

abbrev dispatched : Ticked (FakeRepository × RecordingAdapter)
dispatched =
    dispatch_tick (fake RecordingAdapter) (beside clock) (beside new_token) (observe_beside observe)
      dispatcher (created, new_recording_adapter)

-- The one reminder that is due is committed.
dispatched_one : (dispatched.0 ≡ 1) × (dispatched.1 ≡ none)
unfolding dispatch_tick trim harness_loop_agent.Reminder.Store.Claims.claim_due
    harness_loop_agent.Base.Sort.sort harness_loop_agent.Reminder.Store.create
    harness_loop_agent.Base.Text.is_blank harness_loop_agent.Reminder.valid_hash
    harness_loop_agent.Reminder.validate harness_loop_agent.Reminder.normalize_content
    harness_loop_agent.Base.Text.words harness_loop_agent.Reminder.is_sensitive
    harness_loop_agent.Base.Regex.found_fold harness_loop_agent.Reminder.compute_content_hash
    harness_loop_agent.Base.Dict.lookup harness_loop_agent.Base.Dict.insert
    harness_loop_agent.Reminder.Store.Deliveries.commit_occurrence
dispatched_one = (refl, refl)

named : (x : RecordingAdapter) → str_eq (trim (new_token x).0) "" ≡ false
unfolding trim
named x = refl

dispatch_tick-EndsWell_example :
    (dispatched.1 ≡ none)
    × IsKept dispatched.2.0
    × (((lookup "t" dispatched.2.0.reminders ≡ some tea) × Waits created 10 60 tea)
        ⊎ Committed dispatched.2.0 "t"
        ⊎ Replayed dispatched.2.0 "t")
unfolding harness_loop_agent.ReminderDelivery.Dispatcher.new_dispatcher
dispatch_tick-EndsWell_example =
    dispatch_tick-EndsWell digest RecordingAdapter clock new_token observe (λ x. ground arith) named
      dispatcher refl (created, new_recording_adapter) "t" tea (omega arith)
      (Reached-IsKept digest created created-Reached) tea_there

abbrev worker : WorkerConfig
worker = record {
  batch_size = 10;
  max_batches = 3;
  max_attempts = 5;
  lease_duration = 30000000000;
  interval = 1000000000;
  base_backoff = 1000000000;
  max_backoff = 60000000000;
  production = true;
}

-- The adapter that records, whose errors are no `DeliveryError`.
abbrev untyped : {A : Type 0} → Result ReminderError A → Result AdapterError A
untyped (ok a) = ok a
untyped (err e) = err AdapterError.untyped

abbrev record_delivery :
    DeliveryRequest → RecordingAdapter → Result AdapterError DeliveryResult × RecordingAdapter
record_delivery q x = let (result, y) = deliver q x in (untyped result, y)

abbrev no_hook :
    Option (Delivery → RecordingAdapter → Result AdapterError (Unit {0}) × RecordingAdapter)
no_hook = none

abbrev worked : Ticked (FakeRepository × RecordingAdapter)
worked =
    work_tick (fake RecordingAdapter) (beside clock) (beside new_token) (observe_beside observe)
      (λ n. n) (λ q. beside (record_delivery q)) (hook_beside no_hook) worker
      (committed, new_recording_adapter)

-- The one delivery is handed to the adapter once, and completed.
worked_one : (worked.0 ≡ 1) × (worked.1 ≡ none) × (worked.2.1.calls ≡ 1)
unfolding work_tick deliver trim harness_loop_agent.Reminder.Store.Deliveries.claim_deliveries
    harness_loop_agent.Base.Sort.sort harness_loop_agent.Reminder.Store.Deliveries.commit_occurrence
    harness_loop_agent.Base.Dict.lookup harness_loop_agent.Reminder.Store.create
    harness_loop_agent.Base.Text.is_blank harness_loop_agent.Reminder.valid_hash
    harness_loop_agent.Reminder.validate harness_loop_agent.Reminder.normalize_content
    harness_loop_agent.Base.Text.words harness_loop_agent.Reminder.is_sensitive
    harness_loop_agent.Base.Regex.found_fold harness_loop_agent.Reminder.compute_content_hash
    harness_loop_agent.Base.Dict.insert
    harness_loop_agent.Reminder.Store.Deliveries.complete_delivery
worked_one = (refl, refl, refl)

work_tick-EndsWell_example :
    (worked.1 ≡ none)
    × IsKept worked.2.0
    × (((lookup "t:2" worked.2.0.deliveries ≡ some delivery) × Taken.Waits committed 10 60 delivery)
        ⊎ ((e : Delivery) × (lookup "t:2" worked.2.0.deliveries ≡ some e)
            × Tried RecordingAdapter record_delivery no_hook worker e))
unfolding harness_loop_agent.ReminderDelivery.Worker.new_worker
work_tick-EndsWell_example =
    work_tick-EndsWell digest RecordingAdapter clock new_token observe (λ n. n) record_delivery
      no_hook (λ x. ground arith) named true worker refl (committed, new_recording_adapter) "t:2"
      delivery (omega arith) (Reached-IsKept digest committed committed-Reached) delivery_there
