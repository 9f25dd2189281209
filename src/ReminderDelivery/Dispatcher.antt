-- ===== src/ReminderDelivery/Dispatcher.antt =====
-- internal/reminderdelivery/runtime.go: `NewDispatcher` and `Dispatcher.Tick`.
use Prim.Native.String.{◌++◌ as append}
use harness_loop_agent.Base.{
  ℕ, zero, suc, String, true, false, ◌||◌, List, [], ◌∷◌, none, some, ok, err, Result, ◌>>◌,
  reject_if, length, str_eq,
}
use harness_loop_agent.Base.Word.{Time, inc, slt, sle, is_negative}
use harness_loop_agent.Base.Text.{trim, decimal}
use harness_loop_agent.Reminder.{Reminder, ReminderError, invalid_input, max_page_size}
use harness_loop_agent.Reminder.Store.Claims.{DueClaimRequest}
use harness_loop_agent.Reminder.Store.Deliveries.{CommitOccurrenceInput}
use harness_loop_agent.ReminderDelivery.{Repository, known, Ticked, second, stable_code}

-- The configuration; whether there are a clock, a source of tokens and an observer is not part of
-- it here.
pub record DispatcherConfig : Type 0 where
  pub batch_size : ℕ  -- int
  pub max_batches : ℕ  -- int
  pub lease_duration : ℕ  -- time.Duration
  pub interval : ℕ  -- time.Duration

-- `NewDispatcher`
unfoldable pub new_dispatcher : DispatcherConfig → Result ReminderError DispatcherConfig
new_dispatcher c = do
  reject_if
      (slt c.batch_size 1
        || slt max_page_size c.batch_size
        || slt c.max_batches 1
        || slt c.lease_duration second
        || sle c.interval 0)
      invalid_input
  ok c

abbrev pub due_request : DispatcherConfig → Time → String → DueClaimRequest
due_request c now token = record {
  limit = c.batch_size;
  now = now;
  lease_duration = c.lease_duration;
  token = token;
}

abbrev pub occurrence : Reminder → String
occurrence v = append v.id (append ":" (decimal v.row_version))

abbrev pub commit_input : Time → String → Reminder → CommitOccurrenceInput
commit_input now token v = record {
  reminder_id = v.id;
  expected_row_version = v.row_version;
  claim_token = token;
  occurrence_id = occurrence v;
  occurred_at = now;
}

-- What the two loops need from outside: the observer's call is told an event, a status, an error code
-- and an attempt.
module _ {W : Type 0} (repository : Repository W) (clock : W → Time × W)
    (new_token : W → String × W) (observe : String → String → String → ℕ → W → W) where
  -- The inner loop of `Tick`.
  unfoldable pub commit_each : Time → String → List Reminder → ℕ → W → Ticked W
  commit_each now token [] total w = (total, none, w)
  commit_each now token (v ∷ vs) total w =
      let (result, w1) = repository.commit_occurrence (commit_input now token v) w in
      elim result [
        | err e ↦ (total, some e, observe "commit" "failed" (stable_code e) 0 w1)
        | ok _ ↦ commit_each now token vs (inc total) (observe "commit" "processing" "" 0 w1)
      ]

  -- The outer loop of `Tick`, with the number of batches that are left.
  unfoldable pub dispatch_batches : DispatcherConfig → ℕ → ℕ → W → Ticked W
  unfolding commit_each
  dispatch_batches c zero total w = (total, none, w)
  dispatch_batches c (suc left) total w =
      let (now, w1) = clock w in
      let (raw, w2) = new_token w1 in
      let token = trim raw in
      elim (str_eq token "") [
        | true ↦ (total, some (known invalid_input), w2)
        | false ↦
            let (result, w3) = repository.claim_due (due_request c now token) w2 in
            elim result [
              | err e ↦ (total, some e, observe "claim" "failed" "repository" 0 w3)
              | ok values ↦
                  let (done, failed, w4) = commit_each now token values total w3 in
                  elim failed [
                    | some e ↦ (done, some e, w4)
                    | none ↦ elim (slt (length values) c.batch_size) [
                      | true ↦ (done, none, w4)
                      | false ↦ dispatch_batches c left done w4
                    ]
                  ]
            ]
      ]

  -- `Tick`
  unfoldable pub dispatch_tick : DispatcherConfig → W → Ticked W
  unfolding dispatch_batches
  dispatch_tick c w =
      dispatch_batches c (elim (is_negative c.max_batches) [ true ↦ 0 | false ↦ c.max_batches ]) 0 w
