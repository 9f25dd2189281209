-- ===== src/ReminderDelivery/Worker.antt =====
-- internal/reminderdelivery/runtime.go: `NewWorker` and `Worker.Tick`.
use harness_loop_agent.Base.{
  ℕ, zero, suc, ◌-◌, ◌*◌, ◌^◌, String, Bool, true, false, not, ◌||◌, ◌&&◌, List, [], ◌∷◌, Option,
  none, some, ok, err, Result, ◌>>◌, reject_if, length, str_eq, if◌then◌else◌,
}
use harness_loop_agent.Base.Word.{add_duration, Time, inc, slt, sle, is_negative}
use harness_loop_agent.Base.Text.{trim}
use harness_loop_agent.Reminder.{ReminderError, invalid_input, max_page_size, Owner}
use harness_loop_agent.Reminder.Store.{Delivery}
use harness_loop_agent.Reminder.Store.Deliveries.{DeliveryFailure}
use harness_loop_agent.ReminderDelivery.{Repository, known, Ticked, second}

pub record DeliveryRequest : Type 0 where
  pub key : String
  pub reminder_id : String
  pub content : String
  pub owner : Owner

pub record DeliveryResult : Type 0 where
  pub provider_id : String

-- An error of an adapter: a `DeliveryError` that `errors.As` finds in it, or any other.
pub data AdapterError : Type 0 where
  delivery_error : String → Bool → AdapterError
  untyped : AdapterError

unfoldable pub classify : AdapterError → String × Bool
classify (delivery_error given retryable) =
    let code = trim given in ((if str_eq code "" then "delivery_error" else code), retryable)
classify untyped = ("delivery_error", false)

pub record WorkerConfig : Type 0 where
  pub batch_size : ℕ  -- int
  pub max_batches : ℕ  -- int
  pub max_attempts : ℕ  -- int
  pub lease_duration : ℕ  -- time.Duration
  pub interval : ℕ  -- time.Duration
  pub base_backoff : ℕ  -- time.Duration
  pub max_backoff : ℕ  -- time.Duration
  pub production : Bool

-- `NewWorker`, for an adapter that does or does not support idempotency.
unfoldable pub new_worker : Bool → WorkerConfig → Result ReminderError WorkerConfig
new_worker supports_idempotency c = do
  reject_if
      (slt c.batch_size 1
        || slt max_page_size c.batch_size
        || slt c.max_batches 1
        || slt c.max_attempts 1
        || slt c.lease_duration second
        || sle c.interval 0
        || sle c.base_backoff 0
        || slt c.max_backoff c.base_backoff
        || (c.production && not supports_idempotency))
      invalid_input
  ok c

abbrev pub delivery_request : Delivery → DeliveryRequest
delivery_request d = record {
  key = d.delivery_key;
  reminder_id = d.reminder_id;
  content = d.content;
  owner = d.owner;
}

-- `max(0, attempt-1)`: an attempt is never the least integer.
abbrev pub doublings : ℕ → ℕ
doublings attempt = if sle attempt 1 then 0 else attempt - 1

-- `to_duration` reads the float64 product of a duration and a power of two as a duration.
unfoldable pub backoff : (ℕ → ℕ) → WorkerConfig → ℕ → ℕ
backoff to_duration c attempt =
    let value = to_duration (c.base_backoff * 2 ^ doublings attempt) in
    if slt c.max_backoff value then c.max_backoff else value

abbrev pub attempts_over : WorkerConfig → ℕ → Bool
attempts_over c attempt = sle c.max_attempts attempt

abbrev pub failure_of :
    (ℕ → ℕ) → WorkerConfig → Time → String → Delivery → AdapterError → DeliveryFailure
failure_of to_duration c now token d e = record {
  id = d.id;
  claim_token = token;
  error_code = (classify e).0;
  now = now;
  next_available = add_duration now (backoff to_duration c d.attempt);
  permanent = not (classify e).1 || attempts_over c d.attempt;
}

-- The adapter's call includes `BeforeComplete`, where there is one, after a call without error.
module _ {W : Type 0} (repository : Repository W) (clock : W → Time × W)
    (new_token : W → String × W) (observe : String → String → String → ℕ → W → W)
    (to_duration : ℕ → ℕ) (deliver : DeliveryRequest → W → Result AdapterError DeliveryResult × W)
    (before_complete : Option (Delivery → W → Result AdapterError (Unit {0}) × W)) where
  -- `Deliver`, then `BeforeComplete` where there is one.
  unfoldable pub try_deliver : Delivery → W → Option AdapterError × W
  try_deliver d w =
      let (result, w1) = deliver (delivery_request d) w in
      elim result [
        | err e ↦ (some e, w1)
        | ok _ ↦ elim before_complete [
          | none ↦ (none, w1)
          | some hook ↦
              let (hooked, w2) = hook d w1 in
              elim hooked [ err e ↦ (some e, w2) | ok _ ↦ (none, w2) ]
        ]
      ]

  -- The inner loop of `Tick`.
  unfoldable pub work_each : WorkerConfig → Time → String → List Delivery → ℕ → W → Ticked W
  unfolding try_deliver
  work_each c now token [] total w = (total, none, w)
  work_each c now token (d ∷ ds) total w =
      let (failed, w1) = try_deliver d w in
      elim failed [
        | none ↦
            let (result, w2) = repository.complete_delivery d.id token now w1 in
            elim result [
              | err e ↦ (total, some e, w2)
              | ok _ ↦
                  work_each c now token ds (inc total) (observe "deliver" "fired" "" d.attempt w2)
            ]
        | some f ↦
            let failure = failure_of to_duration c now token d f in
            let (result, w2) = repository.fail_delivery failure w1 in
            elim result [
              | err e ↦ (total, some e, w2)
              | ok _ ↦ work_each c now token ds total (
                  observe "deliver" (if failure.permanent then "failed" else "retrying")
                    failure.error_code d.attempt w2)
            ]
      ]

  -- The outer loop of `Tick`, with the number of batches that are left.
  unfoldable pub work_batches : WorkerConfig → ℕ → ℕ → W → Ticked W
  unfolding work_each
  work_batches c zero total w = (total, none, w)
  work_batches c (suc left) total w =
      let (now, w1) = clock w in
      let (raw, w2) = new_token w1 in
      let token = trim raw in
      elim (str_eq token "") [
        | true ↦ (total, some (known invalid_input), w2)
        | false ↦
            let (result, w3) =
              repository.claim_deliveries c.batch_size now c.lease_duration token w2 in
            elim result [
              | err e ↦ (total, some e, w3)
              | ok values ↦
                  let (done, failed, w4) = work_each c now token values total w3 in
                  elim failed [
                    | some e ↦ (done, some e, w4)
                    | none ↦ elim (slt (length values) c.batch_size) [
                      | true ↦ (done, none, w4)
                      | false ↦ work_batches c left done w4
                    ]
                  ]
            ]
      ]

  -- `Tick`
  unfoldable pub work_tick : WorkerConfig → W → Ticked W
  unfolding work_batches
  work_tick c w =
      work_batches c (elim (is_negative c.max_batches) [ true ↦ 0 | false ↦ c.max_batches ]) 0 w
