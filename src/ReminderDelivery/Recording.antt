-- ===== src/ReminderDelivery/Recording.antt =====
-- internal/reminderdelivery/runtime.go: `RecordingAdapter`, whose mutex makes a call one step.
use Prim.Native.String.{◌++◌ as append}
use harness_loop_agent.Base.{ℕ, [], none, some, ok, err, Result, true, false}
use harness_loop_agent.Base.Word.{inc}
use harness_loop_agent.Base.Text.{is_blank}
use harness_loop_agent.Base.Dict.{Dict, lookup, insert}
use harness_loop_agent.Reminder.{ReminderError, invalid_input}
use harness_loop_agent.ReminderDelivery.Worker.{DeliveryRequest, DeliveryResult}

pub record RecordingAdapter : Type 0 where
  pub results : Dict DeliveryResult
  pub calls : ℕ  -- int

abbrev pub new_recording_adapter : RecordingAdapter
new_recording_adapter = record { results = []; calls = 0 }

-- `Deliver`
unfoldable pub deliver :
    DeliveryRequest → RecordingAdapter → Result ReminderError DeliveryResult × RecordingAdapter
deliver q a = elim (is_blank q.key) [
  | true ↦ (err invalid_input, a)
  | false ↦ elim (lookup q.key a.results) [
    | some result ↦ (ok result, a)
    | none ↦
        let result : DeliveryResult = record { provider_id = append "recorded:" q.key } in
        (ok result, record { results = insert q.key result a.results; calls = inc a.calls })
  ]
]
