-- ===== src/Reminder/Store/Deliveries.antt =====
-- internal/reminder/fake_repository.go: an occurrence becomes a delivery, which workers claim, complete
-- and fail.
use harness_loop_agent.Base.{
  ℕ, ◌+◌, String, Bool, true, false, not, ◌||◌, ◌&&◌, List, [], ◌∷◌, Option, none, some, Result, ok,
  ◌>>=◌, ◌>>◌, reject_if, or_fail, if◌then◌else◌, ◌==◌, str_eq,
}
use harness_loop_agent.Base.Word.{Time, inc, after, is_zero, slt, sle}
use harness_loop_agent.Base.Dict.{Dict, lookup, insert}
use harness_loop_agent.Base.Text.{text_lt}
use harness_loop_agent.Base.Sort.{sort, take}
use harness_loop_agent.Reminder.{
  ReminderError, invalid_input, not_found, state_conflict, lease_lost, is_scheduled, Status,
  Reminder, Claim, max_page_size, Reminder,
}
use harness_loop_agent.Reminder.Store.{
  FakeRepository, Delivery, DeliveryStatus, pending, processing, completed, permanent_failed,
  or_zero_delivery, or_zero_reminder,
}

pub record CommitOccurrenceInput : Type 0 where
  pub reminder_id : String
  pub expected_row_version : ℕ  -- uint64
  pub claim_token : String
  pub occurrence_id : String
  pub occurred_at : Time

pub record DeliveryFailure : Type 0 where
  pub id : String
  pub claim_token : String
  pub error_code : String
  pub now : Time
  pub next_available : Time
  pub permanent : Bool

-- A claim under the token whose lease has not ended.
abbrev pub is_held : Option Claim → String → Time → Bool
is_held none token now = false
is_held (some c) token now = str_eq c.token token && after c.lease_until now

abbrev pub delivery_of : CommitOccurrenceInput → Reminder → Delivery
delivery_of q v = record {
  id = q.occurrence_id;
  reminder_id = v.id;
  owner = v.owner;
  content = v.content;
  delivery_key = q.occurrence_id;
  status = pending;
  attempt = 0;
  available_at = q.occurred_at;
  claim_token = "";
  lease_until = none;
  last_error_code = "";
}

-- `CommitOccurrence` for an occurrence that was not seen before.
unfoldable pub commit_fresh :
    FakeRepository
    → CommitOccurrenceInput
    → Reminder
    → Result ReminderError (Delivery × Bool × FakeRepository)
commit_fresh r q v = do
  reject_if
      (not (v.row_version == q.expected_row_version)
        || not (is_scheduled v.status)
        || not (is_held v.claim q.claim_token q.occurred_at))
      lease_lost
  let next : Reminder = record v {
    status = Status.processing;
    row_version = inc v.row_version;
    claim = none;
    updated_at = q.occurred_at;
  }
  let d = delivery_of q v
  ok (
    d,
    false,
    record r {
      reminders = insert v.id next r.reminders;
      deliveries = insert d.id d r.deliveries;
      occurrences = insert q.occurrence_id d.id r.occurrences;
    },
  )

-- `CommitOccurrence`
unfoldable pub commit_occurrence :
    FakeRepository → CommitOccurrenceInput → Result ReminderError (Delivery × Bool × FakeRepository)
unfolding commit_fresh
commit_occurrence r q = do
  v ← or_fail (lookup q.reminder_id r.reminders) not_found
  elim (lookup q.occurrence_id r.occurrences) [
    | some id ↦ ok (or_zero_delivery (lookup id r.deliveries), true, r)
    | none ↦ commit_fresh r q v
  ]

abbrev pub is_over : Option Time → Time → Bool
is_over none now = true
is_over (some until) now = not (after until now)

abbrev pub in_progress : DeliveryStatus → Bool
in_progress pending = true
in_progress processing = true
in_progress _ = false

abbrev pub is_available : Delivery → Time → Bool
is_available d now =
    in_progress d.status && not (after d.available_at now) && is_over d.lease_until now

-- The keys of a range over the map whose deliveries are available.
abbrev pub available_ids : Time → Dict Delivery → List String
available_ids now [] = []
available_ids now ((id, d) ∷ rest) =
    let more = available_ids now rest in if is_available d now then id ∷ more else more

abbrev pub taken : String → Time → Delivery → Delivery
taken token until d = record d {
  status = processing;
  claim_token = token;
  lease_until = some until;
  attempt = inc d.attempt;
}

-- The last loop of `ClaimDeliveries`.
abbrev pub take_each : String → Time → List String → Dict Delivery → List Delivery × Dict Delivery
take_each token until [] deliveries = ([], deliveries)
take_each token until (id ∷ ids) deliveries =
    let d = taken token until (or_zero_delivery (lookup id deliveries)) in
    let (out, after_all) = take_each token until ids (insert id d deliveries) in
    (d ∷ out, after_all)

-- `ClaimDeliveries`
unfoldable pub claim_deliveries :
    FakeRepository → ℕ → Time → ℕ → String → Result ReminderError (List Delivery × FakeRepository)
claim_deliveries r limit now lease token = do
  reject_if
      (slt limit 1 || slt max_page_size limit || is_zero now || sle lease 0 || str_eq token "")
      invalid_input
  let chosen = take limit (sort text_lt (available_ids now r.deliveries))
  let (out, deliveries) = take_each token (now + lease) chosen r.deliveries
  ok (out, record r { deliveries = deliveries })

abbrev pub is_processing : DeliveryStatus → Bool
is_processing processing = true
is_processing _ = false

abbrev pub is_completed : DeliveryStatus → Bool
is_completed completed = true
is_completed _ = false

abbrev pub is_firing : Status → Bool
is_firing Status.processing = true
is_firing _ = false

-- `CompleteDelivery` for a delivery that is not completed.
unfoldable pub complete_claimed :
    FakeRepository → String → String → Time → Delivery → Result ReminderError FakeRepository
complete_claimed r id token now d = do
  reject_if (not (is_processing d.status) || not (str_eq d.claim_token token)) lease_lost
  let v = or_zero_reminder (lookup d.reminder_id r.reminders)
  reject_if (not (is_firing v.status)) state_conflict
  let next : Reminder = record v {
    status = Status.fired;
    row_version = inc v.row_version;
    updated_at = now;
  }
  ok (record r {
    deliveries =
        insert id (record d { status = completed; claim_token = ""; lease_until = none })
          r.deliveries;
    reminders = insert v.id next r.reminders;
  })

-- `CompleteDelivery`
unfoldable pub complete_delivery :
    FakeRepository → String → String → Time → Result ReminderError FakeRepository
unfolding complete_claimed
complete_delivery r id token now = do
  d ← or_fail (lookup id r.deliveries) not_found
  elim (is_completed d.status) [ true ↦ ok r | false ↦ complete_claimed r id token now d ]

-- `FailDelivery`
unfoldable pub fail_delivery :
    FakeRepository → DeliveryFailure → Result ReminderError FakeRepository
fail_delivery r q = do
  d ← or_fail (lookup q.id r.deliveries) not_found
  reject_if (not (is_processing d.status) || not (str_eq d.claim_token q.claim_token)) lease_lost
  let freed : Delivery = record d {
    last_error_code = q.error_code;
    claim_token = "";
    lease_until = none;
  }
  let v = or_zero_reminder (lookup d.reminder_id r.reminders)
  let given_up : Reminder = record v {
    status = Status.failed;
    last_error_code = q.error_code;
    row_version = inc v.row_version;
    updated_at = q.now;
  }
  ok (
      if q.permanent
      then record r {
        deliveries = insert d.id (record freed { status = permanent_failed }) r.deliveries;
        reminders = insert v.id given_up r.reminders;
      }
      else record r {
        deliveries =
            insert d.id (record freed { status = pending; available_at = q.next_available })
              r.deliveries;
        reminders = insert v.id v r.reminders;
      })
