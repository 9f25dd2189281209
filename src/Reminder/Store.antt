-- ===== src/Reminder/Store.antt =====
-- internal/reminder/repository.go and fake_repository.go: the repository in memory, whose mutex makes
-- each method one step. Copies made against aliasing are the values themselves.
pub mod Claims
pub mod Deliveries
use Prim.Native.String.{◌++◌ as append}
use harness_loop_agent.Base.{
  ℕ, ◌+◌, ◌≡◌, String, Bool, true, false, not, ◌||◌, ◌&&◌, List, [], ◌∷◌, Option, none, some,
  Result, ok, err, ◌>>=◌, ◌>>◌, reject_if, or_fail, if◌then◌else◌, ◌==◌, str_eq, is_some,
}
use harness_loop_agent.Base.Word.{Time, inc, after}
use harness_loop_agent.Base.Dict.{Dict, lookup, insert}
use harness_loop_agent.Base.Text.{is_blank, decimal}
use harness_loop_agent.Reminder.{
  ReminderError, invalid_input, not_found, state_conflict, idempotency_conflict, Owner, valid_owner,
  same_owner, Status, scheduled, cancelled, is_scheduled, MemoryRef, Reminder, Claim, Digest,
  valid_hash, normalize_content, compute_content_hash, validate, default_max_horizon,
}

pub record ReminderRef : Type 0 where
  pub id : String
  pub row_version : ℕ  -- uint64

-- `Validate`
unfoldable pub valid_target : ReminderRef → Bool
valid_target r = not (is_blank r.id || (r.row_version == 0))

pub record CreateInput : Type 0 where
  pub reminder : Reminder
  pub idempotency_key : String
  pub input_hash : String
  pub actor : String
  pub reason_code : String

pub record MutationInput : Type 0 where
  pub owner : Owner
  pub target : ReminderRef
  pub content : String
  pub timezone : String
  pub next_fire_at : Time
  pub memory_refs : List MemoryRef
  pub idempotency_key : String
  pub input_hash : String
  pub actor : String
  pub reason_code : String
  pub occurred_at : Time
  pub replacement_hash : String
  pub expected_content_hash : String

pub record MutationResult : Type 0 where
  pub reminder : Reminder
  pub replayed : Bool

pub data DeliveryStatus : Type 0 where
  pending processing completed permanent_failed : DeliveryStatus
  other : String → DeliveryStatus

pub record Delivery : Type 0 where
  pub id : String
  pub reminder_id : String
  pub owner : Owner
  pub content : String
  pub delivery_key : String
  pub status : DeliveryStatus
  pub attempt : ℕ  -- int
  pub available_at : Time
  pub claim_token : String
  pub lease_until : Option Time
  pub last_error_code : String

pub record FakeRepository : Type 0 where
  pub reminders : Dict Reminder
  pub idempotency : Dict MutationResult
  pub input_hashes : Dict String
  pub deliveries : Dict Delivery
  pub occurrences : Dict String

abbrev pub new_fake_repository : FakeRepository
new_fake_repository = record {
  reminders = [];
  idempotency = [];
  input_hashes = [];
  deliveries = [];
  occurrences = [];
}

-- A missing delivery, and a missing reminder, read as the zero value.
abbrev pub zero_owner : Owner
zero_owner = record { tenant_id = 0; user_id = 0 }

abbrev pub or_zero_delivery : Option Delivery → Delivery
or_zero_delivery (some d) = d
or_zero_delivery none = record {
  id = "";
  reminder_id = "";
  owner = zero_owner;
  content = "";
  delivery_key = "";
  status = DeliveryStatus.other "";
  attempt = 0;
  available_at = 0;
  claim_token = "";
  lease_until = none;
  last_error_code = "";
}

abbrev pub or_zero_reminder : Option Reminder → Reminder
or_zero_reminder (some v) = v
or_zero_reminder none = record {
  id = "";
  owner = zero_owner;
  content = "";
  content_hash = "";
  timezone = "";
  next_fire_at = 0;
  status = Status.other "";
  row_version = 0;
  memory_refs = [];
  source = record { kind = ""; id = "" };
  last_error_code = "";
  claim = none;
  created_at = 0;
  updated_at = 0;
}

-- `reminderOwnerKey`
unfoldable pub reminder_owner_key : Owner → String → String
reminder_owner_key owner value =
    append (decimal owner.tenant_id)
      (append ":" (append (decimal owner.user_id) (append ":" value)))

-- A missing key reads as the empty text.
abbrev pub or_blank : Option String → String
or_blank none = ""
or_blank (some s) = s

-- What a request under a known key gets.
abbrev pub replay :
    FakeRepository
    → String
    → String
    → MutationResult
    → Result ReminderError (MutationResult × FakeRepository)
replay r key input_hash result =
    if not (str_eq (or_blank (lookup key r.input_hashes)) input_hash)
    then err idempotency_conflict
    else ok (record result { replayed = true }, r)

-- A reminder is stored, and the result is remembered under the request's key.
abbrev pub remember : FakeRepository → String → String → Reminder → MutationResult × FakeRepository
remember r key input_hash value =
    let result : MutationResult = record { reminder = value; replayed = false } in
    (
      result,
      record r {
        reminders = insert value.id value r.reminders;
        idempotency = insert key result r.idempotency;
        input_hashes = insert key input_hash r.input_hashes;
      },
    )

-- `err != nil || hash != given`
abbrev pub check_exact : Result ReminderError String → String → Result ReminderError (Unit {0})
check_exact (err e) given = err invalid_input
check_exact (ok hash) given = reject_if (not (str_eq hash given)) invalid_input

unfoldable pub get : FakeRepository → Owner → String → Result ReminderError Reminder
get r owner id = do
  value ← or_fail (lookup id r.reminders) not_found
  reject_if (not (same_owner value.owner owner)) not_found
  ok value

module _ (digest : Digest) (r : FakeRepository) where
  unfoldable pub create : CreateInput → Result ReminderError (MutationResult × FakeRepository)
  create input = do
    reject_if
        (is_blank input.idempotency_key
          || not (valid_hash input.input_hash)
          || not (valid_owner input.reminder.owner))
        invalid_input
    validate digest input.reminder input.reminder.created_at default_max_horizon
    let key = reminder_owner_key input.reminder.owner input.idempotency_key
    elim (lookup key r.idempotency) [
      | some result ↦ replay r key input.input_hash result
      | none ↦
          if is_some (lookup input.reminder.id r.reminders)
          then err state_conflict
          else ok (remember r key input.input_hash input.reminder)
    ]

  -- The check of a replacement in `mutate`.
  unfoldable pub check_replacement : MutationInput → Result ReminderError (Unit {0})
  check_replacement input = do
    text ← normalize_content input.content
    reject_if (not (str_eq text input.content)) invalid_input
    check_exact
        (compute_content_hash digest input.content input.timezone input.next_fire_at
          input.memory_refs)
        input.replacement_hash
    reject_if (not (after input.next_fire_at input.occurred_at)) invalid_input

  -- The reminder as `mutate` changes it, before its version and its time.
  unfoldable pub changed : MutationInput → Bool → Reminder → Result ReminderError Reminder
  changed input cancel value =
      if cancel then ok (record value { status = cancelled; claim = none }) else (do
        check_replacement input
        ok (record value {
          content = input.content;
          timezone = input.timezone;
          next_fire_at = input.next_fire_at;
          memory_refs = input.memory_refs;
          content_hash = input.replacement_hash;
        }))

  -- `mutate` for a key that was not seen before.
  unfoldable pub mutate_fresh :
      MutationInput → Bool → String → Result ReminderError (MutationResult × FakeRepository)
  unfolding changed
  mutate_fresh input cancel key = do
    value ← or_fail (lookup input.target.id r.reminders) not_found
    reject_if (not (same_owner value.owner input.owner)) not_found
    reject_if
        (not (value.row_version == input.target.row_version) || not (is_scheduled value.status))
        state_conflict
    next ← changed input cancel value
    ok (
        remember r key input.input_hash
          (record next { row_version = inc value.row_version; updated_at = input.occurred_at }))

  unfoldable pub mutate :
      MutationInput → Bool → Result ReminderError (MutationResult × FakeRepository)
  unfolding mutate_fresh
  mutate input cancel = do
    reject_if
        (not (valid_owner input.owner)
          || not (valid_target input.target)
          || str_eq input.idempotency_key ""
          || not (valid_hash input.input_hash))
        invalid_input
    let key = reminder_owner_key input.owner input.idempotency_key
    elim (lookup key r.idempotency) [
      | some result ↦ replay r key input.input_hash result
      | none ↦ mutate_fresh input cancel key
    ]

  -- `Update` and `Cancel`
  abbrev pub update : MutationInput → Result ReminderError (MutationResult × FakeRepository)
  update input = mutate input false

  abbrev pub cancel : MutationInput → Result ReminderError (MutationResult × FakeRepository)
  cancel input = mutate input true
