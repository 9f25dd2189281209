-- ===== src/Examples/Reminders.antt =====
-- The reminder repository, its dispatcher and its worker: one reminder from its creation to its end.
use harness_loop_agent.Base.{
  ℕ, ◌+◌, ◌≡◌, ◌≢◌, ◌≤◌, ◌⊎◌, refl, inl, inr, String, Bool, true, false, List, [], ◌∷◌, Option,
  none, some, Result, ok, err, arith, All, length, str_eq,
}
use harness_loop_agent.Base.Dict.{lookup, insert}
use harness_loop_agent.Base.Text.{trim}
use harness_loop_agent.Reminder.{Reminder, Status, scheduled, can_transition, Digest}
use harness_loop_agent.Reminder.Store.{
  FakeRepository, Delivery, DeliveryStatus, CreateInput, MutationInput, MutationResult,
  new_fake_repository, create, cancel,
}
use harness_loop_agent.Reminder.Store.Claims.{DueClaimRequest, claim_due, is_due}
use harness_loop_agent.Reminder.Store.Deliveries.{CommitOccurrenceInput, commit_occurrence}
use harness_loop_agent.Reminder.Sound.{agrees}
use harness_loop_agent.Reminder.Steps.{stay, step, by_create, by_claim, by_commit}
use harness_loop_agent.Reminder.Reached.{
  Reached, Reached-IsKept, delivery-agrees, step-can_transition, cancel-silences,
}
use harness_loop_agent.Reminder.Claimed.{Handed, claim_due-Handed}

-- A digest that is the same for all contents.
abbrev pub digest : Digest
digest content timezone fire_at refs =
    "aaaaaaaaaaaaaaaaaaaaaaaaaaaaaaaaaaaaaaaaaaaaaaaaaaaaaaaaaaaaaaaa"

abbrev pub tea : Reminder
tea = record {
  id = "t";
  owner = record { tenant_id = 1; user_id = 2 };
  content = "tea";
  content_hash = "aaaaaaaaaaaaaaaaaaaaaaaaaaaaaaaaaaaaaaaaaaaaaaaaaaaaaaaaaaaaaaaa";
  timezone = "Asia/Shanghai";
  next_fire_at = 50;
  status = scheduled;
  row_version = 1;
  memory_refs = [];
  source = record { kind = "api"; id = "x" };
  last_error_code = "";
  claim = none;
  created_at = 10;
  updated_at = 10;
}

abbrev create_input : CreateInput
create_input = record {
  reminder = tea;
  idempotency_key = "k";
  input_hash = "bbbbbbbbbbbbbbbbbbbbbbbbbbbbbbbbbbbbbbbbbbbbbbbbbbbbbbbbbbbbbbbb";
  actor = "user";
  reason_code = "create";
}

-- The repository that a call leaves, and the empty one where it fails.
abbrev left {ℓ} : {E : Type 0} {A : Type ℓ} → Result E (A × FakeRepository) → FakeRepository
left (ok (a, r)) = r
left (err e) = new_fake_repository

abbrev left_of : {E A B : Type 0} → Result E (A × B × FakeRepository) → FakeRepository
left_of (ok (a, b, r)) = r
left_of (err e) = new_fake_repository

abbrev pub created : FakeRepository
created = left (create digest new_fake_repository create_input)

created_ok :
    create digest new_fake_repository create_input
    ≡ ok (record { reminder = tea; replayed = false }, created)
unfolding create harness_loop_agent.Base.Text.is_blank harness_loop_agent.Reminder.valid_hash
    harness_loop_agent.Reminder.validate harness_loop_agent.Reminder.normalize_content
    harness_loop_agent.Base.Text.words harness_loop_agent.Reminder.is_sensitive
    harness_loop_agent.Base.Regex.found_fold harness_loop_agent.Reminder.compute_content_hash lookup
created_ok = refl

abbrev request : DueClaimRequest
request = record { limit = 10; now = 60; lease_duration = 30; token = "w" }

abbrev held : Reminder
held = record tea {
  claim = some (record { token = "w"; lease_until = 90 });
  row_version = 2;
  updated_at = 60;
}

abbrev claimed_repository : FakeRepository
claimed_repository = record created { reminders = ("t", held) ∷ [] }

claimed_ok : claim_due created request ≡ ok (held ∷ [], claimed_repository)
unfolding claim_due harness_loop_agent.Base.Sort.sort create harness_loop_agent.Base.Text.is_blank
    harness_loop_agent.Reminder.valid_hash harness_loop_agent.Reminder.validate
    harness_loop_agent.Reminder.normalize_content harness_loop_agent.Base.Text.words
    harness_loop_agent.Reminder.is_sensitive harness_loop_agent.Base.Regex.found_fold
    harness_loop_agent.Reminder.compute_content_hash lookup insert
claimed_ok = refl

abbrev commit_input : CommitOccurrenceInput
commit_input = record {
  reminder_id = "t";
  expected_row_version = 2;
  claim_token = "w";
  occurrence_id = "t:2";
  occurred_at = 60;
}

abbrev pub committed : FakeRepository
committed = left_of (commit_occurrence claimed_repository commit_input)

abbrev pub delivery : Delivery
delivery = record {
  id = "t:2";
  reminder_id = "t";
  owner = record { tenant_id = 1; user_id = 2 };
  content = "tea";
  delivery_key = "t:2";
  status = DeliveryStatus.pending;
  attempt = 0;
  available_at = 60;
  claim_token = "";
  lease_until = none;
  last_error_code = "";
}

committed_ok : commit_occurrence claimed_repository commit_input ≡ ok (delivery, false, committed)
unfolding commit_occurrence lookup create harness_loop_agent.Base.Text.is_blank
    harness_loop_agent.Reminder.valid_hash harness_loop_agent.Reminder.validate
    harness_loop_agent.Reminder.normalize_content harness_loop_agent.Base.Text.words
    harness_loop_agent.Reminder.is_sensitive harness_loop_agent.Base.Regex.found_fold
    harness_loop_agent.Reminder.compute_content_hash
committed_ok = refl

pub tea_there : lookup "t" created.reminders ≡ some tea
unfolding lookup create insert harness_loop_agent.Base.Text.is_blank
    harness_loop_agent.Reminder.valid_hash harness_loop_agent.Reminder.validate
    harness_loop_agent.Reminder.normalize_content harness_loop_agent.Base.Text.words
    harness_loop_agent.Reminder.is_sensitive harness_loop_agent.Base.Regex.found_fold
    harness_loop_agent.Reminder.compute_content_hash
tea_there = refl

pub delivery_there : lookup "t:2" committed.deliveries ≡ some delivery
unfolding commit_occurrence lookup create insert harness_loop_agent.Base.Text.is_blank
    harness_loop_agent.Reminder.valid_hash harness_loop_agent.Reminder.validate
    harness_loop_agent.Reminder.normalize_content harness_loop_agent.Base.Text.words
    harness_loop_agent.Reminder.is_sensitive harness_loop_agent.Base.Regex.found_fold
    harness_loop_agent.Reminder.compute_content_hash
delivery_there = refl

pub created-Reached : Reached digest created
created-Reached =
    step new_fake_repository created created
      (by_create new_fake_repository created create_input
        (record { reminder = tea; replayed = false }) created_ok)
      (stay created)

pub committed-Reached : Reached digest committed
committed-Reached =
    step new_fake_repository created committed
      (by_create new_fake_repository created create_input
        (record { reminder = tea; replayed = false }) created_ok)
      (step created claimed_repository committed
        (by_claim created claimed_repository request (held ∷ []) claimed_ok)
        (step claimed_repository committed committed
          (by_commit claimed_repository committed commit_input delivery false committed_ok)
          (stay committed)))

-- A delivery that is pending has its reminder in processing.
delivery-agrees_example :
    (v : Reminder) × (lookup "t" committed.reminders ≡ some v)
    × (agrees DeliveryStatus.pending v.status ≡ true)
unfolding commit_occurrence lookup create harness_loop_agent.Base.Text.is_blank
    harness_loop_agent.Reminder.valid_hash harness_loop_agent.Reminder.validate
    harness_loop_agent.Reminder.normalize_content harness_loop_agent.Base.Text.words
    harness_loop_agent.Reminder.is_sensitive harness_loop_agent.Base.Regex.found_fold
    harness_loop_agent.Reminder.compute_content_hash insert
delivery-agrees_example = delivery-agrees digest committed "t:2" delivery committed-Reached refl

-- A claim leaves the reminder scheduled.
step-can_transition_example :
    (u : Reminder) × (lookup "t" claimed_repository.reminders ≡ some u)
    × ((u.status ≡ scheduled) ⊎ (can_transition scheduled u.status ≡ true))
unfolding create lookup harness_loop_agent.Base.Text.is_blank harness_loop_agent.Reminder.valid_hash
    harness_loop_agent.Reminder.validate harness_loop_agent.Reminder.normalize_content
    harness_loop_agent.Base.Text.words harness_loop_agent.Reminder.is_sensitive
    harness_loop_agent.Base.Regex.found_fold harness_loop_agent.Reminder.compute_content_hash insert
step-can_transition_example =
    step-can_transition digest created claimed_repository "t" tea created-Reached
      (by_claim created claimed_repository request (held ∷ []) claimed_ok) refl

claim_due-Handed_example :
    (length (held ∷ []) ≤ 10)
    × All (Handed created claimed_repository request) (held ∷ [])
    × All (λ v. is_due v 89 ≡ false) (held ∷ [])
claim_due-Handed_example =
    claim_due-Handed created claimed_repository request (held ∷ []) 89
      (Reached-IsKept digest created created-Reached).sound
      (Reached-IsKept digest created created-Reached).reminders_once claimed_ok (omega arith)

-- Another reminder, whose delivery is there when the first one is cancelled.
abbrev second_tea : Reminder
second_tea = record tea { id = "u" }

abbrev second_input : CreateInput
second_input = record create_input { reminder = second_tea; idempotency_key = "l" }

abbrev both : FakeRepository
both = left (create digest committed second_input)

both_ok :
    create digest committed second_input
    ≡ ok (record { reminder = second_tea; replayed = false }, both)
unfolding create harness_loop_agent.Base.Text.is_blank harness_loop_agent.Reminder.valid_hash
    harness_loop_agent.Reminder.validate harness_loop_agent.Reminder.normalize_content
    harness_loop_agent.Base.Text.words harness_loop_agent.Reminder.is_sensitive
    harness_loop_agent.Base.Regex.found_fold harness_loop_agent.Reminder.compute_content_hash lookup
    commit_occurrence insert harness_loop_agent.Reminder.Store.reminder_owner_key
    harness_loop_agent.Base.Text.decimal
both_ok = refl

abbrev cancel_input : MutationInput
cancel_input = record {
  owner = record { tenant_id = 1; user_id = 2 };
  target = record { id = "u"; row_version = 1 };
  content = "";
  timezone = "";
  next_fire_at = 0;
  memory_refs = [];
  idempotency_key = "c";
  input_hash = "cccccccccccccccccccccccccccccccccccccccccccccccccccccccccccccccc";
  actor = "user";
  reason_code = "cancel";
  occurred_at = 70;
  replacement_hash = "";
  expected_content_hash = "";
}

abbrev cancelled_tea : Reminder
cancelled_tea = record second_tea {
  status = Status.cancelled;
  claim = none;
  row_version = 2;
  updated_at = 70;
}

abbrev after_cancel : FakeRepository
after_cancel = left (cancel digest both cancel_input)

after_cancel_ok :
    cancel digest both cancel_input
    ≡ ok (record { reminder = cancelled_tea; replayed = false }, after_cancel)
unfolding harness_loop_agent.Reminder.Store.mutate harness_loop_agent.Reminder.Store.valid_target
    harness_loop_agent.Base.Text.is_blank harness_loop_agent.Reminder.valid_hash lookup create
    harness_loop_agent.Reminder.validate harness_loop_agent.Reminder.normalize_content
    harness_loop_agent.Base.Text.words harness_loop_agent.Reminder.is_sensitive
    harness_loop_agent.Base.Regex.found_fold harness_loop_agent.Reminder.compute_content_hash
    commit_occurrence insert harness_loop_agent.Reminder.Store.reminder_owner_key
    harness_loop_agent.Base.Text.decimal
after_cancel_ok = refl

both-Reached : Reached digest both
both-Reached =
    step new_fake_repository created both
      (by_create new_fake_repository created create_input
        (record { reminder = tea; replayed = false }) created_ok)
      (step created claimed_repository both
        (by_claim created claimed_repository request (held ∷ []) claimed_ok)
        (step claimed_repository committed both
          (by_commit claimed_repository committed commit_input delivery false committed_ok)
          (step committed both both
            (by_create committed both second_input
              (record { reminder = second_tea; replayed = false }) both_ok)
            (stay both))))

cancel-silences_example : ◌≢◌ {A = String} "t" "u"
unfolding lookup harness_loop_agent.Reminder.Store.mutate
    harness_loop_agent.Reminder.Store.valid_target harness_loop_agent.Base.Text.is_blank
    harness_loop_agent.Reminder.valid_hash create harness_loop_agent.Reminder.validate
    harness_loop_agent.Reminder.normalize_content harness_loop_agent.Base.Text.words
    harness_loop_agent.Reminder.is_sensitive harness_loop_agent.Base.Regex.found_fold
    harness_loop_agent.Reminder.compute_content_hash commit_occurrence insert
    harness_loop_agent.Reminder.Store.reminder_owner_key harness_loop_agent.Base.Text.decimal
cancel-silences_example =
    cancel-silences digest both after_cancel after_cancel cancel_input
      (record { reminder = cancelled_tea; replayed = false }) "t:2" delivery both-Reached
      after_cancel_ok refl (stay after_cancel) refl
