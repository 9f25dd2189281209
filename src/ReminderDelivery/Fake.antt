-- ===== src/ReminderDelivery/Fake.antt =====
-- internal/reminder/fake_repository.go as the runtime's repository, in a world that has it beside the
-- rest.
use harness_loop_agent.Base.{ℕ, String, Option, none, some, Result, ok, err}
use harness_loop_agent.Reminder.{ReminderError}
use harness_loop_agent.Reminder.Store.{FakeRepository}
use harness_loop_agent.Reminder.Store.Claims.{claim_due}
use harness_loop_agent.Reminder.Store.Deliveries.{
  commit_occurrence, claim_deliveries, complete_delivery, fail_delivery,
}
use harness_loop_agent.ReminderDelivery.{Repository, RepositoryError, known}

-- A call that fails leaves the repository as it is.
abbrev pub lifted :
    {X A : Type 0}
    → Result ReminderError (A × FakeRepository)
    → (FakeRepository × X)
    → Result RepositoryError A × (FakeRepository × X)
lifted (ok (a, r)) w = (ok a, (r, w.1))
lifted (err e) w = (err (known e), w)

abbrev pub silent :
    Result ReminderError FakeRepository → Result ReminderError (Unit {0} × FakeRepository)
silent (ok r) = ok (tt, r)
silent (err e) = err e

abbrev pub paired :
    {A B : Type 0}
    → Result ReminderError (A × B × FakeRepository)
    → Result ReminderError ((A × B) × FakeRepository)
paired (ok (a, b, r)) = ok ((a, b), r)
paired (err e) = err e

abbrev pub fake : (X : Type 0) → Repository (FakeRepository × X)
fake X = record {
  claim_due = λ q w. lifted (claim_due w.0 q) w;
  commit_occurrence = λ q w. lifted (paired (commit_occurrence w.0 q)) w;
  claim_deliveries =
      λ limit now lease token w. lifted (claim_deliveries w.0 limit now lease token) w;
  complete_delivery = λ id token now w. lifted (silent (complete_delivery w.0 id token now)) w;
  fail_delivery = λ q w. lifted (silent (fail_delivery w.0 q)) w;
}

-- The clock, the tokens, the observer, the adapter and the worker's hook, beside the repository.
abbrev pub beside : {X A : Type 0} → (X → A × X) → (FakeRepository × X) → A × (FakeRepository × X)
beside act w = let (a, x) = act w.1 in (a, (w.0, x))

abbrev pub observe_beside :
    {X : Type 0}
    → (String → String → String → ℕ → X → X)
    → String
    → String
    → String
    → ℕ
    → (FakeRepository × X)
    → FakeRepository × X
observe_beside observe event status code attempt w = (w.0, observe event status code attempt w.1)

abbrev pub hook_beside :
    {X A B : Type 0}
    → Option (A → X → B × X)
    → Option (A → (FakeRepository × X) → B × (FakeRepository × X))
hook_beside none = none
hook_beside (some hook) = some (λ a. beside (hook a))
