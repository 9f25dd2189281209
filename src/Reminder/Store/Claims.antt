-- ===== src/Reminder/Store/Claims.antt =====
-- internal/reminder/fake_repository.go: `ClaimDue` and `RenewClaim`.
use harness_loop_agent.Base.{
  ℕ, ◌+◌, String, Bool, true, not, ◌||◌, ◌&&◌, List, [], ◌∷◌, Option, none, some, map, Result, ok,
  ◌>>=◌, ◌>>◌, reject_if, or_fail, if◌then◌else◌, ◌==◌, str_eq,
}
use harness_loop_agent.Base.Word.{Time, inc, after, before, is_zero, slt, sle}
use harness_loop_agent.Base.Dict.{Dict, lookup, insert}
use harness_loop_agent.Base.Text.{text_lt}
use harness_loop_agent.Base.Sort.{sort, take}
use harness_loop_agent.Reminder.{
  ReminderError, invalid_input, not_found, lease_lost, is_scheduled, Reminder, Claim, max_page_size,
}
use harness_loop_agent.Reminder.Store.{FakeRepository, or_zero_reminder}

pub record DueClaimRequest : Type 0 where
  pub limit : ℕ  -- int
  pub now : Time
  pub lease_duration : ℕ  -- time.Duration
  pub token : String

-- No claim, or one whose lease has ended.
abbrev pub is_free : Option Claim → Time → Bool
is_free none now = true
is_free (some c) now = not (after c.lease_until now)

abbrev pub is_due : Reminder → Time → Bool
is_due v now = is_scheduled v.status && not (after v.next_fire_at now) && is_free v.claim now

-- The entries of a range over the map that are due.
abbrev pub due_entries : Time → Dict Reminder → Dict Reminder
due_entries now [] = []
due_entries now (e ∷ rest) =
    let more = due_entries now rest in if is_due e.1 now then e ∷ more else more

-- The order of `sort.Slice`.
abbrev pub fires_before : String × Reminder → String × Reminder → Bool
fires_before a b =
    if a.1.next_fire_at == b.1.next_fire_at
    then text_lt a.1.id b.1.id
    else before a.1.next_fire_at b.1.next_fire_at

abbrev pub claimed : DueClaimRequest → Reminder → Reminder
claimed q v = record v {
  claim = some (record { token = q.token; lease_until = q.now + q.lease_duration });
  row_version = inc v.row_version;
  updated_at = q.now;
}

-- The last loop of `ClaimDue`.
abbrev pub claim_each :
    DueClaimRequest → List String → Dict Reminder → List Reminder × Dict Reminder
claim_each q [] reminders = ([], reminders)
claim_each q (id ∷ ids) reminders =
    let v = claimed q (or_zero_reminder (lookup id reminders)) in
    let (out, after_all) = claim_each q ids (insert id v reminders) in (v ∷ out, after_all)

-- The keys of the reminders that are due, in the order in which they fire, up to the limit.
abbrev pub chosen_ids : DueClaimRequest → Dict Reminder → List String
chosen_ids q reminders =
    map (λ e. e.0) (take q.limit (sort fires_before (due_entries q.now reminders)))

-- `ClaimDue`
unfoldable pub claim_due :
    FakeRepository → DueClaimRequest → Result ReminderError (List Reminder × FakeRepository)
claim_due r q = do
  reject_if
      (slt q.limit 1
        || slt max_page_size q.limit
        || is_zero q.now
        || sle q.lease_duration 0
        || str_eq q.token "")
      invalid_input
  let (out, reminders) = claim_each q (chosen_ids q r.reminders) r.reminders
  ok (out, record r { reminders = reminders })

abbrev pub renewed : Time → Reminder → Claim → Reminder
renewed until v c = record v { claim = some (record c { lease_until = until }) }

-- `RenewClaim`
unfoldable pub renew_claim :
    FakeRepository → String → ℕ → String → Time → Result ReminderError FakeRepository
renew_claim r id version token until = do
  v ← or_fail (lookup id r.reminders) not_found
  c ← or_fail v.claim lease_lost
  reject_if (not (v.row_version == version) || not (str_eq c.token token)) lease_lost
  ok (record r { reminders = insert id (renewed until v c) r.reminders })
