-- ===== src/Reminder/Moves.antt =====
-- internal/reminder/fake_repository.go: how the calls move the status of a reminder.
use harness_loop_agent.Base.{
  ℕ, ◌≡◌, refl, ◌⊎◌, inl, inr, String, Bool, true, List, [], ◌∷◌, none, some, ok, if◌then◌else◌,
  arith, eq_iff, str_eq, Option-cases, Bool-cases,
}
use harness_loop_agent.Base.Word.{Time, inc}
use harness_loop_agent.Base.Dict.{Dict, lookup, insert, lookup-insert}
use harness_loop_agent.Reminder.{
  Reminder, Status, scheduled, fired, cancelled, failed, can_transition, is_scheduled, Digest,
}
use harness_loop_agent.Reminder.Store.{
  FakeRepository, Delivery, DeliveryStatus, CreateInput, MutationInput, MutationResult, create,
  mutate, or_zero_reminder,
}
use harness_loop_agent.Reminder.Store.Claims.{
  DueClaimRequest, claimed, claim_each, chosen_ids, claim_due, renewed, renew_claim,
}
use harness_loop_agent.Reminder.Store.Deliveries.{
  CommitOccurrenceInput, DeliveryFailure, complete_delivery, complete_claimed, fail_delivery,
  is_processing, is_completed, commit_occurrence,
}
use harness_loop_agent.Reminder.Sound.{agrees}
use harness_loop_agent.Reminder.Settled.{commit_occurrence-Commits}
use harness_loop_agent.Reminder.Calls.{Sound, mutate-Changes}

-- A status stays, or moves as `CanTransition` lets it.
abbrev pub MovesTo : Status → Status → Type 0
MovesTo a b = (b ≡ a) ⊎ (can_transition a b ≡ true)

-- Each reminder is still there, and its status stayed or made a move.
abbrev pub Follows : Dict Reminder → Dict Reminder → Type 0
Follows rs rs' =
    (id : String) (v : Reminder)
    → lookup id rs ≡ some v
    → (u : Reminder) × (lookup id rs' ≡ some u) × MovesTo v.status u.status

pub Follows-same : (rs rs' : Dict Reminder) → rs' ≡ rs → Follows rs rs'
Follows-same rs rs' same id v h = (v, rw same h, inl refl)

Follows-put :
    (rs rs' : Dict Reminder) (k : String) (u : Reminder)
    → rs' ≡ insert k u rs
    → ((v : Reminder) → lookup k rs ≡ some v → MovesTo v.status u.status)
    → Follows rs rs'
Follows-put rs rs' k u made moves id v h = elim (Bool-cases (str_eq k id)) [
  | inl e ↦
      (u, ground (arith, made, lookup-insert k id u rs), moves v (ground (arith, eq_iff k id)))
  | inr e ↦ (v, ground (arith, made, lookup-insert k id u rs), inl refl)
]

claim_each-status :
    (q : DueClaimRequest) (ids : List String) (rs : Dict Reminder) (k : String) (v : Reminder)
    → lookup k rs ≡ some v
    → (u : Reminder) × (lookup k (claim_each q ids rs).1 ≡ some u) × (u.status ≡ v.status)
claim_each-status q [] rs k v h = (v, h, refl)
claim_each-status q (id ∷ ids) rs k v h =
    let v' = claimed q (or_zero_reminder (lookup id rs)) in
    elim (Bool-cases (str_eq id k)) [
      | inl e ↦
          let (u, there, same) =
            claim_each-status q ids (insert id v' rs) k v'
              (ground (arith, lookup-insert id k v' rs)) in
          (u, there, ground (arith, eq_iff id k))
      | inr e ↦
          claim_each-status q ids (insert id v' rs) k v (ground (arith, lookup-insert id k v' rs))
    ]

pub claim_due-Follows :
    (r r' : FakeRepository) (q : DueClaimRequest) (out : List Reminder)
    → claim_due r q ≡ ok (out, r')
    → Follows r.reminders r'.reminders
unfolding claim_due
claim_due-Follows r r' q out h id v e =
    let (u, there, same) = claim_each-status q (chosen_ids q r.reminders) r.reminders id v e in
    (u, ground arith, inl same)

create_cases :
    (digest : Digest) (r r' : FakeRepository) (q : CreateInput) (m : MutationResult)
    → create digest r q ≡ ok (m, r')
    → (r'.reminders ≡ r.reminders)
      ⊎ ((lookup q.reminder.id r.reminders ≡ none)
          × (r'.reminders ≡ insert q.reminder.id q.reminder r.reminders))
unfolding create
create_cases digest r r' q m h = elim (Option-cases (lookup q.reminder.id r.reminders)) [
  | inl n ↦ ground arith
  | inr (v, n) ↦ ground arith
]

pub create-Follows :
    (digest : Digest) (r r' : FakeRepository) (q : CreateInput) (m : MutationResult)
    → create digest r q ≡ ok (m, r')
    → Follows r.reminders r'.reminders
create-Follows digest r r' q m h = elim (create_cases digest r r' q m h) [
  | inl e ↦ Follows-same r.reminders r'.reminders e
  | inr (n, e) ↦
      Follows-put r.reminders r'.reminders q.reminder.id q.reminder e (λ v f. ground arith)
]

cancelled-MovesTo : (s : Status) → is_scheduled s ≡ true → can_transition s cancelled ≡ true
unfolding can_transition
cancelled-MovesTo scheduled h = refl
cancelled-MovesTo Status.processing h = ground arith
cancelled-MovesTo fired h = ground arith
cancelled-MovesTo cancelled h = ground arith
cancelled-MovesTo failed h = ground arith
cancelled-MovesTo (Status.other t) h = ground arith

pub mutate-Follows :
    (digest : Digest) (r r' : FakeRepository) (q : MutationInput) (cancel : Bool)
    (m : MutationResult)
    → mutate digest r q cancel ≡ ok (m, r')
    → Sound r
    → Follows r.reminders r'.reminders
mutate-Follows digest r r' q cancel m h sound = elim (mutate-Changes digest r r' q cancel m h) [
  | inl (e, _) ↦ Follows-same r.reminders r'.reminders (ground (arith, e))
  | inr (v, next, found, free, same, status, rs, _, _) ↦
      Follows-put r.reminders r'.reminders next.id next rs (λ u f.
        let at : u ≡ v = ground (arith, same, sound.own_id q.target.id v found) in
        ground (arith, at, cancelled-MovesTo v.status free, status))
]

pub renew_claim-Follows :
    (r r' : FakeRepository) (id : String) (version : ℕ) (token : String) (until : Time)
    → renew_claim r id version token until ≡ ok r'
    → Follows r.reminders r'.reminders
unfolding renew_claim
renew_claim-Follows r r' id version token until h = elim (Option-cases (lookup id r.reminders)) [
  | inl n ↦ ground arith
  | inr (v, n) ↦ elim (Option-cases v.claim) [
    | inl e ↦ ground arith
    | inr (c, e) ↦
        Follows-put r.reminders r'.reminders id (renewed until v c) (ground arith)
          (λ u f. inl (ground arith))
  ]
]

scheduled-MovesTo : (s : Status) → is_scheduled s ≡ true → can_transition s Status.processing ≡ true
unfolding can_transition
scheduled-MovesTo scheduled h = refl
scheduled-MovesTo Status.processing h = ground arith
scheduled-MovesTo fired h = ground arith
scheduled-MovesTo cancelled h = ground arith
scheduled-MovesTo failed h = ground arith
scheduled-MovesTo (Status.other t) h = ground arith

pub commit_occurrence-Follows :
    (r r' : FakeRepository) (q : CommitOccurrenceInput) (d : Delivery) (old : Bool)
    → commit_occurrence r q ≡ ok (d, old, r')
    → Sound r
    → Follows r.reminders r'.reminders
commit_occurrence-Follows r r' q d old h sound = elim (commit_occurrence-Commits r r' q d old h) [
  | inl (e, _) ↦ Follows-same r.reminders r'.reminders (ground (arith, e))
  | inr (v, next, found, _, _, free, _, same, firing, _, rs, _, _) ↦
      Follows-put r.reminders r'.reminders v.id next rs (λ u f.
        let at : u ≡ v = ground (arith, sound.own_id q.reminder_id v found) in
        inr (rw at (rw firing (scheduled-MovesTo v.status free))))
]

firing-MovesTo :
    (s : DeliveryStatus) (v : Status)
    → is_processing s ≡ true
    → agrees s v ≡ true
    → (can_transition v fired ≡ true) × (can_transition v failed ≡ true)
unfolding can_transition
firing-MovesTo s Status.processing p h = (refl, refl)
firing-MovesTo s scheduled p h = ground arith
firing-MovesTo s fired p h = ground arith
firing-MovesTo s cancelled p h = ground arith
firing-MovesTo s failed p h = ground arith
firing-MovesTo s (Status.other t) p h = ground arith

pub complete_delivery-Follows :
    (r r' : FakeRepository) (id token : String) (now : Time)
    → complete_delivery r id token now ≡ ok r'
    → Sound r
    → Follows r.reminders r'.reminders
unfolding complete_delivery complete_claimed
complete_delivery-Follows r r' id token now h sound = elim (Option-cases (lookup id r.deliveries)) [
  | inl n ↦ ground arith
  | inr (d, n) ↦ elim (Bool-cases (is_completed d.status)) [
    | inl c ↦ Follows-same r.reminders r'.reminders (ground arith)
    | inr c ↦
        let (v, whose, fits) = sound.agreed id d n in
        let next : Reminder = record v {
          status = Status.fired;
          row_version = inc v.row_version;
          updated_at = now;
        } in
        Follows-put r.reminders r'.reminders v.id next (ground (arith, whose)) (λ u f.
          let at : u ≡ v = ground (arith, sound.own_id d.reminder_id v whose) in
          let busy : is_processing d.status ≡ true = ground arith in
          inr (rw at (firing-MovesTo d.status v.status busy fits).0))
  ]
]

pub fail_delivery-Follows :
    (r r' : FakeRepository) (q : DeliveryFailure)
    → fail_delivery r q ≡ ok r'
    → Sound r
    → Follows r.reminders r'.reminders
unfolding fail_delivery
fail_delivery-Follows r r' q h sound = elim (Option-cases (lookup q.id r.deliveries)) [
  | inl n ↦ ground arith
  | inr (d, n) ↦
      let (v, whose, fits) = sound.agreed q.id d n in
      let next : Reminder =
        if q.permanent
        then record v {
          status = Status.failed;
          last_error_code = q.error_code;
          row_version = inc v.row_version;
          updated_at = q.now;
        }
        else v in
      Follows-put r.reminders r'.reminders v.id next (ground (arith, whose)) (λ u f.
        let at : u ≡ v = ground (arith, sound.own_id d.reminder_id v whose) in
        let busy : is_processing d.status ≡ true = ground arith in
        ground (arith, at, (firing-MovesTo d.status v.status busy fits).1))
]
