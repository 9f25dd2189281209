-- ===== src/Reminder/Settled.antt =====
-- internal/reminder/fake_repository.go: what the calls on deliveries do to the reminders, the
-- deliveries and the occurrences.
use harness_loop_agent.Base.{
  ℕ, ◌+◌, ◌≡◌, refl, sym, subst, ◌⊎◌, inl, inr, String, Bool, true, List, [], ◌∷◌, none, some, ok,
  arith, eq_iff, str_eq, Bool-cases, Option-cases, All, All-weaken,
}
use text.Mathlib.TextPositions.{eq_refl}
use harness_loop_agent.Base.Word.{Time, inc}
use harness_loop_agent.Base.Dict.{Dict, lookup, insert, lookup-insert, lookup-insert_self, Distinct}
use harness_loop_agent.Base.Sort.{sort, sort-All, take, take-All}
use harness_loop_agent.Base.Text.{text_lt}
use harness_loop_agent.Reminder.{
  Reminder, Status, scheduled, fired, cancelled, failed, is_scheduled,
}
use harness_loop_agent.Reminder.Store.{
  FakeRepository, Delivery, DeliveryStatus, pending, processing, completed, permanent_failed,
}
use harness_loop_agent.Reminder.Store.Deliveries.{
  CommitOccurrenceInput, DeliveryFailure, delivery_of, commit_fresh, commit_occurrence,
  is_available, available_ids, taken, take_each, claim_deliveries, complete_claimed,
  complete_delivery, fail_delivery, in_progress, is_held,
}
use harness_loop_agent.Reminder.Sound.{agrees, IsSound, settle-IsSound, move-IsSound}
use harness_loop_agent.Reminder.Calls.{Sound, scheduled-agrees}

-- An occurrence is new, and its reminder was scheduled, held under the claim and unchanged since.
abbrev pub Commits : FakeRepository → FakeRepository → CommitOccurrenceInput → Delivery → Type 0
Commits r r' q d =
    (v next : Reminder) × (lookup q.reminder_id r.reminders ≡ some v)
    × (lookup q.occurrence_id r.occurrences ≡ none)
    × (v.row_version ≡ q.expected_row_version)
    × (is_scheduled v.status ≡ true)
    × (is_held v.claim q.claim_token q.occurred_at ≡ true)
    × (next.id ≡ v.id)
    × (next.status ≡ Status.processing)
    × (d ≡ delivery_of q v)
    × (r'.reminders ≡ insert v.id next r.reminders)
    × (r'.deliveries ≡ insert d.id d r.deliveries)
    × (r'.occurrences ≡ insert q.occurrence_id d.id r.occurrences)

pub commit_occurrence-Commits :
    (r r' : FakeRepository) (q : CommitOccurrenceInput) (d : Delivery) (old : Bool)
    → commit_occurrence r q ≡ ok (d, old, r')
    → ((r' ≡ r) × (old ≡ true)) ⊎ Commits r r' q d
unfolding commit_occurrence commit_fresh
commit_occurrence-Commits r r' q d old h = elim (Option-cases (lookup q.reminder_id r.reminders)) [
  | inl n ↦ ground arith
  | inr (v, n) ↦ elim (Option-cases (lookup q.occurrence_id r.occurrences)) [
    | inl m ↦ inr (
      v,
      record v {
        status = Status.processing;
        row_version = inc v.row_version;
        claim = none;
        updated_at = q.occurred_at;
      },
      n,
      m,
      ground arith,
      ground arith,
      ground arith,
      refl,
      refl,
      ground arith,
      ground arith,
      ground arith,
      ground arith,
    )
    | inr (id, m) ↦ inl (ground arith, ground arith)
  ]
]

pub commit_occurrence-Sound :
    (r r' : FakeRepository) (q : CommitOccurrenceInput) (d : Delivery) (old : Bool)
    → commit_occurrence r q ≡ ok (d, old, r')
    → Sound r
    → Sound r'
commit_occurrence-Sound r r' q d old h sound = elim (commit_occurrence-Commits r r' q d old h) [
  | inl (e, _) ↦ subst Sound (sym e) sound
  | inr (v, next, found, new, _, free, _, same, firing, made, rs, ds, os) ↦
      let at : v.id ≡ q.reminder_id = sound.own_id q.reminder_id v found in
      let lone : (k : String) (e : Delivery)
          → lookup k r.deliveries ≡ some e
          → e.reminder_id ≡ v.id
          → ⊥ =
        λ k e there whose.
          (let (u, found_u, agreed) = sound.agreed k e there in
            ground (arith, at, scheduled-agrees u.status e.status)) in
      ground (
        arith,
        rs,
        ds,
        os,
        made,
        settle-IsSound r.reminders r.deliveries r.occurrences (delivery_of q v) next v
            (ground arith) (ground arith) (ground (arith, firing))
            (λ k e there whose. ground (arith, lone k e))
            (λ e there. ground (arith, sound.known q.occurrence_id e))
            (insert q.occurrence_id q.occurrence_id r.occurrences)
            (λ k. ground (
              arith,
              lookup-insert q.occurrence_id k q.occurrence_id r.occurrences,
              eq_iff q.occurrence_id k,
            ))
            (lookup-insert_self q.occurrence_id q.occurrence_id r.occurrences) sound,
      )
]

-- A delivery that a worker may take is there under the key.
abbrev pub Takeable : Dict Delivery → String → Type 0
Takeable ds id = (d : Delivery) × (lookup id ds ≡ some d) × (in_progress d.status ≡ true)

pub available_ids-Takeable :
    (now : Time) (ds : Dict Delivery) → Distinct ds → All (Takeable ds) (available_ids now ds)
unfolding lookup
available_ids-Takeable now [] once = tt
available_ids-Takeable now ((k, d) ∷ ds) once =
    let more =
      All-weaken (Takeable ds) (Takeable ((k, d) ∷ ds))
        (λ id (e, there, busy). elim (Bool-cases (str_eq k id)) [
          | inl same ↦ ground (arith, eq_iff k id, once)
          | inr other ↦ (e, rw other there, busy)
        ])
        (available_ids now ds) (available_ids-Takeable now ds once.1) in
    elim (Bool-cases (is_available d now)) [
      | inl e ↦ rw e ((d, ground (arith, eq_refl k), ground arith), more)
      | inr e ↦ rw e more
    ]

in_progress-agrees :
    (d : DeliveryStatus) (s : Status)
    → in_progress d ≡ true
    → agrees d s ≡ true
    → agrees processing s ≡ true
in_progress-agrees pending Status.processing p h = refl
in_progress-agrees processing Status.processing p h = refl
in_progress-agrees pending scheduled p h = h
in_progress-agrees pending fired p h = h
in_progress-agrees pending cancelled p h = h
in_progress-agrees pending failed p h = h
in_progress-agrees pending (Status.other t) p h = h
in_progress-agrees processing scheduled p h = h
in_progress-agrees processing fired p h = h
in_progress-agrees processing cancelled p h = h
in_progress-agrees processing failed p h = h
in_progress-agrees processing (Status.other t) p h = h
in_progress-agrees completed s p h = ground arith
in_progress-agrees permanent_failed s p h = ground arith
in_progress-agrees (DeliveryStatus.other t) s p h = ground arith

take_each-Sound :
    (token : String) (until : Time) (ids : List String) (rs : Dict Reminder) (ds : Dict Delivery)
    (os : Dict String)
    → All (Takeable ds) ids
    → IsSound rs ds os
    → IsSound rs (take_each token until ids ds).1 os
take_each-Sound token until [] rs ds os there h = h
take_each-Sound token until (id ∷ ids) rs ds os there h =
    let (d, found, busy) = there.0 in
    let d' = taken token until d in
    rw found (
      take_each-Sound token until ids rs (insert id d' ds) os
        (All-weaken (Takeable ds) (Takeable (insert id d' ds))
          (λ k (e, there_e, busy_e). elim (Bool-cases (str_eq id k)) [
            | inl same ↦ (d', ground (arith, lookup-insert id k d' ds), refl)
            | inr other ↦ (e, ground (arith, lookup-insert id k d' ds), busy_e)
          ])
          ids there.1)
        (move-IsSound rs ds os id d d' found refl refl (λ s. in_progress-agrees d.status s busy) h))

pub claim_deliveries-Sound :
    (r r' : FakeRepository) (limit : ℕ) (now : Time) (lease : ℕ) (token : String)
    (out : List Delivery)
    → claim_deliveries r limit now lease token ≡ ok (out, r')
    → Distinct r.deliveries
    → Sound r
    → Sound r'
unfolding claim_deliveries
claim_deliveries-Sound r r' limit now lease token out h once sound =
    let all_ids = available_ids now r.deliveries in
    let chosen = take limit (sort text_lt all_ids) in
    ground (
      arith,
      take_each-Sound token (now + lease) chosen r.reminders r.deliveries r.occurrences
          (take-All (Takeable r.deliveries) limit (sort text_lt all_ids) (
            sort-All text_lt (Takeable r.deliveries) all_ids
              (available_ids-Takeable now r.deliveries once)))
          sound,
    )

-- A delivery in progress ends, and its reminder with it.
end-Sound :
    (r : FakeRepository) (k : String) (d e : Delivery) (v next : Reminder)
    → lookup k r.deliveries ≡ some d
    → lookup d.reminder_id r.reminders ≡ some v
    → e.id ≡ d.id
    → e.reminder_id ≡ d.reminder_id
    → next.id ≡ v.id
    → agrees e.status next.status ≡ true
    → Sound r
    → IsSound (insert next.id next r.reminders) (insert e.id e r.deliveries) r.occurrences
end-Sound r k d e v next found whose same of same_v fits sound =
    let at : d.id ≡ k = sound.own_key k d found in
    let at_v : v.id ≡ d.reminder_id = sound.own_id d.reminder_id v whose in
    settle-IsSound r.reminders r.deliveries r.occurrences e next v (ground (arith, at_v))
      (ground (arith, at_v)) fits
      (λ j a there mine. ground (arith, at, at_v, sound.once j k a d there found))
      (λ a there. ground (arith, at, at_v)) r.occurrences (λ j. inr refl)
      (ground (arith, at, sound.known k d found)) sound

pub complete_delivery-Sound :
    (r r' : FakeRepository) (id token : String) (now : Time)
    → complete_delivery r id token now ≡ ok r'
    → Sound r
    → Sound r'
unfolding complete_delivery complete_claimed
complete_delivery-Sound r r' id token now h sound = elim (Option-cases (lookup id r.deliveries)) [
  | inl n ↦ ground arith
  | inr (d, n) ↦
      let (v, whose, fits) = sound.agreed id d n in
      ground (
        arith,
        whose,
        sound.own_key id d n,
        end-Sound r id d (record d { status = completed; claim_token = ""; lease_until = none }) v
            (record v { status = Status.fired; row_version = inc v.row_version; updated_at = now })
            n whose refl refl refl refl sound,
      )
]

pub fail_delivery-Sound :
    (r r' : FakeRepository) (q : DeliveryFailure) → fail_delivery r q ≡ ok r' → Sound r → Sound r'
unfolding fail_delivery
fail_delivery-Sound r r' q h sound = elim (Option-cases (lookup q.id r.deliveries)) [
  | inl n ↦ ground arith
  | inr (d, n) ↦
      let (v, whose, fits) = sound.agreed q.id d n in
      let freed : Delivery = record d {
        last_error_code = q.error_code;
        claim_token = "";
        lease_until = none;
      } in
      let ended =
        end-Sound r q.id d (record freed { status = permanent_failed }) v
          (record v {
            status = Status.failed;
            last_error_code = q.error_code;
            row_version = inc v.row_version;
            updated_at = q.now;
          })
          n whose refl refl refl refl sound in
      let retried =
        end-Sound r q.id d (record freed { status = pending; available_at = q.next_available }) v v
          n whose refl refl refl in
      elim (Bool-cases q.permanent) [
        | inl p ↦ ground (arith, whose, ended)
        | inr p ↦ ground (arith, whose, retried (ground (arith, fits)) sound)
      ]
]
