-- ===== src/Reminder/Steps.antt =====
-- internal/reminder/fake_repository.go: the calls that change the repository as steps, and what holds
-- after any sequence of them.
use harness_loop_agent.Base.{
  ℕ, ◌≡◌, inl, inr, String, Bool, List, [], ◌∷◌, none, ok, arith, Bool-cases, Option-cases, ◌+◌,
}
use harness_loop_agent.Base.Word.{Time, inc}
use harness_loop_agent.Base.Dict.{Dict, lookup, insert, Distinct, Distinct-insert}
use harness_loop_agent.Base.Sort.{sort, take}
use harness_loop_agent.Base.Text.{text_lt}
use harness_loop_agent.Reminder.{Reminder, Status, Digest}
use harness_loop_agent.Reminder.Store.{
  FakeRepository, Delivery, DeliveryStatus, CreateInput, MutationInput, MutationResult,
  new_fake_repository, create, mutate, or_zero_reminder, or_zero_delivery,
}
use harness_loop_agent.Reminder.Store.Claims.{
  DueClaimRequest, claimed, claim_each, chosen_ids, claim_due, renewed, renew_claim,
}
use harness_loop_agent.Reminder.Store.Deliveries.{
  CommitOccurrenceInput, DeliveryFailure, commit_occurrence, available_ids, taken, take_each,
  claim_deliveries, complete_delivery, complete_claimed, fail_delivery,
}
use harness_loop_agent.Reminder.Calls.{
  Sound, create-Sound, mutate-Changes, mutate-Sound, claim_due-Sound, renew_claim-Sound,
}
use harness_loop_agent.Reminder.Moves.{
  Follows, Follows-same, create-Follows, mutate-Follows, claim_due-Follows, renew_claim-Follows,
  commit_occurrence-Follows, complete_delivery-Follows, fail_delivery-Follows,
}
use harness_loop_agent.Reminder.Settled.{
  commit_occurrence-Commits, commit_occurrence-Sound, claim_deliveries-Sound,
  complete_delivery-Sound, fail_delivery-Sound,
}

-- Reminders, deliveries and occurrences hang together, and no map has a key twice.
pub record IsKept (r : FakeRepository) : Type 0 where
  pub sound : Sound r
  pub reminders_once : Distinct r.reminders
  pub deliveries_once : Distinct r.deliveries

claim_each-Distinct :
    (q : DueClaimRequest) (ids : List String) (rs : Dict Reminder)
    → Distinct rs
    → Distinct (claim_each q ids rs).1
claim_each-Distinct q [] rs h = h
claim_each-Distinct q (id ∷ ids) rs h =
    let v = claimed q (or_zero_reminder (lookup id rs)) in
    claim_each-Distinct q ids (insert id v rs) (Distinct-insert id v rs h)

take_each-Distinct :
    (token : String) (until : Time) (ids : List String) (ds : Dict Delivery)
    → Distinct ds
    → Distinct (take_each token until ids ds).1
take_each-Distinct token until [] ds h = h
take_each-Distinct token until (id ∷ ids) ds h =
    let d = taken token until (or_zero_delivery (lookup id ds)) in
    take_each-Distinct token until ids (insert id d ds) (Distinct-insert id d ds h)

module _ (digest : Digest) where
  pub data ReminderStep : FakeRepository → FakeRepository → Type 0 where
    by_create :
        (r r' : FakeRepository) (q : CreateInput) (m : MutationResult)
        → create digest r q ≡ ok (m, r')
        → ReminderStep r r'
    by_mutate :
        (r r' : FakeRepository) (q : MutationInput) (cancel : Bool) (m : MutationResult)
        → mutate digest r q cancel ≡ ok (m, r')
        → ReminderStep r r'
    by_claim :
        (r r' : FakeRepository) (q : DueClaimRequest) (out : List Reminder)
        → claim_due r q ≡ ok (out, r')
        → ReminderStep r r'
    by_renew :
        (r r' : FakeRepository) (id : String) (version : ℕ) (token : String) (until : Time)
        → renew_claim r id version token until ≡ ok r'
        → ReminderStep r r'
    by_commit :
        (r r' : FakeRepository) (q : CommitOccurrenceInput) (d : Delivery) (old : Bool)
        → commit_occurrence r q ≡ ok (d, old, r')
        → ReminderStep r r'
    by_take :
        (r r' : FakeRepository) (limit : ℕ) (now : Time) (lease : ℕ) (token : String)
        (out : List Delivery)
        → claim_deliveries r limit now lease token ≡ ok (out, r')
        → ReminderStep r r'
    by_complete :
        (r r' : FakeRepository) (id token : String) (now : Time)
        → complete_delivery r id token now ≡ ok r'
        → ReminderStep r r'
    by_fail :
        (r r' : FakeRepository) (q : DeliveryFailure)
        → fail_delivery r q ≡ ok r'
        → ReminderStep r r'

  pub data ReminderSteps : FakeRepository → FakeRepository → Type 0 where
    stay : (r : FakeRepository) → ReminderSteps r r
    step : (r s t : FakeRepository) → ReminderStep r s → ReminderSteps s t → ReminderSteps r t

  ReminderStep-Sound : (r r' : FakeRepository) → ReminderStep r r' → IsKept r → Sound r'
  ReminderStep-Sound r r' (by_create _ _ q m h) k = create-Sound digest r r' q m h k.sound
  ReminderStep-Sound r r' (by_mutate _ _ q c m h) k = mutate-Sound digest r r' q c m h k.sound
  ReminderStep-Sound r r' (by_claim _ _ q out h) k = claim_due-Sound r r' q out h k.sound
  ReminderStep-Sound r r' (by_renew _ _ id v t u h) k = renew_claim-Sound r r' id v t u h k.sound
  ReminderStep-Sound r r' (by_commit _ _ q d old h) k =
      commit_occurrence-Sound r r' q d old h k.sound
  ReminderStep-Sound r r' (by_take _ _ n now lease t out h) k =
      claim_deliveries-Sound r r' n now lease t out h k.deliveries_once k.sound
  ReminderStep-Sound r r' (by_complete _ _ id t now h) k =
      complete_delivery-Sound r r' id t now h k.sound
  ReminderStep-Sound r r' (by_fail _ _ q h) k = fail_delivery-Sound r r' q h k.sound

  ReminderStep-once :
      (r r' : FakeRepository)
      → ReminderStep r r'
      → IsKept r
      → Distinct r'.reminders × Distinct r'.deliveries
  unfolding create claim_due renew_claim claim_deliveries complete_delivery complete_claimed
      fail_delivery
  ReminderStep-once r r' (by_create _ _ q m h) k = ground (
    arith,
    Distinct-insert q.reminder.id q.reminder r.reminders,
    k.reminders_once,
    k.deliveries_once,
  )
  ReminderStep-once r r' (by_mutate _ _ q c m h) k = elim (mutate-Changes digest r r' q c m h) [
    | inl (e, _) ↦ ground (arith, e, k.reminders_once, k.deliveries_once)
    | inr (v, next, _, _, _, _, rs, ds, _) ↦ ground (
      arith,
      rs,
      ds,
      Distinct-insert next.id next r.reminders,
      k.reminders_once,
      k.deliveries_once,
    )
  ]
  ReminderStep-once r r' (by_claim _ _ q out h) k = ground (
    arith,
    claim_each-Distinct q (chosen_ids q r.reminders) r.reminders k.reminders_once,
    k.deliveries_once,
  )
  ReminderStep-once r r' (by_renew _ _ id version t u h) k =
      elim (Option-cases (lookup id r.reminders)) [
        | inl n ↦ ground arith
        | inr (v, n) ↦ elim (Option-cases v.claim) [
          | inl e ↦ ground arith
          | inr (c, e) ↦ ground (
            arith,
            Distinct-insert id (renewed u v c) r.reminders,
            k.reminders_once,
            k.deliveries_once,
          )
        ]
      ]
  ReminderStep-once r r' (by_commit _ _ q d old h) k =
      elim (commit_occurrence-Commits r r' q d old h) [
        | inl (e, _) ↦ ground (arith, e, k.reminders_once, k.deliveries_once)
        | inr (v, next, _, _, _, _, _, _, _, _, rs, ds, _) ↦ ground (
          arith,
          rs,
          ds,
          Distinct-insert v.id next r.reminders k.reminders_once,
          Distinct-insert d.id d r.deliveries k.deliveries_once,
        )
      ]
  ReminderStep-once r r' (by_take _ _ n now lease t out h) k = ground (
    arith,
    k.reminders_once,
    take_each-Distinct t (now + lease) (take n (sort text_lt (available_ids now r.deliveries)))
        r.deliveries k.deliveries_once,
  )
  ReminderStep-once r r' (by_complete _ _ id t now h) k =
      let after_insert = Distinct-insert {V = Reminder} in
      let after_delivery = Distinct-insert {V = Delivery} in
      elim (Option-cases (lookup id r.deliveries)) [
        | inl n ↦ ground arith
        | inr (d, n) ↦
            let v = or_zero_reminder (lookup d.reminder_id r.reminders) in
            ground (
              arith,
              after_insert v.id
                  (record v {
                    status = Status.fired;
                    row_version = inc v.row_version;
                    updated_at = now;
                  })
                  r.reminders k.reminders_once,
              after_delivery id
                  (record d {
                    status = DeliveryStatus.completed;
                    claim_token = "";
                    lease_until = none;
                  })
                  r.deliveries k.deliveries_once,
              k.reminders_once,
              k.deliveries_once,
            )
      ]
  ReminderStep-once r r' (by_fail _ _ q h) k = elim (Option-cases (lookup q.id r.deliveries)) [
    | inl n ↦ ground arith
    | inr (d, n) ↦
        let freed : Delivery = record d {
          last_error_code = q.error_code;
          claim_token = "";
          lease_until = none;
        } in
        let v = or_zero_reminder (lookup d.reminder_id r.reminders) in
        let keep = λ (w : Reminder). Distinct-insert v.id w r.reminders k.reminders_once in
        let put = λ (e : Delivery). Distinct-insert d.id e r.deliveries k.deliveries_once in
        elim (Bool-cases q.permanent) [
          | inl p ↦ ground (
            arith,
            keep (record v {
              status = Status.failed;
              last_error_code = q.error_code;
              row_version = inc v.row_version;
              updated_at = q.now;
            }),
            put (record freed { status = DeliveryStatus.permanent_failed }),
          )
          | inr p ↦ ground (
            arith,
            keep v,
            put (record freed { status = DeliveryStatus.pending; available_at = q.next_available }),
          )
        ]
  ]

  pub ReminderStep-IsKept : (r r' : FakeRepository) → ReminderStep r r' → IsKept r → IsKept r'
  ReminderStep-IsKept r r' h k =
      let once = ReminderStep-once r r' h k in
      record {
        sound = ReminderStep-Sound r r' h k;
        reminders_once = once.0;
        deliveries_once = once.1;
      }

  pub ReminderSteps-IsKept : (r r' : FakeRepository) → ReminderSteps r r' → IsKept r → IsKept r'
  ReminderSteps-IsKept r r' (stay _) k = k
  ReminderSteps-IsKept r r' (step _ s _ h hs) k =
      ReminderSteps-IsKept s r' hs (ReminderStep-IsKept r s h k)

  pub ReminderStep-Follows :
      (r r' : FakeRepository) → ReminderStep r r' → Sound r → Follows r.reminders r'.reminders
  unfolding claim_deliveries
  ReminderStep-Follows r r' (by_create _ _ q m h) s = create-Follows digest r r' q m h
  ReminderStep-Follows r r' (by_mutate _ _ q c m h) s = mutate-Follows digest r r' q c m h s
  ReminderStep-Follows r r' (by_claim _ _ q out h) s = claim_due-Follows r r' q out h
  ReminderStep-Follows r r' (by_renew _ _ id v t u h) s = renew_claim-Follows r r' id v t u h
  ReminderStep-Follows r r' (by_commit _ _ q d old h) s = commit_occurrence-Follows r r' q d old h s
  ReminderStep-Follows r r' (by_take _ _ n now lease t out h) s =
      Follows-same r.reminders r'.reminders (ground arith)
  ReminderStep-Follows r r' (by_complete _ _ id t now h) s =
      complete_delivery-Follows r r' id t now h s
  ReminderStep-Follows r r' (by_fail _ _ q h) s = fail_delivery-Follows r r' q h s

pub new_fake_repository-IsKept : IsKept new_fake_repository
unfolding lookup
new_fake_repository-IsKept = record {
  sound = record {
    own_id = λ k v h. ground arith;
    own_key = λ k d h. ground arith;
    agreed = λ k d h. ground arith;
    once = λ j k d e h. ground arith;
    known = λ k d h. ground arith;
  };
  reminders_once = tt;
  deliveries_once = tt;
}
