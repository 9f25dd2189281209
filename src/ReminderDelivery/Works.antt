-- ===== src/ReminderDelivery/Works.antt =====
-- internal/reminderdelivery/runtime.go: the worker over the repository in memory.
use harness_loop_agent.Base.{
  ℕ, zero, suc, ◌≡◌, ◌≢◌, ◌⊎◌, ◌<◌, ◌-◌, refl, sym, subst, inl, inr, String, Bool, true, false,
  List, Option, none, some, ok, Result, Result-cases, Option-cases, Bool-cases, arith, str_eq,
  length, if◌then◌else◌,
}
use harness_loop_agent.Base.Dict.{lookup}
use harness_loop_agent.Base.Word.{Time, slt, is_negative, word_mod}
use harness_loop_agent.Base.Text.{trim}
use harness_loop_agent.Reminder.{Digest}
use harness_loop_agent.Reminder.Store.{FakeRepository, Delivery}
use harness_loop_agent.Reminder.Store.Deliveries.{claim_deliveries}
use harness_loop_agent.Reminder.Taken.{
  Waits, claim_deliveries-Waits, claim_deliveries_others, claim_deliveries-Owned,
}
use harness_loop_agent.Reminder.Steps.{IsKept, by_take, ReminderStep-IsKept}
use harness_loop_agent.ReminderDelivery.{Ticked}
use harness_loop_agent.ReminderDelivery.Dispatches.{EndsWell}
use harness_loop_agent.ReminderDelivery.Tried.{Tried}
use harness_loop_agent.ReminderDelivery.Attempts.{works, work_each-Works}
use harness_loop_agent.ReminderDelivery.Worker.{
  WorkerConfig, new_worker, DeliveryRequest, DeliveryResult, AdapterError, work_batches, work_tick,
}
use harness_loop_agent.ReminderDelivery.Fake.{fake, beside, observe_beside, hook_beside}

claim_deliveries_ok :
    (supports : Bool) (r : FakeRepository) (c : WorkerConfig) (now : Time) (token : String)
    → new_worker supports c ≡ ok c
    → now ≢ 0
    → str_eq token "" ≡ false
    → (out : List Delivery) × (r' : FakeRepository) × (claim_deliveries r c.batch_size now
          c.lease_duration token
        ≡ ok (out, r'))
unfolding claim_deliveries new_worker
claim_deliveries_ok supports r c now token valid clocked named =
    elim (Result-cases (claim_deliveries r c.batch_size now c.lease_duration token)) [
      | inl ((out, r'), e) ↦ (out, r', e)
      | inr (f, e) ↦ ground arith
    ]

module _ (digest : Digest) (X : Type 0) (clock : X → Time × X) (new_token : X → String × X)
    (observe : String → String → String → ℕ → X → X) (to_duration : ℕ → ℕ)
    (deliver : DeliveryRequest → X → Result AdapterError DeliveryResult × X)
    (before_complete : Option (Delivery → X → Result AdapterError (Unit {0}) × X)) where
  abbrev batches : WorkerConfig → ℕ → ℕ → (FakeRepository × X) → Ticked (FakeRepository × X)
  batches c left total w =
      work_batches (fake X) (beside clock) (beside new_token) (observe_beside observe) to_duration
        (λ q. beside (deliver q)) (hook_beside before_complete) c left total w

  work_batches-next :
      (c : WorkerConfig) (left total : ℕ) (w : FakeRepository × X) (out : List Delivery)
      (r' : FakeRepository)
      → str_eq (trim (new_token (clock w.1).1).0) "" ≡ false
      → claim_deliveries w.0 c.batch_size
          (clock w.1).0
          c.lease_duration
          (trim (new_token (clock w.1).1).0)
        ≡ ok (out, r')
      → (let t =
            works digest X clock new_token observe to_duration deliver before_complete c
              (clock w.1).0
              (trim (new_token (clock w.1).1).0)
              out
              total
              (r', (new_token (clock w.1).1).1) in
          t.1 ≡ none
          → batches c (suc left) total w
            ≡ (if slt (length out) c.batch_size then (t.0, none, t.2) else batches c left t.0 t.2))
  unfolding work_batches
  work_batches-next c left total w out r' given e fine = ground (arith, given, e, fine)

  module _ (clocked : (x : X) → (clock x).0 ≢ 0)
      (named : (x : X) → str_eq (trim (new_token x).0) "" ≡ false) (supports : Bool)
      (c : WorkerConfig) (valid : new_worker supports c ≡ ok c) where
    -- Where there is a batch, a delivery that it leaves was not available or the repository has more
    -- than a batch holds.
    abbrev Idle : ℕ → (FakeRepository × X) → String → Type 0
    Idle zero w k = Unit
    Idle (suc left) w k =
        (lookup k w.0.deliveries ≡ none)
        ⊎ ((d : Delivery) × (lookup k w.0.deliveries ≡ some d)
            × Waits w.0 c.batch_size (clock w.1).0 d)

    abbrev Left : ℕ → (FakeRepository × X) → String → FakeRepository → Type 0
    Left left w k r = (lookup k r.deliveries ≡ lookup k w.0.deliveries) × Idle left w k

    abbrev TriedAt : FakeRepository → String → Type 0
    TriedAt r k =
        (e : Delivery) × (lookup k r.deliveries ≡ some e) × Tried X deliver before_complete c e

    -- A run of batches ends without an error, keeps the repository, and tries or leaves the delivery
    -- under the key.
    abbrev Ran : ℕ → (FakeRepository × X) → String → Ticked (FakeRepository × X) → Type 0
    Ran left w k t = EndsWell t × (Left left w k t.2.0 ⊎ TriedAt t.2.0 k)

    work_batches-Ran :
        (k : String) (left total : ℕ) (w : FakeRepository × X)
        → IsKept w.0
        → Ran left w k (batches c left total w)
    unfolding work_batches
    work_batches-Ran k zero total w kept = ((refl, kept), inl (refl, tt))
    work_batches-Ran k (suc left) total w kept =
        let now = (clock w.1).0 in
        let x2 = (new_token (clock w.1).1).1 in
        let token = trim (new_token (clock w.1).1).0 in
        let given = named (clock w.1).1 in
        let (out, r', e) = claim_deliveries_ok supports w.0 c now token valid (clocked w.1) given in
        let kept' =
          ReminderStep-IsKept digest w.0 r'
            (by_take w.0 r' c.batch_size now c.lease_duration token out e) kept in
        let (own, apart) =
          claim_deliveries-Owned w.0 r' c.batch_size now c.lease_duration token out kept.sound
            kept.deliveries_once e in
        let done =
          works digest X clock new_token observe to_duration deliver before_complete c now token out
            total (r', x2) in
        let ((fine, kept''), handled) =
          work_each-Works digest X clock new_token observe to_duration deliver before_complete c now
            token k out total (r', x2) kept' own apart in
        let batch : Left (suc left) w k done.2.0 ⊎ TriedAt done.2.0 k = elim handled [
          | inr tried ↦ inr tried
          | inl (other, same) ↦ inl (
            ground (
              arith,
              same,
              claim_deliveries_others w.0 r' c.batch_size now c.lease_duration token out k
                  kept.sound kept.deliveries_once e other,
            ),
            elim (Option-cases (lookup k w.0.deliveries)) [
              | inl n ↦ inl n
              | inr (d, n) ↦ inr (
                d,
                n,
                claim_deliveries-Waits w.0 r' c.batch_size now c.lease_duration token out k d
                    kept.sound kept.deliveries_once e n other,
              )
            ],
          )
        ] in
        subst (Ran (suc left) w k) (sym (work_batches-next c left total w out r' given e fine))
          (elim (Bool-cases (slt (length out) c.batch_size)) [
            | inl s ↦ rw s ((refl, kept''), batch)
            | inr s ↦
                let (well, rest) = work_batches-Ran k left done.0 done.2 kept'' in
                rw s (
                  well,
                  elim rest [
                    | inr tried ↦ inr tried
                    | inl (same, _) ↦ elim batch [
                      | inl (same', idle) ↦ inl (ground (arith, same, same'), idle)
                      | inr (a, there, tried) ↦ inr (a, ground (arith, same, there), tried)
                    ]
                  ],
                )
          ])

    -- Over the repository in memory, in any state that calls have built, a worker whose
    -- configuration, of 64-bit integers, `NewWorker` accepts, whose clock is never at the zero time
    -- and whose tokens are never blank ends each tick without an error, whatever its adapter and its
    -- hook return, and the repository is as sound as before. Each delivery that was there is there
    -- then. It is unchanged, and was not available at the clock's first reading or the repository had
    -- more deliveries than a batch holds; or it is completed after the adapter took it; or it is given
    -- up after an error of the adapter or the hook that was not retryable or came at the last attempt;
    -- or it is pending without a claim after an error that was retryable.
    pub work_tick-EndsWell :
        (w : FakeRepository × X) (k : String) (d : Delivery)
        → c.max_batches < word_mod
        → IsKept w.0
        → lookup k w.0.deliveries ≡ some d
        → (let t =
              work_tick
                (fake X)
                (beside clock)
                (beside new_token)
                (observe_beside observe)
                to_duration
                (λ q. beside (deliver q))
                (hook_beside before_complete)
                c
                w in
            (t.1 ≡ none)
            × IsKept t.2.0
            × (((lookup k t.2.0.deliveries ≡ some d) × Waits w.0 c.batch_size (clock w.1).0 d)
                ⊎ ((e : Delivery) × (lookup k t.2.0.deliveries ≡ some e)
                    × Tried X deliver before_complete c e)))
    unfolding work_tick new_worker
    work_tick-EndsWell w k d small kept there =
        let left : ℕ = elim (is_negative c.max_batches) [ true ↦ 0 | false ↦ c.max_batches ] in
        let some_left : left ≡ suc (left - 1) = ground (arith, valid) in
        let ((fine, kept'), moved) =
          subst (λ n. Ran n w k (batches c left 0 w)) some_left
            (work_batches-Ran k left 0 w kept) in
        (
          fine,
          kept',
          elim moved [
            | inr tried ↦ inr tried
            | inl (same, idle) ↦ elim idle [
              | inl n ↦ ground (arith, n, there)
              | inr (u, n, waits) ↦
                  let is_d : u ≡ d = ground (arith, n, there) in
                  inl (
                    ground (arith, same, there),
                    subst (Waits w.0 c.batch_size (clock w.1).0) is_d waits,
                  )
            ]
          ],
        )
