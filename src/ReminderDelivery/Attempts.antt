-- ===== src/ReminderDelivery/Attempts.antt =====
-- internal/reminderdelivery/runtime.go: the inner loop of the worker's tick over the repository in
-- memory.
use harness_loop_agent.Base.{
  ℕ, ◌≡◌, refl, sym, subst, inl, inr, String, false, List, [], ◌∷◌, Option, none, some, ok, Result,
  Result-cases, Option-cases, Bool-cases, arith, str_eq, All, All-both, All-weaken, if◌then◌else◌,
}
use harness_loop_agent.Base.Dict.{lookup}
use harness_loop_agent.Base.Sort.{Pairwise}
use harness_loop_agent.Base.Word.{Time, inc}
use harness_loop_agent.Reminder.{Digest}
use harness_loop_agent.Reminder.Store.{
  FakeRepository, Delivery, completed, permanent_failed, pending,
}
use harness_loop_agent.Reminder.Store.Deliveries.{complete_delivery, fail_delivery}
use harness_loop_agent.Reminder.Taken.{
  Owned, OtherId, completed_lem, failed_lem, freed, complete-Owned, fail-Owned, complete_others,
  fail_others,
}
use harness_loop_agent.Reminder.Steps.{IsKept, by_complete, by_fail, ReminderStep-IsKept}
use harness_loop_agent.ReminderDelivery.{Ticked}
use harness_loop_agent.ReminderDelivery.Dispatches.{EndsWell}
use harness_loop_agent.ReminderDelivery.Tried.{Delivered, Refused, Tried, Handled, Handled-first}
use harness_loop_agent.ReminderDelivery.Worker.{
  WorkerConfig, DeliveryRequest, DeliveryResult, AdapterError, try_deliver, failure_of, classify,
  delivery_request, work_each,
}
use harness_loop_agent.ReminderDelivery.Fake.{fake, beside, observe_beside, hook_beside}

Owned-after :
    (r r' : FakeRepository) (token : String) (d : Delivery) (ds : List Delivery)
    → ((k : String) → str_eq d.id k ≡ false → lookup k r'.deliveries ≡ lookup k r.deliveries)
    → All (Owned r.deliveries token) ds
    → All (OtherId d) ds
    → All (Owned r'.deliveries token) ds
Owned-after r r' token d ds same own other =
    All-weaken (λ u. Owned r.deliveries token u × OtherId d u) (Owned r'.deliveries token)
      (λ u ((found, busy, held), apart). (ground (arith, found, same u.id apart), busy, held)) ds
      (All-both (Owned r.deliveries token) (OtherId d) ds own other)

module _ (digest : Digest) (X : Type 0) (clock : X → Time × X) (new_token : X → String × X)
    (observe : String → String → String → ℕ → X → X) (to_duration : ℕ → ℕ)
    (deliver : DeliveryRequest → X → Result AdapterError DeliveryResult × X)
    (before_complete : Option (Delivery → X → Result AdapterError (Unit {0}) × X)) where
  abbrev tries : Delivery → (FakeRepository × X) → Option AdapterError × (FakeRepository × X)
  tries d w =
      try_deliver (fake X) (beside clock) (beside new_token) (observe_beside observe) to_duration
        (λ q. beside (deliver q)) (hook_beside before_complete) d w

  abbrev pub works :
      WorkerConfig
      → Time
      → String
      → List Delivery
      → ℕ
      → (FakeRepository × X)
      → Ticked (FakeRepository × X)
  works c now token ds total w =
      work_each (fake X) (beside clock) (beside new_token) (observe_beside observe) to_duration
        (λ q. beside (deliver q)) (hook_beside before_complete) c now token ds total w

  try_deliver-keeps : (d : Delivery) (w : FakeRepository × X) → (tries d w).1.0 ≡ w.0
  unfolding try_deliver
  try_deliver-keeps d w = elim (Option-cases before_complete) [
    | inl n ↦ ground (arith, n)
    | inr (hook, n) ↦ ground (arith, n)
  ]

  try_deliver-Delivered :
      (d : Delivery) (w : FakeRepository × X)
      → (tries d w).0 ≡ none
      → Delivered X deliver before_complete d
  unfolding try_deliver
  try_deliver-Delivered d w h = elim (Result-cases (deliver (delivery_request d) w.1).0) [
    | inl (res, e) ↦ (w.1, res, e)
    | inr (f, e) ↦ ground (arith, e)
  ]

  try_deliver-Refused :
      (d : Delivery) (w : FakeRepository × X) (f : AdapterError)
      → (tries d w).0 ≡ some f
      → Refused X deliver before_complete d f
  unfolding try_deliver
  try_deliver-Refused d w f h = elim (Result-cases (deliver (delivery_request d) w.1).0) [
    | inr (g, e) ↦ inl (w.1, ground (arith, e))
    | inl (res, e) ↦ elim (Option-cases before_complete) [
      | inl n ↦ ground (arith, e, n)
      | inr (hook, n) ↦
          let x = (deliver (delivery_request d) w.1).1 in
          elim (Result-cases (hook d x).0) [
            | inl (u, o) ↦ ground (arith, e, n, o)
            | inr (g, o) ↦ inr (hook, d, x, n, ground (arith, e, n, o))
          ]
    ]
  ]

  fail-Tried :
      (c : WorkerConfig) (now : Time) (token : String) (d : Delivery) (r r' : FakeRepository)
      (f : AdapterError)
      → Refused X deliver before_complete d f
      → Owned r.deliveries token d
      → fail_delivery r (failure_of to_duration c now token d f) ≡ ok r'
      → (e : Delivery) × (lookup d.id r'.deliveries ≡ some e) × Tried X deliver before_complete c e
  fail-Tried c now token d r r' f refused own h =
      let q = failure_of to_duration c now token d f in
      elim (failed_lem r r' d q refl own h) [
        | inl (p, there) ↦ (
          record (freed q d) { status = permanent_failed },
          there,
          inr (
            f,
            refused,
            refl,
            inl (
              refl,
              elim (Bool-cases (classify f).1) [
                | inl b ↦ inr (ground (arith, b, p))
                | inr b ↦ inl b
              ],
            ),
          ),
        )
        | inr (p, there) ↦ (
          record (freed q d) { status = pending; available_at = q.next_available },
          there,
          inr (f, refused, refl, inr (refl, ground (arith, p), refl, refl)),
        )
      ]

  work_each-fired :
      (c : WorkerConfig) (now : Time) (token : String) (d : Delivery) (ds : List Delivery)
      (total : ℕ) (w : FakeRepository × X) (r' : FakeRepository)
      → (tries d w).0 ≡ none
      → complete_delivery (tries d w).1.0 d.id token now ≡ ok r'
      → works c now token (d ∷ ds) total w
        ≡ works c now token ds
            (inc total)
            (r', observe "deliver" "fired" "" d.attempt (tries d w).1.1)
  unfolding work_each
  work_each-fired c now token d ds total w r' fine done = ground (arith, fine, done)

  work_each-failed :
      (c : WorkerConfig) (now : Time) (token : String) (d : Delivery) (ds : List Delivery)
      (total : ℕ) (w : FakeRepository × X) (r' : FakeRepository) (f : AdapterError)
      → (tries d w).0 ≡ some f
      → fail_delivery (tries d w).1.0 (failure_of to_duration c now token d f) ≡ ok r'
      → works c now token (d ∷ ds) total w
        ≡ works c now token ds total (
          r',
          observe "deliver"
              (if (failure_of to_duration c now token d f).permanent then "failed" else "retrying")
              (failure_of to_duration c now token d f).error_code
              d.attempt
              (tries d w).1.1,
        )
  unfolding work_each
  work_each-failed c now token d ds total w r' f fine done = ground (arith, fine, done)

  -- A run over deliveries in hand ends without an error, keeps the repository, and tries them all.
  abbrev pub Works :
      WorkerConfig → FakeRepository → List Delivery → String → Ticked (FakeRepository × X) → Type 0
  Works c r ds k t = EndsWell t × Handled X deliver before_complete c r t.2.0 ds k

  pub work_each-Works :
      (c : WorkerConfig) (now : Time) (token k : String) (ds : List Delivery) (total : ℕ)
      (w : FakeRepository × X)
      → IsKept w.0
      → All (Owned w.0.deliveries token) ds
      → Pairwise OtherId ds
      → Works c w.0 ds k (works c now token ds total w)
  unfolding work_each
  work_each-Works c now token k [] total w kept own apart = ((refl, kept), inl (tt, refl))
  work_each-Works c now token k (d ∷ ds) total w kept own apart =
      let same = try_deliver-keeps d w in
      elim (Option-cases (tries d w).0) [
        | inl n ↦
            let (r', e) = complete-Owned w.0 d token now kept.sound own.0 in
            let kept' =
              ReminderStep-IsKept digest w.0 r' (by_complete w.0 r' d.id token now e) kept in
            let others = complete_others w.0 r' d.id token now e in
            let x = observe "deliver" "fired" "" d.attempt (tries d w).1.1 in
            let (fine, rest) =
              work_each-Works c now token k ds (inc total) (r', x) kept'
                (Owned-after w.0 r' token d ds others own.1 apart.0) apart.1 in
            subst (Works c w.0 (d ∷ ds) k)
              (sym (
                work_each-fired c now token d ds total w r' n
                  (subst (λ r. complete_delivery r d.id token now ≡ ok r') (sym same) e)))
              (
                fine,
                Handled-first X deliver before_complete c w.0 r'
                    (works c now token ds (inc total) (r', x)).2.0 d ds k (others k)
                    (record d { status = completed; claim_token = ""; lease_until = none })
                    (completed_lem w.0 r' d token now own.0 e)
                    (inl (refl, try_deliver-Delivered d w n)) rest,
              )
        | inr (f, n) ↦
            let q = failure_of to_duration c now token d f in
            let (r', e) = fail-Owned w.0 d q refl own.0 in
            let kept' = ReminderStep-IsKept digest w.0 r' (by_fail w.0 r' q e) kept in
            let others = fail_others w.0 r' q kept.sound e in
            let x =
              observe "deliver" (if q.permanent then "failed" else "retrying") q.error_code
                d.attempt (tries d w).1.1 in
            let (fine, rest) =
              work_each-Works c now token k ds total (r', x) kept'
                (Owned-after w.0 r' token d ds others own.1 apart.0) apart.1 in
            let (a, there, tried) =
              fail-Tried c now token d w.0 r' f (try_deliver-Refused d w f n) own.0 e in
            subst (Works c w.0 (d ∷ ds) k)
              (sym (
                work_each-failed c now token d ds total w r' f n
                  (subst (λ r. fail_delivery r q ≡ ok r') (sym same) e)))
              (
                fine,
                Handled-first X deliver before_complete c w.0 r'
                    (works c now token ds total (r', x)).2.0 d ds k (others k) a there tried rest,
              )
      ]
