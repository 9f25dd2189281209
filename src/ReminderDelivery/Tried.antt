-- ===== src/ReminderDelivery/Tried.antt =====
-- internal/reminderdelivery/runtime.go: how a delivery stands that a worker has tried.
use harness_loop_agent.Base.{
  ◌≡◌, ◌⊎◌, inl, inr, String, true, false, List, ◌∷◌, Option, none, some, ok, err, Result,
  Bool-cases, arith, eq_iff, str_eq, All,
}
use harness_loop_agent.Base.Dict.{lookup}
use harness_loop_agent.Base.Word.{sle}
use harness_loop_agent.Reminder.Store.{
  FakeRepository, Delivery, completed, permanent_failed, pending,
}
use harness_loop_agent.ReminderDelivery.Worker.{
  WorkerConfig, DeliveryRequest, DeliveryResult, AdapterError, classify, delivery_request,
}

module _ (X : Type 0) (deliver : DeliveryRequest → X → Result AdapterError DeliveryResult × X)
    (before_complete : Option (Delivery → X → Result AdapterError (Unit {0}) × X)) where
  -- The adapter took the delivery.
  abbrev pub Delivered : Delivery → Type 0
  Delivered e = (x : X) × (res : DeliveryResult) × ((deliver (delivery_request e) x).0 ≡ ok res)

  -- The adapter or the hook returned the error.
  abbrev pub Refused : Delivery → AdapterError → Type 0
  Refused e f =
      ((x : X) × ((deliver (delivery_request e) x).0 ≡ err f))
      ⊎ ((hook : Delivery → X → Result AdapterError (Unit {0}) × X) × (d : Delivery) × (x : X)
          × (before_complete ≡ some hook)
          × ((hook d x).0 ≡ err f))

  -- How a delivery that a worker has tried stands: it is completed, and the adapter took it; or it is
  -- given up after an error that is not retryable or at the last attempt; or it is free for another
  -- try after a retryable error.
  abbrev pub Tried : WorkerConfig → Delivery → Type 0
  Tried c e =
      ((e.status ≡ completed) × Delivered e)
      ⊎ ((f : AdapterError) × Refused e f
          × (e.last_error_code ≡ (classify f).0)
          × (((e.status ≡ permanent_failed)
                × (((classify f).1 ≡ false) ⊎ (sle c.max_attempts e.attempt ≡ true)))
              ⊎ ((e.status ≡ pending)
                  × ((classify f).1 ≡ true)
                  × (e.claim_token ≡ "")
                  × (e.lease_until ≡ none))))

  -- A delivery is none of those in hand and stays as it is, or has been tried.
  abbrev pub Handled :
      WorkerConfig → FakeRepository → FakeRepository → List Delivery → String → Type 0
  Handled c r r' ds k =
      (All (λ d. str_eq d.id k ≡ false) ds × (lookup k r'.deliveries ≡ lookup k r.deliveries))
      ⊎ ((e : Delivery) × (lookup k r'.deliveries ≡ some e) × Tried c e)

  pub Handled-first :
      (c : WorkerConfig) (r s t : FakeRepository) (d : Delivery) (ds : List Delivery) (k : String)
      → (str_eq d.id k ≡ false → lookup k s.deliveries ≡ lookup k r.deliveries)
      → (e : Delivery) → lookup d.id s.deliveries ≡ some e
      → Tried c e
      → Handled c s t ds k
      → Handled c r t (d ∷ ds) k
  Handled-first c r s t d ds k others e there tried (inr after_all) = inr after_all
  Handled-first c r s t d ds k others e there tried (inl (apart, same)) =
      elim (Bool-cases (str_eq d.id k)) [
        | inl b ↦ inr (e, ground (arith, there, same, eq_iff d.id k), tried)
        | inr b ↦ inl ((b, apart), ground (arith, same, others b))
      ]
