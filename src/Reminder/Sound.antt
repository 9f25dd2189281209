-- ===== src/Reminder/Sound.antt =====
-- internal/reminder/fake_repository.go: how reminders, deliveries and occurrences hang together.
use harness_loop_agent.Base.{
  ◌≡◌, subst, ◌⊎◌, inl, inr, String, Bool, true, false, some, arith, eq_iff, str_eq, Bool-cases,
}
use harness_loop_agent.Base.Dict.{Dict, lookup, insert, lookup-insert, lookup-insert_self}
use harness_loop_agent.Reminder.{Reminder, Status, fired, failed}
use harness_loop_agent.Reminder.Store.{
  Delivery, DeliveryStatus, pending, processing, completed, permanent_failed,
}

-- Where a delivery stands, and where its reminder stands then.
abbrev pub agrees : DeliveryStatus → Status → Bool
agrees pending Status.processing = true
agrees processing Status.processing = true
agrees completed fired = true
agrees permanent_failed failed = true
agrees _ _ = false

-- Reminders and deliveries are stored under their ids; a delivery has its reminder, which stands where
-- the delivery says; no reminder has two deliveries; and the occurrences are the deliveries' ids.
pub record IsSound (reminders : Dict Reminder) (deliveries : Dict Delivery)
    (occurrences : Dict String) : Type 0 where
  pub own_id : (k : String) (v : Reminder) → lookup k reminders ≡ some v → v.id ≡ k
  pub own_key : (k : String) (d : Delivery) → lookup k deliveries ≡ some d → d.id ≡ k
  pub agreed :
      (k : String) (d : Delivery)
      → lookup k deliveries ≡ some d
      → (v : Reminder) × (lookup d.reminder_id reminders ≡ some v)
        × (agrees d.status v.status ≡ true)
  pub once :
      (j k : String) (d e : Delivery)
      → lookup j deliveries ≡ some d
      → lookup k deliveries ≡ some e
      → d.reminder_id ≡ e.reminder_id
      → j ≡ k
  pub known :
      (k : String) (d : Delivery) → lookup k deliveries ≡ some d → lookup k occurrences ≡ some k

-- A reminder is stored anew where there was none, or where the status agrees with as much as before.
pub store-IsSound :
    (rs : Dict Reminder) (ds : Dict Delivery) (os : Dict String) (v : Reminder)
    → ((u : Reminder)
        → lookup v.id rs ≡ some u
        → (s : DeliveryStatus) → agrees s u.status ≡ true
        → agrees s v.status ≡ true)
    → IsSound rs ds os
    → IsSound (insert v.id v rs) ds os
store-IsSound rs ds os v keeps h = record {
  own_id = λ k u e. ground (arith, lookup-insert v.id k v rs, eq_iff v.id k, h.own_id k u);
  own_key = h.own_key;
  agreed = λ k d e.
      let (u, found, ok_then) = h.agreed k d e in
      elim (Bool-cases (str_eq v.id d.reminder_id)) [
        | inl same ↦ (
          v,
          ground (arith, lookup-insert v.id d.reminder_id v rs),
          keeps u (ground (arith, eq_iff v.id d.reminder_id)) d.status ok_then,
        )
        | inr other ↦ (u, ground (arith, lookup-insert v.id d.reminder_id v rs), ok_then)
      ];
  once = h.once;
  known = h.known;
}

module _ (rs : Dict Reminder) (ds : Dict Delivery) (os : Dict String) (d : Delivery) (v : Reminder)
    (before : Reminder) (found : lookup v.id rs ≡ some before) (of : d.reminder_id ≡ v.id)
    (fits : agrees d.status v.status ≡ true) where
  -- A delivery and its reminder change together; the delivery is the reminder's only one, or its
  -- first.
  pub settle-IsSound :
      ((k : String) (e : Delivery) → lookup k ds ≡ some e → e.reminder_id ≡ v.id → k ≡ d.id)
      → ((e : Delivery) → lookup d.id ds ≡ some e → e.reminder_id ≡ v.id)
      → (os' : Dict String) → ((k : String) → (k ≡ d.id) ⊎ (lookup k os' ≡ lookup k os))
      → lookup d.id os' ≡ some d.id
      → IsSound rs ds os
      → IsSound (insert v.id v rs) (insert d.id d ds) os'
  settle-IsSound only its os' more new h = record {
    own_id = λ k u e. ground (arith, lookup-insert v.id k v rs, eq_iff v.id k, h.own_id k u);
    own_key = λ k e q. ground (arith, lookup-insert d.id k d ds, eq_iff d.id k, h.own_key k e);
    agreed = λ k e q. elim (Bool-cases (str_eq d.id k)) [
      | inl same ↦
          let at : d ≡ e = ground (arith, lookup-insert d.id k d ds) in
          subst
            (λ e.
              (u : Reminder) × (lookup e.reminder_id (insert v.id v rs) ≡ some u)
              × (agrees e.status u.status ≡ true))
            at (v, rw of (lookup-insert_self v.id v rs), fits)
      | inr other ↦
          let old : lookup k ds ≡ some e = ground (arith, lookup-insert d.id k d ds) in
          let (u, there, agreed_then) = h.agreed k e old in
          (
            u,
            ground (
              arith,
              lookup-insert v.id e.reminder_id v rs,
              eq_iff v.id e.reminder_id,
              only k e,
              eq_iff d.id k,
            ),
            agreed_then,
          )
    ];
    once = λ j k a b p q same. ground (
      arith,
      of,
      lookup-insert d.id j d ds,
      lookup-insert d.id k d ds,
      eq_iff d.id j,
      eq_iff d.id k,
      h.once j k a b,
      only j a,
      only k b,
    );
    known =
        λ k e q. ground (arith, lookup-insert d.id k d ds, eq_iff d.id k, h.known k e, more k, new);
  }

-- A delivery changes, and is no less far than before.
pub move-IsSound :
    (rs : Dict Reminder) (ds : Dict Delivery) (os : Dict String) (k : String) (d e : Delivery)
    → lookup k ds ≡ some d
    → e.id ≡ d.id
    → e.reminder_id ≡ d.reminder_id
    → ((s : Status) → agrees d.status s ≡ true → agrees e.status s ≡ true)
    → IsSound rs ds os
    → IsSound rs (insert k e ds) os
move-IsSound rs ds os k d e found same whose keeps h = record {
  own_id = h.own_id;
  own_key =
      λ j a q. ground (arith, lookup-insert k j e ds, eq_iff k j, h.own_key j a, h.own_key k d);
  agreed = λ j a q. elim (Bool-cases (str_eq k j)) [
    | inl at ↦
        let (v, there, agreed_then) = h.agreed k d found in
        let here : e ≡ a = ground (arith, lookup-insert k j e ds) in
        subst
          (λ x.
            (u : Reminder) × (lookup x.reminder_id rs ≡ some u) × (agrees x.status u.status ≡ true))
          here (v, rw whose there, keeps v.status agreed_then)
    | inr off ↦ h.agreed j a (ground (arith, lookup-insert k j e ds))
  ];
  once = λ i j a b p q together. ground (
    arith,
    whose,
    lookup-insert k i e ds,
    lookup-insert k j e ds,
    eq_iff k i,
    eq_iff k j,
    h.once i j a b,
    h.once k j d b,
    h.once i k a d,
  );
  known = λ j a q. ground (arith, lookup-insert k j e ds, eq_iff k j, h.known j a, h.known k d);
}
