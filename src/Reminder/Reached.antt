-- ===== src/Reminder/Reached.antt =====
-- internal/reminder/fake_repository.go: what holds of a repository that calls have built from the
-- empty one.
use harness_loop_agent.Base.{◌≡◌, ◌≢◌, refl, ◌⊎◌, inl, inr, String, true, false, some, ok, arith}
use harness_loop_agent.Base.Dict.{lookup, lookup-insert_self}
use harness_loop_agent.Reminder.{
  Reminder, Status, scheduled, fired, cancelled, failed, terminal, can_transition, Digest,
}
use harness_loop_agent.Reminder.Store.{
  FakeRepository, Delivery, DeliveryStatus, pending, processing, completed, permanent_failed,
  MutationInput, MutationResult, new_fake_repository, cancel,
}
use harness_loop_agent.Reminder.Sound.{agrees}
use harness_loop_agent.Reminder.Calls.{mutate-Changes}
use harness_loop_agent.Reminder.Moves.{MovesTo}
use harness_loop_agent.Reminder.Steps.{
  IsKept, ReminderStep, ReminderSteps, stay, step, by_mutate, ReminderStep-Follows,
  ReminderSteps-IsKept, ReminderStep-IsKept, new_fake_repository-IsKept,
}

terminal-MovesTo : (a b : Status) → terminal a ≡ true → MovesTo a b → b ≡ a
unfolding can_transition
terminal-MovesTo fired b t m = ground arith
terminal-MovesTo cancelled b t m = ground arith
terminal-MovesTo failed b t m = ground arith
terminal-MovesTo scheduled b t m = ground arith
terminal-MovesTo Status.processing b t m = ground arith
terminal-MovesTo (Status.other s) b t m = ground arith

cancelled-agrees : (s : DeliveryStatus) → ¬ (agrees s cancelled ≡ true)
cancelled-agrees pending h = ground arith
cancelled-agrees processing h = ground arith
cancelled-agrees completed h = ground arith
cancelled-agrees permanent_failed h = ground arith
cancelled-agrees (DeliveryStatus.other t) h = ground arith

module _ (digest : Digest) where
  abbrev pub Reached : FakeRepository → Type 0
  Reached r = ReminderSteps digest new_fake_repository r

  pub Reached-IsKept : (r : FakeRepository) → Reached r → IsKept r
  Reached-IsKept r h =
      ReminderSteps-IsKept digest new_fake_repository r h new_fake_repository-IsKept

  -- In a repository built from the empty one, each delivery has its reminder, whose status is the one
  -- the delivery's status says: processing while the delivery is pending or in the hands of a worker,
  -- fired when it is completed and failed when it is given up.
  pub delivery-agrees :
      (r : FakeRepository) (k : String) (d : Delivery)
      → Reached r
      → lookup k r.deliveries ≡ some d
      → (v : Reminder) × (lookup d.reminder_id r.reminders ≡ some v)
        × (agrees d.status v.status ≡ true)
  delivery-agrees r k d h e = (Reached-IsKept r h).sound.agreed k d e

  -- In a repository built from the empty one, no reminder has two deliveries.
  pub delivery_once :
      (r : FakeRepository) (j k : String) (d e : Delivery)
      → Reached r
      → lookup j r.deliveries ≡ some d
      → lookup k r.deliveries ≡ some e
      → d.reminder_id ≡ e.reminder_id
      → j ≡ k
  delivery_once r j k d e h p q same = (Reached-IsKept r h).sound.once j k d e p q same

  -- From a repository built from the empty one, any call keeps every reminder, and leaves its status
  -- or moves it as `CanTransition` says.
  pub step-can_transition :
      (r r' : FakeRepository) (id : String) (v : Reminder)
      → Reached r
      → ReminderStep digest r r'
      → lookup id r.reminders ≡ some v
      → (u : Reminder) × (lookup id r'.reminders ≡ some u)
        × ((u.status ≡ v.status) ⊎ (can_transition v.status u.status ≡ true))
  step-can_transition r r' id v h s e =
      ReminderStep-Follows digest r r' s (Reached-IsKept r h).sound id v e

  terminal_stays :
      (r s : FakeRepository) (id : String) (v : Reminder)
      → IsKept r
      → ReminderSteps digest r s
      → lookup id r.reminders ≡ some v
      → terminal v.status ≡ true
      → (u : Reminder) × (lookup id s.reminders ≡ some u) × (u.status ≡ v.status)
  terminal_stays r s id v k (stay _) e t = (v, e, refl)
  terminal_stays r s id v k (step _ m _ h hs) e t =
      let (w, there, moved) = ReminderStep-Follows digest r m h k.sound id v e in
      let same : w.status ≡ v.status = terminal-MovesTo v.status w.status t moved in
      let (u, at_end, final) =
        terminal_stays m s id w (ReminderStep-IsKept digest r m h k) hs there
          (ground (arith, same)) in
      (u, at_end, ground (arith, same))

  -- When `Cancel` has changed a repository built from the empty one, no sequence of calls gives the
  -- cancelled reminder a delivery.
  pub cancel-silences :
      (r r' s : FakeRepository) (q : MutationInput) (m : MutationResult) (k : String) (d : Delivery)
      → Reached r
      → cancel digest r q ≡ ok (m, r')
      → m.replayed ≡ false
      → ReminderSteps digest r' s
      → lookup k s.deliveries ≡ some d
      → d.reminder_id ≢ q.target.id
  cancel-silences r r' s q m k d h c fresh hs there whose =
      let kept = Reached-IsKept r h in
      let kept' = ReminderStep-IsKept digest r r' (by_mutate r r' q true m c) kept in
      let kept_s = ReminderSteps-IsKept digest r' s hs kept' in
      elim (mutate-Changes digest r r' q true m c) [
        | inl (_, old) ↦ ground arith
        | inr (v, next, found, _, same, stopped, rs, _, _) ↦
            let at : next.id ≡ q.target.id =
              ground (arith, same, kept.sound.own_id q.target.id v found) in
            let stored : lookup q.target.id r'.reminders ≡ some next =
              ground (arith, rs, at, lookup-insert_self next.id next r.reminders) in
            let (u, at_end, final) =
              terminal_stays r' s q.target.id next kept' hs stored (ground (arith, stopped)) in
            let (w, there_w, fits) = kept_s.sound.agreed k d there in
            cancelled-agrees d.status (ground (arith, final, stopped, whose, at_end, there_w, fits))
      ]
