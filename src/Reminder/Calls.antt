-- ===== src/Reminder/Calls.antt =====
-- internal/reminder/fake_repository.go: what each call does to the reminders, the deliveries and the
-- occurrences.
use harness_loop_agent.Base.{
  ℕ, ◌≡◌, refl, sym, subst, ◌⊎◌, inl, inr, String, Bool, true, false, List, [], ◌∷◌, some, ok,
  Result-cases, is_some, if◌then◌else◌, arith, Bool-cases, Option-cases, All, All-weaken, All-map,
}
use harness_loop_agent.Base.Word.{Time, inc}
use harness_loop_agent.Base.Dict.{Dict, lookup, insert, lookup-insert, entries-there}
use harness_loop_agent.Base.Sort.{sort, sort-All, take, take-All}
use harness_loop_agent.Reminder.{
  Reminder, Status, scheduled, fired, cancelled, failed, is_scheduled, Digest,
}
use harness_loop_agent.Reminder.Store.{
  FakeRepository, Delivery, DeliveryStatus, pending, processing, completed, permanent_failed,
  CreateInput, MutationInput, MutationResult, create, mutate, mutate_fresh, changed,
  reminder_owner_key,
}
use harness_loop_agent.Reminder.Store.Claims.{
  DueClaimRequest, is_due, due_entries, fires_before, claimed, claim_each, chosen_ids, claim_due,
  renewed, renew_claim,
}
use harness_loop_agent.Reminder.Sound.{agrees, IsSound, store-IsSound}

abbrev pub Sound : FakeRepository → Type 0
Sound r = IsSound r.reminders r.deliveries r.occurrences

pub scheduled-agrees :
    (v : Status) (s : DeliveryStatus) → is_scheduled v ≡ true → agrees s v ≡ false
scheduled-agrees scheduled pending h = refl
scheduled-agrees scheduled processing h = refl
scheduled-agrees scheduled completed h = refl
scheduled-agrees scheduled permanent_failed h = refl
scheduled-agrees scheduled (DeliveryStatus.other t) h = refl
scheduled-agrees (Status.other t) s h = ground arith
scheduled-agrees Status.processing s h = ground arith
scheduled-agrees fired s h = ground arith
scheduled-agrees cancelled s h = ground arith
scheduled-agrees failed s h = ground arith

module _ (digest : Digest) where
  pub create-Sound :
      (r r' : FakeRepository) (q : CreateInput) (m : MutationResult)
      → create digest r q ≡ ok (m, r')
      → Sound r
      → Sound r'
  unfolding create
  create-Sound r r' q m h sound = elim (Option-cases (lookup q.reminder.id r.reminders)) [
    | inl n ↦ ground (
      arith,
      store-IsSound r.reminders r.deliveries r.occurrences q.reminder (λ u e s. ground arith) sound,
    )
    | inr (v, n) ↦ ground arith
  ]

  changed-id :
      (q : MutationInput) (cancel : Bool) (r : FakeRepository) (v next : Reminder)
      → changed digest r q cancel v ≡ ok next
      → (next.id ≡ v.id) × (next.status ≡ (if cancel then cancelled else v.status))
  unfolding changed
  changed-id q cancel r v next h = ground arith

  -- A change finds a reminder that is scheduled, and stores it anew under its id.
  abbrev pub Changes : FakeRepository → FakeRepository → MutationInput → Bool → Type 0
  Changes r r' q cancel =
      (v next : Reminder) × (lookup q.target.id r.reminders ≡ some v)
      × (is_scheduled v.status ≡ true)
      × (next.id ≡ v.id)
      × (next.status ≡ (if cancel then cancelled else v.status))
      × (r'.reminders ≡ insert next.id next r.reminders)
      × (r'.deliveries ≡ r.deliveries)
      × (r'.occurrences ≡ r.occurrences)

  mutate_fresh-Changes :
      (r r' : FakeRepository) (q : MutationInput) (cancel : Bool) (key : String)
      (m : MutationResult)
      → mutate_fresh digest r q cancel key ≡ ok (m, r')
      → Changes r r' q cancel
  unfolding mutate_fresh
  mutate_fresh-Changes r r' q cancel key m h =
      elim (Option-cases (lookup q.target.id r.reminders)) [
        | inl n ↦ ground arith
        | inr (v, n) ↦ elim (Result-cases (changed digest r q cancel v)) [
          | inl (next, e) ↦
              let same = changed-id q cancel r v next e in
              (
                v,
                record next { row_version = inc v.row_version; updated_at = q.occurred_at },
                n,
                ground arith,
                ground arith,
                ground arith,
                ground arith,
                ground arith,
                ground arith,
              )
          | inr (e, f) ↦ ground arith
        ]
      ]

  pub mutate-Changes :
      (r r' : FakeRepository) (q : MutationInput) (cancel : Bool) (m : MutationResult)
      → mutate digest r q cancel ≡ ok (m, r')
      → ((r' ≡ r) × (m.replayed ≡ true)) ⊎ Changes r r' q cancel
  unfolding mutate
  mutate-Changes r r' q cancel m h =
      elim (Option-cases (lookup (reminder_owner_key q.owner q.idempotency_key) r.idempotency)) [
        | inl n ↦ inr (
            mutate_fresh-Changes r r' q cancel (reminder_owner_key q.owner q.idempotency_key) m
              (ground arith))
        | inr (old, n) ↦ inl (ground arith, ground arith)
      ]

  pub mutate-Sound :
      (r r' : FakeRepository) (q : MutationInput) (cancel : Bool) (m : MutationResult)
      → mutate digest r q cancel ≡ ok (m, r')
      → Sound r
      → Sound r'
  mutate-Sound r r' q cancel m h sound = elim (mutate-Changes r r' q cancel m h) [
    | inl (e, _) ↦ subst Sound (sym e) sound
    | inr (v, next, found, free, same, _, rs, ds, os) ↦ ground (
      arith,
      rs,
      ds,
      os,
      sound.own_id q.target.id v found,
      store-IsSound r.reminders r.deliveries r.occurrences next
          (λ u e s a. ground (arith, scheduled-agrees u.status s, sound.own_id q.target.id v found))
          sound,
    )
  ]

-- Reminders that are all there are claimed, one after the other.
claim_each-Sound :
    (q : DueClaimRequest) (ids : List String) (rs : Dict Reminder) (ds : Dict Delivery)
    (os : Dict String)
    → All (λ id. is_some (lookup id rs) ≡ true) ids
    → IsSound rs ds os
    → IsSound (claim_each q ids rs).1 ds os
claim_each-Sound q [] rs ds os there h = h
claim_each-Sound q (id ∷ ids) rs ds os there h = elim (Option-cases (lookup id rs)) [
  | inl n ↦ ground arith
  | inr (v, n) ↦
      let v' = claimed q v in
      let at : v.id ≡ id = h.own_id id v n in
      rw n (
        claim_each-Sound q ids (insert id v' rs) ds os
          (All-weaken (λ k. is_some (lookup k rs) ≡ true)
            (λ k. is_some (lookup k (insert id v' rs)) ≡ true)
            (λ k e. ground (arith, lookup-insert id k v' rs)) ids there.1)
          (subst (λ k. IsSound (insert k v' rs) ds os) at
            (store-IsSound rs ds os v' (λ u e s a. ground (arith, at, n)) h)))
]

pub due_entries-All :
    (now : Time) (P : String × Reminder → Type 0) (rs : Dict Reminder)
    → All P rs
    → All (λ e. P e × (is_due e.1 now ≡ true)) (due_entries now rs)
due_entries-All now P [] h = tt
due_entries-All now P (e ∷ rs) h = elim (Bool-cases (is_due e.1 now)) [
  | inl d ↦ rw d ((h.0, d), due_entries-All now P rs h.1)
  | inr d ↦ rw d (due_entries-All now P rs h.1)
]

chosen_ids-there :
    (q : DueClaimRequest) (rs : Dict Reminder)
    → All (λ id. is_some (lookup id rs) ≡ true) (chosen_ids q rs)
chosen_ids-there q rs =
    All-map (λ e. e.0) (λ id. is_some (lookup id rs) ≡ true)
      (take q.limit (sort fires_before (due_entries q.now rs)))
      (take-All (λ e. is_some (lookup e.0 rs) ≡ true) q.limit
        (sort fires_before (due_entries q.now rs))
        (sort-All fires_before (λ e. is_some (lookup e.0 rs) ≡ true) (due_entries q.now rs)
          (All-weaken (λ e. (is_some (lookup e.0 rs) ≡ true) × (is_due e.1 q.now ≡ true))
            (λ e. is_some (lookup e.0 rs) ≡ true) (λ e h. h.0) (due_entries q.now rs)
            (due_entries-All q.now (λ e. is_some (lookup e.0 rs) ≡ true) rs (entries-there rs)))))

pub claim_due-Sound :
    (r r' : FakeRepository) (q : DueClaimRequest) (out : List Reminder)
    → claim_due r q ≡ ok (out, r')
    → Sound r
    → Sound r'
unfolding claim_due
claim_due-Sound r r' q out h sound = ground (
  arith,
  claim_each-Sound q (chosen_ids q r.reminders) r.reminders r.deliveries r.occurrences
      (chosen_ids-there q r.reminders) sound,
)

pub renew_claim-Sound :
    (r r' : FakeRepository) (id : String) (version : ℕ) (token : String) (until : Time)
    → renew_claim r id version token until ≡ ok r'
    → Sound r
    → Sound r'
unfolding renew_claim
renew_claim-Sound r r' id version token until h sound =
    elim (Option-cases (lookup id r.reminders)) [
      | inl n ↦ ground arith
      | inr (v, n) ↦ elim (Option-cases v.claim) [
        | inl e ↦ ground arith
        | inr (c, e) ↦ ground (
          arith,
          sound.own_id id v n,
          store-IsSound r.reminders r.deliveries r.occurrences (renewed until v c)
              (λ u e s a. ground (arith, sound.own_id id v n)) sound,
        )
      ]
    ]
