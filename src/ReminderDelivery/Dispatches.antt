-- ===== src/ReminderDelivery/Dispatches.antt =====
-- internal/reminderdelivery/runtime.go: the dispatcher over the repository in memory.
use text.Mathlib.TextPositions.{eq_refl}
use harness_loop_agent.Base.{
  ℕ, zero, suc, ◌≡◌, ◌≢◌, ◌<◌, ◌⊎◌, refl, sym, subst, inl, inr, String, Bool, true, false, List, [],
  ◌∷◌, none, some, ok, Result-cases, Option-cases, ◌-◌, Bool-cases, arith, str_eq, All, All-both,
  All-weaken, length, if◌then◌else◌,
}
use harness_loop_agent.Base.Dict.{lookup, lookup-insert}
use harness_loop_agent.Base.Sort.{Pairwise}
use harness_loop_agent.Base.Word.{Time, inc, slt, is_negative, word_mod}
use harness_loop_agent.Base.Text.{trim}
use harness_loop_agent.Reminder.{Reminder, Digest, is_scheduled}
use harness_loop_agent.Reminder.Store.{FakeRepository, Delivery}
use harness_loop_agent.Reminder.Store.Claims.{DueClaimRequest, claim_due}
use harness_loop_agent.Reminder.Store.Deliveries.{commit_occurrence, commit_fresh, is_held}
use harness_loop_agent.Reminder.Settled.{commit_occurrence-Commits}
use harness_loop_agent.Reminder.Claimed.{
  Made, Apart, claim_due-Made, claim_due_others, Waits, claim_due-Waits, claim_due-Apart,
}
use harness_loop_agent.Reminder.Steps.{IsKept, by_claim, by_commit, ReminderStep-IsKept}
use harness_loop_agent.ReminderDelivery.{Ticked}
use harness_loop_agent.ReminderDelivery.Dispatcher.{
  DispatcherConfig, new_dispatcher, due_request, commit_input, commit_each, dispatch_batches,
  dispatch_tick,
}
use harness_loop_agent.ReminderDelivery.Dispatched.{
  Committed, Replayed, Done, Done-kept, Keeps, Keeps-trans, commit-Keeps, commit-Done, Handled,
  Handled-first,
}
use harness_loop_agent.ReminderDelivery.Fake.{fake, beside, observe_beside}

-- A reminder is stored, scheduled and held under the token.
abbrev pub Ready : FakeRepository → Time → String → Reminder → Type 0
Ready r now token v =
    (lookup v.id r.reminders ≡ some v)
    × (is_scheduled v.status ≡ true)
    × (is_held v.claim token now ≡ true)

commit-Ready :
    (r : FakeRepository) (now : Time) (token : String) (v : Reminder)
    → Ready r now token v
    → (d : Delivery) × (old : Bool) × (r' : FakeRepository) × (commit_occurrence r
          (commit_input now token v)
        ≡ ok (d, old, r'))
unfolding commit_occurrence commit_fresh
commit-Ready r now token v h =
    elim (Result-cases (commit_occurrence r (commit_input now token v))) [
      | inl ((d, old, r'), e) ↦ (d, old, r', e)
      | inr (f, e) ↦ ground arith
    ]

commit_others :
    (r r' : FakeRepository) (now : Time) (token : String) (v : Reminder) (d : Delivery) (old : Bool)
    → Ready r now token v
    → commit_occurrence r (commit_input now token v) ≡ ok (d, old, r')
    → (k : String) → str_eq v.id k ≡ false
    → lookup k r'.reminders ≡ lookup k r.reminders
commit_others r r' now token v d old h e k other =
    elim (commit_occurrence-Commits r r' (commit_input now token v) d old e) [
      | inl (same, _) ↦ ground (arith, same)
      | inr (u, next, found, _, _, _, _, _, _, _, rs, _, _) ↦
          ground (arith, rs, lookup-insert u.id k next r.reminders)
    ]

Made-Ready :
    (r r' : FakeRepository) (c : DispatcherConfig) (now : Time) (token : String) (v : Reminder)
    → new_dispatcher c ≡ ok c
    → Made r r' (due_request c now token) v
    → Ready r' now token v
unfolding new_dispatcher
Made-Ready r r' c now token v valid (u, found, due, made, stored) =
    (stored, ground (arith, made, due), ground (arith, made, eq_refl token, valid))

claim-Keeps :
    (r r' : FakeRepository) (q : DueClaimRequest) (out : List Reminder)
    → claim_due r q ≡ ok (out, r')
    → Keeps r r'
unfolding claim_due
claim-Keeps r r' q out e key id h = (ground arith, ground arith)

claim_due_ok :
    (r : FakeRepository) (c : DispatcherConfig) (now : Time) (token : String)
    → new_dispatcher c ≡ ok c
    → now ≢ 0
    → str_eq token "" ≡ false
    → (out : List Reminder) × (r' : FakeRepository) × (claim_due r (due_request c now token)
        ≡ ok (out, r'))
unfolding claim_due new_dispatcher
claim_due_ok r c now token valid clocked named =
    elim (Result-cases (claim_due r (due_request c now token))) [
      | inl ((out, r'), e) ↦ (out, r', e)
      | inr (f, e) ↦ ground arith
    ]

-- A tick ends without an error, and the repository is as sound as before.
abbrev pub EndsWell : {X : Type 0} → Ticked (FakeRepository × X) → Type 0
EndsWell t = (t.1 ≡ none) × IsKept t.2.0

module _ (digest : Digest) (X : Type 0) (clock : X → Time × X) (new_token : X → String × X)
    (observe : String → String → String → ℕ → X → X) where
  abbrev commits :
      Time → String → List Reminder → ℕ → (FakeRepository × X) → Ticked (FakeRepository × X)
  commits now token vs total w =
      commit_each (fake X) (beside clock) (beside new_token) (observe_beside observe) now token vs
        total w

  commit_each-next :
      (now : Time) (token : String) (v : Reminder) (vs : List Reminder) (total : ℕ)
      (r r' : FakeRepository) (x : X) (d : Delivery) (old : Bool)
      → commit_occurrence r (commit_input now token v) ≡ ok (d, old, r')
      → commits now token (v ∷ vs) total (r, x)
        ≡ commits now token vs (inc total) (r', observe "commit" "processing" "" 0 x)
  unfolding commit_each
  commit_each-next now token v vs total r r' x d old e = ground (arith, e)

  -- A run over reminders in hand ends without an error, keeps the repository, and deals with them all.
  abbrev Dispatches : FakeRepository → List Reminder → String → Ticked (FakeRepository × X) → Type 0
  Dispatches r vs k t = EndsWell t × Handled r t.2.0 vs k × Keeps r t.2.0

  commit_each-Dispatches :
      (now : Time) (token k : String) (vs : List Reminder) (total : ℕ) (w : FakeRepository × X)
      → IsKept w.0
      → All (Ready w.0 now token) vs
      → Pairwise Apart vs
      → Dispatches w.0 vs k (commits now token vs total w)
  unfolding commit_each
  commit_each-Dispatches now token k [] total w kept ready apart =
      ((refl, kept), inl (tt, refl), λ key id h. (h, refl))
  commit_each-Dispatches now token k (v ∷ vs) total w kept ready apart =
      let (d, old, r', e) = commit-Ready w.0 now token v ready.0 in
      let kept' =
        ReminderStep-IsKept digest w.0 r' (by_commit w.0 r' (commit_input now token v) d old e)
          kept in
      let others = commit_others w.0 r' now token v d old ready.0 e in
      let x = observe "commit" "processing" "" 0 w.1 in
      let ready' =
        All-weaken (λ u. Ready w.0 now token u × Apart v u) (Ready r' now token)
          (λ u ((found, free, held), other). (ground (arith, others u.id other, found), free, held))
          vs (All-both (Ready w.0 now token) (Apart v) vs ready.1 apart.0) in
      let (fine, rest, keeps) =
        commit_each-Dispatches now token k vs (inc total) (r', x) kept' ready' apart.1 in
      let last = (commits now token vs (inc total) (r', x)).2.0 in
      let done = commit-Done w.0 r' now token v d old ready.0.0 ready.0.1 e in
      subst (Dispatches w.0 (v ∷ vs) k)
        (sym (commit_each-next now token v vs total w.0 r' w.1 d old e))
        (
          fine,
          Handled-first w.0 r' last v vs k (others k) done keeps rest,
          Keeps-trans w.0 r' last (commit-Keeps w.0 r' (commit_input now token v) d old e) keeps,
        )

  abbrev dispatches : DispatcherConfig → ℕ → ℕ → (FakeRepository × X) → Ticked (FakeRepository × X)
  dispatches c left total w =
      dispatch_batches (fake X) (beside clock) (beside new_token) (observe_beside observe) c left
        total w

  dispatch_batches-next :
      (c : DispatcherConfig) (left total : ℕ) (w : FakeRepository × X) (out : List Reminder)
      (r' : FakeRepository)
      → str_eq (trim (new_token (clock w.1).1).0) "" ≡ false
      → claim_due w.0 (due_request c (clock w.1).0 (trim (new_token (clock w.1).1).0))
        ≡ ok (out, r')
      → (let t =
            commits
              (clock w.1).0
              (trim (new_token (clock w.1).1).0)
              out
              total
              (r', (new_token (clock w.1).1).1) in
          t.1 ≡ none
          → dispatches c (suc left) total w ≡ (
              if slt (length out) c.batch_size
              then (t.0, none, t.2)
              else dispatches c left t.0 t.2))
  unfolding dispatch_batches
  dispatch_batches-next c left total w out r' given e fine = ground (arith, given, e, fine)

  module _ (clocked : (x : X) → (clock x).0 ≢ 0)
      (named : (x : X) → str_eq (trim (new_token x).0) "" ≡ false) (c : DispatcherConfig)
      (valid : new_dispatcher c ≡ ok c) where
    -- Where there is a batch, a reminder that it leaves was not due or the repository has more than a
    -- batch holds.
    abbrev Idle : ℕ → (FakeRepository × X) → String → Type 0
    Idle zero w k = Unit
    Idle (suc left) w k =
        (lookup k w.0.reminders ≡ none)
        ⊎ ((v : Reminder) × (lookup k w.0.reminders ≡ some v)
            × Waits w.0 c.batch_size (clock w.1).0 v)

    abbrev Left : ℕ → (FakeRepository × X) → String → FakeRepository → Type 0
    Left left w k r = (lookup k r.reminders ≡ lookup k w.0.reminders) × Idle left w k

    -- A run of batches ends without an error, keeps the repository, and deals with the reminder under
    -- the key or leaves it.
    abbrev Ran : ℕ → (FakeRepository × X) → String → Ticked (FakeRepository × X) → Type 0
    Ran left w k t = EndsWell t × (Left left w k t.2.0 ⊎ Done t.2.0 k) × Keeps w.0 t.2.0

    dispatch_batches-Ran :
        (k : String) (left total : ℕ) (w : FakeRepository × X)
        → IsKept w.0
        → Ran left w k (dispatches c left total w)
    unfolding dispatch_batches
    dispatch_batches-Ran k zero total w kept = ((refl, kept), inl (refl, tt), λ key id h. (h, refl))
    dispatch_batches-Ran k (suc left) total w kept =
        let now = (clock w.1).0 in
        let x2 = (new_token (clock w.1).1).1 in
        let token = trim (new_token (clock w.1).1).0 in
        let q = due_request c now token in
        let given = named (clock w.1).1 in
        let (out, r', e) = claim_due_ok w.0 c now token valid (clocked w.1) given in
        let kept' = ReminderStep-IsKept digest w.0 r' (by_claim w.0 r' q out e) kept in
        let (_, handed) = claim_due-Made w.0 r' q out kept.sound kept.reminders_once e in
        let apart = claim_due-Apart w.0 r' q out kept.sound kept.reminders_once e in
        let ready =
          All-weaken (Made w.0 r' q) (Ready r' now token)
            (λ v h. Made-Ready w.0 r' c now token v valid h) out handed in
        let done = commits now token out total (r', x2) in
        let ((fine, kept''), dealt, keeps) =
          commit_each-Dispatches now token k out total (r', x2) kept' ready apart in
        let keeps' = Keeps-trans w.0 r' done.2.0 (claim-Keeps w.0 r' q out e) keeps in
        let batch : Left (suc left) w k done.2.0 ⊎ Done done.2.0 k = elim dealt [
          | inr finished ↦ inr finished
          | inl (other, same) ↦ inl (
            ground (
              arith,
              same,
              claim_due_others w.0 r' q out k kept.sound kept.reminders_once e other,
            ),
            elim (Option-cases (lookup k w.0.reminders)) [
              | inl n ↦ inl n
              | inr (v, n) ↦
                  inr (
                    v,
                    n,
                    claim_due-Waits w.0 r' q out k v kept.sound kept.reminders_once e n other,
                  )
            ],
          )
        ] in
        let next = dispatch_batches-next c left total w out r' given e fine in
        subst (Ran (suc left) w k) (sym next) (elim (Bool-cases (slt (length out) c.batch_size)) [
          | inl s ↦ rw s ((refl, kept''), batch, keeps')
          | inr s ↦
              let (well, rest, keeps'') = dispatch_batches-Ran k left done.0 done.2 kept'' in
              let last = (dispatches c left done.0 done.2).2.0 in
              rw s (
                well,
                elim rest [
                  | inr finished ↦ inr finished
                  | inl (same, _) ↦ elim batch [
                    | inl (same', idle) ↦ inl (ground (arith, same, same'), idle)
                    | inr finished ↦ inr (Done-kept done.2.0 last k same keeps'' finished)
                  ]
                ],
                Keeps-trans w.0 done.2.0 last keeps' keeps'',
              )
        ])

    -- Over the repository in memory, in any state that calls have built, a dispatcher whose
    -- configuration, of 64-bit integers, `NewDispatcher` accepts, whose clock is never at the zero time and whose tokens
    -- are never blank ends each tick without an error, and the repository is as sound as before. Each
    -- reminder that was there is unchanged then, and was not due at the clock's first reading or the
    -- repository had more reminders than a batch holds; or it is being processed without a claim, and
    -- the occurrence of its row version before is known and has a pending delivery with the
    -- reminder's content and owner; or it is scheduled and the occurrence of its row version is known,
    -- so that `CommitOccurrence` is a replay.
    pub dispatch_tick-EndsWell :
        (w : FakeRepository × X) (k : String) (v : Reminder)
        → c.max_batches < word_mod
        → IsKept w.0
        → lookup k w.0.reminders ≡ some v
        → (let t =
              dispatch_tick
                (fake X)
                (beside clock)
                (beside new_token)
                (observe_beside observe)
                c
                w in
            (t.1 ≡ none)
            × IsKept t.2.0
            × (((lookup k t.2.0.reminders ≡ some v) × Waits w.0 c.batch_size (clock w.1).0 v)
                ⊎ Committed t.2.0 k
                ⊎ Replayed t.2.0 k))
    unfolding dispatch_tick new_dispatcher
    dispatch_tick-EndsWell w k v small kept there =
        let left : ℕ = elim (is_negative c.max_batches) [ true ↦ 0 | false ↦ c.max_batches ] in
        let some_left : left ≡ suc (left - 1) = ground (arith, valid) in
        let ((fine, kept'), moved, _) =
          subst (λ n. Ran n w k (dispatches c left 0 w)) some_left
            (dispatch_batches-Ran k left 0 w kept) in
        (
          fine,
          kept',
          elim moved [
            | inr done ↦ inr done
            | inl (same, idle) ↦ elim idle [
              | inl n ↦ ground (arith, n, there)
              | inr (u, n, waits) ↦
                  let is_v : u ≡ v = ground (arith, n, there) in
                  inl (
                    ground (arith, same, there),
                    subst (Waits w.0 c.batch_size (clock w.1).0) is_v waits,
                  )
            ]
          ],
        )
