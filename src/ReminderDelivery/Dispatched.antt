-- ===== src/ReminderDelivery/Dispatched.antt =====
-- internal/reminderdelivery/runtime.go: how a reminder stands that a dispatcher has claimed and
-- committed.
use Prim.Native.String.{◌++◌ as append}
use text.Mathlib.TextPositions.{eq_refl}
use harness_loop_agent.Base.{
  ℕ, ◌≡◌, refl, ◌⊎◌, inl, inr, String, Bool, true, false, List, ◌∷◌, none, some, ok, Option-cases,
  Bool-cases, arith, eq_iff, str_eq, All, subst,
}
use harness_loop_agent.Base.Dict.{lookup, lookup-insert}
use harness_loop_agent.Base.Word.{Time, inc}
use harness_loop_agent.Base.Text.{decimal}
use harness_loop_agent.Reminder.{Reminder, Status, is_scheduled}
use harness_loop_agent.Reminder.Store.{FakeRepository, Delivery, pending}
use harness_loop_agent.Reminder.Store.Deliveries.{
  commit_occurrence, commit_fresh, delivery_of, CommitOccurrenceInput,
}
use harness_loop_agent.Reminder.Settled.{commit_occurrence-Commits}
use harness_loop_agent.ReminderDelivery.Dispatcher.{commit_input, occurrence}

-- The key of the occurrence of a reminder at a row version.
abbrev pub at_version : String → ℕ → String
at_version id n = append id (append ":" (decimal n))

-- The reminder under the key is being processed, and its last row version but one has an occurrence,
-- whose delivery is there, pending, with the reminder's content and owner.
abbrev pub Committed : FakeRepository → String → Type 0
Committed r k =
    (u : Reminder) × (n : ℕ) × (d : Delivery) × (lookup k r.reminders ≡ some u)
    × (u.status ≡ Status.processing)
    × (u.claim ≡ none)
    × (u.row_version ≡ inc n)
    × (lookup (at_version u.id n) r.occurrences ≡ some (at_version u.id n))
    × (lookup (at_version u.id n) r.deliveries ≡ some d)
    × (d.reminder_id ≡ u.id)
    × (d.status ≡ pending)
    × (d.content ≡ u.content)
    × (d.owner ≡ u.owner)

-- The reminder under the key is scheduled, and the occurrence of its row version is known: for such a
-- one `CommitOccurrence` is a replay.
abbrev pub Replayed : FakeRepository → String → Type 0
Replayed r k =
    (u : Reminder) × (id : String) × (lookup k r.reminders ≡ some u)
    × (is_scheduled u.status ≡ true)
    × (lookup (at_version u.id u.row_version) r.occurrences ≡ some id)

abbrev pub Done : FakeRepository → String → Type 0
Done r k = Committed r k ⊎ Replayed r k

-- Known occurrences stay known, and their deliveries stay.
abbrev pub Keeps : FakeRepository → FakeRepository → Type 0
Keeps r r' =
    (key id : String)
    → lookup key r.occurrences ≡ some id
    → (lookup key r'.occurrences ≡ some id) × (lookup key r'.deliveries ≡ lookup key r.deliveries)

pub Keeps-trans : (r s t : FakeRepository) → Keeps r s → Keeps s t → Keeps r t
Keeps-trans r s t f g key id h =
    let (there, same) = f key id h in
    let (there', same') = g key id there in (there', ground (arith, same, same'))

pub Done-kept :
    (r r' : FakeRepository) (k : String)
    → lookup k r'.reminders ≡ lookup k r.reminders
    → Keeps r r'
    → Done r k
    → Done r' k
Done-kept r r' k same keeps
      (inl (u, n, d, there, firing, freed, next, known, found, whose, waits, content, owner)) =
    let (known', same') = keeps (at_version u.id n) (at_version u.id n) known in
    inl (
      u,
      n,
      d,
      ground (arith, same, there),
      firing,
      freed,
      next,
      known',
      ground (arith, same', found),
      whose,
      waits,
      content,
      owner,
    )
Done-kept r r' k same keeps (inr (u, id, there, free, known)) =
    let (known', _) = keeps (at_version u.id u.row_version) id known in
    inr (u, id, ground (arith, same, there), free, known')

pub commit-Keeps :
    (r r' : FakeRepository) (q : CommitOccurrenceInput) (d : Delivery) (old : Bool)
    → commit_occurrence r q ≡ ok (d, old, r')
    → Keeps r r'
commit-Keeps r r' q d old h key id known = elim (commit_occurrence-Commits r r' q d old h) [
  | inl (same, _) ↦ (ground (arith, same, known), ground (arith, same))
  | inr (v, next, _, new, _, _, _, _, _, made, _, ds, os) ↦
      let other : str_eq q.occurrence_id key ≡ false =
        ground (arith, new, known, eq_iff q.occurrence_id key) in
      (
        ground (arith, os, known, other, lookup-insert q.occurrence_id key d.id r.occurrences),
        ground (arith, ds, made, other, lookup-insert d.id key d r.deliveries),
      )
]

-- A reminder that is stored, scheduled and held is committed, or its occurrence is known.
pub commit-Done :
    (r r' : FakeRepository) (now : Time) (token : String) (v : Reminder) (d : Delivery) (old : Bool)
    → lookup v.id r.reminders ≡ some v
    → is_scheduled v.status ≡ true
    → commit_occurrence r (commit_input now token v) ≡ ok (d, old, r')
    → Done r' v.id
unfolding commit_occurrence commit_fresh
commit-Done r r' now token v d old found free h =
    let q = commit_input now token v in
    let next : Reminder = record v {
      status = Status.processing;
      row_version = inc v.row_version;
      claim = none;
      updated_at = now;
    } in
    let made = delivery_of q v in
    elim (Option-cases (lookup (occurrence v) r.occurrences)) [
      | inr (id, m) ↦ inr (v, id, ground (arith, found, m), free, ground (arith, found, m))
      | inl m ↦ inl (
        next,
        v.row_version,
        made,
        ground (arith, found, m, lookup-insert v.id v.id next r.reminders, eq_refl v.id),
        refl,
        refl,
        refl,
        ground (
          arith,
          found,
          m,
          lookup-insert (occurrence v) (occurrence v) (occurrence v) r.occurrences,
          eq_refl (occurrence v),
        ),
        ground (
          arith,
          found,
          m,
          lookup-insert (occurrence v) (occurrence v) made r.deliveries,
          eq_refl (occurrence v),
        ),
        refl,
        refl,
        refl,
        refl,
      )
    ]

-- A reminder is none of those in hand and stays as it is, or has been dealt with.
abbrev pub Handled : FakeRepository → FakeRepository → List Reminder → String → Type 0
Handled r r' vs k =
    (All (λ v. str_eq v.id k ≡ false) vs × (lookup k r'.reminders ≡ lookup k r.reminders))
    ⊎ Done r' k

pub Handled-first :
    (r s t : FakeRepository) (v : Reminder) (vs : List Reminder) (k : String)
    → (str_eq v.id k ≡ false → lookup k s.reminders ≡ lookup k r.reminders)
    → Done s v.id
    → Keeps s t
    → Handled s t vs k
    → Handled r t (v ∷ vs) k
Handled-first r s t v vs k others done keeps (inr after_all) = inr after_all
Handled-first r s t v vs k others done keeps (inl (apart, same)) =
    elim (Bool-cases (str_eq v.id k)) [
      | inl b ↦
          inr (Done-kept s t k same keeps (subst (Done s) (ground (arith, eq_iff v.id k)) done))
      | inr b ↦ inl ((b, apart), ground (arith, same, others b))
    ]
