-- ===== src/Reminder/Claimed.antt =====
-- internal/reminder/fake_repository.go: what `ClaimDue` hands out.
use harness_loop_agent.Base.{
  ℕ, ◌+◌, ◌%◌, leb, if◌then◌else◌, ◌⊎◌, none, Option-cases, ◌≤◌, ◌<◌, ◌≡◌, refl, sym, subst, inl,
  inr, String, true, false, List, [], ◌∷◌, some, ok, arith, eq_iff, str_eq, Bool-cases, All,
  All-weaken, All-map, All-both, map, length,
}
use harness_loop_agent.Base.Dict.{Dict, lookup, insert, lookup-insert, Distinct, Distinct-entries}
use harness_loop_agent.Base.Sort.{
  sort, sort-All, All-sort, length-sort, All-take, sort-Pairwise, take, take-All, take-Pairwise,
  length-take, Pairwise,
}
use harness_loop_agent.Base.Word.{Time, word_mod}
use harness_loop_agent.Reminder.{
  Reminder, Claim, Status, scheduled, processing, fired, cancelled, failed, other, is_scheduled,
}
use harness_loop_agent.Reminder.Store.{FakeRepository, or_zero_reminder}
use harness_loop_agent.Reminder.Store.Claims.{
  DueClaimRequest, is_due, due_entries, fires_before, claimed, claim_each, claim_due,
}
use harness_loop_agent.Reminder.Calls.{Sound, due_entries-All}

abbrev pub Entry : Type 0
Entry = String × Reminder

abbrev pub Differ : Entry → Entry → Type 0
Differ a b = str_eq a.0 b.0 ≡ false

abbrev pub Stored : Dict Reminder → Entry → Type 0
Stored rs e = lookup e.0 rs ≡ some e.1

due_entries-Differ :
    (now : Time) (rs : Dict Reminder) → Distinct rs → Pairwise Differ (due_entries now rs)
due_entries-Differ now [] once = tt
due_entries-Differ now ((k, v) ∷ rs) once =
    let apart : All (Differ (k, v)) (due_entries now rs) =
      All-weaken (λ e. Stored rs e × (is_due e.1 now ≡ true)) (Differ (k, v))
        (λ e h. ground (arith, eq_iff k e.0, once)) (due_entries now rs)
        (due_entries-All now (Stored rs) rs (Distinct-entries rs once.1)) in
    elim (Bool-cases (is_due v now)) [
      | inl d ↦ rw d (apart, due_entries-Differ now rs once.1)
      | inr d ↦ rw d (due_entries-Differ now rs once.1)
    ]

-- The entries whose reminders are claimed.
abbrev pub chosen : DueClaimRequest → Dict Reminder → List Entry
chosen q rs = take q.limit (sort fires_before (due_entries q.now rs))

pub chosen-Differ :
    (q : DueClaimRequest) (rs : Dict Reminder) → Distinct rs → Pairwise Differ (chosen q rs)
chosen-Differ q rs once = take-Pairwise Differ q.limit (sort fires_before (due_entries q.now rs)) (
    sort-Pairwise fires_before Differ (λ a b h. ground (arith, eq_iff a.0 b.0, eq_iff b.0 a.0))
      (due_entries q.now rs) (due_entries-Differ q.now rs once))

pub chosen-due :
    (q : DueClaimRequest) (rs : Dict Reminder)
    → Distinct rs
    → All (λ e. Stored rs e × (is_due e.1 q.now ≡ true)) (chosen q rs)
chosen-due q rs once =
    let P = λ (e : Entry). Stored rs e × (is_due e.1 q.now ≡ true) in
    take-All P q.limit (sort fires_before (due_entries q.now rs)) (
      sort-All fires_before P (due_entries q.now rs)
        (due_entries-All q.now (Stored rs) rs (Distinct-entries rs once)))

Stored-insert :
    (rs : Dict Reminder) (a : Entry) (v : Reminder) (es : List Entry)
    → All (Differ a) es
    → All (Stored rs) es
    → All (Stored (insert a.0 v rs)) es
Stored-insert rs a v [] d h = tt
Stored-insert rs a v (e ∷ es) d h =
    (ground (arith, lookup-insert a.0 e.0 v rs), Stored-insert rs a v es d.1 h.1)

module _ (q : DueClaimRequest) where
  claim_each-others :
      (es : List Entry) (rs : Dict Reminder) (a : Entry)
      → All (Differ a) es
      → lookup a.0 (claim_each q (map (λ e. e.0) es) rs).1 ≡ lookup a.0 rs
  claim_each-others [] rs a d = refl
  claim_each-others (e ∷ es) rs a d =
      let v = claimed q (or_zero_reminder (lookup e.0 rs)) in
      ground (
        arith,
        claim_each-others es (insert e.0 v rs) a d.1,
        lookup-insert e.0 a.0 v rs,
        eq_iff e.0 a.0,
        eq_iff a.0 e.0,
      )

  -- The claims on different entries: what they return, and what they store.
  pub claim_each_lem :
      (es : List Entry) (rs : Dict Reminder)
      → All (Stored rs) es
      → Pairwise Differ es
      → (claim_each q (map (λ e. e.0) es) rs).0 ≡ map (λ e. claimed q e.1) es
  claim_each_lem [] rs h p = refl
  claim_each_lem (e ∷ es) rs h p =
      let v = claimed q e.1 in
      rw h.0 (rw (claim_each_lem es (insert e.0 v rs) (Stored-insert rs e v es p.0 h.1) p.1) refl)

  abbrev pub Claimed : List String → Dict Reminder → Entry → Type 0
  Claimed ids rs e = lookup e.0 (claim_each q ids rs).1 ≡ some (claimed q e.1)

  claim_each-next :
      (e : Entry) (ids : List String) (rs : Dict Reminder)
      → Stored rs e
      → (claim_each q (e.0 ∷ ids) rs).1 ≡ (claim_each q ids (insert e.0 (claimed q e.1) rs)).1
  claim_each-next e ids rs h = rw h refl

  pub claim_each-Claimed :
      (es : List Entry) (rs : Dict Reminder)
      → All (Stored rs) es
      → Pairwise Differ es
      → All (Claimed (map (λ e. e.0) es) rs) es
  claim_each-Claimed [] rs h p = tt
  claim_each-Claimed (e ∷ es) rs h p =
      let v = claimed q e.1 in
      let next = claim_each-next e (map (λ e. e.0) es) rs h.0 in
      (
        subst (λ m. lookup e.0 m ≡ some v) (sym next)
            (ground (
              arith,
              claim_each-others es (insert e.0 v rs) e p.0,
              lookup-insert e.0 e.0 v rs,
              eq_iff e.0 e.0,
            )),
        All-weaken (Claimed (map (λ e. e.0) es) (insert e.0 v rs))
            (Claimed (e.0 ∷ map (λ e. e.0) es) rs)
            (λ a f. subst (λ m. lookup a.0 m ≡ some (claimed q a.1)) (sym next) f) es
            (claim_each-Claimed es (insert e.0 v rs) (Stored-insert rs e v es p.0 h.1) p.1),
      )

-- How the code makes what a claim hands out.
abbrev pub Made : FakeRepository → FakeRepository → DueClaimRequest → Reminder → Type 0
Made r r' q v =
    (u : Reminder) × (lookup v.id r.reminders ≡ some u)
    × (is_due u q.now ≡ true)
    × (v ≡ claimed q u)
    × (lookup v.id r'.reminders ≡ some v)

-- No one holds the claim at the instant.
abbrev pub IsFree : Reminder → Time → Type 0
IsFree u now = (u.claim ≡ none) ⊎ ((c : Claim) × (u.claim ≡ some c) × (c.lease_until ≤ now))

-- What a claim has handed out: the reminder that stood there was scheduled, had reached its time and
-- was free, and the one handed out, which is stored now, is that one under the claim of the request,
-- with the next row version, updated at the instant of the request.
abbrev pub Handed : FakeRepository → FakeRepository → DueClaimRequest → Reminder → Type 0
Handed r r' q v =
    (u : Reminder) × (lookup v.id r.reminders ≡ some u)
    × (u.status ≡ scheduled)
    × (u.next_fire_at ≤ q.now)
    × IsFree u q.now
    × (v ≡ record u {
      claim = some (record { token = q.token; lease_until = q.now + q.lease_duration });
      row_version = (u.row_version + 1) % word_mod;
      updated_at = q.now;
    })
    × (lookup v.id r'.reminders ≡ some v)

is_scheduled-scheduled : (s : Status) → is_scheduled s ≡ true → s ≡ scheduled
is_scheduled-scheduled scheduled h = refl
is_scheduled-scheduled processing h = ground arith
is_scheduled-scheduled fired h = ground arith
is_scheduled-scheduled cancelled h = ground arith
is_scheduled-scheduled failed h = ground arith
is_scheduled-scheduled (other t) h = ground arith

is_due-IsFree : (u : Reminder) (now : Time) → is_due u now ≡ true → IsFree u now
is_due-IsFree u now h = elim (Option-cases u.claim) [
  | inl n ↦ inl n
  | inr (c, n) ↦ inr (c, n, ground (arith, n))
]

Made-Handed :
    (r r' : FakeRepository) (q : DueClaimRequest) (v : Reminder) → Made r r' q v → Handed r r' q v
Made-Handed r r' q v (u, found, due, made, stored) = (
  u,
  found,
  is_scheduled-scheduled u.status (ground arith),
  ground arith,
  is_due-IsFree u q.now due,
  made,
  stored,
)

claim_due-out :
    (r r' : FakeRepository) (q : DueClaimRequest) (out : List Reminder)
    → Distinct r.reminders
    → claim_due r q ≡ ok (out, r')
    → out ≡ map (λ e. claimed q e.1) (chosen q r.reminders)
unfolding claim_due
claim_due-out r r' q out once h = ground (
  arith,
  claim_each_lem q (chosen q r.reminders) r.reminders
      (All-weaken (λ e. Stored r.reminders e × (is_due e.1 q.now ≡ true)) (Stored r.reminders)
        (λ e d. d.0) (chosen q r.reminders) (chosen-due q r.reminders once))
      (chosen-Differ q r.reminders once),
)

abbrev pub Apart : Reminder → Reminder → Type 0
Apart u v = str_eq u.id v.id ≡ false

map-Apart :
    (q : DueClaimRequest) (rs : Dict Reminder) (es : List Entry)
    → ((k : String) (v : Reminder) → lookup k rs ≡ some v → v.id ≡ k)
    → All (λ e. Stored rs e × (is_due e.1 q.now ≡ true)) es
    → Pairwise Differ es
    → Pairwise Apart (map (λ e. claimed q e.1) es)
map-Apart q rs [] own h p = tt
map-Apart q rs (e ∷ es) own h p = (
  All-map (λ e. claimed q e.1) (Apart (claimed q e.1)) es
      (All-weaken (λ a. Differ e a × (Stored rs a × (is_due a.1 q.now ≡ true)))
        (λ a. Apart (claimed q e.1) (claimed q a.1))
        (λ a (d, (old, _)). ground (arith, own e.0 e.1 h.0.0, own a.0 a.1 old)) es
        (All-both (Differ e) (λ a. Stored rs a × (is_due a.1 q.now ≡ true)) es p.0 h.1)),
  map-Apart q rs es own h.1 p.1,
)

-- The reminders that `ClaimDue` hands out have different ids.
pub claim_due-Apart :
    (r r' : FakeRepository) (q : DueClaimRequest) (out : List Reminder)
    → Sound r
    → Distinct r.reminders
    → claim_due r q ≡ ok (out, r')
    → Pairwise Apart out
claim_due-Apart r r' q out sound once h = rw (claim_due-out r r' q out once h) (
    map-Apart q r.reminders (chosen q r.reminders) sound.own_id (chosen-due q r.reminders once)
      (chosen-Differ q r.reminders once))

unmap-Differ :
    (q : DueClaimRequest) (rs : Dict Reminder) (a : Entry) (es : List Entry)
    → ((k : String) (v : Reminder) → lookup k rs ≡ some v → v.id ≡ k)
    → All (λ e. Stored rs e × (is_due e.1 q.now ≡ true)) es
    → All (λ v. str_eq v.id a.0 ≡ false) (map (λ e. claimed q e.1) es)
    → All (Differ a) es
unmap-Differ q rs a [] own h p = tt
unmap-Differ q rs a (e ∷ es) own h p = (
  ground (arith, p.0, own e.0 e.1 h.0.0, eq_iff a.0 e.0, eq_iff e.0 a.0),
  unmap-Differ q rs a es own h.1 p.1,
)

-- A reminder that is not handed out stays as it is.
pub claim_due_others :
    (r r' : FakeRepository) (q : DueClaimRequest) (out : List Reminder) (k : String)
    → Sound r
    → Distinct r.reminders
    → claim_due r q ≡ ok (out, r')
    → All (λ v. str_eq v.id k ≡ false) out
    → lookup k r'.reminders ≡ lookup k r.reminders
unfolding claim_due
claim_due_others r r' q out k sound once h apart_from =
    let es = chosen q r.reminders in
    let a : Entry = (k, or_zero_reminder none) in
    let apart =
      unmap-Differ q r.reminders a es sound.own_id (chosen-due q r.reminders once)
        (subst (All (λ v. str_eq v.id k ≡ false)) (claim_due-out r r' q out once h) apart_from) in
    ground (arith, claim_each-others q es r.reminders a apart)

length-due_entries : (now : Time) (rs : Dict Reminder) → length (due_entries now rs) ≤ length rs
length-due_entries now [] = omega arith
length-due_entries now (e ∷ rs) = ground (arith, length-due_entries now rs)

due_entries-none :
    (now : Time) (rs : Dict Reminder) (a : Entry)
    → lookup a.0 rs ≡ some a.1
    → is_due a.1 now ≡ true
    → All (Differ a) (due_entries now rs)
    → ⊥
unfolding lookup
due_entries-none now [] a found due apart = ground arith
due_entries-none now (e ∷ rs) a found due apart =
    let more = λ (e_other : str_eq e.0 a.0 ≡ false) (rest : All (Differ a) (due_entries now rs)).
      due_entries-none now rs a (ground arith) due rest in
    elim (Bool-cases (is_due e.1 now)) [
      | inl d ↦
          let (here, rest) : All (Differ a) (e ∷ due_entries now rs) =
            subst (λ b. All (Differ a) (if b then e ∷ due_entries now rs else due_entries now rs)) d
              apart in
          more (ground (arith, eq_iff a.0 e.0, eq_iff e.0 a.0)) rest
      | inr d ↦
          let rest : All (Differ a) (due_entries now rs) =
            subst (λ b. All (Differ a) (if b then e ∷ due_entries now rs else due_entries now rs)) d
              apart in
          more
            (elim (Bool-cases (str_eq e.0 a.0)) [
              | inl same ↦ ground arith
              | inr other_key ↦ other_key
            ])
            rest
    ]

-- The reminder under the key is not due, or there are more reminders than the limit.
abbrev pub Waits : FakeRepository → ℕ → Time → Reminder → Type 0
Waits r limit now v = (is_due v now ≡ false) ⊎ (limit < length r.reminders)

-- A reminder that a claim does not hand out was not due, or there are more reminders than the limit.
pub claim_due-Waits :
    (r r' : FakeRepository) (q : DueClaimRequest) (out : List Reminder) (k : String) (v : Reminder)
    → Sound r
    → Distinct r.reminders
    → claim_due r q ≡ ok (out, r')
    → lookup k r.reminders ≡ some v
    → All (λ u. str_eq u.id k ≡ false) out
    → Waits r q.limit q.now v
claim_due-Waits r r' q out k v sound once h there apart_from =
    let es = due_entries q.now r.reminders in
    let a : Entry = (k, v) in
    let apart =
      unmap-Differ q r.reminders a (chosen q r.reminders) sound.own_id
        (chosen-due q r.reminders once)
        (subst (All (λ u. str_eq u.id k ≡ false)) (claim_due-out r r' q out once h) apart_from) in
    elim (Bool-cases (is_due v q.now)) [
      | inr d ↦ inl d
      | inl d ↦ elim (Bool-cases (leb (length es) q.limit)) [
        | inr many ↦ inr (ground (arith, length-due_entries q.now r.reminders))
        | inl few ↦
            elim (due_entries-none q.now r.reminders a there d (
              All-sort fires_before (Differ a) es (
                All-take (Differ a) q.limit (sort fires_before es)
                  (ground (arith, length-sort fires_before es)) apart))) [ ]
      ]
    ]

length-map_list : {A B : Type 0} (f : A → B) (xs : List A) → length (map f xs) ≡ length xs
length-map_list f [] = refl
length-map_list f (x ∷ xs) = omega (arith, length-map_list f xs)

claimed_leased :
    (q : DueClaimRequest) (u : Reminder) (t : Time)
    → t < q.now + q.lease_duration
    → is_due (claimed q u) t ≡ false
claimed_leased q u t h = ground arith

pub claim_due-Made :
    (r r' : FakeRepository) (q : DueClaimRequest) (out : List Reminder)
    → Sound r
    → Distinct r.reminders
    → claim_due r q ≡ ok (out, r')
    → (length out ≤ q.limit) × All (Made r r' q) out
unfolding claim_due
claim_due-Made r r' q out sound once h =
    let es = chosen q r.reminders in
    let ids : List String = map (λ e. e.0) es in
    let due = chosen-due q r.reminders once in
    let apart = chosen-Differ q r.reminders once in
    let stored =
      All-weaken (λ e. Stored r.reminders e × (is_due e.1 q.now ≡ true)) (Stored r.reminders)
        (λ e d. d.0) es due in
    let made = claim_due-out r r' q out once h in
    let kept : r'.reminders ≡ (claim_each q ids r.reminders).1 = ground arith in
    let handed =
      All-weaken
        (λ e. (Stored r.reminders e × (is_due e.1 q.now ≡ true)) × Claimed q ids r.reminders e)
        (λ e. Made r r' q (claimed q e.1))
        (λ e ((old, d), new).
          let at : e.1.id ≡ e.0 = sound.own_id e.0 e.1 old in
          (
            e.1,
            subst (λ k. lookup k r.reminders ≡ some e.1) (sym at) old,
            d,
            refl,
            subst (λ k. lookup k r'.reminders ≡ some (claimed q e.1)) (sym at)
                (subst (λ m. lookup e.0 m ≡ some (claimed q e.1)) (sym kept) new),
          ))
        es
        (All-both (λ e. Stored r.reminders e × (is_due e.1 q.now ≡ true))
          (Claimed q ids r.reminders) es due (claim_each-Claimed q es r.reminders stored apart)) in
    (
      ground (
        arith,
        made,
        length-map_list (λ (e : Entry). claimed q e.1) es,
        length-take q.limit (sort fires_before (due_entries q.now r.reminders)),
      ),
      rw made (All-map (λ e. claimed q e.1) (Made r r' q) es handed),
    )

-- When `ClaimDue` succeeds on a sound repository, it hands out no more reminders than the limit. Each
-- one stood there scheduled, at or after its time, with no claim or one whose lease had ended, and is
-- stored now as it was but for the claim, which has the token of the request and ends one lease after
-- its instant, the row version, which is the next one modulo 2^64, and the time of the update. At any
-- instant before that lease ends it is due for no call.
pub claim_due-Handed :
    (r r' : FakeRepository) (q : DueClaimRequest) (out : List Reminder) (t : Time)
    → Sound r
    → Distinct r.reminders
    → claim_due r q ≡ ok (out, r')
    → t < q.now + q.lease_duration
    → (length out ≤ q.limit) × All (Handed r r' q) out × All (λ v. is_due v t ≡ false) out
claim_due-Handed r r' q out t sound once h early =
    let (few, made) = claim_due-Made r r' q out sound once h in
    (
      few,
      All-weaken (Made r r' q) (Handed r r' q) (Made-Handed r r' q) out made,
      All-weaken (Made r r' q) (λ v. is_due v t ≡ false)
          (λ v (u, _, _, how, _).
            subst (λ (x : Reminder). is_due x t ≡ false) (sym how) (claimed_leased q u t early))
          out made,
    )
