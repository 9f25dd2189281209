-- ===== src/Reminder/Taken.antt =====
-- internal/reminder/fake_repository.go: what `ClaimDeliveries` hands to a worker, and what a worker may
-- do with it.
use text.Mathlib.TextPositions.{eq_refl}
use harness_loop_agent.Base.{
  ℕ, ◌+◌, ◌≡◌, ◌⊎◌, ◌≤◌, ◌<◌, leb, length, Bool, if◌then◌else◌, refl, sym, subst, inl, inr, String,
  true, false, List, [], ◌∷◌, none, some, ok, Result-cases, arith, eq_iff, str_eq, Bool-cases, All,
  All-weaken, All-both, Option-cases, map,
}
use harness_loop_agent.Base.Dict.{Dict, lookup, insert, lookup-insert, Distinct}
use harness_loop_agent.Base.Sort.{
  sort, sort-All, All-sort, length-sort, All-take, sort-Pairwise, take, take-All, take-Pairwise,
  Pairwise,
}
use harness_loop_agent.Base.Text.{text_lt}
use harness_loop_agent.Base.Word.{Time}
use harness_loop_agent.Reminder.Store.{
  FakeRepository, Delivery, completed, permanent_failed, pending, or_zero_delivery,
}
use harness_loop_agent.Reminder.Store.Deliveries.{
  available_ids, is_available, taken, take_each, claim_deliveries, is_processing, complete_delivery,
  complete_claimed, fail_delivery, DeliveryFailure,
}
use harness_loop_agent.Reminder.Calls.{Sound}
use harness_loop_agent.Reminder.Settled.{Takeable, available_ids-Takeable}

abbrev pub OtherKey : String → String → Type 0
OtherKey a b = str_eq a b ≡ false

available_ids-OtherKey :
    (now : Time) (ds : Dict Delivery) → Distinct ds → Pairwise OtherKey (available_ids now ds)
available_ids-OtherKey now [] once = tt
available_ids-OtherKey now ((k, d) ∷ ds) once =
    let apart : All (OtherKey k) (available_ids now ds) =
      All-weaken (Takeable ds) (OtherKey k) (λ id (e, there, _). ground (arith, eq_iff k id, once))
        (available_ids now ds) (available_ids-Takeable now ds once.1) in
    elim (Bool-cases (is_available d now)) [
      | inl e ↦ rw e (apart, available_ids-OtherKey now ds once.1)
      | inr e ↦ rw e (available_ids-OtherKey now ds once.1)
    ]

-- A delivery that a worker has in its hands.
abbrev pub Owned : Dict Delivery → String → Delivery → Type 0
Owned ds token d =
    (lookup d.id ds ≡ some d)
    × (is_processing d.status ≡ true)
    × (str_eq d.claim_token token ≡ true)

module _ (token : String) (until : Time) where
  take_each-others :
      (ids : List String) (ds : Dict Delivery) (k : String)
      → All (OtherKey k) ids
      → lookup k (take_each token until ids ds).1 ≡ lookup k ds
  take_each-others [] ds k h = refl
  take_each-others (id ∷ ids) ds k h =
      let d = taken token until (or_zero_delivery (lookup id ds)) in
      ground (
        arith,
        take_each-others ids (insert id d ds) k h.1,
        lookup-insert id k d ds,
        eq_iff id k,
        eq_iff k id,
      )

  abbrev OwnKeys : Dict Delivery → Type 0
  OwnKeys ds = (k : String) (d : Delivery) → lookup k ds ≡ some d → d.id ≡ k

  abbrev OwnIds : Dict Delivery → String → Type 0
  OwnIds ds id = (or_zero_delivery (lookup id ds)).id ≡ id

  take_each_ids :
      (ids : List String) (ds : Dict Delivery)
      → All (OwnIds ds) ids
      → Pairwise OtherKey ids
      → map (λ d. d.id) (take_each token until ids ds).0 ≡ ids
  take_each_ids [] ds h p = refl
  take_each_ids (id ∷ ids) ds h p =
      let d = taken token until (or_zero_delivery (lookup id ds)) in
      let more =
        take_each_ids ids (insert id d ds)
          (All-weaken (λ k. OwnIds ds k × OtherKey id k) (OwnIds (insert id d ds))
            (λ k (own, other). ground (arith, own, lookup-insert id k d ds)) ids
            (All-both (OwnIds ds) (OtherKey id) ids h.1 p.0))
          p.1 in
      ground (arith, h.0, more)

  take_each-Owned :
      (ids : List String) (ds : Dict Delivery)
      → All (OwnIds ds) ids
      → Pairwise OtherKey ids
      → All (Owned (take_each token until ids ds).1 token) (take_each token until ids ds).0
  take_each-Owned [] ds h p = tt
  take_each-Owned (id ∷ ids) ds h p =
      let d = taken token until (or_zero_delivery (lookup id ds)) in
      let kept =
        All-weaken (λ k. OwnIds ds k × OtherKey id k) (OwnIds (insert id d ds))
          (λ k (own, other). ground (arith, own, lookup-insert id k d ds)) ids
          (All-both (OwnIds ds) (OtherKey id) ids h.1 p.0) in
      (
        (
          ground (
            arith,
            h.0,
            take_each-others ids (insert id d ds) id p.0,
            lookup-insert id id d ds,
            eq_refl id,
          ),
          refl,
          eq_refl token,
        ),
        take_each-Owned ids (insert id d ds) kept p.1,
      )

unmap-All :
    {A B : Type 0} (f : A → B) (P : B → Type 0) (xs : List A)
    → All P (map f xs)
    → All (λ a. P (f a)) xs
unmap-All f P [] h = tt
unmap-All f P (x ∷ xs) h = (h.0, unmap-All f P xs h.1)

unmap-Pairwise :
    {A B : Type 0} (f : A → B) (R : B → B → Type 0) (xs : List A)
    → Pairwise R (map f xs)
    → Pairwise (λ a b. R (f a) (f b)) xs
unmap-Pairwise f R [] h = tt
unmap-Pairwise f R (x ∷ xs) h = (unmap-All f (R (f x)) xs h.0, unmap-Pairwise f R xs h.1)

abbrev pub OtherId : Delivery → Delivery → Type 0
OtherId d e = OtherKey d.id e.id

-- When `ClaimDeliveries` succeeds on a sound repository, each delivery that it hands out is stored as
-- being processed under the token, and no two have the same id.
pub claim_deliveries-Owned :
    (r r' : FakeRepository) (limit : ℕ) (now : Time) (lease : ℕ) (token : String)
    (out : List Delivery)
    → Sound r
    → Distinct r.deliveries
    → claim_deliveries r limit now lease token ≡ ok (out, r')
    → All (Owned r'.deliveries token) out × Pairwise OtherId out
unfolding claim_deliveries
claim_deliveries-Owned r r' limit now lease token out sound once h =
    let all_ids = available_ids now r.deliveries in
    let ids = take limit (sort text_lt all_ids) in
    let there = take-All (Takeable r.deliveries) limit (sort text_lt all_ids) (
      sort-All text_lt (Takeable r.deliveries) all_ids
        (available_ids-Takeable now r.deliveries once)) in
    let own =
      All-weaken (Takeable r.deliveries) (OwnIds token now r.deliveries)
        (λ k (d, found, _). ground (arith, sound.own_key k d found)) ids there in
    let apart = take-Pairwise OtherKey limit (sort text_lt all_ids) (
      sort-Pairwise text_lt OtherKey (λ a b e. ground (arith, eq_iff a b, eq_iff b a)) all_ids
        (available_ids-OtherKey now r.deliveries once)) in
    let made : (take_each token (now + lease) ids r.deliveries) ≡ (out, r'.deliveries) =
      ground arith in
    subst (λ t. All (Owned t.1 token) t.0 × Pairwise OtherId t.0) made
      (
        take_each-Owned token (now + lease) ids r.deliveries own apart,
        unmap-Pairwise (λ d. d.id) OtherKey (take_each token (now + lease) ids r.deliveries).0
            (subst (Pairwise OtherKey)
              (sym (take_each_ids token (now + lease) ids r.deliveries own apart)) apart),
      )

All-swap :
    (k : String) (out : List Delivery)
    → All (λ d. str_eq d.id k ≡ false) out
    → All (OtherKey k) (map (λ d. d.id) out)
All-swap k [] h = tt
All-swap k (d ∷ out) h = (ground (arith, h.0, eq_iff d.id k, eq_iff k d.id), All-swap k out h.1)

-- The ids of what is handed out are those that are chosen.
claim_deliveries_ids :
    (r r' : FakeRepository) (limit : ℕ) (now : Time) (lease : ℕ) (token : String)
    (out : List Delivery)
    → Sound r
    → Distinct r.deliveries
    → claim_deliveries r limit now lease token ≡ ok (out, r')
    → map (λ d. d.id) out ≡ take limit (sort text_lt (available_ids now r.deliveries))
unfolding claim_deliveries
claim_deliveries_ids r r' limit now lease token out sound once h =
    let all_ids = available_ids now r.deliveries in
    let ids = take limit (sort text_lt all_ids) in
    let there = take-All (Takeable r.deliveries) limit (sort text_lt all_ids) (
      sort-All text_lt (Takeable r.deliveries) all_ids
        (available_ids-Takeable now r.deliveries once)) in
    let own =
      All-weaken (Takeable r.deliveries) (OwnIds token now r.deliveries)
        (λ k (d, found, _). ground (arith, sound.own_key k d found)) ids there in
    let apart = take-Pairwise OtherKey limit (sort text_lt all_ids) (
      sort-Pairwise text_lt OtherKey (λ a b e. ground (arith, eq_iff a b, eq_iff b a)) all_ids
        (available_ids-OtherKey now r.deliveries once)) in
    let made : (take_each token (now + lease) ids r.deliveries).0 ≡ out = ground arith in
    subst (λ t. map (λ d. d.id) t ≡ ids) made
      (take_each_ids token (now + lease) ids r.deliveries own apart)

-- A delivery that is not handed out stays as it is.
pub claim_deliveries_others :
    (r r' : FakeRepository) (limit : ℕ) (now : Time) (lease : ℕ) (token : String)
    (out : List Delivery) (k : String)
    → Sound r
    → Distinct r.deliveries
    → claim_deliveries r limit now lease token ≡ ok (out, r')
    → All (λ d. str_eq d.id k ≡ false) out
    → lookup k r'.deliveries ≡ lookup k r.deliveries
unfolding claim_deliveries
claim_deliveries_others r r' limit now lease token out k sound once h other =
    let ids = take limit (sort text_lt (available_ids now r.deliveries)) in
    let same = claim_deliveries_ids r r' limit now lease token out sound once h in
    ground (
      arith,
      take_each-others token (now + lease) ids r.deliveries k
          (subst (All (OtherKey k)) same (All-swap k out other)),
    )

length-available_ids : (now : Time) (ds : Dict Delivery) → length (available_ids now ds) ≤ length ds
length-available_ids now [] = omega arith
length-available_ids now (e ∷ ds) = ground (arith, length-available_ids now ds)

available_ids-none :
    (now : Time) (ds : Dict Delivery) (k : String) (d : Delivery)
    → lookup k ds ≡ some d
    → is_available d now ≡ true
    → All (OtherKey k) (available_ids now ds)
    → ⊥
unfolding lookup
available_ids-none now [] k d found free apart = ground arith
available_ids-none now ((j, e) ∷ ds) k d found free apart =
    let P = λ (b : Bool).
      All (OtherKey k) (if b then j ∷ available_ids now ds else available_ids now ds) in
    elim (Bool-cases (is_available e now)) [
      | inl a ↦
          let (here, rest) : All (OtherKey k) (j ∷ available_ids now ds) = subst P a apart in
          available_ids-none now ds k d (ground (arith, eq_iff k j, eq_iff j k)) free rest
      | inr a ↦
          let rest : All (OtherKey k) (available_ids now ds) = subst P a apart in
          available_ids-none now ds k d
            (elim (Bool-cases (str_eq j k)) [ inl same ↦ ground arith | inr other ↦ ground arith ])
            free rest
    ]

-- The delivery is not available, or there are more deliveries than the limit.
abbrev pub Waits : FakeRepository → ℕ → Time → Delivery → Type 0
Waits r limit now d = (is_available d now ≡ false) ⊎ (limit < length r.deliveries)

-- A delivery that a claim does not hand out was not available, or there are more deliveries than the
-- limit.
pub claim_deliveries-Waits :
    (r r' : FakeRepository) (limit : ℕ) (now : Time) (lease : ℕ) (token : String)
    (out : List Delivery) (k : String) (d : Delivery)
    → Sound r
    → Distinct r.deliveries
    → claim_deliveries r limit now lease token ≡ ok (out, r')
    → lookup k r.deliveries ≡ some d
    → All (λ e. str_eq e.id k ≡ false) out
    → Waits r limit now d
claim_deliveries-Waits r r' limit now lease token out k d sound once h found other =
    let all_ids = available_ids now r.deliveries in
    let same = claim_deliveries_ids r r' limit now lease token out sound once h in
    let apart : All (OtherKey k) (take limit (sort text_lt all_ids)) =
      subst (All (OtherKey k)) same (All-swap k out other) in
    elim (Bool-cases (is_available d now)) [
      | inr a ↦ inl a
      | inl a ↦ elim (Bool-cases (leb (length all_ids) limit)) [
        | inr many ↦ inr (ground (arith, length-available_ids now r.deliveries))
        | inl few ↦
            elim (available_ids-none now r.deliveries k d found a (
              All-sort text_lt (OtherKey k) all_ids (
                All-take (OtherKey k) limit (sort text_lt all_ids)
                  (ground (arith, length-sort text_lt all_ids)) apart))) [ ]
      ]
    ]

-- What a worker has in its hands it can complete.
pub complete-Owned :
    (r : FakeRepository) (d : Delivery) (token : String) (now : Time)
    → Sound r
    → Owned r.deliveries token d
    → (r' : FakeRepository) × (complete_delivery r d.id token now ≡ ok r')
unfolding complete_delivery complete_claimed
complete-Owned r d token now sound (found, busy, held) =
    let (v, whose, fits) = sound.agreed d.id d found in
    elim (Result-cases (complete_delivery r d.id token now)) [
      | inl (r', done) ↦ (r', done)
      | inr (f, done) ↦ ground (arith, found, busy, held, whose, fits)
    ]

-- What a worker has in its hands it can fail.
pub fail-Owned :
    (r : FakeRepository) (d : Delivery) (q : DeliveryFailure)
    → q.id ≡ d.id
    → Owned r.deliveries q.claim_token d
    → (r' : FakeRepository) × (fail_delivery r q ≡ ok r')
unfolding fail_delivery
fail-Owned r d q same (found, busy, held) = elim (Result-cases (fail_delivery r q)) [
  | inl (r', done) ↦ (r', done)
  | inr (f, done) ↦ ground (arith, found, busy, held, same)
]

-- The calls of a worker leave the other deliveries alone.
pub complete_others :
    (r r' : FakeRepository) (id token : String) (now : Time)
    → complete_delivery r id token now ≡ ok r'
    → (k : String) → str_eq id k ≡ false
    → lookup k r'.deliveries ≡ lookup k r.deliveries
unfolding complete_delivery complete_claimed
complete_others r r' id token now h k other = elim (Option-cases (lookup id r.deliveries)) [
  | inl n ↦ ground arith
  | inr (d, n) ↦ ground (
    arith,
    lookup-insert id k (record d { status = completed; claim_token = ""; lease_until = none })
        r.deliveries,
  )
]

pub fail_others :
    (r r' : FakeRepository) (q : DeliveryFailure)
    → Sound r
    → fail_delivery r q ≡ ok r'
    → (k : String) → str_eq q.id k ≡ false
    → lookup k r'.deliveries ≡ lookup k r.deliveries
unfolding fail_delivery
fail_others r r' q sound h k other = elim (Option-cases (lookup q.id r.deliveries)) [
  | inl n ↦ ground arith
  | inr (d, n) ↦
      let freed : Delivery = record d {
        last_error_code = q.error_code;
        claim_token = "";
        lease_until = none;
      } in
      ground (
        arith,
        sound.own_key q.id d n,
        lookup-insert d.id k (record freed { status = permanent_failed }) r.deliveries,
        lookup-insert d.id k (record freed { status = pending; available_at = q.next_available })
            r.deliveries,
      )
]

-- What a worker completes is stored as completed, and is otherwise as it was.
pub completed_lem :
    (r r' : FakeRepository) (d : Delivery) (token : String) (now : Time)
    → Owned r.deliveries token d
    → complete_delivery r d.id token now ≡ ok r'
    → lookup d.id r'.deliveries
      ≡ some (record d { status = completed; claim_token = ""; lease_until = none })
unfolding complete_delivery complete_claimed
completed_lem r r' d token now (found, busy, held) h = ground (
  arith,
  eq_refl d.id,
  lookup-insert d.id d.id (record d { status = completed; claim_token = ""; lease_until = none })
      r.deliveries,
)

-- What a failed delivery becomes, but for its status.
abbrev pub freed : DeliveryFailure → Delivery → Delivery
freed q d = record d { last_error_code = q.error_code; claim_token = ""; lease_until = none }

-- What a worker fails is given up where the failure is permanent, and otherwise free again.
pub failed_lem :
    (r r' : FakeRepository) (d : Delivery) (q : DeliveryFailure)
    → q.id ≡ d.id
    → Owned r.deliveries q.claim_token d
    → fail_delivery r q ≡ ok r'
    → ((q.permanent ≡ true)
        × (lookup d.id r'.deliveries ≡ some (record (freed q d) { status = permanent_failed })))
      ⊎ ((q.permanent ≡ false)
          × (lookup d.id r'.deliveries
              ≡ some (record (freed q d) { status = pending; available_at = q.next_available })))
unfolding fail_delivery
failed_lem r r' d q same (found, busy, held) h =
    let over : Delivery = record (freed q d) { status = permanent_failed } in
    let again : Delivery = record (freed q d) {
      status = pending;
      available_at = q.next_available;
    } in
    elim (Bool-cases q.permanent) [
      | inl p ↦ inl (
        p,
        ground (arith, found, same, p, eq_refl d.id, lookup-insert d.id d.id over r.deliveries),
      )
      | inr p ↦ inr (
        p,
        ground (arith, found, same, p, eq_refl d.id, lookup-insert d.id d.id again r.deliveries),
      )
    ]
