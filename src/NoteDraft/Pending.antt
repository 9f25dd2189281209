-- ===== src/NoteDraft/Pending.antt =====
-- internal/notedraft: the pending draft of a session, and what a confirmation does.
use harness_loop_agent.Base.{
  ℕ, ◌≡◌, refl, sym, subst, ◌⊎◌, inl, inr, String, Bool, true, false, [], ◌∷◌, Option, none, some,
  ok, arith, eq_iff, str_eq, Bool-cases, Option-cases, if◌then◌else◌,
}
use harness_loop_agent.Base.Word.{Time}
use harness_loop_agent.Base.Dict.{Dict, lookup, insert, lookup-insert, Distinct, Distinct-insert}
use harness_loop_agent.NoteDraft.{
  Status, pending, cancelled, Owner, Draft, MemoryRepository, new_memory_repository, is_pending_of,
  cancel_pending, replace_pending, transition,
}

-- A draft is stored under its id, and an owner has at most one pending draft in a session.
pub record IsOrderly (r : MemoryRepository) : Type 0 where
  pub own_id : (k : String) (d : Draft) → lookup k r.drafts ≡ some d → d.id ≡ k
  pub one :
      (user tenant : ℕ) (session j k : String) (d e : Draft)
      → lookup j r.drafts ≡ some d
      → lookup k r.drafts ≡ some e
      → is_pending_of user tenant session d ≡ true
      → is_pending_of user tenant session e ≡ true
      → j ≡ k
  pub once : Distinct r.drafts

abbrev pub stopped : Draft → Draft → Draft
stopped draft d =
    if is_pending_of draft.user_id draft.tenant_id draft.session_id d
    then record d { status = cancelled; updated_at = draft.created_at }
    else d

abbrev pub stopped_if : Draft → Option Draft → Option Draft
stopped_if draft none = none
stopped_if draft (some d) = some (stopped draft d)

lookup-cancel_pending :
    (draft : Draft) (k : String) (m : Dict Draft)
    → lookup k (cancel_pending draft m) ≡ stopped_if draft (lookup k m)
unfolding lookup cancel_pending
lookup-cancel_pending draft k [] = refl
lookup-cancel_pending draft k ((j, d) ∷ m) = ground (arith, lookup-cancel_pending draft k m)

settled_off :
    (d : Draft) (user tenant : ℕ) (session : String)
    → str_eq d.status pending ≡ false
    → is_pending_of user tenant session d ≡ false
unfolding is_pending_of
settled_off d user tenant session h = ground (arith, h)

stopped_off :
    (draft a : Draft) (user tenant : ℕ) (session : String)
    → is_pending_of draft.user_id draft.tenant_id draft.session_id a ≡ true
    → is_pending_of user tenant session (stopped draft a) ≡ false
stopped_off draft a user tenant session t =
    settled_off (stopped draft a) user tenant session (rw t refl)

-- A draft that is pending in a session after `ReplacePending` is the new one, or stood there before, in
-- another session.
kept_pending :
    (r : MemoryRepository) (draft : Draft) (user tenant : ℕ) (session k : String) (d : Draft)
    → lookup k (replace_pending r draft).drafts ≡ some d
    → is_pending_of user tenant session d ≡ true
    → (str_eq draft.id k ≡ true) × (d ≡ draft)
      ⊎ (lookup k r.drafts ≡ some d)
        × (is_pending_of draft.user_id draft.tenant_id draft.session_id d ≡ false)
unfolding replace_pending is_pending_of
kept_pending r draft user tenant session k d e f =
    let cut = cancel_pending draft r.drafts in
    elim (Bool-cases (str_eq draft.id k)) [
      | inl same ↦ inl (same, ground (arith, lookup-insert draft.id k draft cut))
      | inr other ↦ elim (Option-cases (lookup k r.drafts)) [
        | inl n ↦
            ground
              (arith, lookup-insert draft.id k draft cut, lookup-cancel_pending draft k r.drafts)
        | inr (a, n) ↦
            elim (Bool-cases (is_pending_of draft.user_id draft.tenant_id draft.session_id a)) [
              | inl t ↦
                  let at : stopped draft a ≡ d = ground (
                    arith,
                    lookup-insert draft.id k draft cut,
                    lookup-cancel_pending draft k r.drafts,
                  ) in
                  ground (
                    arith,
                    subst (λ x. is_pending_of user tenant session x ≡ true) (sym at) f,
                    stopped_off draft a user tenant session t,
                  )
              | inr t ↦
                  let at : a ≡ d = ground (
                    arith,
                    lookup-insert draft.id k draft cut,
                    lookup-cancel_pending draft k r.drafts,
                    t,
                  ) in
                  inr (rw n (rw at refl), rw⁻¹ at t)
            ]
      ]
    ]

same_session :
    (user tenant : ℕ) (session : String) (a b : Draft)
    → is_pending_of user tenant session a ≡ true
    → is_pending_of user tenant session b ≡ true
    → is_pending_of a.user_id a.tenant_id a.session_id b ≡ true
unfolding is_pending_of
same_session user tenant session a b f g = ground (
  arith,
  eq_iff a.session_id session,
  eq_iff b.session_id session,
  eq_iff b.session_id a.session_id,
)

cancel_pending-Distinct :
    (draft : Draft) (m : Dict Draft) → Distinct m → Distinct (cancel_pending draft m)
unfolding cancel_pending
cancel_pending-Distinct draft [] h = tt
cancel_pending-Distinct draft ((k, d) ∷ m) h =
    let rest = cancel_pending-Distinct draft m h.1 in
    let gone : lookup k (cancel_pending draft m) ≡ none =
      ground (arith, lookup-cancel_pending draft k m, h.0) in
    elim (Bool-cases (is_pending_of draft.user_id draft.tenant_id draft.session_id d)) [
      | inl t ↦ rw t (gone, rest)
      | inr t ↦ rw t (gone, rest)
    ]

pub replace_pending-IsOrderly :
    (r : MemoryRepository) (draft : Draft) → IsOrderly r → IsOrderly (replace_pending r draft)
unfolding replace_pending is_pending_of
replace_pending-IsOrderly r draft h =
    let cut = cancel_pending draft r.drafts in
    record {
      own_id = λ k d e. elim (Option-cases (lookup k r.drafts)) [
        | inl n ↦ ground (
          arith,
          lookup-insert draft.id k draft cut,
          lookup-cancel_pending draft k r.drafts,
          eq_iff draft.id k,
        )
        | inr (a, n) ↦ ground (
          arith,
          lookup-insert draft.id k draft cut,
          lookup-cancel_pending draft k r.drafts,
          eq_iff draft.id k,
          h.own_id k a n,
        )
      ];
      one = λ user tenant session j k d e p q f g.
          elim (kept_pending r draft user tenant session j d p f) [
            | inl (at, new) ↦ elim (kept_pending r draft user tenant session k e q g) [
              | inl (at', new') ↦ ground (arith, eq_iff draft.id j, eq_iff draft.id k)
              | inr (old', apart') ↦ ground (arith, new, same_session user tenant session d e f g)
            ]
            | inr (old, apart) ↦ elim (kept_pending r draft user tenant session k e q g) [
              | inl (at', new') ↦ ground (arith, new', same_session user tenant session e d g f)
              | inr (old', apart') ↦ h.one user tenant session j k d e old old' f g
            ]
          ];
      once = Distinct-insert draft.id draft cut (cancel_pending-Distinct draft r.drafts h.once);
    }

-- A transition changes nothing, or ends a pending draft.
abbrev pub Settles : MemoryRepository → MemoryRepository → String → Status → Time → Draft → Type 0
Settles r r' id status now d =
    (old : Draft) × (lookup id r.drafts ≡ some old)
    × (old.status ≡ pending)
    × (str_eq pending status ≡ false)
    × (d ≡ record old { status = status; updated_at = now })
    × (r' ≡ record { drafts = insert id d r.drafts })

pub transition-Settles :
    (r r' : MemoryRepository) (owner : Owner) (session id content_hash : String) (status : Status)
    (now : Time) (d : Draft) (replayed : Bool)
    → transition r owner session id content_hash status now ≡ ok (d, replayed, r')
    → ((r' ≡ r)
        × (lookup id r.drafts ≡ some d)
        × (str_eq d.status status ≡ true)
        × (replayed ≡ true))
      ⊎ (Settles r r' id status now d × (replayed ≡ false))
unfolding transition
transition-Settles r r' owner session id content_hash status now d replayed h =
    elim (Option-cases (lookup id r.drafts)) [
      | inl n ↦ ground arith
      | inr (old, n) ↦ elim (Bool-cases (str_eq old.status status)) [
        | inl s ↦ inl (ground arith, ground arith, ground arith, ground arith)
        | inr s ↦ inr (
          (
            old,
            n,
            ground (arith, eq_iff old.status pending),
            ground (arith, eq_iff old.status pending),
            ground arith,
            ground arith,
          ),
          ground arith,
        )
      ]
    ]

pub transition-IsOrderly :
    (r r' : MemoryRepository) (owner : Owner) (session id content_hash : String) (status : Status)
    (now : Time) (d : Draft) (replayed : Bool)
    → transition r owner session id content_hash status now ≡ ok (d, replayed, r')
    → IsOrderly r
    → IsOrderly r'
unfolding is_pending_of
transition-IsOrderly r r' owner session id content_hash status now d replayed e h =
    elim (transition-Settles r r' owner session id content_hash status now d replayed e) [
      | inl (same, _, _, _) ↦ subst IsOrderly (sym same) h
      | inr ((old, found, was, off, made, stored), _) ↦ subst IsOrderly (sym stored) (record {
        own_id = λ k a p. ground (
          arith,
          made,
          lookup-insert id k d r.drafts,
          eq_iff id k,
          h.own_id k a,
          h.own_id id old,
        );
        one = λ user tenant s j k a b p q f g. ground (
          arith,
          made,
          off,
          lookup-insert id j d r.drafts,
          lookup-insert id k d r.drafts,
          eq_iff status pending,
          eq_iff pending status,
          h.one user tenant s j k a b,
        );
        once = Distinct-insert id d r.drafts h.once;
      })
    ]

pub data DraftStep : MemoryRepository → MemoryRepository → Type 0 where
  by_replace : (r : MemoryRepository) (draft : Draft) → DraftStep r (replace_pending r draft)
  by_transition :
      (r r' : MemoryRepository) (owner : Owner) (session id content_hash : String) (status : Status)
      (now : Time) (d : Draft) (replayed : Bool)
      → transition r owner session id content_hash status now ≡ ok (d, replayed, r')
      → DraftStep r r'

pub data DraftSteps : MemoryRepository → MemoryRepository → Type 0 where
  stay : (r : MemoryRepository) → DraftSteps r r
  step : (r s t : MemoryRepository) → DraftStep r s → DraftSteps s t → DraftSteps r t

pub DraftSteps-IsOrderly : (r s : MemoryRepository) → DraftSteps r s → IsOrderly r → IsOrderly s
DraftSteps-IsOrderly r s (stay _) h = h
DraftSteps-IsOrderly r t (step _ _ _ (by_replace _ draft) hs) h =
    DraftSteps-IsOrderly (replace_pending r draft) t hs (replace_pending-IsOrderly r draft h)
DraftSteps-IsOrderly r t (step _ s _ (by_transition _ _ o e i c p n d b f) hs) h =
    DraftSteps-IsOrderly s t hs (transition-IsOrderly r s o e i c p n d b f h)

pub new_memory_repository-IsOrderly : IsOrderly new_memory_repository
unfolding lookup
new_memory_repository-IsOrderly = record {
  own_id = λ k d h. ground arith;
  one = λ user tenant session j k d e p q f g. ground arith;
  once = tt;
}

-- After any sequence of calls on a new repository, an owner has at most one pending draft in a
-- session: two keys with such a draft are the same key.
pub pending_once :
    (r : MemoryRepository) (user tenant : ℕ) (session j k : String) (d e : Draft)
    → DraftSteps new_memory_repository r
    → lookup j r.drafts ≡ some d
    → lookup k r.drafts ≡ some e
    → is_pending_of user tenant session d ≡ true
    → is_pending_of user tenant session e ≡ true
    → j ≡ k
pending_once r user tenant session j k d e h =
    (DraftSteps-IsOrderly new_memory_repository r h new_memory_repository-IsOrderly).one user tenant
      session j k d e
