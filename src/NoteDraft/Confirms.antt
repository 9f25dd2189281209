-- ===== src/NoteDraft/Confirms.antt =====
-- internal/notedraft/service.go: what `Confirm` and `Cancel` act on.
use harness_loop_agent.Base.{
  ℕ, ◌≡◌, subst, inl, inr, String, Bool, true, false, [], ◌∷◌, Option, none, some, Result-cases, ok,
  err, sym, arith, eq_iff, str_eq, Bool-cases, All, All-weaken, ◌||◌,
}
use harness_loop_agent.Base.Word.{Time, after}
use harness_loop_agent.Base.Dict.{
  Dict, lookup, insert, lookup-insert, Distinct-entries, lookup-insert_self,
}
use harness_loop_agent.NoteDraft.{
  not_found, Status, pending, Owner, Draft, MemoryRepository, is_pending_of, later,
  new_memory_repository, latest_from, latest_pending, transition,
}
use harness_loop_agent.NoteDraft.Service.{latest, settle}
use harness_loop_agent.NoteDraft.Pending.{
  IsOrderly, DraftSteps, DraftSteps-IsOrderly, new_memory_repository-IsOrderly, transition-Settles,
  transition-IsOrderly,
}

-- A draft that is stored under its id, and pending in the session.
abbrev pub Current : MemoryRepository → Owner → String → Draft → Type 0
Current r owner session d =
    (lookup d.id r.drafts ≡ some d) × (is_pending_of owner.user_id owner.tenant_id session d ≡ true)

later-Current :
    (r : MemoryRepository) (owner : Owner) (session : String) (d : Draft) (so_far : Option Draft)
    → lookup d.id r.drafts ≡ some d
    → ((l : Draft) → so_far ≡ some l → Current r owner session l)
    → (l : Draft) → later owner session d so_far ≡ some l
    → Current r owner session l
unfolding later
later-Current r owner session d none here known l e =
    elim (Bool-cases (is_pending_of owner.user_id owner.tenant_id session d)) [
      | inl p ↦ subst (Current r owner session) (ground (arith, e, p)) (here, p)
      | inr p ↦ ground (arith, e, p)
    ]
later-Current r owner session d (some a) here known l e =
    elim (Bool-cases (is_pending_of owner.user_id owner.tenant_id session d)) [
      | inl p ↦ elim (Bool-cases (str_eq a.id "" || after d.created_at a.created_at)) [
        | inl q ↦ subst (Current r owner session) (ground (arith, e, p, q)) (here, p)
        | inr q ↦ known l (ground (arith, e, p, q))
      ]
      | inr p ↦ known l (ground (arith, e, p))
    ]

latest_from-Current :
    (r : MemoryRepository) (owner : Owner) (session : String) (so_far : Option Draft)
    (m : Dict Draft) (d : Draft)
    → All (λ e. lookup e.1.id r.drafts ≡ some e.1) m
    → ((l : Draft) → so_far ≡ some l → Current r owner session l)
    → latest_from owner session so_far m ≡ some d
    → Current r owner session d
unfolding latest_from
latest_from-Current r owner session so_far [] d h known e = known d e
latest_from-Current r owner session so_far (entry ∷ m) d h known e =
    latest_from-Current r owner session (later owner session entry.1 so_far) m d h.1
      (later-Current r owner session entry.1 so_far h.0 known) e

latest_pending-Current :
    (r : MemoryRepository) (owner : Owner) (session : String) (d : Draft)
    → IsOrderly r
    → latest_pending r owner session ≡ ok d
    → Current r owner session d
unfolding latest_pending
latest_pending-Current r owner session d h e =
    latest_from-Current r owner session none r.drafts d
      (All-weaken (λ (a : String × Draft). lookup a.0 r.drafts ≡ some a.1)
        (λ a. lookup a.1.id r.drafts ≡ some a.1) (λ a f. ground (arith, h.own_id a.0 a.1 f, f))
        r.drafts (Distinct-entries r.drafts h.once))
      (λ l f. ground (arith, f)) (ground (arith, e))

is_pending_of-status :
    (user tenant : ℕ) (session : String) (d : Draft)
    → is_pending_of user tenant session d ≡ true
    → d.status ≡ pending
unfolding is_pending_of
is_pending_of-status user tenant session d h = ground (arith, h, eq_iff d.status pending)

-- Where the only pending draft of a session is settled, none is left.
settled-latest_pending :
    (r r' : MemoryRepository) (owner : Owner) (session id : String) (status : Status) (now : Time)
    (old d : Draft)
    → IsOrderly r
    → IsOrderly r'
    → lookup id r.drafts ≡ some old
    → is_pending_of owner.user_id owner.tenant_id session old ≡ true
    → str_eq pending status ≡ false
    → d ≡ record old { status = status; updated_at = now }
    → r' ≡ record { drafts = insert id d r.drafts }
    → latest_pending r' owner session ≡ err not_found
unfolding latest_pending
settled-latest_pending r r' owner session id status now old d h h' here was off made stored =
    elim (Result-cases (latest_pending r' owner session)) [
      | inr (x, f) ↦ ground (arith, f)
      | inl (l, f) ↦
          let (there, alive) = latest_pending-Current r' owner session l h' f in
          let found : lookup l.id (insert id d r.drafts) ≡ some l = ground (arith, stored, there) in
          let status_is : l.status ≡ pending =
            is_pending_of-status owner.user_id owner.tenant_id session l alive in
          ground (
            arith,
            found,
            made,
            off,
            status_is,
            here,
            lookup-insert id l.id d r.drafts,
            eq_iff id l.id,
            eq_iff pending status,
            h.one owner.user_id owner.tenant_id session id l.id old l here,
          )
    ]

module _ {X : Type 0} (clock : X → Time × X) (new_id : X → String × X)
    (hash_content : String → String → String) (ttl : ℕ) where
  latest-Current :
      (owner : Owner) (session : String) (w : MemoryRepository × X) (d : Draft)
      → IsOrderly w.0
      → (latest clock new_id hash_content ttl owner session w).0 ≡ ok d
      → Current w.0 owner session d
        × (after d.expires_at (clock w.1).0 ≡ true)
        × ((latest clock new_id hash_content ttl owner session w).1.0 ≡ w.0)
  unfolding latest
  latest-Current owner session w d h e = elim (Result-cases (latest_pending w.0 owner session)) [
    | inl (l, f) ↦
        let same : l ≡ d = ground (arith, e, f) in
        (
          subst (Current w.0 owner session) same (latest_pending-Current w.0 owner session l h f),
          ground (arith, e, f),
          ground (arith, e, f),
        )
    | inr (x, f) ↦ ground (arith, e, f)
  ]

  -- After a call that succeeded, a call with the same arguments finds only what is pending then.
  settle_again :
      (owner : Owner) (session id content_hash : String) (status again : Status)
      (w w' : MemoryRepository × X) (d : Draft) (replayed : Bool)
      → settle clock new_id hash_content ttl owner session id content_hash status w
        ≡ (ok (d, replayed), w')
      → latest_pending w'.0 owner session ≡ err not_found
      → settle clock new_id hash_content ttl owner session id content_hash again w'
        ≡ (err not_found, w')
  unfolding settle latest
  settle_again owner session id content_hash status again w w' d replayed e none_left =
      ground (arith, e, none_left)

  -- When `Confirm` or `Cancel` succeeds on a repository that calls have built, the draft was pending
  -- in the session, was not expired, had the id and the hash of the request, and is stored with the
  -- new status. Such a call never reports a replay, and a call of either that follows it with the same
  -- owner, session, id and hash returns `ErrNotFound` and changes nothing.
  pub settle_lem :
      (owner : Owner) (session id content_hash : String) (status again : Status)
      (w w' : MemoryRepository × X) (d : Draft) (replayed : Bool)
      → DraftSteps new_memory_repository w.0
      → str_eq pending status ≡ false
      → settle clock new_id hash_content ttl owner session id content_hash status w
        ≡ (ok (d, replayed), w')
      → (replayed ≡ false)
        × ((old : Draft) × (now : Time) × (lookup id w.0.drafts ≡ some old)
            × (is_pending_of owner.user_id owner.tenant_id session old ≡ true)
            × (after old.expires_at (clock w.1).0 ≡ true)
            × (str_eq old.content_hash content_hash ≡ true)
            × (d ≡ record old { status = status; updated_at = now })
            × (lookup id w'.0.drafts ≡ some d))
        × (settle clock new_id hash_content ttl owner session id content_hash again w'
            ≡ (err not_found, w'))
  unfolding settle
  settle_lem owner session id content_hash status again w w' d replayed built off e =
      let h =
        DraftSteps-IsOrderly new_memory_repository w.0 built new_memory_repository-IsOrderly in
      let found = latest clock new_id hash_content ttl owner session w in
      let now = (clock found.1.1).0 in
      elim (Result-cases found.0) [
        | inr (x, f) ↦ ground (arith, e, f)
        | inl (l, f) ↦
            let (current, alive, kept) = latest-Current owner session w l h f in
            elim (Result-cases (transition found.1.0 owner session id content_hash status now)) [
              | inr (x, g) ↦ ground (arith, e, f, g)
              | inl ((d', replayed', r'), g) ↦
                  let at : l.id ≡ id = ground (arith, e, f, eq_iff l.id id) in
                  let here : lookup id found.1.0.drafts ≡ some l =
                    ground (arith, at, kept, current.0) in
                  let was : l.status ≡ pending =
                    is_pending_of-status owner.user_id owner.tenant_id session l current.1 in
                  elim (transition-Settles found.1.0 r' owner session id content_hash status now d'
                    replayed' g) [
                      | inl (_, there, ends, _) ↦ ground (arith, here, there, ends, was, off)
                      | inr ((old, there, _, _, made, stored), fresh) ↦
                          let is_l : old ≡ l = ground (arith, here, there) in
                          let into : r' ≡ w'.0 = ground (arith, e, f, g) in
                          let same : d' ≡ d = ground (arith, e, f, g) in
                          let orderly = subst IsOrderly into (
                            transition-IsOrderly found.1.0 r' owner session id content_hash status
                              now d' replayed' g (subst IsOrderly (sym kept) h)) in
                          let none_left =
                            settled-latest_pending w.0 w'.0 owner session id status now l d h
                              orderly (ground (arith, here, kept)) current.1 off
                              (ground (arith, same, made, is_l))
                              (ground (arith, stored, into, same, kept)) in
                          (
                            ground (arith, e, f, g, fresh),
                            (
                              l,
                              now,
                              ground (arith, here, kept),
                              current.1,
                              alive,
                              ground (arith, e, f),
                              ground (arith, same, made, is_l),
                              subst (λ (r : MemoryRepository). lookup id r.drafts ≡ some d) into
                                  (rw stored (rw same (lookup-insert_self id d found.1.0.drafts))),
                            ),
                            settle_again owner session id content_hash status again w w' d replayed
                                e none_left,
                          )
                    ]
            ]
      ]
