-- ===== src/Memory/Store/Lapses.antt =====
-- internal/memory/fake_repository.go: how a candidate that supersedes, and time, move the status of a memory.
use harness_loop_agent.Base.{
  ℕ, ◌≡◌, refl, sym, subst, ◌⊎◌, inl, inr, String, Bool, true, false, ◌||◌, ◌&&◌, [], ◌∷◌, some, ok,
  arith, eq_iff, str_eq, Bool-cases, Option-cases, if◌then◌else◌, ◌==◌,
}
use harness_loop_agent.Base.Word.{Time, inc, slt}
use harness_loop_agent.Base.Dict.{Dict, lookup, insert, lookup-insert}
use harness_loop_agent.Memory.{
  Owner, Status, candidate, active, rejected, superseded, revoked, expired, can_transition,
  is_active, is_candidate, same_owner, Record,
}
use harness_loop_agent.Memory.Store.{
  FakeRepository, MutationResult, CandidateActivation, owner_key, or_now,
}
use harness_loop_agent.Memory.Store.Endings.{
  activate_candidate_superseding, activate_fresh, is_over, expire_each, expire,
}
use harness_loop_agent.Memory.Store.Moves.{
  MovesTo, OwnIds, Follows, Follows-put, Follows-same, OwnIds-put,
}

live-Expires : (s : Status) → is_active s || is_candidate s ≡ true → can_transition s expired ≡ true
unfolding can_transition
live-Expires candidate h = refl
live-Expires active h = refl
live-Expires rejected h = ground arith
live-Expires superseded h = ground arith
live-Expires revoked h = ground arith
live-Expires expired h = ground arith
live-Expires (Status.other t) h = ground arith

module _ {F : Type 0} where
  activate_fresh-Follows :
      (wall : Time) (r r' : FakeRepository F) (a : CandidateActivation) (key : String)
      (result : MutationResult F)
      → str_eq a.candidate_id a.superseded_id ≡ false
      → activate_fresh wall r a key ≡ ok (result, r')
      → OwnIds r.records
      → Follows r.records r'.records × OwnIds r'.records
  unfolding activate_fresh
  activate_fresh-Follows wall r r' a key result differ h own =
      elim (Option-cases (lookup a.candidate_id r.records)) [
        | inl n ↦ ground (arith, h, n)
        | inr (c, n) ↦ elim (Option-cases (lookup a.superseded_id r.records)) [
          | inl f ↦ ground (arith, h, n, f)
          | inr (t, f) ↦
              let now = or_now a.occurred_at wall in
              let old : Record F = record t {
                status = superseded;
                superseded_by = c.id;
                row_version = inc t.row_version;
                updated_at = now;
              } in
              let v : Record F = record c {
                status = active;
                row_version = inc c.row_version;
                updated_at = now;
              } in
              let at_c : c.id ≡ a.candidate_id = own a.candidate_id c n in
              let at_t : t.id ≡ a.superseded_id = own a.superseded_id t f in
              let mid = insert old.id old r.records in
              let made : r'.records ≡ insert v.id v mid = ground (arith, h, n, f) in
              let ends : can_transition t.status superseded ≡ true = ground (arith, h, n, f) in
              let starts : can_transition c.status active ≡ true = ground (arith, h, n, f) in
              (
                subst (Follows r.records) (sym made) (λ k w g. elim (Bool-cases (str_eq c.id k)) [
                  | inl e ↦ (
                    v,
                    ground (arith, lookup-insert c.id k v mid),
                    inr (ground (arith, starts, g, n, at_c, eq_iff c.id k)),
                  )
                  | inr e ↦
                      let (u, there, moved) =
                        Follows-put r.records t.id old
                          (λ x y. inr (ground (arith, ends, y, f, at_t))) k w g in
                      (u, ground (arith, there, lookup-insert c.id k v mid), moved)
                ]),
                subst OwnIds (sym made) (OwnIds-put mid v (OwnIds-put r.records old own)),
              )
        ]
      ]

  pub activate-Follows :
      (wall : Time) (r r' : FakeRepository F) (a : CandidateActivation) (result : MutationResult F)
      → activate_candidate_superseding wall r a ≡ ok (result, r')
      → OwnIds r.records
      → Follows r.records r'.records × OwnIds r'.records
  unfolding activate_candidate_superseding
  activate-Follows wall r r' a result h own =
      let key = owner_key a.owner a.idempotency_key in
      elim (Option-cases (lookup key r.idempotency)) [
        | inl f ↦
            activate_fresh-Follows wall r r' a key result (ground (arith, h, f))
              (ground (arith, h, f)) own
        | inr (old, f) ↦
            let same : r'.records ≡ r.records = ground (arith, h, f) in
            (Follows-same r.records r'.records same, subst OwnIds (sym same) own)
      ]

  -- A memory as `Expire` may leave it.
  abbrev Expires : Record F → Record F → Type 0
  Expires v u = (u.id ≡ v.id) × MovesTo v.status u.status

  expire_each-Expires :
      (owner : Owner) (now : Time) (limit count : ℕ) (rs : Dict (Record F)) (k : String)
      → (lookup k (expire_each owner now limit count rs).1 ≡ lookup k rs)
        ⊎ ((v u : Record F) × (lookup k rs ≡ some v)
            × (lookup k (expire_each owner now limit count rs).1 ≡ some u)
            × Expires v u)
  unfolding lookup expire_each
  expire_each-Expires owner now limit count [] k = inl refl
  expire_each-Expires owner now limit count ((id, w) ∷ rs) k =
      let expires : Bool =
        same_owner w.owner owner
        && (is_active w.status || is_candidate w.status)
        && is_over w.expires_at now in
      let c : ℕ = if expires then inc count else count in
      let next : Record F = record w {
        status = expired;
        row_version = inc w.row_version;
        updated_at = now;
      } in
      elim (Bool-cases ((count == limit) && slt 0 limit)) [
        | inl stop ↦ inl (rw stop refl)
        | inr go ↦ elim (Bool-cases (str_eq id k)) [
          | inl e ↦ elim (Bool-cases expires) [
            | inl x ↦ inr (
              w,
              next,
              rw e refl,
              rw go (rw e (rw x refl)),
              (refl, inr (live-Expires w.status (ground (arith, x)))),
            )
            | inr x ↦ inl (rw go (rw e (rw x refl)))
          ]
          | inr e ↦ elim (expire_each-Expires owner now limit c rs k) [
            | inl same ↦ inl (rw go (rw e same))
            | inr (v, u, was, there, moved) ↦ inr (v, u, rw e was, rw go (rw e there), moved)
          ]
        ]
      ]

  pub expire-Follows :
      (r : FakeRepository F) (owner : Owner) (now : Time) (limit : ℕ)
      → OwnIds r.records
      → Follows r.records (expire r owner now limit).1.records
        × OwnIds (expire r owner now limit).1.records
  unfolding expire
  expire-Follows r owner now limit own = (
    λ k v f. elim (expire_each-Expires owner now limit 0 r.records k) [
      | inl same ↦ (v, ground (arith, same, f), inl refl)
      | inr (w, u, was, there, (_, moved)) ↦
          let at : w ≡ v = ground (arith, was, f) in (u, there, rw⁻¹ at moved)
    ],
    λ k u f. elim (expire_each-Expires owner now limit 0 r.records k) [
      | inl same ↦ own k u (ground (arith, same, f))
      | inr (w, x, was, there, (named, _)) ↦ ground (arith, own k w was, there, f, named)
    ],
  )
