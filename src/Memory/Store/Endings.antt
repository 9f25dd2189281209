-- ===== src/Memory/Store/Endings.antt =====
-- internal/memory/fake_repository.go: a candidate takes the place of an active memory, and memories expire.
use harness_loop_agent.Base.{
  ℕ, String, Bool, false, not, ◌||◌, ◌&&◌, [], ◌∷◌, Option, none, some, Result, ok, ◌>>=◌, ◌>>◌,
  reject_if, or_fail, if◌then◌else◌, ◌==◌, ltb, str_eq,
}
use harness_loop_agent.Base.Word.{Time, inc, before, slt}
use harness_loop_agent.Base.Dict.{Dict, lookup, insert}
use harness_loop_agent.Memory.Content.{
  MemoryError, invalid_input, not_found, state_conflict, normalize_audit_fields,
}
use harness_loop_agent.Memory.{
  Owner, valid_owner, same_owner, active, superseded, expired, can_transition, is_candidate,
  is_active, Record,
}
use harness_loop_agent.Memory.Store.{
  supersedes, CandidateActivation, MutationResult, FakeRepository, owner_key, or_now, or_zero,
  replay, project, remember,
}

abbrev pub is_over : Option Time → Time → Bool
is_over none now = false
is_over (some until) now = not (before now until)

module _ {F : Type 0} where
  -- `ActivateCandidateSuperseding` for a key that was not seen before.
  unfoldable pub activate_fresh :
      Time
      → FakeRepository F
      → CandidateActivation
      → String
      → Result MemoryError (MutationResult F × FakeRepository F)
  activate_fresh wall r a key = do
    c ← or_fail (lookup a.candidate_id r.records) not_found
    t ← or_fail (lookup a.superseded_id r.records) not_found
    reject_if (not (same_owner c.owner a.owner) || not (same_owner t.owner a.owner)) not_found
    reject_if
        (not (c.row_version == a.candidate_version)
          || not (t.row_version == a.target_version)
          || not (is_candidate c.status)
          || not (is_active t.status)
          || not (can_transition c.status active)
          || not (can_transition t.status superseded)
          || not (str_eq c.supersedes_id t.id)
          || not (str_eq c.lineage_id t.lineage_id)
          || not (ltb t.lineage_version c.lineage_version))
        state_conflict
    let now = or_now a.occurred_at wall
    let old : Record F = record t {
      status = superseded;
      superseded_by = c.id;
      row_version = inc t.row_version;
      updated_at = now;
    }
    let v : Record F = record c {
      status = active;
      row_version = inc c.row_version;
      updated_at = now;
    }
    let result : MutationResult F = record {
      memory = v;
      relations =
          record { from_id = c.id; to_id = t.id; kind = supersedes; reason_code = a.reason_code }
          ∷ [];
      replayed = false;
    }
    ok (
      result,
      remember
          (record r {
            records = insert c.id v (insert t.id old r.records);
            projections = project r a.owner v now;
          })
          a.owner key a.input_hash result,
    )

  -- `ActivateCandidateSuperseding`
  unfoldable pub activate_candidate_superseding :
      Time
      → FakeRepository F
      → CandidateActivation
      → Result MemoryError (MutationResult F × FakeRepository F)
  unfolding activate_fresh
  activate_candidate_superseding wall r a = do
    reject_if
        (not (valid_owner a.owner)
          || str_eq a.candidate_id ""
          || str_eq a.superseded_id ""
          || str_eq a.candidate_id a.superseded_id
          || (a.candidate_version == 0)
          || (a.target_version == 0)
          || str_eq a.idempotency_key ""
          || str_eq a.input_hash "")
        invalid_input
    audit ← normalize_audit_fields a.actor a.reason_code
    let key = owner_key a.owner a.idempotency_key
    elim (lookup key r.idempotency) [
      | some result ↦ replay r key a.input_hash result
      | none ↦ activate_fresh wall r a key
    ]

  -- The loop of `Expire`, from the count so far.
  unfoldable pub expire_each : Owner → Time → ℕ → ℕ → Dict (Record F) → ℕ × Dict (Record F)
  expire_each owner now limit count [] = (count, [])
  expire_each owner now limit count ((id, v) ∷ rest) =
      let expires : Bool =
        same_owner v.owner owner
        && (is_active v.status || is_candidate v.status)
        && is_over v.expires_at now in
      let (total, more) = expire_each owner now limit (if expires then inc count else count) rest in
      let next : Record F = record v {
        status = expired;
        row_version = inc v.row_version;
        updated_at = now;
      } in
      if (count == limit) && slt 0 limit
      then (count, (id, v) ∷ rest)
      else (total, (id, if expires then next else v) ∷ more)

  -- `Expire`
  unfoldable pub expire : FakeRepository F → Owner → Time → ℕ → ℕ × FakeRepository F
  unfolding expire_each
  expire r owner now limit =
      let (count, records) = expire_each owner now limit 0 r.records in
      let version = owner_key owner "version" in
      (
        count,
        record r {
          records = records;
          mutation_versions =
              if slt 0 count
              then insert version (inc (or_zero (lookup version r.mutation_versions)))
                  r.mutation_versions
              else r.mutation_versions;
        },
      )
