-- ===== src/Memory/Guarded.antt =====
-- internal/memory/conflict.go: when a memory is superseded.
use harness_loop_agent.Base.{◌≡◌, ◌⊎◌, inl, inr, true, false, arith, Bool, Bool-cases}
use harness_loop_agent.Memory.Policy.{
  PolicyInput, decide_policy, supersede, same_content, other_entity, user_corrects, low_authority,
  ambiguous, authoritative_refinement,
}

-- `DecidePolicy` supersedes an existing memory in two cases alone: the user corrects it, by a correction
-- or a change in time; or the new memory refines it with no lower authority, by a proposal that is
-- sure and asks for no confirmation. In both cases the decision names the existing memory, whose
-- content differs or has no hash.
pub decide_policy-supersede :
    {F : Type 0} (unsure : F → Bool) (i : PolicyInput F)
    → (decide_policy unsure i).action ≡ supersede
    → ((decide_policy unsure i).target_memory_id ≡ i.existing.id)
      × ((decide_policy unsure i).needs_review ≡ false)
      × (same_content i ≡ false)
      × (other_entity i ≡ false)
      × ((user_corrects i ≡ true)
          ⊎ ((authoritative_refinement i ≡ true)
              × (low_authority i ≡ false)
              × (ambiguous unsure i ≡ false)))
unfolding decide_policy
decide_policy-supersede unsure i h = elim (Bool-cases (same_content i)) [
  | inl p ↦ ground (arith, h, p)
  | inr p ↦ elim (Bool-cases (other_entity i)) [
    | inl q ↦ ground (arith, h, p, q)
    | inr q ↦ elim (Bool-cases (user_corrects i)) [
      | inl c ↦ ground (arith, h, p, q, c)
      | inr c ↦ elim (Bool-cases (low_authority i)) [
        | inl l ↦ ground (arith, h, p, q, c, l)
        | inr l ↦ ground (arith, h, p, q, c, l)
      ]
    ]
  ]
]
