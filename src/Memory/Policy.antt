-- ===== src/Memory/Policy.antt =====
-- internal/memory/conflict.go: what becomes of a new memory that relates to one that is there.
use harness_loop_agent.Base.{
  String, List, Bool, true, false, not, ◌||◌, ◌&&◌, if◌then◌else◌, leb, str_eq,
}
use harness_loop_agent.Memory.{Record, user_stated, rank, empty_entity, same_entity}
use harness_loop_agent.Memory.Content.{bounded_reason}

pub data ProposedRelation : Type 0 where
  duplicate refinement correction contradiction temporal_change independent : ProposedRelation
  unknown_relation : String → ProposedRelation

-- `validProposedRelation`
abbrev pub valid_proposed_relation : ProposedRelation → Bool
valid_proposed_relation (unknown_relation _) = false
valid_proposed_relation _ = true

pub record RelationProposal (F : Type 0) : Type 0 where
  pub memory_id : String
  pub relation : ProposedRelation
  pub conflict_fields : List String
  pub confidence : F  -- float64
  pub reason_code : String
  pub suggest_confirmation : Bool

pub data IntentAuthority : Type 0 where
  model_inference trusted_fact user_statement user_correction pinned_workflow_ref : IntentAuthority
  unknown_intent : String → IntentAuthority

pub data PolicyAction : Type 0 where
  add_candidate add_active noop supersede review reject separate : PolicyAction

pub record PolicyInput (F : Type 0) : Type 0 where
  pub new_memory : Record F
  pub existing : Record F
  pub proposal : RelationProposal F
  pub intent : IntentAuthority

pub record PolicyDecision : Type 0 where
  pub action : PolicyAction
  pub target_memory_id : String
  pub needs_review : Bool
  pub reason_code : String

abbrev pub is_independent : ProposedRelation → Bool
is_independent independent = true
is_independent _ = false

abbrev pub is_duplicate : ProposedRelation → Bool
is_duplicate duplicate = true
is_duplicate _ = false

abbrev pub is_refinement : ProposedRelation → Bool
is_refinement refinement = true
is_refinement _ = false

-- A correction, or a change in time.
abbrev pub corrects : ProposedRelation → Bool
corrects correction = true
corrects temporal_change = true
corrects _ = false

-- A contradiction, or a correction.
abbrev pub contradicts : ProposedRelation → Bool
contradicts contradiction = true
contradicts correction = true
contradicts _ = false

abbrev pub by_user : IntentAuthority → Bool
by_user user_correction = true
by_user _ = false

abbrev pub by_model : IntentAuthority → Bool
by_model model_inference = true
by_model _ = false

-- The tests of `DecidePolicy`, in its order: the same content, by its hash.
unfoldable pub same_content : {F : Type 0} → PolicyInput F → Bool
same_content i =
    not (str_eq i.new_memory.content_hash "")
    && str_eq i.new_memory.content_hash i.existing.content_hash

-- Two different entities.
unfoldable pub other_entity : {F : Type 0} → PolicyInput F → Bool
other_entity i =
    not (empty_entity i.new_memory.entity)
    && not (empty_entity i.existing.entity)
    && not (same_entity i.new_memory.entity i.existing.entity)

-- The user corrects the existing memory.
unfoldable pub user_corrects : {F : Type 0} → PolicyInput F → Bool
user_corrects i = by_user i.intent && corrects i.proposal.relation

-- A model contradicts what a user stated.
unfoldable pub low_authority : {F : Type 0} → PolicyInput F → Bool
unfolding rank
low_authority i =
    by_model i.intent
    && leb (rank user_stated) (rank i.existing.authority)
    && contradicts i.proposal.relation

-- The new memory refines the existing one, with no lower authority.
unfoldable pub authoritative_refinement : {F : Type 0} → PolicyInput F → Bool
unfolding rank
authoritative_refinement i =
    is_refinement i.proposal.relation
    && leb (rank i.existing.authority) (rank i.new_memory.authority)

abbrev pub decision : PolicyAction → String → Bool → String → PolicyDecision
decision action target needs_review reason_code = record {
  action = action;
  target_memory_id = target;
  needs_review = needs_review;
  reason_code = reason_code;
}

-- `unsure` tells whether a confidence is below 0.8.
module _ {F : Type 0} (unsure : F → Bool) where
  -- A proposal that is not sure, or asks for confirmation.
  unfoldable pub ambiguous : PolicyInput F → Bool
  ambiguous i = unsure i.proposal.confidence || i.proposal.suggest_confirmation

  -- `DecidePolicy`
  unfoldable pub decide_policy : PolicyInput F → PolicyDecision
  unfolding same_content other_entity user_corrects low_authority authoritative_refinement ambiguous
      bounded_reason
  decide_policy i =
      let target = i.existing.id in
      if same_content i
      then decision noop target false "content_duplicate"
      else if other_entity i
      then decision separate "" false "different_entity"
      else if is_independent i.proposal.relation
      then decision separate "" false (bounded_reason i.proposal.reason_code)
      else if user_corrects i
      then decision supersede target false (bounded_reason i.proposal.reason_code)
      else if low_authority i
      then decision review target true "low_authority_conflict"
      else if ambiguous i
      then decision review target true "ambiguous_relation"
      else if is_duplicate i.proposal.relation
      then decision noop target false "semantic_duplicate"
      else if authoritative_refinement i
      then decision supersede target false "authoritative_refinement"
      else decision review target true "policy_review"
