-- ===== src/Examples/Memories.antt =====
-- Drafts of notes, and memories that supersede each other.
use harness_loop_agent.Base.{
  ℕ, ◌+◌, ◌≡◌, ◌⊎◌, refl, inl, inr, String, Bool, true, false, not, ◌&&◌, List, [], ◌∷◌, Option,
  none, some, Result, ok, err, arith, str_eq, eq_iff, leb,
}
use harness_loop_agent.Base.Word.{Time, after}
use harness_loop_agent.Base.Dict.{Dict, lookup}
use harness_loop_agent.NoteDraft.{
  not_found, Draft, MemoryRepository, new_memory_repository, replace_pending, is_pending_of,
}
use harness_loop_agent.NoteDraft.Service.{confirm, settle}
use harness_loop_agent.NoteDraft.Pending.{DraftStep, DraftSteps, pending_once}
use harness_loop_agent.NoteDraft.Confirms.{settle_lem}
use harness_loop_agent.Memory.{
  Record, Status, active, superseded, revoked, user_stated, obsolete, Owner,
}
use harness_loop_agent.Memory.Content.{no_fields}
use harness_loop_agent.Memory.Store.{
  FakeRepository, new_fake_repository, Mutation, MutationResult, commit_mutation, holds_slot,
  transition_memory,
}
use harness_loop_agent.Memory.Store.Steps.{MemorySteps, by_commit, by_transition, obsolete-final}
use harness_loop_agent.Memory.Store.Slots.{commit_mutation-slot}

-- A clock that counts, ids that are all the same, and hashes that are all the same.
abbrev clock : ℕ → Time × ℕ
clock x = (x + 10, x + 1)

abbrev new_id : ℕ → String × ℕ
new_id x = ("d", x)

abbrev hash_content : String → String → String
hash_content title content = "h"

abbrev draft : Draft
draft = record {
  id = "d";
  user_id = 1;
  tenant_id = 2;
  session_id = "s";
  title = "Title";
  content = "Content";
  status = "pending";
  content_hash = "h";
  expires_at = 100;
  created_at = 5;
  updated_at = 5;
}

abbrev drafts : MemoryRepository
drafts = replace_pending new_memory_repository draft

abbrev confirmed_draft : Draft
confirmed_draft = record draft { status = "confirmed"; updated_at = 11 }

abbrev confirmed_drafts : MemoryRepository
confirmed_drafts = record { drafts = ("d", confirmed_draft) ∷ [] }

confirmed_ok :
    confirm clock new_id hash_content 90
      (record { user_id = 1; tenant_id = 2 })
      "s"
      "d"
      "h"
      (drafts, 0)
    ≡ (ok (confirmed_draft, false), (confirmed_drafts, 2))
unfolding harness_loop_agent.NoteDraft.Service.settle harness_loop_agent.Base.Text.is_blank
    harness_loop_agent.NoteDraft.latest_pending replace_pending harness_loop_agent.Base.Dict.insert
    harness_loop_agent.NoteDraft.transition lookup
confirmed_ok = refl

settle_lem_example :
    (false ≡ false)
    × ((old : Draft) × (now : Time) × (lookup "d" drafts.drafts ≡ some old)
        × (is_pending_of 1 2 "s" old ≡ true)
        × (after old.expires_at 10 ≡ true)
        × (str_eq old.content_hash "h" ≡ true)
        × (confirmed_draft ≡ record old { status = "confirmed"; updated_at = now })
        × (lookup "d" confirmed_drafts.drafts ≡ some confirmed_draft))
    × (settle clock new_id hash_content 90
          (record { user_id = 1; tenant_id = 2 })
          "s"
          "d"
          "h"
          "cancelled"
          (confirmed_drafts, 2)
        ≡ (err not_found, (confirmed_drafts, 2)))
settle_lem_example =
    settle_lem clock new_id hash_content 90 (record { user_id = 1; tenant_id = 2 }) "s" "d" "h"
      "confirmed" "cancelled" (drafts, 0) (confirmed_drafts, 2) confirmed_draft false
      (DraftSteps.step new_memory_repository drafts drafts
        (DraftStep.by_replace new_memory_repository draft) (DraftSteps.stay drafts))
      refl confirmed_ok

-- The draft that is pending is the only one.
pending_once_example : ◌≡◌ {A = String} "d" "d"
unfolding replace_pending is_pending_of lookup harness_loop_agent.Base.Dict.insert
pending_once_example =
    pending_once drafts 1 2 "s" "d" "d" draft draft
      (DraftSteps.step new_memory_repository drafts drafts
        (DraftStep.by_replace new_memory_repository draft) (DraftSteps.stay drafts))
      refl refl refl refl

-- Scores between 0 and 1 are the numbers up to 100.
abbrev in_unit : ℕ → Bool
in_unit n = leb n 100

abbrev likes_tea : Record ℕ
likes_tea = record {
  id = "m";
  owner = record { tenant_id = 1; user_id = 2 };
  layer = "long_term";
  kind = "preference";
  scope = record { kind = "user"; id = "" };
  namespace = "profile";
  slot_key = "drink";
  entity = record { kind = ""; id = "" };
  lineage_id = "l";
  lineage_version = 1;
  row_version = 1;
  canonical_text = "tea";
  structured_value = record { schema = "s"; version = 1; fields = no_fields };
  content_hash = "x";
  authority = user_stated;
  confidence = 90;
  salience = 50;
  source = record { kind = "api"; id = "x"; evidence_id = "" };
  status = active;
  supersedes_id = "";
  superseded_by = "";
  expires_at = none;
  created_at = 10;
  updated_at = 10;
}

abbrev likes_milk : Record ℕ
likes_milk = record likes_tea {
  id = "n";
  content_hash = "y";
  lineage_version = 2;
  created_at = 20;
  updated_at = 20;
}

abbrev add_tea : Mutation ℕ
add_tea = record {
  owner = record { tenant_id = 1; user_id = 2 };
  new_memory = some likes_tea;
  targets = [];
  relations = [];
  actor = "user";
  reason_code = "add";
  idempotency_key = "k";
  input_hash = "i";
  occurred_at = 10;
}

abbrev add_milk : Mutation ℕ
add_milk = record add_tea {
  new_memory = some likes_milk;
  targets = record { id = "m"; expected_row_version = 1; new_status = superseded } ∷ [];
  idempotency_key = "l";
  occurred_at = 20;
}

-- The repository that a call leaves, and the new one where it fails.
abbrev left : {E A : Type 0} → Result E (A × FakeRepository ℕ) → FakeRepository ℕ
left (ok (a, r)) = r
left (err e) = new_fake_repository "v1"

abbrev with_tea : FakeRepository ℕ
with_tea = left (commit_mutation in_unit 0 (new_fake_repository "v1") add_tea)

abbrev with_milk : FakeRepository ℕ
with_milk = left (commit_mutation in_unit 0 with_tea add_milk)

abbrev tea_result : MutationResult ℕ
tea_result = record { memory = likes_tea; relations = []; replayed = false }

abbrev milk_result : MutationResult ℕ
milk_result = record { memory = likes_milk; relations = []; replayed = false }

tea_ok : commit_mutation in_unit 0 (new_fake_repository "v1") add_tea ≡ ok (tea_result, with_tea)
unfolding commit_mutation harness_loop_agent.Memory.Content.normalize_audit_fields
    harness_loop_agent.Base.Text.trim harness_loop_agent.Base.Regex.found_fold lookup
    harness_loop_agent.Memory.validate harness_loop_agent.Base.Text.is_blank
    harness_loop_agent.Memory.Content.validate_content harness_loop_agent.Memory.Store.check_targets
    harness_loop_agent.Memory.Store.check_slot
tea_ok = refl

milk_ok : commit_mutation in_unit 0 with_tea add_milk ≡ ok (milk_result, with_milk)
unfolding commit_mutation harness_loop_agent.Memory.Content.normalize_audit_fields
    harness_loop_agent.Base.Text.trim harness_loop_agent.Base.Regex.found_fold lookup
    harness_loop_agent.Memory.validate harness_loop_agent.Base.Text.is_blank
    harness_loop_agent.Memory.Content.validate_content harness_loop_agent.Memory.Store.check_targets
    harness_loop_agent.Memory.Store.check_slot harness_loop_agent.Base.Dict.insert
    harness_loop_agent.Memory.Store.owner_key harness_loop_agent.Base.Text.decimal
    harness_loop_agent.Memory.Store.apply_targets harness_loop_agent.Memory.can_transition
milk_ok = refl

with_tea_built : MemorySteps in_unit (new_fake_repository "v1") with_tea
with_tea_built =
    MemorySteps.step (new_fake_repository "v1") with_tea with_tea
      (by_commit 0 (new_fake_repository "v1") with_tea add_tea tea_result tea_ok)
      (MemorySteps.stay with_tea)

with_milk_built : MemorySteps in_unit (new_fake_repository "v1") with_milk
with_milk_built =
    MemorySteps.step (new_fake_repository "v1") with_tea with_milk
      (by_commit 0 (new_fake_repository "v1") with_tea add_tea tea_result tea_ok)
      (MemorySteps.step with_tea with_milk with_milk
        (by_commit 0 with_tea with_milk add_milk milk_result milk_ok) (MemorySteps.stay with_milk))

stored_milk : lookup "n" with_milk.records ≡ some likes_milk
unfolding lookup commit_mutation harness_loop_agent.Memory.Content.normalize_audit_fields
    harness_loop_agent.Base.Text.trim harness_loop_agent.Base.Regex.found_fold
    harness_loop_agent.Memory.validate harness_loop_agent.Base.Text.is_blank
    harness_loop_agent.Memory.Content.validate_content harness_loop_agent.Memory.Store.check_targets
    harness_loop_agent.Memory.Store.check_slot harness_loop_agent.Base.Dict.insert
    harness_loop_agent.Memory.Store.owner_key harness_loop_agent.Base.Text.decimal
    harness_loop_agent.Memory.Store.apply_targets harness_loop_agent.Memory.can_transition
stored_milk = refl

milk_holds : holds_slot (record { tenant_id = 1; user_id = 2 }) likes_milk likes_milk ≡ true
unfolding holds_slot
milk_holds = refl

commit_mutation-slot_example : ◌≡◌ {A = String} "n" "n"
commit_mutation-slot_example =
    commit_mutation-slot in_unit 0 with_tea with_milk add_milk milk_result likes_milk likes_milk "n"
      "v1" with_tea_built (refl, tt) milk_ok refl refl stored_milk milk_holds

-- The memory that the second one has superseded.
abbrev liked_tea : Record ℕ
liked_tea = record likes_tea {
  status = superseded;
  row_version = 2;
  updated_at = 20;
  superseded_by = "n";
}

stored_tea : lookup "m" with_milk.records ≡ some liked_tea
unfolding lookup commit_mutation harness_loop_agent.Memory.Content.normalize_audit_fields
    harness_loop_agent.Base.Text.trim harness_loop_agent.Base.Regex.found_fold
    harness_loop_agent.Memory.validate harness_loop_agent.Base.Text.is_blank
    harness_loop_agent.Memory.Content.validate_content harness_loop_agent.Memory.Store.check_targets
    harness_loop_agent.Memory.Store.check_slot harness_loop_agent.Base.Dict.insert
    harness_loop_agent.Memory.Store.owner_key harness_loop_agent.Base.Text.decimal
    harness_loop_agent.Memory.Store.apply_targets harness_loop_agent.Memory.can_transition
stored_tea = refl

obsolete_tea : obsolete liked_tea.status ≡ true
unfolding obsolete
obsolete_tea = refl

-- A later mutation: the second memory is revoked.
abbrev without_milk : FakeRepository ℕ
without_milk = left (
    transition_memory with_milk (record { tenant_id = 1; user_id = 2 }) "n" 1 revoked "user"
      "revoke" "z" "j" 30)

abbrev revoked_result : MutationResult ℕ
revoked_result = record {
  memory = record likes_milk { status = revoked; row_version = 2; updated_at = 30 };
  relations = [];
  replayed = false;
}

revoked_ok :
    transition_memory with_milk
      (record { tenant_id = 1; user_id = 2 })
      "n"
      1
      revoked
      "user"
      "revoke"
      "z"
      "j"
      30
    ≡ ok (revoked_result, without_milk)
unfolding transition_memory harness_loop_agent.Memory.Content.normalize_audit_fields
    harness_loop_agent.Base.Text.trim harness_loop_agent.Base.Regex.found_fold lookup
    commit_mutation harness_loop_agent.Memory.validate harness_loop_agent.Base.Text.is_blank
    harness_loop_agent.Memory.Content.validate_content harness_loop_agent.Memory.Store.check_targets
    harness_loop_agent.Memory.Store.check_slot harness_loop_agent.Base.Dict.insert
    harness_loop_agent.Memory.Store.owner_key harness_loop_agent.Base.Text.decimal
    harness_loop_agent.Memory.Store.apply_targets harness_loop_agent.Memory.can_transition
revoked_ok = refl

obsolete-final_example :
    (u : Record ℕ) × (lookup "m" without_milk.records ≡ some u) × (u.status ≡ superseded)
obsolete-final_example =
    obsolete-final in_unit "v1" with_milk without_milk "m" liked_tea with_milk_built
      (MemorySteps.step with_milk without_milk without_milk
        (by_transition with_milk without_milk (record { tenant_id = 1; user_id = 2 }) "n" 1 revoked
          "user" "revoke" "z" "j" 30 revoked_result revoked_ok)
        (MemorySteps.stay without_milk))
      stored_tea obsolete_tea
