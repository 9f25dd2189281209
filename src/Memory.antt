-- ===== src/Memory.antt =====
-- internal/memory/domain.go and security.go: records of what the program remembers, what a status may
-- become, and which contents are refused. A float64 is a type with the tests that the code makes;
-- no test is made on a NaN.
pub mod Content
pub mod Policy
pub mod Guarded
pub mod Store
use harness_loop_agent.Base.{
  ℕ, String, Bool, true, false, not, ◌||◌, ◌&&◌, Option, none, some, Result, ok, err, ◌>>◌,
  reject_if, if◌then◌else◌, ◌==◌, str_eq, is_none,
}
use harness_loop_agent.Base.Word.{Time, after, before}
use harness_loop_agent.Base.Text.{is_blank}
use harness_loop_agent.Memory.Content.{
  MemoryError, invalid_input, StructuredValue, SourceRef, validate_content,
}

pub record Owner : Type 0 where
  pub tenant_id : ℕ  -- uint64
  pub user_id : ℕ  -- uint64

-- `Valid`
abbrev pub valid_owner : Owner → Bool
valid_owner o = not (o.tenant_id == 0) && not (o.user_id == 0)

abbrev pub same_owner : Owner → Owner → Bool
same_owner a b = (a.tenant_id == b.tenant_id) && (a.user_id == b.user_id)

pub record Scope : Type 0 where
  pub kind : String  -- Type
  pub id : String

abbrev pub same_scope : Scope → Scope → Bool
same_scope a b = str_eq a.kind b.kind && str_eq a.id b.id

pub record EntityRef : Type 0 where
  pub kind : String  -- Type
  pub id : String

-- `Empty`
abbrev pub empty_entity : EntityRef → Bool
empty_entity e = str_eq e.kind "" && str_eq e.id ""

abbrev pub same_entity : EntityRef → EntityRef → Bool
same_entity a b = str_eq a.kind b.kind && str_eq a.id b.id

pub data Authority : Type 0 where
  model_inferred trusted_system user_stated user_confirmed : Authority
  unknown : String → Authority

-- `Rank`
unfoldable pub rank : Authority → ℕ
rank user_confirmed = 4
rank user_stated = 3
rank trusted_system = 2
rank model_inferred = 1
rank (unknown _) = 0

pub data Status : Type 0 where
  candidate active rejected superseded revoked expired : Status
  other : String → Status

-- `Obsolete`
unfoldable pub obsolete : Status → Bool
obsolete rejected = true
obsolete superseded = true
obsolete revoked = true
obsolete expired = true
obsolete _ = false

-- `CanTransition`
unfoldable pub can_transition : Status → Status → Bool
can_transition candidate active = true
can_transition candidate rejected = true
can_transition candidate expired = true
can_transition active superseded = true
can_transition active revoked = true
can_transition active expired = true
can_transition _ _ = false

abbrev pub is_candidate : Status → Bool
is_candidate candidate = true
is_candidate _ = false

abbrev pub is_active : Status → Bool
is_active active = true
is_active _ = false

abbrev pub is_superseded : Status → Bool
is_superseded superseded = true
is_superseded _ = false

pub record Record (F : Type 0) : Type 0 where
  pub id : String
  pub owner : Owner
  pub layer : String
  pub kind : String
  pub scope : Scope
  pub namespace : String
  pub slot_key : String
  pub entity : EntityRef
  pub lineage_id : String
  pub lineage_version : ℕ  -- uint64
  pub row_version : ℕ  -- uint64
  pub canonical_text : String
  pub structured_value : StructuredValue
  pub content_hash : String
  pub authority : Authority
  pub confidence : F  -- float64
  pub salience : F  -- float64
  pub source : SourceRef
  pub status : Status
  pub supersedes_id : String
  pub superseded_by : String
  pub expires_at : Option Time
  pub created_at : Time
  pub updated_at : Time

-- `r.ExpiresAt == nil || now.Before(*r.ExpiresAt)`
abbrev pub is_live : Option Time → Time → Bool
is_live none now = true
is_live (some until) now = before now until

-- `IsActiveAt`
unfoldable pub is_active_at : {F : Type 0} → Record F → Time → Bool
is_active_at r now = is_active r.status && is_live r.expires_at now

abbrev pub future_expiry : Option Time → Time → Bool
future_expiry none now = false
future_expiry (some until) now = after until now

-- The switch on the layer in `Validate`: a layer that fits its scope.
unfoldable pub valid_layer : String → Scope → Option Time → Time → Bool
valid_layer layer scope expires_at now =
    if str_eq layer "session"
    then (str_eq scope.kind "session" || str_eq scope.kind "workflow")
      && not (is_blank scope.id)
      && future_expiry expires_at now
    else str_eq layer "long_term" && str_eq scope.kind "user" && is_blank scope.id

-- `in_unit` tells whether a score is between 0 and 1.
module _ {F : Type 0} (in_unit : F → Bool) where
  -- `Validate`
  unfoldable pub validate : Record F → Time → Result MemoryError (Unit {0})
  unfolding valid_layer rank
  validate r now = do
    reject_if
        (not (valid_owner r.owner)
          || is_blank r.id
          || is_blank r.lineage_id
          || (r.lineage_version == 0)
          || (r.row_version == 0))
        invalid_input
    reject_if (not (valid_layer r.layer r.scope r.expires_at now)) invalid_input
    reject_if (is_blank r.namespace || is_blank r.canonical_text || str_eq r.content_hash "")
        invalid_input
    reject_if (not (in_unit r.confidence) || not (in_unit r.salience) || (rank r.authority == 0))
        invalid_input
    reject_if (not (is_candidate r.status) && not (is_active r.status)) invalid_input
    validate_content r.canonical_text r.structured_value r.source
