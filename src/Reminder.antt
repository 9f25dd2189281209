-- ===== src/Reminder.antt =====
-- internal/reminder/domain.go: owners, the status of a reminder, its content and its content hash.
pub mod Store
pub mod Sound
pub mod Calls
pub mod Settled
pub mod Moves
pub mod Claimed
pub mod Taken
pub mod Steps
pub mod Reached
use Prim.Native.String.{len}
use harness_loop_agent.Base.{
  ℕ, ◌+◌, String, Bool, true, false, not, ◌||◌, ◌&&◌, List, [], ◌∷◌, Option, none, some, Result, ok,
  err, ◌>>=◌, ◌>>◌, reject_if, if◌then◌else◌, ◌==◌, leb, ltb, length, str_eq, map,
}
use harness_loop_agent.Base.Word.{Time, is_zero, after, sle}
use harness_loop_agent.Base.Text.{
  codes, is_blank, words, trim, is_hex, all_codes, lower_ascii, text_lt, same_codes,
}
use harness_loop_agent.Base.Sort.{sort}
use harness_loop_agent.Base.Regex.{
  Regex, range, either, next, many, char, many1, optional, at_least, one_of, spell, any_of, blank,
  found_fold,
}

pub data ReminderError : Type 0 where
  invalid_input not_found state_conflict idempotency_conflict lease_lost : ReminderError
  sensitive_content : ReminderError

abbrev pub max_content_bytes : ℕ
max_content_bytes = 4096

abbrev pub max_memory_refs : ℕ
max_memory_refs = 8

abbrev pub max_page_size : ℕ
max_page_size = 100

-- 365 days, in nanoseconds.
abbrev pub default_max_horizon : ℕ
default_max_horizon = 31536000000000000

abbrev pub default_timezone : String
default_timezone = "Asia/Shanghai"

abbrev pub word_gap : Regex
word_gap = optional (one_of (b'_' ∷ b'-' ∷ []))

-- `\s*[:=]`
abbrev pub assigned : Regex
assigned = next (many blank) (one_of (b':' ∷ b'=' ∷ []))

abbrev pub bearer : Regex
bearer = next (spell "bearer") (
    next (many1 blank) (
      at_least 8 (
        any_of (
          range b'a' b'z'
          ∷ range b'0' b'9'
          ∷ one_of (b'.' ∷ b'_' ∷ b'~' ∷ b'+' ∷ b'/' ∷ b'-' ∷ [])
          ∷ []))))

abbrev pub private_key : Regex
private_key =
    next (spell "-----begin ")
      (next (many (either (range b'a' b'z') (char b' '))) (spell "private key-----"))

-- `sensitiveText`
abbrev pub sensitive_text : Regex
sensitive_text = any_of (
    bearer
    ∷ next (spell "access") (next word_gap (spell "token"))
    ∷ next (spell "refresh") (next word_gap (spell "token"))
    ∷ next (spell "authorization") assigned
    ∷ next (spell "cookie") assigned
    ∷ next (spell "password") assigned
    ∷ next (spell "api") (next word_gap (next (spell "key") assigned))
    ∷ private_key
    ∷ [])

unfoldable pub is_sensitive : String → Bool
is_sensitive s = found_fold sensitive_text s

pub record Owner : Type 0 where
  pub tenant_id : ℕ  -- uint64
  pub user_id : ℕ  -- uint64

-- `Valid`
abbrev pub valid_owner : Owner → Bool
valid_owner o = not (o.tenant_id == 0) && not (o.user_id == 0)

abbrev pub same_owner : Owner → Owner → Bool
same_owner a b = (a.tenant_id == b.tenant_id) && (a.user_id == b.user_id)

pub data Status : Type 0 where
  scheduled processing fired cancelled failed : Status
  other : String → Status

unfoldable pub valid_status : Status → Bool
valid_status (other _) = false
valid_status _ = true

abbrev pub terminal : Status → Bool
terminal fired = true
terminal cancelled = true
terminal failed = true
terminal _ = false

unfoldable pub can_transition : Status → Status → Bool
can_transition scheduled processing = true
can_transition scheduled cancelled = true
can_transition processing fired = true
can_transition processing failed = true
can_transition _ _ = false

pub record SourceRef : Type 0 where
  pub kind : String
  pub id : String

pub record MemoryRef : Type 0 where
  pub id : String
  pub lineage_version : ℕ  -- uint64
  pub content_hash : String

-- `validHash`
unfoldable pub valid_hash : String → Bool
valid_hash value = let t = codes (trim value) in (length t == 64) && all_codes is_hex t

unfoldable pub validate_ref : MemoryRef → Result ReminderError (Unit {0})
unfolding valid_hash
validate_ref r =
    reject_if (is_blank r.id || (r.lineage_version == 0) || not (valid_hash r.content_hash))
      invalid_input

pub record Claim : Type 0 where
  pub token : String
  pub lease_until : Time

pub record Reminder : Type 0 where
  pub id : String
  pub owner : Owner
  pub content : String
  pub content_hash : String
  pub timezone : String
  pub next_fire_at : Time
  pub status : Status
  pub row_version : ℕ  -- uint64
  pub memory_refs : List MemoryRef
  pub source : SourceRef
  pub last_error_code : String
  pub claim : Option Claim
  pub created_at : Time
  pub updated_at : Time

unfoldable pub normalize_content : String → Result ReminderError String
normalize_content content = do
  let text = words content
  reject_if (str_eq text "" || ltb max_content_bytes (len text)) invalid_input
  reject_if (is_sensitive text) sensitive_content
  ok text

abbrev pub check_refs : List MemoryRef → Result ReminderError (Unit {0})
check_refs [] = ok tt
check_refs (r ∷ rs) = do validate_ref r; check_refs rs

-- SHA-256 of a content, a timezone, an instant and references, in hexadecimal: each reference is
-- given by its id, its version and its hash in lower case.
abbrev pub Digest : Type 0
Digest = String → String → Time → List (String × ℕ × List ℕ) → String

abbrev pub hashed_ref : MemoryRef → String × ℕ × List ℕ
hashed_ref r = (r.id, r.lineage_version, map lower_ascii (codes r.content_hash))

-- `r.Claim != nil && …`
abbrev pub bad_claim : Option Claim → Bool
bad_claim none = false
bad_claim (some c) = is_blank c.token || is_zero c.lease_until

abbrev pub is_scheduled : Status → Bool
is_scheduled scheduled = true
is_scheduled _ = false

-- `err != nil || hash != strings.ToLower(given)`: a digest has digits and lower case letters
-- below g, which no letter beyond ASCII has for its lower case.
unfoldable pub check_hash : Result ReminderError String → String → Result ReminderError (Unit {0})
check_hash (err e) given = err invalid_input
check_hash (ok hash) given =
    reject_if (not (same_codes (codes hash) (map lower_ascii (codes given)))) invalid_input

module _ (digest : Digest) where
  -- `ComputeContentHash`; references with the same id keep the order in which they are given.
  unfoldable pub compute_content_hash :
      String → String → Time → List MemoryRef → Result ReminderError String
  compute_content_hash content timezone fire_at refs = do
    text ← normalize_content content
    reject_if (not (str_eq timezone default_timezone) || is_zero fire_at) invalid_input
    reject_if (ltb max_memory_refs (length refs)) invalid_input
    check_refs refs
    ok (digest text timezone fire_at (map hashed_ref (sort (λ a b. text_lt a.id b.id) refs)))

  unfoldable pub validate : Reminder → Time → ℕ → Result ReminderError (Unit {0})
  unfolding check_hash valid_status
  validate r now max_horizon = do
    reject_if
        (not (valid_owner r.owner)
          || is_blank r.id
          || (r.row_version == 0)
          || not (valid_status r.status)
          || is_zero r.created_at
          || is_zero r.updated_at)
        invalid_input
    text ← normalize_content r.content
    reject_if
        (not (str_eq r.timezone default_timezone)
          || is_zero r.next_fire_at
          || is_blank r.source.kind
          || is_blank r.source.id)
        invalid_input
    reject_if (is_sensitive r.source.kind || is_sensitive r.source.id) sensitive_content
    check_hash (compute_content_hash text r.timezone r.next_fire_at r.memory_refs) r.content_hash
    let horizon = if sle max_horizon 0 then default_max_horizon else max_horizon
    reject_if
        (is_scheduled r.status
          && (not (after r.next_fire_at now) || after r.next_fire_at (now + horizon)))
        invalid_input
    reject_if (bad_claim r.claim) invalid_input
