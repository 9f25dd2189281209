-- ===== src/Memory/Content.antt =====
-- internal/memory/domain.go and security.go: structured values, and what contents, actors and reasons
-- must not hold. A structured value's data is JSON, as far as the code looks into it.
use Prim.Native.Char.{code}
use Prim.Native.String.{len}
use harness_loop_agent.Base.{
  ℕ, suc, ◌-◌, String, Bool, true, false, not, ◌||◌, ◌&&◌, [], ◌∷◌, Option, Result, ok, ◌>>=◌, ◌>>◌,
  reject_if, or_fail, if◌then◌else◌, ◌==◌, leb, ltb, str_eq,
}
use harness_loop_agent.Base.Text.{codes, is_blank, trim, words, all_codes}
use harness_loop_agent.Base.Regex.{Regex, next, spell, any_of, found_fold}
use harness_loop_agent.Reminder.{word_gap, bearer, private_key}

pub data MemoryError : Type 0 where
  invalid_input not_found state_conflict idempotency_conflict sensitive_content : MemoryError

-- A JSON value: what is neither a text, an array nor an object is a scalar, or of a type that the
-- code does not take.
mutual
  pub data Json : Type 0 where
    scalar unsupported : Json
    text : String → Json
    array : JsonItems → Json
    object : JsonFields → Json

  pub data JsonItems : Type 0 where
    no_items : JsonItems
    item : Json → JsonItems → JsonItems

  pub data JsonFields : Type 0 where
    no_fields : JsonFields
    field : String → Json → JsonFields → JsonFields

pub record StructuredValue : Type 0 where
  pub schema : String
  pub version : ℕ  -- uint32
  pub fields : JsonFields  -- Data

pub record SourceRef : Type 0 where
  pub kind : String  -- Type
  pub id : String
  pub evidence_id : String

abbrev pub max_structured_depth : ℕ
max_structured_depth = 8

abbrev pub count_items : JsonItems → ℕ
count_items no_items = 0
count_items (item v vs) = suc (count_items vs)

abbrev pub count_fields : JsonFields → ℕ
count_fields no_fields = 0
count_fields (field k v vs) = suc (count_fields vs)

-- `validateJSONValue`, at the depth that is given.
unfoldable mutual
  pub valid_json : ℕ → Json → Bool
  valid_json depth scalar = leb depth max_structured_depth
  valid_json depth unsupported = false
  valid_json depth (text s) = leb depth max_structured_depth
  valid_json depth (array vs) =
      leb depth max_structured_depth && leb (count_items vs) 128 && valid_items (suc depth) vs
  valid_json depth (object vs) =
      leb depth max_structured_depth && leb (count_fields vs) 128 && valid_fields (suc depth) vs

  pub valid_items : ℕ → JsonItems → Bool
  valid_items depth no_items = true
  valid_items depth (item v vs) = valid_json depth v && valid_items depth vs

  pub valid_fields : ℕ → JsonFields → Bool
  valid_fields depth no_fields = true
  valid_fields depth (field k v vs) =
      not (is_blank k) && valid_json depth v && valid_fields depth vs

-- `NormalizeContent`: `encode` and `decode` are the JSON codec on structured values, and `digest` hashes
-- a text and an encoded value.
unfoldable pub normalize_content :
    (StructuredValue → Option String)
    → (String → Option StructuredValue)
    → (String → String → String)
    → String
    → StructuredValue
    → Result MemoryError (String × StructuredValue × String)
unfolding valid_json
normalize_content encode decode digest given value = do
  let content = words (trim given)
  reject_if (str_eq content "" || ltb 16384 (len content)) invalid_input
  reject_if (str_eq value.schema "" || (value.version == 0)) invalid_input
  reject_if (not (valid_json 1 (object value.fields))) invalid_input
  raw ← or_fail (encode value) invalid_input
  reject_if (ltb 16384 (len raw)) invalid_input
  canonical ← or_fail (decode raw) invalid_input
  ok (content, canonical, digest content raw)

-- `sensitiveKey`
abbrev pub sensitive_key : Regex
sensitive_key = any_of (
    next (spell "access") (next word_gap (spell "token"))
    ∷ next (spell "refresh") (next word_gap (spell "token"))
    ∷ spell "authorization"
    ∷ spell "cookie"
    ∷ spell "password"
    ∷ spell "passwd"
    ∷ next (spell "api") (next word_gap (spell "key"))
    ∷ spell "secret"
    ∷ next (spell "private") (next word_gap (spell "key"))
    ∷ [])

-- `sensitiveValue`
abbrev pub sensitive_value : Regex
sensitive_value = any_of (bearer ∷ private_key ∷ [])

unfoldable pub key_is_sensitive : String → Bool
key_is_sensitive s = found_fold sensitive_key s

unfoldable pub value_is_sensitive : String → Bool
value_is_sensitive s = found_fold sensitive_value s

-- `scanSensitive`: whether it refuses the value.
unfoldable mutual
  pub scan_sensitive : Json → Bool
  scan_sensitive scalar = false
  scan_sensitive unsupported = false
  scan_sensitive (text s) = value_is_sensitive s
  scan_sensitive (array vs) = scan_items vs
  scan_sensitive (object vs) = scan_fields vs

  pub scan_items : JsonItems → Bool
  scan_items no_items = false
  scan_items (item v vs) = scan_sensitive v || scan_items vs

  pub scan_fields : JsonFields → Bool
  scan_fields no_fields = false
  scan_fields (field k v vs) = key_is_sensitive k || scan_sensitive v || scan_fields vs

-- `allowedSourceTypes`
abbrev pub allowed_source : String → Bool
allowed_source s =
    str_eq s "workflow"
    || str_eq s "user_message"
    || str_eq s "trusted_system"
    || str_eq s "note"
    || str_eq s "api"

-- `ValidateContent`
unfoldable pub validate_content :
    String → StructuredValue → SourceRef → Result MemoryError (Unit {0})
unfolding scan_fields value_is_sensitive key_is_sensitive
validate_content given value source = do
  reject_if (str_eq source.kind "" || str_eq source.id "") invalid_input
  reject_if (not (allowed_source source.kind)) invalid_input
  reject_if
      (value_is_sensitive given
        || key_is_sensitive source.kind
        || key_is_sensitive source.id
        || key_is_sensitive source.evidence_id)
      sensitive_content
  reject_if (scan_fields value.fields) sensitive_content

abbrev pub is_reason_code : ℕ → Bool
is_reason_code c =
    (c == b'_') || (c == b'-') || (leb b'a' c && leb c b'z') || (leb b'0' c && leb c b'9')

-- `validReasonCode`
unfoldable pub valid_reason_code : String → Bool
unfolding key_is_sensitive
valid_reason_code s =
    not ((len s == 0) || ltb 64 (len s))
    && all_codes is_reason_code (codes s)
    && not (key_is_sensitive s)

-- `NormalizeAuditFields`
unfoldable pub normalize_audit_fields : String → String → Result MemoryError (String × String)
unfolding valid_reason_code value_is_sensitive key_is_sensitive
normalize_audit_fields given_actor given_reason = do
  let actor = if str_eq (trim given_actor) "" then "system" else trim given_actor
  let reason = if str_eq (trim given_reason) "" then "unspecified" else trim given_reason
  reject_if
      (ltb 191 (len actor)
        || key_is_sensitive actor
        || value_is_sensitive actor
        || not (valid_reason_code reason)
        || key_is_sensitive reason
        || value_is_sensitive reason)
      sensitive_content
  ok (actor, reason)

-- The bytes of a code point in UTF-8.
abbrev pub width : ℕ → ℕ
width c = if ltb c 0x80 then 1 else if ltb c 0x800 then 2 else if ltb c 0x10000 then 3 else 4

-- `s[:n]`, less the code point that the cut goes through, if it goes through one.
abbrev pub cut_bytes : ℕ → String → String
cut_bytes n String.[] = ""
cut_bytes n (String.◌∷◌ c s) =
    let rest = cut_bytes (n - width (code c)) s in
    if leb (width (code c)) n then String.◌∷◌ c rest else ""

-- `boundedReason`
unfoldable pub bounded_reason : String → String
unfolding value_is_sensitive
bounded_reason given =
    let reason = trim given in
    let cut = if ltb 128 (len reason) then cut_bytes 128 reason else reason in
    if value_is_sensitive cut then "redacted" else cut
