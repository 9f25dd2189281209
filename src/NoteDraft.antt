-- ===== src/NoteDraft.antt =====
-- internal/notedraft/model.go and memory_repository.go: drafts of notes, and their repository in
-- memory, whose mutex makes each method one step.
pub mod Service
pub mod Pending
pub mod Confirms
use harness_loop_agent.Base.{
  ℕ, String, Bool, true, false, not, ◌||◌, ◌&&◌, List, [], ◌∷◌, Option, none, some, Result, ok, err,
  ◌>>=◌, ◌>>◌, reject_if, or_fail, if◌then◌else◌, ◌==◌, str_eq,
}
use harness_loop_agent.Base.Word.{Time, after}
use harness_loop_agent.Base.Dict.{Dict, lookup, insert}

pub data DraftError : Type 0 where
  not_found invalid_input invalid_state draft_expired : DraftError

-- `Status` is a string.
abbrev pub Status : Type 0
Status = String

abbrev pub pending : Status
pending = "pending"

abbrev pub confirmed : Status
confirmed = "confirmed"

abbrev pub cancelled : Status
cancelled = "cancelled"

abbrev pub expired : Status
expired = "expired"

pub record Owner : Type 0 where
  pub user_id : ℕ  -- uint64
  pub tenant_id : ℕ  -- uint64

pub record Draft : Type 0 where
  pub id : String
  pub user_id : ℕ  -- uint64
  pub tenant_id : ℕ  -- uint64
  pub session_id : String
  pub title : String
  pub content : String
  pub status : Status
  pub content_hash : String
  pub expires_at : Time
  pub created_at : Time
  pub updated_at : Time

pub record MemoryRepository : Type 0 where
  pub drafts : Dict Draft

abbrev pub new_memory_repository : MemoryRepository
new_memory_repository = record { drafts = [] }

-- A pending draft of the owner in the session.
unfoldable pub is_pending_of : ℕ → ℕ → String → Draft → Bool
is_pending_of user tenant session d =
    (d.user_id == user)
    && (d.tenant_id == tenant)
    && str_eq d.session_id session
    && str_eq d.status pending

-- The loop of `ReplacePending`.
unfoldable pub cancel_pending : Draft → Dict Draft → Dict Draft
unfolding is_pending_of
cancel_pending draft [] = []
cancel_pending draft ((id, d) ∷ rest) =
    let more = cancel_pending draft rest in
    if is_pending_of draft.user_id draft.tenant_id draft.session_id d
    then (id, record d { status = cancelled; updated_at = draft.created_at }) ∷ more
    else (id, d) ∷ more

-- `ReplacePending`
unfoldable pub replace_pending : MemoryRepository → Draft → MemoryRepository
unfolding cancel_pending
replace_pending r draft = record { drafts = insert draft.id draft (cancel_pending draft r.drafts) }

-- The body of the loop of `LatestPending`: the latest draft so far, and the next one.
unfoldable pub later : Owner → String → Draft → Option Draft → Option Draft
unfolding is_pending_of
later owner session d none =
    if is_pending_of owner.user_id owner.tenant_id session d then some d else none
later owner session d (some l) =
    if is_pending_of owner.user_id owner.tenant_id session d
      && (str_eq l.id "" || after d.created_at l.created_at)
    then some d
    else some l

-- The loop of `LatestPending`, from the latest draft so far.
unfoldable pub latest_from : Owner → String → Option Draft → Dict Draft → Option Draft
unfolding later
latest_from owner session latest [] = latest
latest_from owner session latest (entry ∷ rest) =
    latest_from owner session (later owner session entry.1 latest) rest

-- `LatestPending`
unfoldable pub latest_pending : MemoryRepository → Owner → String → Result DraftError Draft
unfolding latest_from
latest_pending r owner session = do
  d ← or_fail (latest_from owner session none r.drafts) not_found
  reject_if (str_eq d.id "") not_found
  ok d

-- `Transition`
unfoldable pub transition :
    MemoryRepository
    → Owner
    → String
    → String
    → String
    → Status
    → Time
    → Result DraftError (Draft × Bool × MemoryRepository)
transition r owner session id content_hash status now = do
  d ← or_fail (lookup id r.drafts) not_found
  reject_if
      (not (d.user_id == owner.user_id)
        || not (d.tenant_id == owner.tenant_id)
        || not (str_eq d.session_id session)
        || not (str_eq d.content_hash content_hash))
      not_found
  if str_eq d.status status then ok (d, true, r) else (do
    reject_if (not (str_eq d.status pending)) invalid_state
    let next = record d { status = status; updated_at = now }
    ok (next, false, record { drafts = insert id next r.drafts }))
