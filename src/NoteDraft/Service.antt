-- ===== src/NoteDraft/Service.antt =====
-- internal/notedraft/service.go over the repository in memory. The clock and the source of ids act on
-- a world, and the hash of a title and a content is a parameter.
use Prim.Native.String.{len, count}
use harness_loop_agent.Base.{
  ℕ, ◌+◌, String, Bool, true, false, not, ◌||◌, ◌&&◌, Result, ok, err, ltb, str_eq,
}
use harness_loop_agent.Base.Word.{Time, after}
use harness_loop_agent.Base.Text.{words, trim, is_blank}
use harness_loop_agent.NoteDraft.{
  DraftError, not_found, invalid_input, invalid_state, draft_expired, Status, pending, confirmed,
  cancelled, expired, Owner, Draft, MemoryRepository, replace_pending, latest_pending, transition,
}

abbrev pub valid_owner : Owner → Bool
valid_owner o = ltb 0 o.user_id && ltb 0 o.tenant_id

module _ {X : Type 0} (clock : X → Time × X) (new_id : X → String × X)
    (hash_content : String → String → String) (ttl : ℕ) where
  -- The checks of `Create`, on the texts as they are trimmed.
  unfoldable pub invalid_draft : Owner → String → String → String → Bool
  invalid_draft owner session title content =
      not (valid_owner owner)
      || str_eq session ""
      || str_eq title ""
      || str_eq content ""
      || ltb 200 (count title)
      || ltb 1048576 (len content)

  -- `Create`
  unfoldable pub create :
      Owner
      → String
      → String
      → String
      → (MemoryRepository × X)
      → Result DraftError Draft × (MemoryRepository × X)
  unfolding invalid_draft
  create owner session_id given_title given_content w =
      let title = words given_title in
      let content = trim given_content in
      let session = trim session_id in
      elim (invalid_draft owner session title content) [
        | true ↦ (err invalid_input, w)
        | false ↦
            let (now, x1) = clock w.1 in
            let (id, x2) = new_id x1 in
            let draft : Draft = record {
              id = id;
              user_id = owner.user_id;
              tenant_id = owner.tenant_id;
              session_id = session;
              title = title;
              content = content;
              status = pending;
              content_hash = hash_content title content;
              expires_at = now + ttl;
              created_at = now;
              updated_at = now;
            } in
            (ok draft, (replace_pending w.0 draft, x2))
      ]

  -- The repository after a transition whose result is dropped.
  abbrev pub after_transition :
      Result DraftError (Draft × Bool × MemoryRepository) → MemoryRepository → MemoryRepository
  after_transition (ok (_, _, r)) r0 = r
  after_transition (err _) r0 = r0

  -- `Latest`
  unfoldable pub latest :
      Owner → String → (MemoryRepository × X) → Result DraftError Draft × (MemoryRepository × X)
  latest owner session w = elim (not (valid_owner owner) || is_blank session) [
    | true ↦ (err invalid_input, w)
    | false ↦ elim (latest_pending w.0 owner session) [
      | err e ↦ (err e, w)
      | ok d ↦
          let (now, x1) = clock w.1 in
          elim (after d.expires_at now) [
            | true ↦ (ok d, (w.0, x1))
            | false ↦
                let (later, x2) = clock x1 in
                (
                  err draft_expired,
                  (
                    after_transition
                        (transition w.0 owner session d.id d.content_hash expired later) w.0,
                    x2,
                  ),
                )
          ]
    ]
  ]

  -- `HasPending`
  unfoldable pub has_pending :
      ℕ → ℕ → String → (MemoryRepository × X) → Result DraftError Bool × (MemoryRepository × X)
  unfolding latest
  has_pending user tenant session w =
      let (result, w1) = latest (record { user_id = user; tenant_id = tenant }) session w in
      elim result [
        | ok _ ↦ (ok true, w1)
        | err not_found ↦ (ok false, w1)
        | err draft_expired ↦ (ok false, w1)
        | err e ↦ (err e, w1)
      ]

  -- `transition` of the service
  unfoldable pub settle :
      Owner
      → String
      → String
      → String
      → Status
      → (MemoryRepository × X)
      → Result DraftError (Draft × Bool) × (MemoryRepository × X)
  unfolding latest
  settle owner session id content_hash status w =
      elim (not (valid_owner owner) || is_blank session || is_blank id || is_blank content_hash) [
        | true ↦ (err invalid_input, w)
        | false ↦
            let (found, w1) = latest owner session w in
            elim found [
              | err e ↦ (err e, w1)
              | ok l ↦ elim (not (str_eq l.id id) || not (str_eq l.content_hash content_hash)) [
                | true ↦ (err invalid_state, w1)
                | false ↦
                    let (now, x2) = clock w1.1 in
                    elim (transition w1.0 owner session id content_hash status now) [
                      | err e ↦ (err e, (w1.0, x2))
                      | ok (d, replayed, r) ↦ (ok (d, replayed), (r, x2))
                    ]
              ]
            ]
      ]

  -- `Confirm` and `Cancel`
  abbrev pub confirm :
      Owner
      → String
      → String
      → String
      → (MemoryRepository × X)
      → Result DraftError (Draft × Bool) × (MemoryRepository × X)
  confirm owner session id content_hash w = settle owner session id content_hash confirmed w

  abbrev pub cancel :
      Owner
      → String
      → String
      → String
      → (MemoryRepository × X)
      → Result DraftError (Draft × Bool) × (MemoryRepository × X)
  cancel owner session id content_hash w = settle owner session id content_hash cancelled w
