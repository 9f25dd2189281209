-- ===== src/Chat/Journal.antt =====
-- internal/chat/memory_repository.go: the numbers of a run's events.
use harness_loop_agent.Base.{
  ℕ, ◌+◌, ◌%◌, ◌≡◌, inl, inr, String, List, [], ◌∷◌, ◌++◌, length, arith, Bool-cases, Option-cases,
}
use harness_loop_agent.Base.Word.{Time, word_mod}
use harness_loop_agent.Base.Dict.{Dict, lookup, Each, Each-insert, Each-lookup}
use harness_loop_agent.Chat.{Run, RunStatus, Event}
use harness_loop_agent.Chat.Store.{
  or_empty, numbered, append_event_locked, is_open, interruption, interrupt_all,
}

module _ {D : Type 0} where
  -- The events bear the numbers from `n` on, without a gap.
  abbrev pub InOrder : ℕ → List (Event D) → Type 0
  InOrder n [] = Unit
  InOrder n (e ∷ es) = (e.sequence ≡ n % word_mod) × InOrder (n + 1) es

  pub InOrder-append :
      (n : ℕ) (es : List (Event D)) (e : Event D)
      → e.sequence ≡ (n + length es) % word_mod
      → InOrder n es
      → InOrder n (es ++ (e ∷ []))
  InOrder-append n [] e h o = ground arith
  InOrder-append n (x ∷ es) e h (p, o) = (p, InOrder-append (n + 1) es e (ground arith) o)

  abbrev pub Journals : Dict (List (Event D)) → Type 0
  Journals all = Each (λ _ es. InOrder 1 es) all

  pub or_empty-InOrder :
      (k : String) (all : Dict (List (Event D)))
      → Journals all
      → InOrder 1 (or_empty (lookup k all))
  or_empty-InOrder k all j = elim (Option-cases (lookup k all)) [
    | inl e ↦ ground arith
    | inr (es, e) ↦ ground (arith, Each-lookup (λ _ es. InOrder 1 es) k all e j)
  ]

  pub append_event_locked-Journals :
      (event : Event D) (all : Dict (List (Event D)))
      → Journals all
      → Journals (append_event_locked event all)
  append_event_locked-Journals event all j =
      let es = or_empty (lookup event.run_id all) in
      Each-insert (λ _ es. InOrder 1 es) event.run_id (es ++ (numbered es event ∷ [])) all
        (InOrder-append 1 es (numbered es event) (ground arith)
          (or_empty-InOrder event.run_id all j))
        j

module _ {D W : Type 0} (clock : W → Time × W) (note : RunStatus → D) where
  pub interrupt_all-Journals :
      (runs : Dict Run) (all : Dict (List (Event D))) (w : W)
      → Journals all
      → Journals (interrupt_all clock note runs all w).1
  interrupt_all-Journals [] all w j = j
  interrupt_all-Journals ((id, run) ∷ runs) all w j =
      let (now, w1) = clock w in
      let event = interruption clock note id now in
      elim (Bool-cases (is_open run.status)) [
        | inl e ↦ ground (
          arith,
          e,
          interrupt_all-Journals runs (append_event_locked event all) w1
              (append_event_locked-Journals event all j),
        )
        | inr e ↦ ground (arith, e, interrupt_all-Journals runs all w j)
      ]
